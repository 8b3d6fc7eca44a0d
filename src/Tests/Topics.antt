-- ===== src/Tests/Topics.antt =====
-- nsqd/topic.go and nsqd/nsqd.go: a message for two channels, and a restart.
use nsq.Common.{ℕ, ◌/◌, ◌≤◌, ◌<◌, ◌≡◌, refl, true, false, List, [], ◌∷◌, some, arith, bytes_eq}
use nsq.Common.Map.{lookup}
use nsq.Protocol.Names.{is_valid_name, is_ephemeral, matches_name, matches_rest, is_name_byte}
use nsq.Nsqd.InFlight.{new_in_flight_pqueue}
use nsq.Nsqd.Channel.Scan.{init_pq}
use nsq.Nsqd.Channel.System.Steps.{start}
use nsq.Nsqd.Channel.System.Reach.{Reach-Inv}
use nsq.Nsqd.Deferred.{PriorityQueue, priority_queue}
use nsq.Nsqd.Deferred.Refines.{holds, IsGood, priority_queue-IsPriorityQueue}
use nsq.Nsqd.Message.{Message}
use nsq.Nsqd.Topic.{Feed, fan_out}
use nsq.Nsqd.Topic.Received.{IsReady, AllReceived}
use nsq.Nsqd.Topic.FanOut.{fan_out-Received}
use nsq.Nsqd.Daemon.{Daemon, load_metadata, persist_metadata}
use nsq.Nsqd.Daemon.Pool.{resize_pool, resize_pool_lem}
use nsq.Nsqd.Daemon.Metadata.Restart.{IsTopicMap, kept_topics, load_metadata-persist_metadata}
use nsq.Tests.InFlight.{id}
use nsq.Tests.Producer.{kept}
use nsq.Tests.System.{unused, fresh}

abbrev sent : Message
sent = record { id = id; body = 7 ∷ []; timestamp = 1; attempts = 0; deferred = 0 }

-- A channel without messages.
abbrev feed : ℕ → Feed PriorityQueue (List (List ℕ))
feed r = record { channel = fresh; next_message = r }

feed-IsReady : (r : ℕ) → IsReady holds IsGood sent (feed r)
unfolding init_pq new_in_flight_pqueue
feed-IsReady r = record {
  sound =
      (Reach-Inv priority_queue kept holds IsGood priority_queue-IsPriorityQueue
        (start unused refl refl)).sound;
  absent = refl;
  id_absent = λ x h. absurd (omega arith);
  room = omega arith;
}

fan_out-Received_example :
    (fs : List (Feed PriorityQueue (List (List ℕ)))) × (fan_out priority_queue kept sent 1
        (feed 5 ∷ feed 8 ∷ [])
      ≡ some fs)
    × AllReceived holds IsGood sent 1 (feed 5 ∷ feed 8 ∷ []) fs
fan_out-Received_example =
    fan_out-Received priority_queue kept holds IsGood priority_queue-IsPriorityQueue sent 1
      (feed 5 ∷ feed 8 ∷ []) (feed-IsReady 5, (feed-IsReady 8, tt))

resize_pool_lem_example :
    (size : ℕ) × (resize_pool 10 4 0 ≡ some size)
    × (1 ≤ size)
    × (size ≤ 4)
    × (10 < 4 → size ≡ 1)
    × (4 ≤ 10 → size ≤ 10 / 4)
resize_pool_lem_example = resize_pool_lem 10 4 0 (omega arith)

-- A topic with a channel that is paused and one that is ephemeral.
abbrev running : Daemon
running = record {
  topic_map =
      (
        b't' ∷ [],
        record {
          channel_map =
              (b'a' ∷ [], record { paused = true; ephemeral = false })
              ∷ (
                b'a' ∷ b'#' ∷ b'e' ∷ b'p' ∷ b'h' ∷ b'e' ∷ b'm' ∷ b'e' ∷ b'r' ∷ b'a' ∷ b'l' ∷ [],
                record { paused = false; ephemeral = true },
              )
              ∷ [];
          paused = false;
          ephemeral = false;
          started = true;
        },
      )
      ∷ [];
  is_loading = false;
}

running-IsTopicMap : IsTopicMap running.topic_map
unfolding is_valid_name is_ephemeral matches_name matches_rest is_name_byte lookup
running-IsTopicMap = (refl, refl, (refl, refl, refl, (refl, refl, refl, tt)), refl, tt)

load_metadata-persist_metadata_example :
    load_metadata (record { topic_map = []; is_loading = false }) (persist_metadata running)
    ≡ record { topic_map = kept_topics running.topic_map; is_loading = false }
load_metadata-persist_metadata_example = load_metadata-persist_metadata running running-IsTopicMap

abbrev two_lines : List (List ℕ)
two_lines = (b'a' ∷ b'b' ∷ []) ∷ (b'c' ∷ []) ∷ []
