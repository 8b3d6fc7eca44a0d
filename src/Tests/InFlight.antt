-- ===== src/Tests/InFlight.antt =====
-- nsqd/channel.go and the commands of a consumer on a channel with one message in flight.
use nsq.Common.{
  ℕ, zero, suc, ◌+◌, ◌≤◌, ◌<◌, ◌≡◌, ◌≢◌, ◌⊎◌, refl, Bool, false, List, [], ◌∷◌, ◌++◌, none, some,
  arith, if◌then◌else◌, ◌==◌, nat_eq, bytes_eq, bytes_beq_iff,
}
use nsq.Common.Map.{lookup}
use nsq.Nsqd.InFlight.Arrays.{at}
use nsq.Nsqd.Client.{Client, subscribed}
use nsq.Nsqd.Channel.{
  Channel, Entry, Item, DeferredQueue, Failure, pri_of, start_in_flight_timeout, finish_message,
  touch_message, touched_pri,
}
use nsq.Nsqd.Channel.InFlight.{IsConsistent}
use nsq.Nsqd.Channel.Deliver.{
  Owns, start_in_flight_timeout_lem, finish_message-Owns, finish_message-refused,
  touch_message-Owns,
}
use nsq.Nsqd.Channel.Scan.{requeue_message, process_in_flight_queue}
use nsq.Nsqd.Channel.Timeouts.{Scanned, process_in_flight_queue-Scanned}
use nsq.Nsqd.Channel.Requeue.{requeue_message-Owns}
use nsq.Nsqd.Commands.{Options, Connection, nothing, failed, fin}
use nsq.Nsqd.Commands.Laws.{Finished, fin_lem}
use nsq.Protocol.{client_err, e_fin_failed}
use nsq.Tests.Producer.{kept}

-- A list as the queue of deferred messages: it has a first item, or none.
abbrev pub plain : DeferredQueue (List Item)
plain = record {
  new = λ capacity. [];
  push = λ q item. some (q ++ item ∷ []);
  peek_and_shift = λ q max. some (none, q);
}

abbrev pub id : List ℕ
id = 1 ∷ 1 ∷ 1 ∷ 1 ∷ 1 ∷ 1 ∷ 1 ∷ 1 ∷ 1 ∷ 1 ∷ 1 ∷ 1 ∷ 1 ∷ 1 ∷ 1 ∷ 1 ∷ []

abbrev other_id : List ℕ
other_id = 2 ∷ 1 ∷ 1 ∷ 1 ∷ 1 ∷ 1 ∷ 1 ∷ 1 ∷ 1 ∷ 1 ∷ 1 ∷ 1 ∷ 1 ∷ 1 ∷ 1 ∷ 1 ∷ []

-- Message 5 is in flight for client 9, due at 40; message 6 is not.
abbrev pub entries : ℕ → Entry
entries r = record {
  message = record {
    id = if r == 5 then id else other_id;
    body = 7 ∷ [];
    timestamp = 1;
    attempts = 1;
    deferred = 0;
  };
  client_id = 9;
  delivery_ts = 10;
  pri = 40;
}

abbrev pub consumer : Client
consumer = record {
  ready_count = 3;
  in_flight_count = 1;
  message_count = 1;
  finish_count = 0;
  requeue_count = 0;
  state = subscribed;
}

abbrev pub one : Channel (List Item) (List (List ℕ))
one = record {
  message = entries;
  requeue_count = 0;
  message_count = 1;
  timeout_count = 0;
  memory = [];
  memory_size = 10;
  backend = [];
  is_exiting = false;
  clients = (9, consumer) ∷ [];
  paused = false;
  ephemeral = false;
  deferred_messages = [];
  deferred_pq = [];
  in_flight_messages = (id, 5) ∷ [];
  in_flight_pq = record {
    items = 5 ∷ [];
    index = λ r. if r == 5 then some 0 else none;
    capacity = 1;
  };
}

one_index : (i : ℕ) → i < 1 → one.in_flight_pq.index (at (5 ∷ []) i) ≡ some i
one_index zero h = refl
one_index (suc i) h = absurd (omega arith)

one-IsConsistent : IsConsistent one
unfolding lookup
one-IsConsistent = record {
  queue = record {
    heap = λ c p q. absurd (omega arith);
    indexed = λ i h. one_index i h;
    room = omega arith;
    positive = omega arith;
  };
  mapped = λ r h. ground (arith, bytes_beq_iff id id);
  queued = λ x r e. ground (arith, bytes_beq_iff id x);
}

one-Owns : Owns one 9 id 5
unfolding lookup
one-Owns = record { found = refl; owner = refl }

-- Client 8 has nothing in flight.
not-Owns : (r : ℕ) → ¬ (Owns one 8 id r)
unfolding lookup
not-Owns r o = absurd (omega (arith, o.owner))

process_in_flight_queue-Scanned_example :
    (c' : Channel (List Item) (List (List ℕ))) × (rs : List ℕ) × (dirty : Bool)
    × (process_in_flight_queue plain kept one 50 ≡ some (c', dirty))
    × Scanned plain kept one 50 rs c'
process_in_flight_queue-Scanned_example =
    process_in_flight_queue-Scanned plain kept one 50 refl one-IsConsistent

finish_message-Owns_example :
    (c' : Channel (List Item) (List (List ℕ))) × (finish_message {E = Unit} one 9 id
      ≡ some (c', none))
    × IsConsistent c'
    × (lookup id c'.in_flight_messages ≡ none)
    × ((id' : List ℕ)
        → id ≢ id'
        → lookup id' c'.in_flight_messages ≡ lookup id' one.in_flight_messages)
    × (c'
        ≡ record one { in_flight_messages = c'.in_flight_messages; in_flight_pq = c'.in_flight_pq })
finish_message-Owns_example = finish_message-Owns {E = Unit} one 9 id 5 one-IsConsistent one-Owns

finish_message-refused_example :
    (e : Failure Unit) × (finish_message {E = Unit} one 8 id ≡ some (one, some e))
finish_message-refused_example = finish_message-refused {E = Unit} one 8 id not-Owns

touch_message-Owns_example :
    (c' : Channel (List Item) (List (List ℕ))) × (touch_message {E = Unit} one 9 id 30 60 50
      ≡ some (c', none))
    × IsConsistent c'
    × Owns c' 9 id 5
    × (pri_of c' 5 ≡ touched_pri 30 60 10 50)
    × (pri_of c' 5 ≤ 10 + 50)
    × ((x : ℕ) → x ≢ 5 → c'.message x ≡ one.message x)
    × ((id' : List ℕ) → lookup id' c'.in_flight_messages ≡ lookup id' one.in_flight_messages)
touch_message-Owns_example =
    touch_message-Owns {E = Unit} one 9 id 5 30 60 50 one-IsConsistent one-Owns

free : lookup other_id one.in_flight_messages ≡ none
unfolding lookup
free = refl

start_in_flight_timeout_lem_example :
    (c' : Channel (List Item) (List (List ℕ))) × (start_in_flight_timeout {E = Unit} one 6 9 30 60
      ≡ some (c', none))
    × IsConsistent c'
    × Owns c' 9 other_id 6
    × (pri_of c' 6 ≡ 30 + 60)
    × ((x : ℕ) → x ≢ 6 → c'.message x ≡ one.message x)
    × ((id' : List ℕ)
        → other_id ≢ id'
        → lookup id' c'.in_flight_messages ≡ lookup id' one.in_flight_messages)
start_in_flight_timeout_lem_example =
    start_in_flight_timeout_lem {E = Unit} one 6 9 30 60 one-IsConsistent refl free

requeue_message-Owns_example :
    (c' : Channel (List Item) (List (List ℕ))) × (requeue_message plain kept one 9 id 30 0
      ≡ some (c', none))
    × IsConsistent c'
    × (lookup id c'.in_flight_messages ≡ none)
    × (c'.memory ≡ 5 ∷ [])
    × (c'.backend ≡ [])
    × (c'.deferred_messages ≡ [])
requeue_message-Owns_example =
    requeue_message-Owns plain kept one 9 id 5 30 one-IsConsistent one-Owns (omega arith)

abbrev options : Options
options = record {
  max_rdy_count = 2500;
  max_req_timeout = 3600000000000;
  max_msg_timeout = 900000000000;
  max_msg_size = 1048576;
  max_body_size = 5242880;
  tls_required = false;
}

abbrev pub connection : ℕ → Connection (List Item) (List (List ℕ))
connection client_id = record {
  client_id = client_id;
  client = consumer;
  channel = some one;
  msg_timeout = 60000000000;
  tls = false;
}

fin_lem_example :
    ((r : ℕ) × Owns one 9 id r
      × (conn' : Connection (List Item) (List (List ℕ))) × (fin Unit options
            (connection 9)
            ([] ∷ id ∷ [])
          ≡ some (conn', nothing))
      × Finished (connection 9) one id conn')
    ⊎ (((r : ℕ) → ¬ (Owns one 9 id r))
        × (fin Unit options (connection 9) ([] ∷ id ∷ [])
            ≡ some (connection 9, failed (client_err e_fin_failed))))
fin_lem_example = fin_lem Unit options (connection 9) one [] id [] refl refl refl one-IsConsistent
