-- ===== src/Tests/Cluster.antt =====
-- internal/clusterinfo with two nsqlookupds and two nsqds.
use nsq.Common.{ℕ, ◌+◌, ◌≡◌, refl, false, List, [], ◌∷◌, ◌++◌, some, bytes_eq}
use nsq.Cluster.Gather.{
  Answer, failed, answered, Names, value, get_lookupd_topics, get_lookupd_topic_channels,
  get_nsqd_topics,
}
use nsq.Cluster.Names.{IsReport, queries-IsReport}
use nsq.Cluster.AnyOrder.{queries-any_order}
use nsq.Cluster.Producers.{
  Producer, Semver, http_addrs, get_lookupd_producers, get_lookupd_topic_producers,
}
use nsq.Cluster.Union.{IsUnion, topic_producers-IsUnion}
use nsq.Cluster.Merged.{IsMerged, lookupd_producers-IsMerged}
use nsq.Cluster.Uris.{topic_delete, channel_delete, topic_pause, topic_query, channel_query}
use nsq.Cluster.Actions.{Client, get_topic_producers, delete_topic, delete_channel, action_helper}
use nsq.Cluster.Actions.Sent.{IsLogged, SendsIfFound, to_all, endpoints, actions-SendsIfFound}
use nsq.Cluster.Stats.{ChannelStats, NodeStats, get_nsqd_stats, no_counters}
use nsq.Cluster.Stats.Totals.{AreTotals, nsqd_stats-AreTotals}
use mathlib.Core.List.{Permᴰ}

-- One of them does not answer.
abbrev some_names : List (Answer ℕ Names)
some_names = answered ((2 ∷ []) ∷ (1 ∷ []) ∷ []) ∷ failed 7 ∷ answered ((1 ∷ []) ∷ []) ∷ []

abbrev other_names : List (Answer ℕ Names)
other_names = failed 7 ∷ answered ((2 ∷ []) ∷ (1 ∷ []) ∷ []) ∷ answered ((1 ∷ []) ∷ []) ∷ []

queries-IsReport_example :
    IsReport some_names (get_lookupd_topics some_names)
    × IsReport some_names (get_lookupd_topic_channels some_names)
    × IsReport some_names (get_nsqd_topics some_names)
queries-IsReport_example = queries-IsReport some_names

queries-any_order_example :
    (value (get_lookupd_topics some_names) ≡ value (get_lookupd_topics other_names))
    × (value (get_lookupd_topic_channels some_names)
        ≡ value (get_lookupd_topic_channels other_names))
    × (value (get_nsqd_topics some_names) ≡ value (get_nsqd_topics other_names))
queries-any_order_example = queries-any_order some_names other_names (Permᴰ.swap refl refl)

-- A version is its bytes, and none is older than another.
abbrev semver : Semver (List ℕ)
semver = record { parse = λ s. some s; lt = λ v w. false; zero_version = [] }

abbrev producer : ℕ → Producer (List ℕ)
producer host = record {
  remote_addresses = [];
  remote_address = [];
  hostname = host ∷ [];
  broadcast_address = host ∷ [];
  tcp_port = 4150;
  http_port = 4151;
  version = [];
  version_obj = [];
  topics = [];
  out_of_date = false;
}

abbrev found : List (Answer ℕ (List (Producer (List ℕ))))
found = answered (producer 1 ∷ producer 2 ∷ []) ∷ answered (producer 2 ∷ []) ∷ []

topic_producers-IsUnion_example : IsUnion found (get_lookupd_topic_producers found)
topic_producers-IsUnion_example = topic_producers-IsUnion found

abbrev known : List (Answer ℕ (List ℕ × List (Producer (List ℕ))))
known = answered (8 ∷ [], producer 1 ∷ producer 2 ∷ []) ∷ answered (9 ∷ [], producer 2 ∷ []) ∷ []

lookupd_producers-IsMerged_example : IsMerged known (get_lookupd_producers semver known)
lookupd_producers-IsMerged_example =
    lookupd_producers-IsMerged semver known ((refl, (refl, tt)), ((refl, tt), tt))

-- Statistics of one channel from two nsqds.
abbrev channel_stats : ℕ → ChannelStats
channel_stats depth = record {
  node = [];
  hostname = [];
  topic_name = [];
  channel_name = 5 ∷ [];
  counters = record no_counters { depth = depth };
  paused = false;
}

abbrev node_stats : ℕ → NodeStats
node_stats depth = record {
  addr = [];
  hostname = [];
  topics =
      record {
        node = [];
        hostname = [];
        topic_name = 4 ∷ [];
        depth = depth;
        memory_depth = 0;
        backend_depth = 0;
        message_count = 0;
        channels = channel_stats depth ∷ [];
        paused = false;
      }
      ∷ [];
}

abbrev both_stats : List (Answer ℕ NodeStats)
both_stats = answered (node_stats 3) ∷ answered (node_stats 4) ∷ []

nsqd_stats-AreTotals_example : AreTotals [] both_stats (get_nsqd_stats [] both_stats)
nsqd_stats-AreTotals_example = nsqd_stats-AreTotals [] both_stats

-- A client whose state is what it posted and how many POSTs failed; it refuses all of them.
abbrev World : Type 0
World = List (List ℕ) × ℕ

abbrev client : Client World ℕ (List ℕ)
client = record {
  post = λ w e. ((w.0 ++ e ∷ [], w.1 + 1), some 7);
  ask_lookupds = λ w topic addrs. (w, found);
  ask_nsqds = λ w addrs. (w, []);
  ask_topic_nsqds = λ w topic addrs. (w, []);
}

log : IsLogged client
log = record {
  sent = λ w. w.0;
  refused = λ w. w.1;
  post_sent = λ w e. refl;
  post_refused = λ w e. refl;
  ask_lookupds_sent = λ w topic addrs. (refl, refl);
  ask_nsqds_sent = λ w addrs. (refl, refl);
  ask_topic_nsqds_sent = λ w topic addrs. (refl, refl);
}

abbrev start : World
start = ([], 0)

abbrev lookupds : List (List ℕ)
lookupds = (8 ∷ []) ∷ (9 ∷ []) ∷ []

actions-SendsIfFound_example :
    let r = (get_topic_producers client semver start (4 ∷ []) lookupds []).1 in
    SendsIfFound client log start 0
      (to_all lookupds topic_delete (topic_query (4 ∷ [])))
      r
      (delete_topic client semver start (4 ∷ []) lookupds [])
    × SendsIfFound client log start 0
        (to_all lookupds channel_delete (channel_query (4 ∷ []) (5 ∷ [])))
        r
        (delete_channel client semver start (4 ∷ []) (5 ∷ []) lookupds [])
    × SendsIfFound client log start 0
        (λ ps. endpoints (http_addrs ps) topic_pause [])
        r
        (action_helper client semver start (4 ∷ []) lookupds [] topic_pause [])
actions-SendsIfFound_example =
    actions-SendsIfFound client log semver start (4 ∷ []) (5 ∷ []) topic_pause [] lookupds []
