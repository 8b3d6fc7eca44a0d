-- ===== src/Cluster/Stats.antt =====
-- internal/clusterinfo/data.go and types.go: GetNSQDStats, which adds up the statistics of channels over
-- the nsqds. The statistics of the nodes and of the clients, the latencies and the order of both are
-- left out. An int64 or int is its 64-bit pattern.
pub mod Sums
pub mod Totals
use nsq.Common.{
  ℕ, ◌+◌, ◌-◌, ◌%◌, ◌^◌, ◌≡◌, Bool, true, false, not, ◌&&◌, List, [], ◌∷◌, ◌++◌, Option, none, some,
  Eq, ◌==◌, nat_eq, bytes_eq, if◌then◌else◌, length,
}
use nsq.Common.Map.{lookup, insert}
use nsq.Cluster.Sort.{bytes_less, sort_by}
use nsq.Cluster.Gather.{Answer, Gathered, collect, conclude}

pub record Counters : Type 0 where
  pub depth : ℕ
  pub memory_depth : ℕ
  pub backend_depth : ℕ
  pub in_flight_count : ℕ
  pub deferred_count : ℕ
  pub requeue_count : ℕ
  pub timeout_count : ℕ
  pub message_count : ℕ
  pub client_count : ℕ

pub record ChannelStats : Type 0 where
  pub node : List ℕ
  pub hostname : List ℕ
  pub topic_name : List ℕ
  pub channel_name : List ℕ
  pub counters : Counters
  pub paused : Bool

pub record TopicStats : Type 0 where
  pub node : List ℕ
  pub hostname : List ℕ
  pub topic_name : List ℕ
  pub depth : ℕ
  pub memory_depth : ℕ
  pub backend_depth : ℕ
  pub message_count : ℕ
  pub channels : List ChannelStats
  pub paused : Bool

abbrev pub plus : ℕ → ℕ → ℕ
plus a b = (a + b) % 2 ^ 64

abbrev pub minus : ℕ → ℕ → ℕ
minus a b = (a + 2 ^ 64 - b) % 2 ^ 64

abbrev pub no_counters : Counters
no_counters = record {
  depth = 0;
  memory_depth = 0;
  backend_depth = 0;
  in_flight_count = 0;
  deferred_count = 0;
  requeue_count = 0;
  timeout_count = 0;
  message_count = 0;
  client_count = 0;
}

unfoldable pub add_counters : Counters → Counters → Counters
add_counters c a = record {
  depth = plus c.depth a.depth;
  memory_depth = plus c.memory_depth a.memory_depth;
  backend_depth = plus c.backend_depth a.backend_depth;
  in_flight_count = plus c.in_flight_count a.in_flight_count;
  deferred_count = plus c.deferred_count a.deferred_count;
  requeue_count = plus c.requeue_count a.requeue_count;
  timeout_count = plus c.timeout_count a.timeout_count;
  message_count = plus c.message_count a.message_count;
  client_count = plus c.client_count a.client_count;
}

-- Add of ChannelStats.
unfoldable pub add_stats : ChannelStats → ChannelStats → ChannelStats
add_stats c a = record c {
  node = b'*' ∷ [];
  counters = add_counters c.counters a.counters;
  paused = if a.paused then a.paused else c.paused;
}

abbrev pub new_stats : List ℕ → List ℕ → List ℕ → ChannelStats
new_stats addr topic channel = record {
  node = addr;
  hostname = [];
  topic_name = topic;
  channel_name = channel;
  counters = no_counters;
  paused = false;
}

-- The key of a channel; the names of topics differ only if no topic is selected.
unfoldable pub stats_key : List ℕ → List ℕ → List ℕ → List ℕ
stats_key selected_topic topic channel =
    if selected_topic == [] then topic ++ b':' ∷ channel else channel

-- The fields that the loop sets in what an nsqd answered.
abbrev pub channel_from : List ℕ → List ℕ → List ℕ → ChannelStats → ChannelStats
channel_from addr hostname topic c = record c {
  node = addr;
  hostname = hostname;
  topic_name = topic;
  counters = record (c.counters) { memory_depth = minus c.counters.depth c.counters.backend_depth };
}

abbrev pub topic_from : List ℕ → List ℕ → TopicStats → TopicStats
topic_from addr hostname t = record t {
  node = addr;
  hostname = hostname;
  memory_depth = minus t.depth t.backend_depth;
}

abbrev pub StatsMap : Type 0
StatsMap = List (List ℕ × ChannelStats)

abbrev pub or_new : ChannelStats → Option ChannelStats → ChannelStats
or_new new none = new
or_new new (some c) = c

module _ (selected_topic addr hostname : List ℕ) where
  -- The loop over the channels of a topic.
  unfoldable pub add_channels : List ℕ → StatsMap → List ChannelStats → StatsMap
  add_channels topic m [] = m
  add_channels topic m (c ∷ cs) =
      let channel = channel_from addr hostname topic c in
      let key = stats_key selected_topic topic channel.channel_name in
      let stats = or_new (new_stats addr topic channel.channel_name) (lookup key m) in
      add_channels topic (insert key (add_stats stats channel) m) cs

  -- The loop over the topics of an answer.
  unfoldable pub add_topics :
      List TopicStats × StatsMap → List TopicStats → List TopicStats × StatsMap
  add_topics s [] = s
  add_topics (topics, m) (t ∷ ts) =
      let topic = topic_from addr hostname t in
      let skipped = not (selected_topic == []) && not (topic.topic_name == selected_topic) in
      add_topics
        (if skipped
          then (topics, m)
          else (topics ++ topic ∷ [], add_channels topic.topic_name m topic.channels))
        ts

-- What an nsqd answers, with its HTTP address and hostname.
pub record NodeStats : Type 0 where
  pub addr : List ℕ
  pub hostname : List ℕ
  pub topics : List TopicStats

abbrev pub topic_host_less : TopicStats → TopicStats → Bool
topic_host_less s t = bytes_less s.hostname t.hostname

module _ (selected_topic : List ℕ) where
  unfoldable pub absorb_stats : List TopicStats × StatsMap → NodeStats → List TopicStats × StatsMap
  absorb_stats s n = add_topics selected_topic n.addr n.hostname s n.topics

  unfoldable pub get_nsqd_stats :
      {E : Type 0} → List (Answer E NodeStats) → Gathered E (List TopicStats × StatsMap)
  get_nsqd_stats answers =
      let (s, errs) = collect absorb_stats ([], []) [] answers in
      conclude (length answers) (sort_by topic_host_less s.0, s.1) errs
