-- ===== src/Nsqd/Daemon.antt =====
-- nsqd/nsqd.go and nsqd/topic.go: which topics and channels there are, by name, and the metadata that
-- keeps them over a restart. The queues of a topic and of a channel are in Nsqd/Publish and
-- Nsqd/Channel. A Go map is an association list; the pointer that a method returns is known by its
-- name, and what is done through it is done to the entry. The file and its JSON are left out: the
-- metadata is the data that goes into it.

pub mod Metadata
pub mod Pool
use nsq.Common.{
  ℕ, zero, suc, ◌+◌, ◌-◌, ◌/◌, ◌<◌, Bool, true, false, not, ◌&&◌, List, [], ◌∷◌, ◌++◌, Option, none,
  some, ltb, if◌then◌else◌, ◌==◌, nat_eq, bytes_eq, length,
}
use nsq.Common.Map.{lookup, insert, delete}
use nsq.Protocol.Names.{is_valid_name, is_ephemeral}

pub record ChannelEntry : Type 0 where
  pub paused : Bool
  pub ephemeral : Bool

abbrev pub ChannelMap : Type 0
ChannelMap = List (List ℕ × ChannelEntry)

pub record TopicEntry : Type 0 where
  pub channel_map : ChannelMap
  pub paused : Bool
  pub ephemeral : Bool
  pub started : Bool

pub record Daemon : Type 0 where
  pub topic_map : List (List ℕ × TopicEntry)
  pub is_loading : Bool

unfoldable pub new_channel : List ℕ → ChannelEntry
new_channel name = record { paused = false; ephemeral = is_ephemeral name }

unfoldable pub new_topic : List ℕ → TopicEntry
new_topic name = record {
  channel_map = [];
  paused = false;
  ephemeral = is_ephemeral name;
  started = false;
}

-- The flag says whether the channel is new.
unfoldable pub get_or_create_channel : TopicEntry → List ℕ → TopicEntry × Bool
get_or_create_channel t name = elim (lookup name t.channel_map) [
  | some _ ↦ (t, false)
  | none ↦ (record t { channel_map = insert name (new_channel name) t.channel_map }, true)
]

unfoldable pub get_channel : TopicEntry → List ℕ → TopicEntry
unfolding get_or_create_channel
get_channel t name = (get_or_create_channel t name).0

-- `none` is the error "channel does not exist".
unfoldable pub get_existing_channel : TopicEntry → List ℕ → Option ChannelEntry
get_existing_channel t name = lookup name t.channel_map

-- `none` is the error; the flag says whether the callback that deletes the topic is started.
unfoldable pub delete_existing_channel : TopicEntry → List ℕ → Option (TopicEntry × Bool)
delete_existing_channel t name = elim (lookup name t.channel_map) [
  | none ↦ none
  | some _ ↦
      let left = delete name t.channel_map in
      some (record t { channel_map = left }, length left == 0 && t.ephemeral)
]

unfoldable pub do_pause : TopicEntry → Bool → TopicEntry
do_pause t pause = record t { paused = pause }

unfoldable pub start : TopicEntry → TopicEntry
start t = record t { started = true }

-- The loop of GetTopic over the channels that nsqlookupd knows.
unfoldable pub pre_create : TopicEntry → List (List ℕ) → TopicEntry
pre_create t [] = t
pre_create t (name ∷ names) = pre_create (if is_ephemeral name then t else get_channel t name) names

-- `names` are the channels that the nsqlookupds answered, if any were asked.
unfoldable pub get_topic : Daemon → List ℕ → List (List ℕ) → Daemon
get_topic n name names = elim (lookup name n.topic_map) [
  | some _ ↦ n
  | none ↦
      let t = new_topic name in
      let ready = if n.is_loading then t else start (pre_create t names) in
      record n { topic_map = insert name ready n.topic_map }
]

unfoldable pub get_existing_topic : Daemon → List ℕ → Option TopicEntry
get_existing_topic n name = lookup name n.topic_map

unfoldable pub delete_existing_topic : Daemon → List ℕ → Option Daemon
delete_existing_topic n name = elim (lookup name n.topic_map) [
  | none ↦ none
  | some _ ↦ some (record n { topic_map = delete name n.topic_map })
]

abbrev names_of : List ℕ → ChannelMap → List (List ℕ × List ℕ)
names_of topic [] = []
names_of topic ((name, c) ∷ m) = (topic, name) ∷ names_of topic m

unfoldable pub channels : List (List ℕ × TopicEntry) → List (List ℕ × List ℕ)
channels [] = []
channels ((name, t) ∷ m) = names_of name t.channel_map ++ channels m

pub record ChannelMeta : Type 0 where
  pub name : List ℕ
  pub paused : Bool

pub record TopicMeta : Type 0 where
  pub name : List ℕ
  pub paused : Bool
  pub channels : List ChannelMeta

-- The loops of PersistMetadata.
unfoldable pub persist_channels : ChannelMap → List ChannelMeta
persist_channels [] = []
persist_channels ((name, c) ∷ m) =
    let rest = persist_channels m in
    if c.ephemeral then rest else record { name = name; paused = c.paused } ∷ rest

unfoldable pub persist_topics : List (List ℕ × TopicEntry) → List TopicMeta
persist_topics [] = []
persist_topics ((name, t) ∷ m) =
    let rest = persist_topics m in
    if t.ephemeral
    then rest
    else record { name = name; paused = t.paused; channels = persist_channels t.channel_map } ∷ rest

unfoldable pub persist_metadata : Daemon → List TopicMeta
persist_metadata n = persist_topics n.topic_map

-- A method of the channel or topic that has the name, through its pointer.
abbrev pub pause_channel : List ℕ → Option ChannelEntry → TopicEntry → TopicEntry
pause_channel name none t = t
pause_channel name (some c) t = record t {
  channel_map = insert name (record c { paused = true }) t.channel_map;
}

-- The loops of LoadMetadata.
unfoldable pub load_channels : TopicEntry → List ChannelMeta → TopicEntry
load_channels t [] = t
load_channels t (m ∷ ms) =
    let created = get_channel t m.name in
    let loaded =
      if m.paused
      then pause_channel m.name (lookup m.name created.channel_map) created
      else created in
    load_channels (if is_valid_name m.name then loaded else t) ms

abbrev pub load_topic : TopicMeta → Option TopicEntry → Daemon → Daemon
load_topic m none n = n
load_topic m (some t) n =
    let paused = if m.paused then do_pause t true else t in
    record n { topic_map = insert m.name (start (load_channels paused m.channels)) n.topic_map }

unfoldable pub load_topics : Daemon → List TopicMeta → Daemon
load_topics n [] = n
load_topics n (m ∷ ms) =
    let created = get_topic n m.name [] in
    let loaded = load_topic m (lookup m.name created.topic_map) created in
    load_topics (if is_valid_name m.name then loaded else n) ms

unfoldable pub load_metadata : Daemon → List TopicMeta → Daemon
load_metadata n ms =
    let loaded = load_topics (record n { is_loading = true }) ms in
    record loaded { is_loading = false }
