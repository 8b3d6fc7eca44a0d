-- ===== src/Nsqd/Daemon/Metadata/Restart.antt =====
-- The metadata brings back, over a restart, every topic and channel that is not ephemeral.
use nsq.Common.{
  ℕ, ◌≡◌, List, [], ◌∷◌, ◌++◌, none, some, arith, refl, ap, sym, ◌∙◌, Bool, true, false,
  if◌then◌else◌, Bool-cases, inl, inr, bytes_eq, bytes_beq_iff,
}
use mathlib.Core.List.{append-nil, append_assoc}
use nsq.Common.Map.{
  lookup, insert, insert-absent, insert-last, lookup-last, AllAbsent, AllAbsent-nil, AllAbsent-last,
}
use nsq.Protocol.Names.{is_valid_name, is_ephemeral}
use nsq.Nsqd.Daemon.{
  TopicEntry, Daemon, new_topic, get_topic, do_pause, start, pre_create, TopicMeta, load_channels,
  load_topic, load_topics, load_metadata, persist_channels, persist_topics, persist_metadata,
}
use nsq.Nsqd.Daemon.Metadata.{IsChannelMap, kept_channels, load_channels-persist}

abbrev pub IsTopicMap : List (List ℕ × TopicEntry) → Type 0
IsTopicMap [] = Unit
IsTopicMap ((name, t) ∷ m) =
    (is_valid_name name ≡ true)
    × (t.ephemeral ≡ is_ephemeral name)
    × IsChannelMap t.channel_map
    × (lookup name m ≡ none)
    × IsTopicMap m

-- What is not ephemeral; a topic that is loaded is started.
abbrev pub kept_topics : List (List ℕ × TopicEntry) → List (List ℕ × TopicEntry)
kept_topics [] = []
kept_topics ((name, t) ∷ m) =
    if t.ephemeral
    then kept_topics m
    else (name, record t { channel_map = kept_channels t.channel_map; started = true })
      ∷ kept_topics m

get_topic-new :
    (n : Daemon) (name : List ℕ)
    → n.is_loading ≡ true
    → lookup name n.topic_map ≡ none
    → get_topic n name [] ≡ record n { topic_map = n.topic_map ++ (name, new_topic name) ∷ [] }
unfolding get_topic
get_topic-new n name loading h =
    let fresh = new_topic name in
    rw (h, get_topic)
      (ap
          (λ b. record n {
            topic_map = insert name (if b then fresh else start (pre_create fresh [])) n.topic_map;
          })
          loading
        ∙ ap (λ m. record n { topic_map = m }) (insert-absent name fresh n.topic_map h))

-- The topic as it is after it was loaded.
abbrev restored : List ℕ → TopicEntry → TopicEntry
restored name t = record {
  channel_map = kept_channels t.channel_map;
  paused = t.paused;
  ephemeral = is_ephemeral name;
  started = true;
}

abbrev saved_topic : List ℕ → TopicEntry → TopicMeta
saved_topic name t = record {
  name = name;
  paused = t.paused;
  channels = persist_channels t.channel_map;
}

loaded_topic :
    (name : List ℕ) (t : TopicEntry) (paused : Bool)
    → IsChannelMap t.channel_map
    → start (
        load_channels
          (if paused then do_pause (new_topic name) true else new_topic name)
          (persist_channels t.channel_map))
      ≡ record (restored name t) { paused = paused }
unfolding start do_pause new_topic
loaded_topic name t true v =
    ap (λ (x : TopicEntry). record x { started = true })
      (load_channels-persist (record (new_topic name) { paused = true }) t.channel_map v
        (AllAbsent-nil t.channel_map))
loaded_topic name t false v =
    ap (λ (x : TopicEntry). record x { started = true })
      (load_channels-persist (new_topic name) t.channel_map v (AllAbsent-nil t.channel_map))

load_topics-step :
    (n : Daemon) (name : List ℕ) (t : TopicEntry) (ms : List TopicMeta)
    → n.is_loading ≡ true
    → is_valid_name name ≡ true
    → IsChannelMap t.channel_map
    → lookup name n.topic_map ≡ none
    → load_topics n (saved_topic name t ∷ ms)
      ≡ load_topics (record n { topic_map = n.topic_map ++ (name, restored name t) ∷ [] }) ms
unfolding load_topics
load_topics-step n name t ms loading valid v h =
    let fresh = new_topic name in
    let here : lookup name (n.topic_map ++ (name, fresh) ∷ []) ≡ some fresh =
      ground (arith, lookup-last name name fresh n.topic_map h, bytes_beq_iff name name) in
    let loaded = loaded_topic name t t.paused v in
    let last = insert-last name fresh (restored name t) n.topic_map h in
    simp valid (
      ap
        (λ (x : Daemon).
          load_topics (load_topic (saved_topic name t) (lookup name x.topic_map) x) ms)
        (get_topic-new n name loading h)
      ∙ ap
          (λ o.
            load_topics
              (load_topic (saved_topic name t) o
                (record n { topic_map = n.topic_map ++ (name, fresh) ∷ [] }))
              ms)
          here
      ∙ ap
          (λ x.
            load_topics (record n { topic_map = insert name x (n.topic_map ++ (name, fresh) ∷ []) })
              ms)
          loaded
      ∙ ap (λ m. load_topics (record n { topic_map = m }) ms) last)

persist_topics-kept :
    (name : List ℕ) (t : TopicEntry) (m : List (List ℕ × TopicEntry))
    → t.ephemeral ≡ false
    → t.ephemeral ≡ is_ephemeral name
    → (persist_topics ((name, t) ∷ m) ≡ saved_topic name t ∷ persist_topics m)
      × (kept_topics ((name, t) ∷ m) ≡ (name, restored name t) ∷ kept_topics m)
unfolding persist_topics
persist_topics-kept name t m kept flag = (
  simp kept refl,
  simp kept (
      ap (λ b. (name, record (restored name t) { ephemeral = b }) ∷ kept_topics m)
        (sym kept ∙ flag)),
)

load_topics-persist :
    (n : Daemon) (m : List (List ℕ × TopicEntry))
    → n.is_loading ≡ true
    → IsTopicMap m
    → AllAbsent m n.topic_map
    → load_topics n (persist_topics m) ≡ record n { topic_map = n.topic_map ++ kept_topics m }
unfolding load_topics persist_topics
load_topics-persist n [] loading v a =
    ap (λ m. record n { topic_map = m }) (sym (append-nil n.topic_map))
load_topics-persist n ((name, t) ∷ m) loading v a = elim (Bool-cases t.ephemeral) [
  | inl gone ↦ simp gone (load_topics-persist n m loading v.4 a.1)
  | inr kept ↦
      let (persisted, left) = persist_topics-kept name t m kept v.1 in
      let grown = n.topic_map ++ (name, restored name t) ∷ [] in
      ap (load_topics n) persisted
      ∙ load_topics-step n name t (persist_topics m) loading v.0 v.2 a.0
      ∙ load_topics-persist (record n { topic_map = grown }) m loading v.4
          (AllAbsent-last name (restored name t) m n.topic_map a.1 v.3)
      ∙ ap (λ l. record n { topic_map = l })
          (append_assoc n.topic_map ((name, restored name t) ∷ []) (kept_topics m)
            ∙ ap (λ l. n.topic_map ++ l) (sym left))
]

-- A daemon without topics that loads the metadata of another, whose topics and channels have valid
-- and distinct names, and are ephemeral by their names, has exactly the topics and channels of that
-- one that are not ephemeral, paused as they were; its topics are started.
pub load_metadata-persist_metadata :
    (n : Daemon)
    → IsTopicMap n.topic_map
    → load_metadata (record { topic_map = []; is_loading = false }) (persist_metadata n)
      ≡ record { topic_map = kept_topics n.topic_map; is_loading = false }
unfolding load_metadata persist_metadata
load_metadata-persist_metadata n v =
    ap (λ (x : Daemon). record x { is_loading = false })
      (load_topics-persist (record { topic_map = []; is_loading = true }) n.topic_map refl v
        (AllAbsent-nil n.topic_map))
