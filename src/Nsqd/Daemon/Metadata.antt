-- ===== src/Nsqd/Daemon/Metadata.antt =====
-- The channels of a topic over a restart: the metadata has those that are not ephemeral.
pub mod Restart
use nsq.Common.{
  ℕ, ◌≡◌, List, [], ◌∷◌, ◌++◌, Option, none, some, arith, refl, ap, sym, ◌∙◌, Bool, true, false,
  if◌then◌else◌, Bool-cases, inl, inr, bytes_eq, bytes_beq_iff,
}
use mathlib.Core.List.{append-nil, append_assoc}
use nsq.Common.Map.{
  lookup, insert, insert-absent, insert-last, lookup-last, AllAbsent, AllAbsent-nil, AllAbsent-last,
}
use nsq.Protocol.Names.{is_valid_name, is_ephemeral}
use nsq.Nsqd.Daemon.{
  ChannelEntry, ChannelMap, TopicEntry, Daemon, new_channel, new_topic, get_or_create_channel,
  get_channel, get_topic, do_pause, start, pre_create, pause_channel, ChannelMeta, TopicMeta,
  load_channels, load_topic, load_topics, load_metadata, persist_channels, persist_topics,
  persist_metadata,
}

-- Names that are valid and distinct, and flags that follow from them.
abbrev pub IsChannelMap : ChannelMap → Type 0
IsChannelMap [] = Unit
IsChannelMap ((name, c) ∷ m) =
    (is_valid_name name ≡ true)
    × (c.ephemeral ≡ is_ephemeral name)
    × (lookup name m ≡ none)
    × IsChannelMap m

-- The channels that are not ephemeral.
abbrev pub kept_channels : ChannelMap → ChannelMap
kept_channels [] = []
kept_channels ((name, c) ∷ m) = if c.ephemeral then kept_channels m else (name, c) ∷ kept_channels m

-- A channel that is created, and paused if the metadata says so.
abbrev loaded_channel : TopicEntry → List ℕ → Bool → TopicEntry
loaded_channel t name paused =
    let created = get_channel t name in
    if paused then pause_channel name (lookup name created.channel_map) created else created

get_or_create_channel-new :
    (t : TopicEntry) (name : List ℕ)
    → lookup name t.channel_map ≡ none
    → get_or_create_channel t name
      ≡ (record t { channel_map = insert name (new_channel name) t.channel_map }, true)
unfolding get_or_create_channel
get_or_create_channel-new t name h = rw (h, get_or_create_channel) refl

get_channel-new :
    (t : TopicEntry) (name : List ℕ)
    → lookup name t.channel_map ≡ none
    → get_channel t name ≡ record t { channel_map = t.channel_map ++ (name, new_channel name) ∷ [] }
unfolding get_channel
get_channel-new t name h =
    ap (λ (p : TopicEntry × Bool). p.0) (get_or_create_channel-new t name h)
    ∙ ap (λ m. record t { channel_map = m }) (insert-absent name (new_channel name) t.channel_map h)

loaded_channel_lem :
    (t : TopicEntry) (name : List ℕ) (paused : Bool)
    → lookup name t.channel_map ≡ none
    → loaded_channel t name paused ≡ record t {
      channel_map =
          t.channel_map ++ (name, record { paused = paused; ephemeral = is_ephemeral name }) ∷ [];
    }
unfolding new_channel
loaded_channel_lem t name false h = get_channel-new t name h
loaded_channel_lem t name true h =
    let c = new_channel name in
    let here : lookup name (t.channel_map ++ (name, c) ∷ []) ≡ some c =
      ground (arith, lookup-last name name c t.channel_map h, bytes_beq_iff name name) in
    ap (λ (x : TopicEntry). pause_channel name (lookup name x.channel_map) x)
      (get_channel-new t name h)
    ∙ rw here (
        ap (λ m. record t { channel_map = m })
          (insert-last name c (record c { paused = true }) t.channel_map h))

load_channels-step :
    (t : TopicEntry) (m : ChannelMeta) (ms : List ChannelMeta)
    → is_valid_name m.name ≡ true
    → load_channels t (m ∷ ms) ≡ load_channels (loaded_channel t m.name m.paused) ms
unfolding load_channels
load_channels-step t m ms valid = simp valid refl

persist_channels-kept :
    (name : List ℕ) (c : ChannelEntry) (m : ChannelMap)
    → c.ephemeral ≡ false
    → (persist_channels ((name, c) ∷ m)
        ≡ record { name = name; paused = c.paused } ∷ persist_channels m)
      × (kept_channels ((name, c) ∷ m) ≡ (name, c) ∷ kept_channels m)
unfolding persist_channels
persist_channels-kept name c m kept = (simp kept refl, simp kept refl)

pub load_channels-persist :
    (t : TopicEntry) (m : ChannelMap)
    → IsChannelMap m
    → AllAbsent m t.channel_map
    → load_channels t (persist_channels m)
      ≡ record t { channel_map = t.channel_map ++ kept_channels m }
unfolding load_channels persist_channels
load_channels-persist t [] v a =
    ap (λ m. record t { channel_map = m }) (sym (append-nil t.channel_map))
load_channels-persist t ((name, c) ∷ m) v a = elim (Bool-cases c.ephemeral) [
  | inl gone ↦ simp gone (load_channels-persist t m v.3 a.1)
  | inr kept ↦
      let here : record { paused = c.paused; ephemeral = is_ephemeral name } ≡ c =
        ap (λ b. record { paused = c.paused; ephemeral = b }) (sym v.1) in
      let grown = t.channel_map ++ (name, c) ∷ [] in
      let saved : ChannelMeta = record { name = name; paused = c.paused } in
      let step : loaded_channel t name c.paused ≡ record t { channel_map = grown } =
        loaded_channel_lem t name c.paused a.0
        ∙ ap (λ (x : ChannelEntry). record t { channel_map = t.channel_map ++ (name, x) ∷ [] })
            here in
      let (persisted, left) = persist_channels-kept name c m kept in
      ap (load_channels t) persisted
      ∙ load_channels-step t saved (persist_channels m) v.0
      ∙ ap (λ x. load_channels x (persist_channels m)) step
      ∙ load_channels-persist (record t { channel_map = grown }) m v.3
          (AllAbsent-last name c m t.channel_map a.1 v.2)
      ∙ ap (λ l. record t { channel_map = l })
          (append_assoc t.channel_map ((name, c) ∷ []) (kept_channels m)
            ∙ ap (λ l. t.channel_map ++ l) (sym left))
]
