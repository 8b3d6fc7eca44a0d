-- ===== src/Nsqd/Lookup/Announce.antt =====
-- The commands of nsqd and nsqlookupd together: what nsqlookupd knows after the callback of a
-- connection has sent the commands that register all topics and channels.
use nsq.Common.{
  ℕ, ◌≡◌, refl, sym, ap, ◌∙◌, Bool, true, false, ◌&&◌, ◌||◌, List, [], ◌∷◌, ◌++◌, Option, none,
  some, Bool-cases, Option-cases, inl, inr, ◌==◌, bytes_eq, bytes_beq, bytes_beq_iff, nat_eq,
  if◌then◌else◌, arith,
}
use nsq.Protocol.Names.{is_valid_name}
use nsq.Lookupd.Db.{
  Registration, registration_beq, registration_beq_iff, PeerInfo, Producer, RegistrationDb,
  registration, add_producer,
}
use nsq.Lookupd.Db.Laws.{producer_at, add_producer_lem}
use nsq.Lookupd.Session.{Lookupd, topic_category, channel_category, producer_of, register_names}
use nsq.Lookupd.Session.Cleanup.{has}
use nsq.Lookupd.Session.Identify.{register_name}
use nsq.Nsqd.Daemon.{ChannelMap, TopicEntry}
use nsq.Nsqd.Lookup.{Command, register_channels, register_commands}
use nsq.Nsqd.Lookup as Cmd

-- What is there, or else the other.
abbrev pub or_else : Option Producer → Option Producer → Option Producer
or_else none q = q
or_else (some p) q = some p

add_producer-entry :
    (peers : ℕ → PeerInfo) (db : RegistrationDb) (j k : Registration) (p : Producer) (id' : List ℕ)
    → producer_at (add_producer peers db j p).0 k id'
      ≡ or_else
          (producer_at db k id')
          (if registration_beq j k && bytes_beq (peers p.peer_info).id id' then some p else none)
add_producer-entry peers db j k p id' =
    let id = (peers p.peer_info).id in
    let law = add_producer_lem peers db j p in
    elim (Option-cases (producer_at db k id')) [
      | inl missing ↦ rw missing (
          ground
            (arith, law.0 k id', law.1, missing, registration_beq_iff j k, bytes_beq_iff id id'))
      | inr (q, found) ↦ rw found (
          ground (arith, law.0 k id', law.1, found, registration_beq_iff j k, bytes_beq_iff id id'))
    ]

abbrev pub topic_key : List ℕ → Registration
topic_key topic = registration topic_category topic []

abbrev pub channel_keys : List ℕ → ChannelMap → List Registration
channel_keys topic [] = []
channel_keys topic ((name, c) ∷ m) = registration channel_category topic name ∷ channel_keys topic m

-- The keys of all topics and channels of an nsqd.
abbrev pub announced : List (List ℕ × TopicEntry) → List Registration
announced [] = []
announced ((name, t) ∷ m) = topic_key name ∷ (channel_keys name t.channel_map ++ announced m)

abbrev pub AreChannelNames : ChannelMap → Type 0
AreChannelNames [] = Unit
AreChannelNames ((name, c) ∷ m) = (is_valid_name name ≡ true) × AreChannelNames m

abbrev pub AreNames : List (List ℕ × TopicEntry) → Type 0
AreNames [] = Unit
AreNames ((name, t) ∷ m) = (is_valid_name name ≡ true) × AreChannelNames t.channel_map × AreNames m

-- The parameters that nsqlookupd splits the line of a command into: an empty channel is left out.
abbrev pub IsWire : (Command → List (List ℕ)) → Type 0
IsWire params =
    (topic name : List ℕ)
    → params (Cmd.register topic name)
      ≡ register_name ∷ topic ∷ (if name == [] then [] else name ∷ [])

pub has-append :
    (js ks : List Registration) (k : Registration) → has (js ++ ks) k ≡ (has js k || has ks k)
has-append [] ks k = refl
has-append (j ∷ js) ks k = ground (arith, has-append js ks k)

-- `d'` has the entries of `d`, and under each of the keys one of the peer if there was none.
abbrev pub Knows : ℕ → List Registration → Lookupd → Lookupd → Type 0
Knows peer ks d d' =
    ((d'.peers peer).id ≡ (d.peers peer).id)
    × ((k : Registration) (id' : List ℕ)
        → producer_at d'.db k id'
          ≡ or_else (producer_at d.db k id') (
              if has ks k && bytes_beq (d.peers peer).id id'
              then some (producer_of peer)
              else none))

or_else-twice :
    (o : Option Producer) (b c : Bool) (q : Producer)
    → or_else (or_else o (if b then some q else none)) (if c then some q else none)
      ≡ or_else o (if b || c then some q else none)
or_else-twice none true c q = refl
or_else-twice none false c q = refl
or_else-twice (some x) b c q = refl

pub Knows-trans :
    (peer : ℕ) (js ks : List Registration) (d d₁ d₂ : Lookupd)
    → Knows peer js d d₁
    → Knows peer ks d₁ d₂
    → Knows peer (js ++ ks) d d₂
Knows-trans peer js ks d d₁ d₂ (e, h) (e', h') = (
  e' ∙ e,
  λ k id'.
      let id = (d.peers peer).id in
      let id₁ = (d₁.peers peer).id in
      let q = producer_of peer in
      let old = producer_at d.db k id' in
      let first : Option Producer = if has js k && bytes_beq id id' then some q else none in
      let second : List ℕ → Option Producer =
        λ i. if has ks k && bytes_beq i id' then some q else none in
      h' k id'
      ∙ ap (λ o. or_else o (second id₁)) (h k id')
      ∙ ap (λ i. or_else (or_else old first) (second i)) e
      ∙ or_else-twice old (has js k && bytes_beq id id') (has ks k && bytes_beq id id') q
      ∙ ap (λ b. or_else old (if b then some q else none))
          (both (has js k) (has ks k) (has (js ++ ks) k) (bytes_beq id id') (has-append js ks k)),
)
  where
    both : (a b c x : Bool) → c ≡ (a || b) → (a && x || b && x) ≡ (c && x)
    both a b c x h = ground (arith, h)

pub Knows-agree :
    (peer : ℕ) (js ks : List Registration) (d d' : Lookupd)
    → ((k : Registration) → has js k ≡ has ks k)
    → Knows peer js d d'
    → Knows peer ks d d'
Knows-agree peer js ks d d' same (e, h) = (e, λ k id'. rw (sym (same k)) (h k id'))

unfoldable pub keys_of : List ℕ → List ℕ → List Registration
keys_of topic name =
    if name == []
    then topic_key topic ∷ []
    else registration channel_category topic name ∷ topic_key topic ∷ []

add_key : Lookupd → ℕ → Registration → Lookupd
add_key d peer j = record d { db = (add_producer d.peers d.db j (producer_of peer)).0 }

add_key-Knows :
    (d : Lookupd) (peer : ℕ) (j : Registration) → Knows peer (j ∷ []) d (add_key d peer j)
unfolding add_key
add_key-Knows d peer j = (
  refl,
  λ k id'.
      add_producer-entry d.peers d.db j k (producer_of peer) id'
      ∙ ap (λ b. or_else (producer_at d.db k id') (if b then some (producer_of peer) else none))
          (same (registration_beq j k) (bytes_beq (d.peers peer).id id')),
)
  where
    same : (a x : Bool) → (a && x) ≡ ((if a then true else false) && x)
    same a x = ground arith

pub register_names-Knows :
    (d : Lookupd) (peer : ℕ) (topic name : List ℕ)
    → Knows peer (keys_of topic name) d (register_names d peer topic name)
unfolding register_names keys_of add_key
register_names-Knows d peer topic name = elim (Bool-cases (name == [])) [
  | inl bare ↦ rw bare (add_key-Knows d peer (topic_key topic))
  | inr named ↦
      let key = registration channel_category topic name in
      rw named (
        Knows-trans peer (key ∷ []) (topic_key topic ∷ []) d (add_key d peer key)
          (add_key (add_key d peer key) peer (topic_key topic)) (add_key-Knows d peer key)
          (add_key-Knows (add_key d peer key) peer (topic_key topic)))
]
