-- ===== src/Lookupd/Http/Tombstone.antt =====
-- nsqlookupd/http.go: doTombstoneTopicProducer. FindProducers gives pointers to the producers in the
-- database, through which it writes: here the entries themselves are changed.
use nsq.Common.{
  ℕ, ◌+◌, ◌≤◌, ◌≡◌, ◌≢◌, refl, sym, ap, ◌∙◌, false, not, List, [], ◌∷◌, ◌++◌, Option, none, some,
  if◌then◌else◌, ◌==◌, nat_eq, bytes_eq, ltb, arith, Bool-cases, inl, inr, bytes_beq_iff,
}
use nsq.Common.Decimal.{itoa}
use nsq.Common.Map.{lookup, insert, lookup-insert, lookup-nil}
use nsq.Stringy.{contains}
use nsq.Lookupd.Db.{
  Registration, registration_eq, registration_beq, registration_beq_iff, PeerInfo, Producer,
  ProducerMap, RegistrationDb, registration, star, need_filter, is_match, tombstone, is_tombstoned,
  or_empty,
}
use nsq.Lookupd.Db.Laws.{producer_at}
use nsq.Lookupd.Session.{topic_category}
use nsq.Lookupd.Http.{
  missing_arg_node, Query, Parsed, parsed, topic_arg, node_key, or_reject, and_then,
  invalid_request,
}

module _ (peers : ℕ → PeerInfo) (node : List ℕ) (now : ℕ) where
  abbrev pub this_node : Producer → List ℕ
  this_node p =
      let peer_info = peers p.peer_info in
      peer_info.broadcast_address ++ b':' ∷ itoa peer_info.http_port

  abbrev pub marked : Producer → Producer
  marked p = if this_node p == node then tombstone p now else p

  -- The producers of one key.
  unfoldable pub mark_all : ProducerMap → ProducerMap
  mark_all [] = []
  mark_all ((id, p) ∷ m) = (id, marked p) ∷ mark_all m

  -- The producers of a key that matches, each id once over all keys; the ids are those met so far.
  unfoldable pub mark_new : List (List ℕ) → ProducerMap → List (List ℕ) × ProducerMap
  mark_new ids [] = (ids, [])
  mark_new ids ((id, p) ∷ m) =
      let peer_id = (peers p.peer_info).id in
      let is_old = contains ids peer_id in
      let (ids', m') = mark_new (if is_old then ids else ids ++ peer_id ∷ []) m in
      (ids', (id, if is_old then p else marked p) ∷ m')

  unfoldable pub mark_matching :
      List (List ℕ) → List (Registration × ProducerMap) → List ℕ → List (Registration × ProducerMap)
  mark_matching ids [] topic = []
  mark_matching ids ((k, producers) ∷ m) topic =
      let (ids', marked_here) = mark_new ids producers in
      if is_match k topic_category topic []
      then (k, marked_here) ∷ mark_matching ids' m topic
      else (k, producers) ∷ mark_matching ids m topic

  abbrev pub mark_key :
      Registration
      → List (Registration × ProducerMap)
      → Option ProducerMap
      → List (Registration × ProducerMap)
  mark_key k m none = m
  mark_key k m (some producers) = insert k (mark_all producers) m

  unfoldable pub tombstone_producers : RegistrationDb → List ℕ → RegistrationDb
  tombstone_producers db topic =
      let k = registration topic_category topic [] in
      let m = db.registration_map in
      if not (need_filter topic [])
      then record { registration_map = mark_key k m (lookup k m) }
      else record { registration_map = mark_matching [] m topic }

unfoldable pub do_tombstone_topic_producer :
    (ℕ → PeerInfo) → RegistrationDb → ℕ → Option Query → Parsed RegistrationDb
do_tombstone_topic_producer peers db now q = and_then (topic_arg q) λ topic.
    and_then (or_reject invalid_request q) λ p.
      and_then (or_reject missing_arg_node (lookup node_key p))
        λ node. parsed (tombstone_producers peers node now db topic)

module _ (peers : ℕ → PeerInfo) (node : List ℕ) (now : ℕ) where
  abbrev pub marked_entry : Option Producer → Option Producer
  marked_entry none = none
  marked_entry (some p) = some (if this_node peers node now p == node then tombstone p now else p)

  lookup-mark_all :
      (id : List ℕ) (m : ProducerMap)
      → lookup id (mark_all peers node now m) ≡ marked_entry (lookup id m)
  unfolding mark_all lookup
  lookup-mark_all id [] = refl
  lookup-mark_all id ((j, p) ∷ m) = elim (Bool-cases (j == id)) [
    | inl same ↦ rw same refl
    | inr other ↦ rw other (lookup-mark_all id m)
  ]

  marked_entry-nil : (id : List ℕ) → lookup id [] ≡ marked_entry (lookup id [])
  marked_entry-nil id = let e = lookup-nil {V = Producer} id in e ∙ sym (ap marked_entry e)

  mark_key-entry :
      (k k' : Registration) (m : List (Registration × ProducerMap)) (o : Option ProducerMap)
      (id : List ℕ)
      → lookup k m ≡ o
      → lookup id (or_empty (lookup k' (mark_key peers node now k m o))) ≡ (
          if registration_beq k k'
          then marked_entry (lookup id (or_empty (lookup k' m)))
          else lookup id (or_empty (lookup k' m)))
  mark_key-entry k k' m none id e = elim (Bool-cases (registration_beq k k')) [
    | inl same ↦
        let gone : lookup k' m ≡ none = rw ((registration_beq_iff k k').0 same) at e in
        rw (same, gone) (marked_entry-nil id)
    | inr other ↦ rw other refl
  ]
  mark_key-entry k k' m (some producers) id e = elim (Bool-cases (registration_beq k k')) [
    | inl same ↦
        let here : lookup k' m ≡ some producers = rw ((registration_beq_iff k k').0 same) at e in
        rw (lookup-insert k k' (mark_all peers node now producers) m, same, here)
          (lookup-mark_all id producers)
    | inr other ↦ rw (lookup-insert k k' (mark_all peers node now producers) m, other) refl
  ]

  tombstone-is_tombstoned :
      (p : Producer) (later lifetime : ℕ)
      → now ≤ later
      → is_tombstoned (tombstone p now) later lifetime ≡ ltb later (now + lifetime)
  unfolding is_tombstoned tombstone
  tombstone-is_tombstoned p later lifetime after = ground (arith, after)

  -- Tombstoning a node for a topic that is not the wildcard tombstones the entries of the topic whose
  -- producers are on that node, and no other entry; from then on, a producer that is tombstoned `now`
  -- counts as tombstoned exactly until the lifetime of a tombstone has passed.
  pub tombstone_producers_lem :
      (db : RegistrationDb) (topic : List ℕ) (k : Registration) (id : List ℕ) (p : Producer)
      (later lifetime : ℕ)
      → topic ≢ star
      → now ≤ later
      → (producer_at (tombstone_producers peers node now db topic) k id ≡ (
          if registration_beq (registration topic_category topic []) k
          then marked_entry (producer_at db k id)
          else producer_at db k id))
        × (is_tombstoned (tombstone p now) later lifetime ≡ ltb later (now + lifetime))
  unfolding tombstone_producers need_filter
  tombstone_producers_lem db topic k id p later lifetime ne after =
      let key = registration topic_category topic [] in
      let m = db.registration_map in
      let narrow : (topic == star) ≡ false = ground (arith, bytes_beq_iff topic star, ne) in
      (
        rw narrow (mark_key-entry key k m (lookup key m) id refl),
        tombstone-is_tombstoned p later lifetime after,
      )
