-- ===== src/Lookupd/Session/Entries.antt =====
-- What the changes of one producer leave of the registrations of the others.
use nsq.Common.{
  ℕ, ◌≡◌, ◌≢◌, ◌∙◌, List, [], ◌∷◌, none, arith, ◌==◌, nat_eq, bytes_eq, bytes_beq_iff, length,
  Option-cases, Bool-cases, inl, inr,
}
use nsq.Common.Map.{lookup, delete, lookup-insert, lookup-delete, lookup-nil}
use nsq.Lookupd.Db.{
  Registration, registration_eq, registration_beq_iff, PeerInfo, Producer, RegistrationDb,
  add_producer, remove_producer, remove_registration, registration, find_registrations, star,
}
use nsq.Lookupd.Db.Laws.{producer_at, add_producer_lem, remove_producer_lem}
use nsq.Lookupd.Session.{
  Lookupd, topic_category, channel_category, producer_of, register_names, remove_from_all,
  unregister_key, unregister_names,
}
use nsq.Lookupd.Session.Cleanup.{remove_from_all-entry}

-- The entries of the producer with the id `id'` are the same in both databases.
abbrev pub SameFor : List ℕ → RegistrationDb → RegistrationDb → Type 0
SameFor id' db db' = (k : Registration) → producer_at db' k id' ≡ producer_at db k id'

pub add_producer-others :
    (peers : ℕ → PeerInfo) (db : RegistrationDb) (k : Registration) (p : Producer) (id' : List ℕ)
    → (peers p.peer_info).id ≢ id'
    → SameFor id' db (add_producer peers db k p).0
add_producer-others peers db k p id' ne k' =
    ground
      (arith, (add_producer_lem peers db k p).0 k' id', bytes_beq_iff (peers p.peer_info).id id')

pub register_names-others :
    (d : Lookupd) (peer : ℕ) (topic channel id' : List ℕ)
    → (d.peers peer).id ≢ id'
    → SameFor id' d.db (register_names d peer topic channel).db
unfolding register_names
register_names-others d peer topic channel id' ne k = elim (Bool-cases (channel == [])) [
  | inl bare ↦ rw bare (
      add_producer-others d.peers d.db (registration topic_category topic []) (producer_of peer) id'
        ne k)
  | inr named ↦
      let with_channel =
        (add_producer d.peers d.db (registration channel_category topic channel)
          (producer_of peer)).0 in
      rw named (
        add_producer-others d.peers with_channel (registration topic_category topic [])
          (producer_of peer) id' ne k
        ∙ add_producer-others d.peers d.db (registration channel_category topic channel)
            (producer_of peer) id' ne k)
]

no_entries :
    {V : Type 0} (m : List (List ℕ × V)) (id' : List ℕ) → length m ≡ 0 → lookup id' m ≡ none
no_entries {V} [] id' h = lookup-nil {V = V} id'
no_entries (e ∷ m) id' h = absurd (omega arith)

remove_producer-none :
    (db : RegistrationDb) (k : Registration) (id id' : List ℕ)
    → (remove_producer db k id).2 ≡ 0
    → producer_at (remove_producer db k id).0 k id' ≡ none
unfolding remove_producer
remove_producer-none db k id id' h =
    let m = db.registration_map in
    elim (Option-cases (lookup k m)) [
      | inl missing ↦ ground (arith, missing, lookup-nil {V = Producer} id')
      | inr (producers, e) ↦ ground (
        arith,
        e,
        h,
        lookup-insert k k (delete id producers) m,
        registration_beq_iff k k,
        no_entries (delete id producers) id',
      )
    ]

remove_producer-others :
    (db : RegistrationDb) (k : Registration) (id id' : List ℕ)
    → id ≢ id'
    → SameFor id' db (remove_producer db k id).0
remove_producer-others db k id id' ne k' =
    ground (arith, (remove_producer_lem db k id).0 k' id', bytes_beq_iff id id')

unregister_key-others :
    (db : RegistrationDb) (k : Registration) (id name id' : List ℕ)
    → id ≢ id'
    → SameFor id' db (unregister_key db k id name)
unfolding unregister_key remove_registration
unregister_key-others db k id name id' ne k' = ground (
  arith,
  remove_producer-others db k id id' ne k',
  remove_producer-none db k id id',
  registration_beq_iff k k',
  lookup-delete k k' (remove_producer db k id).0.registration_map,
  lookup-nil {V = Producer} id',
)

remove_from_all-others :
    (db : RegistrationDb) (ks : List Registration) (id id' : List ℕ)
    → id ≢ id'
    → SameFor id' db (remove_from_all db ks id)
remove_from_all-others db ks id id' ne k =
    ground (arith, remove_from_all-entry db ks id k id', bytes_beq_iff id id')

pub unregister_names-others :
    (db : RegistrationDb) (id topic channel id' : List ℕ)
    → id ≢ id'
    → SameFor id' db (unregister_names db id topic channel)
unfolding unregister_names
unregister_names-others db id topic channel id' ne k = elim (Bool-cases (channel == [])) [
  | inl bare ↦
      let ks = find_registrations db channel_category topic star in
      rw bare (
        unregister_key-others (remove_from_all db ks id) (registration topic_category topic []) id
          topic id' ne k
        ∙ remove_from_all-others db ks id id' ne k)
  | inr named ↦
      rw named
        (unregister_key-others db (registration channel_category topic channel) id channel id' ne k)
]
