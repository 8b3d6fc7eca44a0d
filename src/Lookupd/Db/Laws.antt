-- ===== src/Lookupd/Db/Laws.antt =====
-- What the methods of the registration database do to the registrations of a producer.
use nsq.Common.{
  ℕ, ◌≡◌, ◌↔◌, true, false, ◌&&◌, List, Option, none, some, if◌then◌else◌, nat_eq, bytes_eq,
  bytes_beq, bytes_beq_iff, arith, Option-cases, inl, inr,
}
use nsq.Common.Map.{lookup, insert, delete, lookup-insert, lookup-delete, lookup-nil}
use nsq.Lookupd.Db.{
  Registration, registration_eq, registration_beq, registration_beq_iff, PeerInfo, Producer,
  RegistrationDb, or_empty, add_producer, remove_producer,
}

-- The entry of a producer under a key.
abbrev pub producer_at : RegistrationDb → Registration → List ℕ → Option Producer
producer_at db k id = lookup id (or_empty (lookup k db.registration_map))

-- AddProducer adds its producer under its key and id where there was none, says whether it did, and
-- leaves all other entries as they are.
pub add_producer_lem :
    (peers : ℕ → PeerInfo) (db : RegistrationDb) (k : Registration) (p : Producer)
    → ((k' : Registration) (id' : List ℕ)
        → producer_at (add_producer peers db k p).0 k' id' ≡ (
            if (registration_beq k k' && bytes_beq (peers p.peer_info).id id')
              && (add_producer peers db k p).1
            then some p
            else producer_at db k' id'))
      × (((add_producer peers db k p).1 ≡ true) ↔ (producer_at db k (peers p.peer_info).id ≡ none))
unfolding add_producer
add_producer_lem peers db k p =
    let m = db.registration_map in
    let producers = or_empty (lookup k m) in
    let id = (peers p.peer_info).id in
    elim (Option-cases (lookup id producers)) [
      | inl new ↦ (
        λ k' id'. ground (
          arith,
          new,
          lookup-insert k k' (insert id p producers) m,
          lookup-insert id id' p producers,
          registration_beq_iff k k',
        ),
        ground (arith, new),
      )
      | inr (old, e) ↦ (
        λ k' id'. ground (arith, e, lookup-insert k k' producers m, registration_beq_iff k k'),
        ground (arith, e),
      )
    ]

-- RemoveProducer removes the entry of its key and id, says whether there was one, and leaves all
-- other entries as they are.
pub remove_producer_lem :
    (db : RegistrationDb) (k : Registration) (id : List ℕ)
    → ((k' : Registration) (id' : List ℕ)
        → producer_at (remove_producer db k id).0 k' id'
          ≡ (if registration_beq k k' && bytes_beq id id' then none else producer_at db k' id'))
      × (((remove_producer db k id).1 ≡ false) ↔ (producer_at db k id ≡ none))
unfolding remove_producer
remove_producer_lem db k id =
    let m = db.registration_map in
    elim (Option-cases (lookup k m)) [
      | inl missing ↦ (
        λ k' id'. ground (
          arith,
          missing,
          registration_beq_iff k k',
          bytes_beq_iff id id',
          lookup-nil {V = Producer} id',
        ),
        ground (arith, missing, lookup-nil {V = Producer} id),
      )
      | inr (producers, e) ↦ (
        λ k' id'. ground (
          arith,
          e,
          lookup-insert k k' (delete id producers) m,
          lookup-delete id id' producers,
          registration_beq_iff k k',
          bytes_beq_iff id id',
        ),
        ground (arith, e),
      )
    ]
