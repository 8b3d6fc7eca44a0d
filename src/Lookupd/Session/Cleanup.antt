-- ===== src/Lookupd/Session/Cleanup.antt =====
-- The end of a connection leaves no producer of its client behind.
use nsq.Common.{
  ℕ, ◌≡◌, refl, Bool, true, false, ◌&&◌, List, [], ◌∷◌, none, some, arith, if◌then◌else◌, bytes_eq,
  bytes_beq, bytes_beq_iff, Option-cases, inl, inr,
}
use nsq.Common.Map.{lookup}
use nsq.Lookupd.Db.{
  Registration, registration_eq, registration_beq, registration_beq_iff, ProducerMap,
  RegistrationDb, or_empty, remove_producer, registrations_with, lookup_registrations,
}
use nsq.Lookupd.Db.Laws.{producer_at, remove_producer_lem}
use nsq.Lookupd.Session.{Lookupd, Client, remove_from_all, disconnect}

abbrev pub has : List Registration → Registration → Bool
has [] k = false
has (j ∷ ks) k = if registration_beq j k then true else has ks k

registrations_with_complete :
    (id : List ℕ) (k : Registration) (m : List (Registration × ProducerMap))
    → has (registrations_with id m) k ≡ false
    → lookup id (or_empty (lookup k m)) ≡ none
unfolding registrations_with lookup
registrations_with_complete id k [] h = refl
registrations_with_complete id k ((j, producers) ∷ m) h =
    elim (Option-cases (lookup id producers)) [
      | inl missing ↦
          ground (arith, missing, registrations_with_complete id k m, h, registration_beq_iff j k)
      | inr (p, found) ↦
          ground (arith, found, registrations_with_complete id k m, h, registration_beq_iff j k)
    ]

pub remove_from_all-entry :
    (db : RegistrationDb) (ks : List Registration) (id : List ℕ) (k' : Registration) (id' : List ℕ)
    → producer_at (remove_from_all db ks id) k' id'
      ≡ (if has ks k' && bytes_beq id id' then none else producer_at db k' id')
unfolding remove_from_all
remove_from_all-entry db [] id k' id' = refl
remove_from_all-entry db (k ∷ ks) id k' id' = ground (
  arith,
  remove_from_all-entry (remove_producer db k id).0 ks id k' id',
  (remove_producer_lem db k id).0 k' id',
)

-- When a client that has identified itself disconnects, its producer is under no key any longer,
-- and all entries of other producers stay as they were; the peer infos do not change.
pub disconnect_lem :
    (d : Lookupd) (client : Client) (peer : ℕ)
    → client.peer_info ≡ some peer
    → ((k : Registration) (id' : List ℕ)
        → producer_at (disconnect d client).db k id'
          ≡ (if bytes_beq (d.peers peer).id id' then none else producer_at d.db k id'))
      × ((disconnect d client).peers ≡ d.peers)
unfolding disconnect lookup_registrations
disconnect_lem d client peer e =
    let id = (d.peers peer).id in
    let m = d.db.registration_map in
    (
      λ k id'. simp e (
          ground (
            arith,
            remove_from_all-entry d.db (registrations_with id m) id k id',
            registrations_with_complete id k m,
            bytes_beq_iff id id',
          )),
      simp e refl,
    )
