-- ===== src/Lookupd/Http/Deleted.antt =====
-- What deleting a topic over HTTP takes out of the registration database.
use nsq.Common.{
  ℕ, ◌≡◌, refl, ap, ◌∙◌, Bool, true, false, ◌&&◌, List, [], ◌∷◌, none, some, arith, if◌then◌else◌,
  nat_eq, bytes_eq, bytes_beq_iff, Option-cases, Bool-cases, inl, inr,
}
use nsq.Common.Map.{lookup, lookup-delete}
use nsq.Lookupd.Db.{
  Registration, registration_eq, registration_beq, registration_beq_iff, ProducerMap,
  RegistrationDb, registration, need_filter, is_match, remove_registration, find_registrations,
  filter_registrations, keys_of,
}
use nsq.Lookupd.Session.Cleanup.{has}
use nsq.Lookupd.Http.{remove_all}

remove_all-lookup :
    (db : RegistrationDb) (ks : List Registration) (k : Registration)
    → lookup k (remove_all db ks).registration_map
      ≡ (if has ks k then none else lookup k db.registration_map)
unfolding remove_all remove_registration
remove_all-lookup db [] k = refl
remove_all-lookup db (j ∷ ks) k = ground (
  arith,
  remove_all-lookup (remove_registration db j) ks k,
  lookup-delete j k db.registration_map,
)

filter_registrations-has :
    (ks : List Registration) (category key subkey : List ℕ) (k : Registration)
    → has (filter_registrations ks category key subkey) k
      ≡ has ks k && is_match k category key subkey
unfolding filter_registrations
filter_registrations-has [] category key subkey k = refl
filter_registrations-has (j ∷ ks) category key subkey k =
    let rest = filter_registrations-has ks category key subkey k in
    elim (Bool-cases (registration_beq j k)) [
      | inl same ↦
          let e : j ≡ k = (registration_beq_iff j k).0 same in
          let agree = ap (λ r. is_match r category key subkey) e in
          elim (Bool-cases (is_match k category key subkey)) [
            | inl fits ↦ rw (agree ∙ fits, fits, same) refl
            | inr fails ↦ rw (agree ∙ fails) (rest ∙ ground (arith, fails))
          ]
      | inr other ↦ elim (Bool-cases (is_match j category key subkey)) [
        | inl fits ↦ rw (fits, other) rest
        | inr fails ↦ rw (fails, other) rest
      ]
    ]

keys_of-absent :
    (m : List (Registration × ProducerMap)) (k : Registration)
    → has (keys_of m) k ≡ false
    → lookup k m ≡ none
unfolding lookup
keys_of-absent [] k h = refl
keys_of-absent ((j, producers) ∷ m) k h = ground (arith, keys_of-absent m k, h)

module _ (db : RegistrationDb) (category key subkey : List ℕ) (k : Registration) where
  abbrev found : List Registration
  found = find_registrations db category key subkey

  abbrev exact : Registration
  exact = registration category key subkey

  found-filtered :
      need_filter key subkey ≡ true
      → found ≡ filter_registrations (keys_of db.registration_map) category key subkey
  unfolding find_registrations
  found-filtered h = rw h refl

  found-exact :
      need_filter key subkey ≡ false
      → has found k ≡ (
          if registration_beq exact k
          then elim (lookup exact db.registration_map) as (λ _. Bool) [
            | none ↦ false
            | some _ ↦ true
          ]
          else false)
  unfolding find_registrations
  found-exact h = elim (Option-cases (lookup exact db.registration_map)) [
    | inl missing ↦ ground (arith, h, missing)
    | inr (producers, e) ↦ ground (arith, h, e)
  ]

  is_match-exact :
      need_filter key subkey ≡ false → is_match k category key subkey ≡ registration_beq exact k
  unfolding need_filter is_match
  is_match-exact h = ground (
    arith,
    bytes_beq_iff k.key key,
    bytes_beq_iff key k.key,
    bytes_beq_iff k.sub_key subkey,
    bytes_beq_iff subkey k.sub_key,
  )

  -- Removing what FindRegistrations finds leaves nothing that matches, and all the rest.
  pub remove_all-find :
      lookup k (remove_all db found).registration_map
      ≡ (if is_match k category key subkey then none else lookup k db.registration_map)
  remove_all-find = elim (Bool-cases (need_filter key subkey)) [
    | inl wide ↦
        remove_all-lookup db found k
        ∙ ap (λ ks. if has ks k then none else lookup k db.registration_map) (found-filtered wide)
        ∙ ground (
          arith,
          filter_registrations-has (keys_of db.registration_map) category key subkey k,
          keys_of-absent db.registration_map k,
        )
    | inr narrow ↦
        remove_all-lookup db found k
        ∙ ground (arith, found-exact narrow, is_match-exact narrow, registration_beq_iff exact k)
  ]
