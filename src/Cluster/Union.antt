-- ===== src/Cluster/Union.antt =====
-- The union of the producers that several nsqlookupds name for a topic.
use nsq.Common.{
  ℕ, ◌≡◌, ◌≢◌, refl, sym, ap, ◌∙◌, List, [], ◌∷◌, ◌++◌, ◌==◌, nat_eq, bytes_eq, if◌then◌else◌,
  length, arith, Bool-cases, inl, inr,
}
use nsq.Common.Map.{}
use nsq.Stringy.{contains, add, DistinctFrom, contains-union}
use nsq.Cluster.Gather.{
  Answer, failed, answered, Gathered, none_answered, gathered, collect, Names, add_each,
  is_reported, failures,
}
use nsq.Cluster.Names.{length-collect, contains-collect, add_each-union, distinct-add_each}
use nsq.Cluster.Producers.{
  Producer, http_address, http_addrs, is_known, add_unknown, get_lookupd_topic_producers,
}

module _ {V : Type 0} where
  is_known-contains :
      (producers : List (Producer V)) (p : Producer V)
      → is_known producers p ≡ contains (http_addrs producers) (http_address p)
  unfolding is_known http_addrs contains
  is_known-contains [] p = refl
  is_known-contains (q ∷ producers) p = rw (is_known-contains producers p) refl

  http_addrs-last :
      (ps : List (Producer V)) (p : Producer V)
      → http_addrs (ps ++ p ∷ []) ≡ http_addrs ps ++ http_address p ∷ []
  unfolding http_addrs
  http_addrs-last [] p = refl
  http_addrs-last (q ∷ ps) p = ap (◌∷◌ (http_address q)) (http_addrs-last ps p)

  http_addrs-step :
      (producers : List (Producer V)) (p : Producer V)
      → http_addrs (if is_known producers p then producers else producers ++ p ∷ [])
        ≡ add (http_addrs producers) (http_address p)
  unfolding add
  http_addrs-step producers p =
      rw (sym (is_known-contains producers p)) (elim (Bool-cases (is_known producers p)) [
        | inl known ↦ rw known refl
        | inr new ↦ rw new (http_addrs-last producers p)
      ])

  http_addrs-add_unknown :
      (producers ps : List (Producer V))
      → http_addrs (add_unknown producers ps) ≡ add_each (http_addrs producers) (http_addrs ps)
  unfolding http_addrs add_unknown add_each
  http_addrs-add_unknown producers [] = refl
  http_addrs-add_unknown producers (p ∷ ps) =
      http_addrs-add_unknown (if is_known producers p then producers else producers ++ p ∷ []) ps
      ∙ ap (λ s. add_each s (http_addrs ps)) (http_addrs-step producers p)

  module _ {E : Type 0} where
    -- The HTTP addresses that the answers hold.
    abbrev pub addresses_of : List (Answer E (List (Producer V))) → List (Answer E Names)
    addresses_of [] = []
    addresses_of (failed e ∷ answers) = failed e ∷ addresses_of answers
    addresses_of (answered ps ∷ answers) = answered (http_addrs ps) ∷ addresses_of answers

    http_addrs-collect :
        (producers : List (Producer V)) (errs : List E)
        (answers : List (Answer E (List (Producer V))))
        → http_addrs (collect add_unknown producers errs answers).0
          ≡ (collect add_each (http_addrs producers) errs (addresses_of answers)).0
    unfolding collect
    http_addrs-collect producers errs [] = refl
    http_addrs-collect producers errs (failed e ∷ answers) =
        http_addrs-collect producers (errs ++ e ∷ []) answers
    http_addrs-collect producers errs (answered ps ∷ answers) =
        http_addrs-collect (add_unknown producers ps) errs answers
        ∙ ap (λ s. (collect add_each s errs (addresses_of answers)).0)
            (http_addrs-add_unknown producers ps)

    -- One producer for each HTTP address in the answers, and an error for each that failed.
    abbrev pub IsUnion :
        List (Answer E (List (Producer V))) → Gathered E (List (Producer V)) → Type 0
    IsUnion answers (none_answered errs) =
        (failures answers ≡ length answers) × (length errs ≡ failures answers)
    IsUnion answers (gathered ps errs) =
        (failures answers ≢ length answers)
        × (length errs ≡ failures answers)
        × DistinctFrom [] (http_addrs ps)
        × ((b : List ℕ) → contains (http_addrs ps) b ≡ is_reported (addresses_of answers) b)

    -- GetLookupdTopicProducers fails exactly if all addresses failed; otherwise it returns one
    -- producer for each HTTP address that some answer holds, no other, and no address twice. In
    -- both cases it gives as many errors as addresses failed.
    pub topic_producers-IsUnion :
        (answers : List (Answer E (List (Producer V))))
        → IsUnion answers (get_lookupd_topic_producers answers)
    unfolding get_lookupd_topic_producers http_addrs contains
    topic_producers-IsUnion answers =
        let no_errs : List E = [] in
        let none_yet : List (Producer V) = [] in
        let r = collect add_unknown none_yet no_errs answers in
        let e = http_addrs-collect none_yet no_errs answers in
        let n : length r.1 ≡ failures answers =
          omega (arith, length-collect add_unknown none_yet no_errs answers) in
        elim (Bool-cases (length r.1 == length answers)) [
          | inl all_failed ↦ rw all_failed (ground arith, n)
          | inr some_answered ↦ rw some_answered (
            (λ (f : failures answers ≡ length answers). ground arith),
            n,
            rw e (distinct-add_each [] no_errs (addresses_of answers) tt),
            λ b. rw e (
                contains-collect add_each
                  (λ s names b'. rw (add_each-union s names) (contains-union s names b')) [] no_errs
                  (addresses_of answers) b),
          )
        ]
