-- ===== src/Cluster/Merged.antt =====
-- The producers that several nsqlookupds know, merged by their TCP address.
use nsq.Common.{
  ℕ, ◌+◌, ◌≡◌, ◌≢◌, refl, ap, ◌∙◌, List, [], ◌∷◌, ◌++◌, Option, none, some, ◌==◌, nat_eq, bytes_eq,
  bytes_beq_iff, if◌then◌else◌, length, length-append, arith, subst, Bool-cases, inl, inr,
}
use nsq.Common.Map.{
  lookup, insert, lookup-insert, lookup-nil, HasDistinctKeys, insert-HasDistinctKeys,
}
use nsq.Cluster.Sort.{sort_by, sum_over, sum_over-sort_by}
use nsq.Cluster.Gather.{
  Answer, failed, answered, Gathered, none_answered, gathered, collect, failures,
}
use nsq.Cluster.Names.{length-collect}
use nsq.Cluster.Producers.{
  Producer, Semver, address, tcp_address, host_less, topic_less, Found, with_remote, add_found,
  add_producers, mark, get_lookupd_producers,
}
use nsq.Cluster.Tally.{
  weight_at, remotes, one, AreFresh, AreKeyed, insert-AreKeyed, lookup-AreKeyed, IsTally, tally-one,
  tally-remotes, sum_over-mark,
}

module _ {V : Type 0} where
  -- What the loops know of the map: `n a` of the reported producers had the address `a`.
  abbrev Holds : Found V → (List ℕ → ℕ) → Type 0
  Holds f n =
      HasDistinctKeys f.producers_by_addr
      × AreKeyed f.producers_by_addr
      × ((a : List ℕ) → IsTally a (n a) (lookup a f.producers_by_addr))

  Holds-agree :
      (f : Found V) (n n' : List ℕ → ℕ) → ((a : List ℕ) → n a ≡ n' a) → Holds f n → Holds f n'
  Holds-agree f n n' e (d, k, t) =
      (d, k, λ a. subst (λ c. IsTally a c (lookup a f.producers_by_addr)) (e a) (t a))

module _ {V : Type 0} (semver : Semver V) where
  insert-Holds :
      (p q : Producer V) (m : List (List ℕ × Producer V)) (v v' : V) (n : List ℕ → ℕ)
      → tcp_address q ≡ tcp_address p
      → remotes q ≡ n (tcp_address p) + 1
      → Holds (record { producers_by_addr = m; max_version = v }) n
      → Holds
          (record { producers_by_addr = insert (tcp_address p) q m; max_version = v' })
          (λ a. n a + weight_at one a p)
  insert-Holds p q m v v' n same_key counted (d, k, t) = (
    insert-HasDistinctKeys (tcp_address p) q m d,
    insert-AreKeyed (tcp_address p) q m same_key k,
    λ a. elim (Bool-cases (tcp_address p == a)) [
      | inl same ↦
          let e = (bytes_beq_iff (tcp_address p) a).0 same in
          let here : n (tcp_address p) ≡ n a = ap n e in
          rw (lookup-insert (tcp_address p) a q m, same) (omega (arith, counted, here), omega arith)
      | inr other ↦
          let z : n a + 0 ≡ n a = omega arith in
          rw (lookup-insert (tcp_address p) a q m, other, z) (t a)
    ],
  )

  add_found-of :
      (addr : List ℕ) (p : Producer V) (f : Found V) (n : List ℕ → ℕ) (o : Option (Producer V))
      → p.remote_addresses ≡ []
      → lookup (tcp_address p) f.producers_by_addr ≡ o
      → Holds f n
      → Holds (add_found semver addr p f o) (λ a. n a + weight_at one a p)
  unfolding tcp_address
  add_found-of addr p f n none fresh e h =
      let t : IsTally {V = V} (tcp_address p) (n (tcp_address p)) none =
        subst (IsTally {V = V} (tcp_address p) (n (tcp_address p))) e (h.2 (tcp_address p)) in
      let p' = with_remote semver addr p (record p { topics = sort_by topic_less p.topics }) in
      let v' = if semver.lt f.max_version p.version_obj then p.version_obj else f.max_version in
      let none_yet : remotes p ≡ 0 = ap (λ (l : List (List ℕ)). length l) fresh in
      insert-Holds p p' f.producers_by_addr f.max_version v' n refl
        (omega
          (arith, t, none_yet, length-append p.remote_addresses ((addr ++ b'/' ∷ address p) ∷ [])))
        h
  add_found-of addr p f n (some q) fresh e h =
      let t : IsTally {V = V} (tcp_address p) (n (tcp_address p)) (some q) =
        subst (IsTally {V = V} (tcp_address p) (n (tcp_address p))) e (h.2 (tcp_address p)) in
      let known = lookup-AreKeyed (tcp_address p) q f.producers_by_addr h.1 e in
      insert-Holds p (with_remote semver addr p q) f.producers_by_addr f.max_version f.max_version n
        known
        (omega (arith, t.0, length-append q.remote_addresses ((addr ++ b'/' ∷ address p) ∷ []))) h

  add_producers-Holds :
      (addr : List ℕ) (ps : List (Producer V)) (f : Found V) (n n' : List ℕ → ℕ)
      → AreFresh ps
      → ((a : List ℕ) → n' a ≡ n a + sum_over (weight_at one a) ps)
      → Holds f n
      → Holds (add_producers semver addr f ps) n'
  unfolding add_producers
  add_producers-Holds addr [] f n n' fresh s h = Holds-agree f n n' (λ a. omega (arith, s a)) h
  add_producers-Holds addr (p ∷ ps) f n n' fresh s h =
      add_producers-Holds addr ps
        (add_found semver addr p f (lookup (tcp_address p) f.producers_by_addr))
        (λ a. n a + weight_at one a p) n' fresh.1 (λ a. omega (arith, s a))
        (add_found-of addr p f n (lookup (tcp_address p) f.producers_by_addr) fresh.0 refl h)

module _ {V E : Type 0} where
  -- How often the answers hold a producer with the TCP address.
  abbrev pub reports : List ℕ → List (Answer E (List ℕ × List (Producer V))) → ℕ
  reports a [] = 0
  reports a (failed e ∷ answers) = reports a answers
  reports a (answered (addr, ps) ∷ answers) = sum_over (weight_at one a) ps + reports a answers

  abbrev pub AreAllFresh : List (Answer E (List ℕ × List (Producer V))) → Type 0
  AreAllFresh [] = Unit
  AreAllFresh (failed e ∷ answers) = AreAllFresh answers
  AreAllFresh (answered (addr, ps) ∷ answers) = AreFresh ps × AreAllFresh answers

  -- One producer for each TCP address, with one remote address for each time it was reported.
  abbrev pub IsMerged :
      List (Answer E (List ℕ × List (Producer V))) → Gathered E (List (Producer V)) → Type 0
  IsMerged answers (none_answered errs) =
      (failures answers ≡ length answers) × (length errs ≡ failures answers)
  IsMerged answers (gathered ps errs) =
      (failures answers ≢ length answers)
      × (length errs ≡ failures answers)
      × ((a : List ℕ)
          → (sum_over (weight_at one a) ps ≡ (if reports a answers == 0 then 0 else 1))
            × (sum_over (weight_at remotes a) ps ≡ reports a answers))

module _ {V : Type 0} (semver : Semver V) where
  absorb : Found V → List ℕ × List (Producer V) → Found V
  absorb f answer = add_producers semver answer.0 f answer.1

  collect-Holds :
      {E : Type 0} (f : Found V) (errs : List E)
      (answers : List (Answer E (List ℕ × List (Producer V)))) (n n' : List ℕ → ℕ)
      → AreAllFresh answers
      → ((a : List ℕ) → n' a ≡ n a + reports a answers)
      → Holds f n
      → Holds (collect absorb f errs answers).0 n'
  unfolding collect absorb
  collect-Holds f errs [] n n' fresh s h = Holds-agree f n n' (λ a. omega (arith, s a)) h
  collect-Holds f errs (failed e ∷ answers) n n' fresh s h =
      collect-Holds f (errs ++ e ∷ []) answers n n' fresh s h
  collect-Holds f errs (answered (addr, ps) ∷ answers) n n' fresh s h =
      let n₁ : List ℕ → ℕ = λ a. n a + sum_over (weight_at one a) ps in
      collect-Holds (add_producers semver addr f ps) errs answers n₁ n' fresh.1
        (λ a. omega (arith, s a)) (add_producers-Holds semver addr ps f n n₁ fresh.0 (λ a. refl) h)

  found_counts :
      (a : List ℕ) (n : ℕ) (f : Found V)
      → HasDistinctKeys f.producers_by_addr
      → AreKeyed f.producers_by_addr
      → IsTally a n (lookup a f.producers_by_addr)
      → (sum_over
            (weight_at one a)
            (sort_by host_less (mark semver f.max_version f.producers_by_addr))
          ≡ (if n == 0 then 0 else 1))
        × (sum_over
              (weight_at remotes a)
              (sort_by host_less (mark semver f.max_version f.producers_by_addr))
            ≡ n)
  found_counts a n f d k t =
      let m = f.producers_by_addr in
      let ps = mark semver f.max_version m in
      (
        sum_over-sort_by host_less (weight_at one a) ps
            ∙ sum_over-mark semver one (λ p. refl) f.max_version a m d k
            ∙ tally-one a n (lookup a m) t,
        sum_over-sort_by host_less (weight_at remotes a) ps
            ∙ sum_over-mark semver remotes (λ p. refl) f.max_version a m d k
            ∙ tally-remotes a n (lookup a m) t,
      )

  -- GetLookupdProducers, when the producers of the answers are as decoding leaves them, fails exactly
  -- if all addresses failed, and gives as many errors as addresses failed. Otherwise, for each TCP
  -- address, it returns one producer if an answer holds one with that address and none if not, and
  -- the producer has one remote address for each time that the answers hold it.
  pub lookupd_producers-IsMerged :
      {E : Type 0} (answers : List (Answer E (List ℕ × List (Producer V))))
      → AreAllFresh answers
      → IsMerged answers (get_lookupd_producers semver answers)
  unfolding get_lookupd_producers absorb
  lookupd_producers-IsMerged {E} answers fresh =
      let no_errs : List E = [] in
      let start : Found V = record { producers_by_addr = []; max_version = semver.zero_version } in
      let r = collect absorb start no_errs answers in
      let n : length r.1 ≡ failures answers =
        omega (arith, length-collect absorb start no_errs answers) in
      let (d, k, t) =
        collect-Holds start no_errs answers (λ a. 0) (λ a. reports a answers) fresh
          (λ a. omega arith) (tt, tt, λ a. rw (lookup-nil {V = Producer V} a) refl) in
      elim (Bool-cases (length r.1 == length answers)) [
        | inl all_failed ↦ rw all_failed (ground arith, n)
        | inr some_answered ↦ rw some_answered (
          (λ (f : failures answers ≡ length answers). ground arith),
          n,
          λ a. found_counts a (reports a answers) r.0 d k (t a),
        )
      ]
