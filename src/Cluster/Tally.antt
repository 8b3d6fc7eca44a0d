-- ===== src/Cluster/Tally.antt =====
-- The producers of a query, held by their TCP address, and how often each was reported.
use nsq.Common.{
  ℕ, ◌<◌, ◌≡◌, refl, sym, ap, ◌∙◌, Bool, true, false, List, [], ◌∷◌, Option, none, some, ◌==◌,
  nat_eq, bytes_eq, bytes_beq_iff, if◌then◌else◌, length, arith, Bool-cases, inl, inr,
}
use nsq.Common.Map.{lookup, insert, HasDistinctKeys}
use nsq.Cluster.Sort.{sum_over}
use nsq.Cluster.Gather.{}
use nsq.Cluster.Producers.{Producer, Semver, tcp_address, mark}

-- The producers of one answer, or of all of them, that have the TCP address.
module _ {V : Type 0} where
  -- A weight of the producers with the TCP address `a`.
  abbrev pub weight_at : (Producer V → ℕ) → List ℕ → Producer V → ℕ
  weight_at w a p = if tcp_address p == a then w p else 0

  abbrev pub remotes : Producer V → ℕ
  remotes p = length p.remote_addresses

  abbrev pub one : Producer V → ℕ
  one p = 1

  -- As a decoded producer is.
  abbrev pub AreFresh : List (Producer V) → Type 0
  AreFresh [] = Unit
  AreFresh (p ∷ ps) = (p.remote_addresses ≡ []) × AreFresh ps

  abbrev pub AreKeyed : List (List ℕ × Producer V) → Type 0
  AreKeyed [] = Unit
  AreKeyed ((key, p) ∷ m) = (tcp_address p ≡ key) × AreKeyed m

  pub insert-AreKeyed :
      (key : List ℕ) (p : Producer V) (m : List (List ℕ × Producer V))
      → tcp_address p ≡ key
      → AreKeyed m
      → AreKeyed (insert key p m)
  unfolding insert
  insert-AreKeyed key p [] e h = (e, tt)
  insert-AreKeyed key p ((at, q) ∷ m) e h = elim (Bool-cases (at == key)) [
    | inl same ↦ rw same (e, h.1)
    | inr other ↦ rw other (h.0, insert-AreKeyed key p m e h.1)
  ]

  -- The entry of the address `a` when `n` of the reported producers had it.
  pub lookup-AreKeyed :
      (a : List ℕ) (p : Producer V) (m : List (List ℕ × Producer V))
      → AreKeyed m
      → lookup a m ≡ some p
      → tcp_address p ≡ a
  unfolding lookup
  lookup-AreKeyed a p [] h e = cc
  lookup-AreKeyed a p ((key, q) ∷ m) h e =
      ground (arith, h.0, bytes_beq_iff key a, lookup-AreKeyed a p m h.1)

  abbrev pub IsTally : List ℕ → ℕ → Option (Producer V) → Type 0
  IsTally a n none = n ≡ 0
  IsTally a n (some p) = (remotes p ≡ n) × (0 < n)

  abbrev weight_of : (Producer V → ℕ) → Option (Producer V) → ℕ
  weight_of w none = 0
  weight_of w (some p) = w p

  pub tally-one :
      (a : List ℕ) (n : ℕ) (o : Option (Producer V))
      → IsTally a n o
      → weight_of one o ≡ (if n == 0 then 0 else 1)
  tally-one a n none t = ground arith
  tally-one a n (some p) t = ground (arith, t.1)

  pub tally-remotes :
      (a : List ℕ) (n : ℕ) (o : Option (Producer V)) → IsTally a n o → weight_of remotes o ≡ n
  tally-remotes a n none t = sym t
  tally-remotes a n (some p) t = t.0

module _ {V : Type 0} (semver : Semver V) (w : Producer V → ℕ)
    (kept : (p : Producer V) → w (record p { out_of_date = true }) ≡ w p) where
  weight-marked :
      (b : Bool) (a : List ℕ) (p : Producer V)
      → weight_at w a (if b then record p { out_of_date = true } else p) ≡ weight_at w a p
  unfolding tcp_address
  weight-marked true a p = rw (kept p) refl
  weight-marked false a p = refl

  weight_at-key :
      (a key : List ℕ) (p : Producer V) (b : Bool)
      → tcp_address p ≡ key
      → (key == a) ≡ b
      → weight_at w a p ≡ (if b then w p else 0)
  weight_at-key a key p b e h =
      ap (λ k. if k == a then w p else 0) e ∙ ap (λ c. if c then w p else 0) h

  pub sum_over-mark :
      (v : V) (a : List ℕ) (m : List (List ℕ × Producer V))
      → HasDistinctKeys m
      → AreKeyed m
      → sum_over (weight_at w a) (mark semver v m) ≡ weight_of w (lookup a m)
  unfolding mark lookup
  sum_over-mark v a [] d h = refl
  sum_over-mark v a ((key, p) ∷ m) d h =
      let head = weight-marked (semver.lt p.version_obj v) a p in
      let rest = sum_over-mark v a m d.1 h.1 in
      elim (Bool-cases (key == a)) [
        | inl same ↦
            let here = weight_at-key a key p true h.0 same in
            let gone : lookup a m ≡ none = rw (← (bytes_beq_iff key a).0 same) d.0 in
            let none_left : weight_of w (lookup a m) ≡ 0 = rw gone refl in
            rw same (omega (arith, head, here, rest, none_left))
        | inr other ↦
            let here = weight_at-key a key p false h.0 other in
            rw other (omega (arith, head, here, rest))
      ]
