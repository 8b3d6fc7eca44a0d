-- ===== src/Common/Map.antt =====
-- A Go map, as an association list with at most one entry for each key.
use mathlib.Core.Path.{◌≡◌, refl}
use mathlib.Core.List.{List, [], ◌∷◌, ◌++◌}
use mathlib.Core.Option.{Option, none, some}
use native.Mathlib.Omega.{arith}
use nsq.Common.Tests.{Eq, ◌==◌, if◌then◌else◌, Bool-cases}
use mathlib.Core.Logic.{inl, inr}
use Prim.Native.Nat.{ℕ, ◌+◌, ◌≤◌, ◌<◌}
use nsq.Common.Lists.{length}

module _ {ℓ κ} {K : Type ℓ} {V : Type κ} ⦃e : Eq K⦄ where
  unfoldable pub insert : K → V → List (K × V) → List (K × V)
  insert key new [] = (key, new) ∷ []
  insert key new ((at, old) ∷ rest) =
      if at == key then (key, new) ∷ rest else (at, old) ∷ insert key new rest

  unfoldable pub delete : K → List (K × V) → List (K × V)
  delete key [] = []
  delete key ((at, old) ∷ rest) =
      let kept = delete key rest in if at == key then kept else (at, old) ∷ kept

  unfoldable pub lookup : K → List (K × V) → Option V
  lookup key [] = none
  lookup key ((at, value) ∷ rest) = if at == key then some value else lookup key rest

  pub lookup-delete :
      (key other : K) (m : List (K × V))
      → lookup other (delete key m) ≡ (if key == other then none else lookup other m)
  unfolding delete lookup
  lookup-delete key other [] = ground arith
  lookup-delete key other ((at, old) ∷ rest) = ground (
    lookup-delete key other rest,
    e.test_iff at key,
    e.test_iff at other,
    e.test_iff key other,
    arith,
  )

  pub lookup-insert :
      (key other : K) (new : V) (m : List (K × V))
      → lookup other (insert key new m) ≡ (if key == other then some new else lookup other m)
  unfolding insert lookup
  lookup-insert key other new [] = refl
  lookup-insert key other new ((at, old) ∷ rest) = ground (
    lookup-insert key other new rest,
    e.test_iff at key,
    e.test_iff at other,
    e.test_iff key other,
    arith,
  )

  pub lookup-nil : (k : K) → ◌≡◌ {A = Option V} (lookup k []) none
  unfolding lookup
  lookup-nil k = refl

  -- No key occurs twice, as in a Go map.
  abbrev pub HasDistinctKeys : List (K × V) → Type κ
  HasDistinctKeys [] = Unit
  HasDistinctKeys ((j, w) ∷ m) = (lookup j m ≡ none) × HasDistinctKeys m

  pub insert-HasDistinctKeys :
      (k : K) (v : V) (m : List (K × V)) → HasDistinctKeys m → HasDistinctKeys (insert k v m)
  unfolding insert
  insert-HasDistinctKeys k v [] d = (lookup-nil k, tt)
  insert-HasDistinctKeys k v ((j, w) ∷ m) d = elim (Bool-cases (j == k)) [
    | inl same ↦ rw same (rw ((e.test_iff j k).0 same) at d.0, d.1)
    | inr other ↦ rw other (
      ground (arith, lookup-insert k j v m, e.test_iff j k, e.test_iff k j, d.0),
      insert-HasDistinctKeys k v m d.1,
    )
  ]

  pub delete-HasDistinctKeys :
      (k : K) (m : List (K × V)) → HasDistinctKeys m → HasDistinctKeys (delete k m)
  unfolding delete
  delete-HasDistinctKeys k [] d = tt
  delete-HasDistinctKeys k ((j, w) ∷ m) d = elim (Bool-cases (j == k)) [
    | inl same ↦ rw same (delete-HasDistinctKeys k m d.1)
    | inr other ↦
        rw other (ground (arith, lookup-delete k j m, d.0), delete-HasDistinctKeys k m d.1)
  ]

  length-delete-le : (k : K) (m : List (K × V)) → length (delete k m) ≤ length m
  unfolding delete
  length-delete-le k [] = omega arith
  length-delete-le k ((j, w) ∷ m) = ground (arith, length-delete-le k m)

  pub length-delete :
      (k : K) (v : V) (m : List (K × V)) → lookup k m ≡ some v → length (delete k m) < length m
  unfolding lookup delete
  length-delete k v [] h = cc
  length-delete k v ((j, w) ∷ m) h = elim (Bool-cases (j == k)) [
    | inl same ↦ rw same (omega (arith, length-delete-le k m))
    | inr other ↦ rw other (omega (arith, length-delete k v m (ground arith)))
  ]

  -- The sum of a weight over the values.
  abbrev pub total : (V → ℕ) → List (K × V) → ℕ
  total w [] = 0
  total w ((j, v) ∷ m) = w v + total w m

  pub total-insert :
      (w : V → ℕ) (k : K) (v : V) (m : List (K × V))
      → lookup k m ≡ none
      → total w (insert k v m) ≡ total w m + w v
  unfolding insert lookup
  total-insert w k v [] h = omega arith
  total-insert w k v ((j, u) ∷ m) h = elim (Bool-cases (j == k)) [
    | inl same ↦ absurd (ground arith)
    | inr other ↦ rw other (omega (arith, total-insert w k v m (ground arith)))
  ]

  pub total-delete_none :
      (w : V → ℕ) (k : K) (m : List (K × V)) → lookup k m ≡ none → total w (delete k m) ≡ total w m
  unfolding delete lookup
  total-delete_none w k [] h = refl
  total-delete_none w k ((j, u) ∷ m) h = elim (Bool-cases (j == k)) [
    | inl same ↦ absurd (ground arith)
    | inr other ↦ rw other (omega (arith, total-delete_none w k m (ground arith)))
  ]

  pub total-delete :
      (w : V → ℕ) (k : K) (v : V) (m : List (K × V))
      → HasDistinctKeys m
      → lookup k m ≡ some v
      → total w m ≡ total w (delete k m) + w v
  unfolding delete lookup
  total-delete w k v [] d h = cc
  total-delete w k v ((j, u) ∷ m) d h = elim (Bool-cases (j == k)) [
    | inl same ↦
        let e : j ≡ k = (e.test_iff j k).0 same in
        let gone : lookup k m ≡ none = rw e at (d.0) in
        let here : w u ≡ w v = ground arith in
        rw same (omega (arith, total-delete_none w k m gone, here))
    | inr other ↦ rw other (omega (arith, total-delete w k v m d.1 (ground arith)))
  ]

  pub weight-le-total :
      (w : V → ℕ) (k : K) (v : V) (m : List (K × V)) → lookup k m ≡ some v → w v ≤ total w m
  unfolding lookup
  weight-le-total w k v [] h = cc
  weight-le-total w k v ((j, u) ∷ m) h = elim (Bool-cases (j == k)) [
    | inl same ↦ let here : w u ≡ w v = ground arith in omega (arith, here)
    | inr other ↦ omega (arith, weight-le-total w k v m (ground arith))
  ]

  pub insert-absent :
      (k : K) (v : V) (m : List (K × V)) → lookup k m ≡ none → insert k v m ≡ m ++ (k, v) ∷ []
  unfolding insert lookup
  insert-absent k v [] h = refl
  insert-absent k v ((j, u) ∷ m) h = elim (Bool-cases (j == k)) [
    | inl same ↦ absurd (ground arith)
    | inr other ↦ rw (other, insert-absent k v m (ground arith))
  ]

  pub insert-last :
      (k : K) (u v : V) (m : List (K × V))
      → lookup k m ≡ none
      → insert k v (m ++ (k, u) ∷ []) ≡ m ++ (k, v) ∷ []
  unfolding insert lookup
  insert-last k u v [] h = rw ((e.test_iff k k).1 refl)
  insert-last k u v ((j, w) ∷ m) h = elim (Bool-cases (j == k)) [
    | inl same ↦ absurd (ground arith)
    | inr other ↦ rw (other, insert-last k u v m (ground arith))
  ]

  pub lookup-last :
      (j k : K) (u : V) (m : List (K × V))
      → lookup j m ≡ none
      → lookup j (m ++ (k, u) ∷ []) ≡ (if k == j then some u else none)
  unfolding lookup
  lookup-last j k u [] h = refl
  lookup-last j k u ((i, w) ∷ m) h = elim (Bool-cases (i == j)) [
    | inl same ↦ absurd (ground arith)
    | inr other ↦ rw other (lookup-last j k u m (ground arith))
  ]

  -- None of the keys of the first map is in the second.
  abbrev pub AllAbsent : List (K × V) → List (K × V) → Type κ
  AllAbsent [] acc = Unit
  AllAbsent ((j, w) ∷ m) acc = (lookup j acc ≡ none) × AllAbsent m acc

  pub AllAbsent-nil : (m : List (K × V)) → AllAbsent m []
  AllAbsent-nil [] = tt
  AllAbsent-nil ((j, w) ∷ m) = (lookup-nil j, AllAbsent-nil m)

  pub AllAbsent-last :
      (k : K) (u : V) (m acc : List (K × V))
      → AllAbsent m acc
      → lookup k m ≡ none
      → AllAbsent m (acc ++ (k, u) ∷ [])
  unfolding lookup
  AllAbsent-last k u [] acc a h = tt
  AllAbsent-last k u ((j, w) ∷ m) acc a h = elim (Bool-cases (j == k)) [
    | inl same ↦ absurd (ground arith)
    | inr other ↦ (
      ground (arith, lookup-last j k u acc a.0, e.test_iff j k, e.test_iff k j),
      AllAbsent-last k u m acc a.1 (ground arith),
    )
  ]
