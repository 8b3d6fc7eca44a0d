-- ===== src/Common/Sums.antt =====
-- Sums over a list of numbers, which depend only on how often each number occurs.
use native.Mathlib.Omega.{arith}
use Prim.Native.Nat.{ℕ, ◌+◌, ◌≤◌, ◌<◌}
use mathlib.Core.Path.{◌≡◌, refl, sym}
use mathlib.Core.Logic.{◌⊎◌, inl, inr}
use mathlib.Core.List.{List, [], ◌∷◌}
use nsq.Common.Tests.{nat_beq, if◌then◌else◌}
use nsq.Common.Lists.{count}

abbrev pub sum_by : (ℕ → ℕ) → List ℕ → ℕ
sum_by w [] = 0
sum_by w (x ∷ xs) = w x + sum_by w xs

-- The list without one occurrence of a number.
erase : ℕ → List ℕ → List ℕ
erase y [] = []
erase y (x ∷ xs) = if nat_beq x y then xs else x ∷ erase y xs

count-erase :
    (y r : ℕ) (b : List ℕ)
    → 0 < count y b
    → count r b ≡ (if nat_beq y r then 1 else 0) + count r (erase y b)
unfolding erase
count-erase y r [] h = absurd (omega arith)
count-erase y r (x ∷ b) h = ground (arith, count-erase y r b)

sum_by-erase :
    (w : ℕ → ℕ) (y : ℕ) (b : List ℕ) → 0 < count y b → sum_by w b ≡ w y + sum_by w (erase y b)
unfolding erase
sum_by-erase w y [] h = absurd (omega arith)
sum_by-erase w y (x ∷ b) h = ground (arith, sum_by-erase w y b)

no_count : (b : List ℕ) → ((r : ℕ) → count r b ≡ 0) → b ≡ []
no_count [] h = refl
no_count (x ∷ b) h = absurd (ground (arith, h x))

-- Lists with the same entries, as often, have the same sums.
pub sum_by-counts :
    (w : ℕ → ℕ) (a b : List ℕ) → ((r : ℕ) → count r a ≡ count r b) → sum_by w a ≡ sum_by w b
sum_by-counts w [] b h = rw (no_count b (λ r. sym (h r)))
sum_by-counts w (y ∷ a) b h =
    let present : 0 < count y b = ground (arith, h y) in
    omega (
      arith,
      sum_by-erase w y b present,
      sum_by-counts w a (erase y b) (λ r. omega (arith, h r, count-erase y r b present)),
    )

pub sum_by-agree :
    (w w' : ℕ → ℕ) (a : List ℕ) → ((x : ℕ) → 0 < count x a → w x ≡ w' x) → sum_by w a ≡ sum_by w' a
sum_by-agree w w' [] h = refl
sum_by-agree w w' (x ∷ a) h =
    omega (arith, ground_at, sum_by-agree w w' a (λ y p. h y (omega arith)))
  where
    ground_at : w x ≡ w' x
    ground_at = h x (ground arith)

pub sum_by-positive :
    (w : ℕ → ℕ) (a : List ℕ) → 0 < sum_by w a → (x : ℕ) × (0 < count x a) × (0 < w x)
sum_by-positive w [] h = absurd (omega arith)
sum_by-positive w (x ∷ a) h = elim (positive (w x)) [
  | inl p ↦ (x, ground arith, p)
  | inr z ↦ let (y, q, p) = sum_by-positive w a (omega (arith, z)) in (y, omega arith, p)
]
  where
    positive : (n : ℕ) → (0 < n) ⊎ (n ≡ 0)
    positive n = omega arith

-- What occurs counts towards the sum.
pub weight-le-sum_by : (w : ℕ → ℕ) (a : List ℕ) (x : ℕ) → 0 < count x a → w x ≤ sum_by w a
weight-le-sum_by w [] x h = absurd (omega arith)
weight-le-sum_by w (y ∷ a) x h = ground (arith, weight-le-sum_by w a x)
