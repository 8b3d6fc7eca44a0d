-- ===== src/Protocol/Base10.antt =====
-- internal/protocol/byte_base10.go: a decimal number, in a uint64 that wraps.
use nsq.Common.{
  ℕ, ◌+◌, ◌-◌, ◌*◌, ◌%◌, ◌^◌, ◌≡◌, inl, inr, ap, Bool, true, ◌&&◌, List, [], ◌∷◌, Option, none,
  some, leb, if◌then◌else◌, arith, Bool-cases,
}

abbrev pub u64_mod : ℕ
u64_mod = 2 ^ 64

abbrev pub is_digit : ℕ → Bool
is_digit d = leb b'0' d && leb d b'9'

-- The loop, with what was read so far; `none` is errBase10.
unfoldable pub base10_loop : ℕ → List ℕ → Option ℕ
base10_loop n [] = some n
base10_loop n (d ∷ ds) =
    let rest = base10_loop ((n * 10 % u64_mod + (d - b'0')) % u64_mod) ds in
    if is_digit d then rest else none

unfoldable pub byte_to_base10 : List ℕ → Option ℕ
unfolding base10_loop
byte_to_base10 b = base10_loop 0 b

abbrev pub AreDigits : List ℕ → Type 0
AreDigits [] = Unit
AreDigits (d ∷ ds) = (is_digit d ≡ true) × AreDigits ds

-- The number that the digits stand for, unbounded.
abbrev pub decimal : ℕ → List ℕ → ℕ
decimal n [] = n
decimal n (d ∷ ds) = decimal (n * 10 + (d - b'0')) ds

base10_loop-digits :
    (n m : ℕ) (ds : List ℕ)
    → AreDigits ds
    → n ≡ m % u64_mod
    → base10_loop n ds ≡ some (decimal m ds % u64_mod)
unfolding base10_loop
base10_loop-digits n m [] h e = ap some e
base10_loop-digits n m (d ∷ ds) h e = rw (h.0) (
    base10_loop-digits ((n * 10 % u64_mod + (d - b'0')) % u64_mod) (m * 10 + (d - b'0')) ds h.1
      (omega arith))

base10_loop-refused : (n : ℕ) (ds : List ℕ) (r : ℕ) → base10_loop n ds ≡ some r → AreDigits ds
unfolding base10_loop
base10_loop-refused n [] r h = tt
base10_loop-refused n (d ∷ ds) r h = elim (Bool-cases (is_digit d)) [
  | inl e ↦ (e, base10_loop-refused ((n * 10 % u64_mod + (d - b'0')) % u64_mod) ds r (ground arith))
  | inr e ↦ absurd (ground arith)
]

-- Digits give their number modulo 2 ^ 64, with no error on overflow; no digits give 0.
pub byte_to_base10-digits :
    (ds : List ℕ) → AreDigits ds → byte_to_base10 ds ≡ some (decimal 0 ds % u64_mod)
unfolding byte_to_base10
byte_to_base10-digits ds h = base10_loop-digits 0 0 ds h (omega arith)

-- Anything but digits is refused.
pub byte_to_base10-some : (ds : List ℕ) (r : ℕ) → byte_to_base10 ds ≡ some r → AreDigits ds
unfolding byte_to_base10
byte_to_base10-some ds r h = base10_loop-refused 0 ds r h
