-- ===== src/Common/Decimal.antt =====
-- Numbers in decimal digits.
use Prim.Native.Nat.{ℕ, zero, suc, ◌+◌, ◌-◌, ◌/◌, ◌%◌, ◌^◌}
use mathlib.Core.List.{List, [], ◌∷◌}
use nsq.Common.Tests.{ltb, if◌then◌else◌}

-- strconv.Itoa of an int, as its 64-bit pattern; a number below 2 ^ 64 has at most 20 digits.
abbrev pub itoa_loop : ℕ → ℕ → List ℕ → List ℕ
itoa_loop zero n tail = tail
itoa_loop (suc fuel) n tail =
    let digits = (b'0' + n % 10) ∷ tail in
    let rest = itoa_loop fuel (n / 10) digits in if ltb n 10 then digits else rest

abbrev pub itoa : ℕ → List ℕ
itoa n = if ltb n (2 ^ 63) then itoa_loop 20 n [] else b'-' ∷ itoa_loop 20 (2 ^ 64 - n) []
