-- ===== src/Common/Bytes.antt =====
-- Words as native numbers: `|` of disjoint bit fields, and big-endian bytes (encoding/binary).
use Prim.Native.Nat.{
  ℕ, zero, suc, ◌+◌, ◌*◌, ◌/◌, ◌%◌, ◌^◌, ◌≤◌, ◌<◌, max, digits, bit_or, bit_or-bitwise,
}
use mathlib.Core.Path.{◌≡◌, refl, ap}
use mathlib.Core.List.{List, [], ◌∷◌, ◌++◌}
use mathlib.Core.List.{append-nil, append_assoc}
use native.Mathlib.Nat.{pow-suc, add-zero}
use native.Mathlib.Omega.{arith}
use nsq.Common.Lists.{length, length-append, take, drop}

-- The definition that `bit_or` stands for, with the fuel as an argument.
abbrev or_digits : ℕ → ℕ → ℕ → ℕ
or_digits n a b = digits (λ y. y) max n a b

or_digits_fuel : (n m a b : ℕ) → a ≤ n → a ≤ m → or_digits n a b ≡ or_digits m a b
or_digits_fuel zero zero a b p q = refl
or_digits_fuel zero (suc m) zero b p q = refl
or_digits_fuel zero (suc m) (suc a) b p q = absurd (omega arith)
or_digits_fuel (suc n) zero zero b p q = refl
or_digits_fuel (suc n) zero (suc a) b p q = absurd (omega arith)
or_digits_fuel (suc n) (suc m) zero b p q = refl
or_digits_fuel (suc n) (suc m) (suc a) b p q =
    omega (arith, or_digits_fuel n m (suc a / 2) (b / 2) (omega arith) (omega arith))

pub zero-bit_or : (b : ℕ) → bit_or 0 b ≡ b
zero-bit_or b = bit_or-bitwise 0 b

bit_or_digit : (a b : ℕ) → bit_or a b ≡ bit_or (a / 2) (b / 2) * 2 + max (a % 2) (b % 2)
bit_or_digit zero b = omega (arith, zero-bit_or b, zero-bit_or (b / 2))
bit_or_digit (suc a) b = omega (
  arith,
  bit_or-bitwise (suc a) b,
  bit_or-bitwise (suc a / 2) (b / 2),
  or_digits_fuel a (suc a / 2) (suc a / 2) (b / 2) (omega arith) (omega arith),
)

-- `(a << k) | b` is a sum where b has at most k bits.
pub bit_or_disjoint : (k a b : ℕ) → b < 2 ^ k → bit_or (a * 2 ^ k) b ≡ a * 2 ^ k + b
bit_or_disjoint zero a b h =
    let b_zero : b ≡ 0 = omega arith in rw (b_zero, bit_or_zero (a * 2 ^ 0)) (omega arith)
  where
    bit_or_zero_fuel : (n x : ℕ) → x ≤ n → bit_or x 0 ≡ x
    bit_or_zero_fuel n zero p = refl
    bit_or_zero_fuel zero (suc x) p = absurd (omega arith)
    bit_or_zero_fuel (suc n) (suc x) p =
        omega (arith, bit_or_digit (suc x) 0, bit_or_zero_fuel n (suc x / 2) (omega arith))

    bit_or_zero : (x : ℕ) → bit_or x 0 ≡ x
    bit_or_zero x = bit_or_zero_fuel x x (omega arith)
bit_or_disjoint (suc k) a b h =
    let double : 2 ^ suc k ≡ 2 ^ k * 2 = pow-suc 2 k in
    let shifted : a * 2 ^ suc k ≡ a * 2 ^ k * 2 = omega (arith, ap (λ (t : ℕ). a * t) double) in
    let half : a * 2 ^ suc k / 2 ≡ a * 2 ^ k = omega arith in
    let low : a * 2 ^ suc k % 2 ≡ 0 = omega arith in
    let ih = bit_or_disjoint k a (b / 2) (omega arith) in
    omega (arith, bit_or_digit (a * 2 ^ suc k) b, ap (λ (t : ℕ). bit_or t (b / 2)) half, ih)

-- The n low bytes of x, the highest first (binary.BigEndian.PutUint16, PutUint64).
unfoldable pub be_bytes : ℕ → ℕ → List ℕ
be_bytes zero x = []
be_bytes (suc n) x = be_bytes n (x / 256) ++ (x % 256) ∷ []

-- The number that the bytes stand for (binary.BigEndian.Uint16, Uint32, Uint64).
unfoldable pub from_be : ℕ → List ℕ → ℕ
from_be acc [] = acc
from_be acc (b ∷ bs) = from_be (acc * 256 + b) bs

pub from_be-append :
    (acc : ℕ) (xs : List ℕ) (b : ℕ) → from_be acc (xs ++ b ∷ []) ≡ from_be acc xs * 256 + b
unfolding from_be
from_be-append acc [] b = refl
from_be-append acc (x ∷ xs) b = from_be-append (acc * 256 + x) xs b

pub length-be_bytes : (n x : ℕ) → length (be_bytes n x) ≡ n
unfolding be_bytes
length-be_bytes zero x = refl
length-be_bytes (suc n) x =
    omega
      (arith, length-append (be_bytes n (x / 256)) ((x % 256) ∷ []), length-be_bytes n (x / 256))

pub from_be-be_bytes : (n x : ℕ) → x < 256 ^ n → from_be 0 (be_bytes n x) ≡ x
unfolding be_bytes
from_be-be_bytes zero x h = unfold from_be in omega arith
from_be-be_bytes (suc n) x h = omega (
  arith,
  from_be-append 0 (be_bytes n (x / 256)) (x % 256),
  from_be-be_bytes n (x / 256) (omega (arith, pow-suc 256 n)),
)

-- Every entry is a byte.
abbrev pub AreBytes : List ℕ → Type 0
AreBytes [] = Unit
AreBytes (b ∷ bs) = (b < 256) × AreBytes bs

-- Reading a field and writing it again gives its bytes.
pub be_bytes-from_be :
    (n acc : ℕ) (bs : List ℕ)
    → AreBytes bs
    → be_bytes (n + length bs) (from_be acc bs) ≡ be_bytes n acc ++ bs
unfolding from_be
be_bytes-from_be n acc [] h = simp (add-zero, append-nil)
be_bytes-from_be n acc (b ∷ bs) h =
    let ih = be_bytes-from_be (suc n) (acc * 256 + b) bs h.1 in
    let grown : n + suc (length bs) ≡ suc n + length bs = omega arith in
    rw (grown, ih) (last_byte n acc b bs h.0)
  where
    last_byte :
        (k a x : ℕ) (xs : List ℕ)
        → x < 256
        → be_bytes (suc k) (a * 256 + x) ++ xs ≡ be_bytes k a ++ x ∷ xs
    last_byte k a x xs p =
        let high : (a * 256 + x) / 256 ≡ a = omega arith in
        let low : (a * 256 + x) % 256 ≡ x = omega arith in
        unfold be_bytes in rw (high, low) (append_assoc (be_bytes k a) (x ∷ []) xs)

pub AreBytes-take : (n : ℕ) (bs : List ℕ) → AreBytes bs → AreBytes (take n bs)
AreBytes-take zero bs h = tt
AreBytes-take (suc n) [] h = tt
AreBytes-take (suc n) (b ∷ bs) h = (h.0, AreBytes-take n bs h.1)

pub AreBytes-drop : (n : ℕ) (bs : List ℕ) → AreBytes bs → AreBytes (drop n bs)
AreBytes-drop zero bs h = h
AreBytes-drop (suc n) [] h = tt
AreBytes-drop (suc n) (b ∷ bs) h = AreBytes-drop n bs h.1

-- A field of n bytes, read and written again.
pub be_bytes-field :
    (n : ℕ) (bs : List ℕ) → AreBytes bs → length bs ≡ n → be_bytes n (from_be 0 bs) ≡ bs
unfolding be_bytes
be_bytes-field n bs h e =
    let whole : 0 + length bs ≡ n = omega arith in rw whole at (be_bytes-from_be 0 0 bs h)
