-- ===== src/Nsqd/Guid/Hex.antt =====
-- guid.Hex: the 16 hexadecimal digits of an id.
use nsq.Common.{
  ℕ, ◌+◌, ◌-◌, ◌*◌, ◌/◌, ◌%◌, ◌^◌, ◌<◌, ◌≡◌, refl, sym, ap, ◌∙◌, List, [], ◌∷◌, arith, ltb,
  if◌then◌else◌, length,
}
use nsq.Common.Bytes.{AreBytes, from_be}
use nsq.Nsqd.Guid.{word_mod}

-- encoding/hex, of a half byte and of a slice
pub hex_digit : ℕ → ℕ
hex_digit n = if ltb n 10 then 48 + n else 87 + n

pub hex_encode : List ℕ → List ℕ
hex_encode [] = []
hex_encode (b ∷ bs) = hex_digit (b / 16) ∷ hex_digit (b % 16) ∷ hex_encode bs

pub guid_bytes : ℕ → List ℕ
guid_bytes g =
    g / 2 ^ 56 % 256
    ∷ g / 2 ^ 48 % 256
    ∷ g / 2 ^ 40 % 256
    ∷ g / 2 ^ 32 % 256
    ∷ g / 2 ^ 24 % 256
    ∷ g / 2 ^ 16 % 256
    ∷ g / 2 ^ 8 % 256
    ∷ g % 256
    ∷ []

pub hex : ℕ → List ℕ
unfolding hex_encode guid_bytes hex_digit
hex g = hex_encode (guid_bytes g)

digit_value : ℕ → ℕ
digit_value c = if ltb c 58 then c - 48 else c - 87

hex_value : ℕ → List ℕ → ℕ
hex_value acc [] = acc
hex_value acc (c ∷ cs) = hex_value (acc * 16 + digit_value c) cs

digit_value-hex_digit : (n : ℕ) → n < 16 → digit_value (hex_digit n) ≡ n
unfolding digit_value hex_digit
digit_value-hex_digit n h = ground arith

hex_value-hex_encode :
    (acc : ℕ) (bs : List ℕ) → AreBytes bs → hex_value acc (hex_encode bs) ≡ from_be acc bs
unfolding hex_value hex_encode from_be
hex_value-hex_encode acc [] h = refl
hex_value-hex_encode acc (b ∷ bs) h =
    let high = digit_value-hex_digit (b / 16) (omega arith) in
    let low = digit_value-hex_digit (b % 16) (omega arith) in
    let whole : (acc * 16 + digit_value (hex_digit (b / 16))) * 16
          + digit_value (hex_digit (b % 16))
        ≡ acc * 256 + b =
      omega (arith, high, low) in
    ap (λ (t : ℕ). hex_value t (hex_encode bs)) whole ∙ hex_value-hex_encode (acc * 256 + b) bs h.1

from_be-guid_bytes : (g : ℕ) → g < word_mod → from_be 0 (guid_bytes g) ≡ g
unfolding from_be guid_bytes
from_be-guid_bytes g h = omega arith

hex_value-hex : (g : ℕ) → g < word_mod → hex_value 0 (hex g) ≡ g
unfolding hex
hex_value-hex g h =
    hex_value-hex_encode 0 (guid_bytes g) (unfold guid_bytes in omega arith)
    ∙ from_be-guid_bytes g h

-- Two 64-bit ids with the same digits are the same id.
pub hex_injective : (g h : ℕ) → g < word_mod → h < word_mod → hex g ≡ hex h → g ≡ h
hex_injective g h p q e = sym (hex_value-hex g p) ∙ ap (hex_value 0) e ∙ hex_value-hex h q

-- The digits fill the array of 16 bytes.
pub length-hex : (g : ℕ) → length (hex g) ≡ 16
unfolding hex
length-hex g = refl
