-- ===== src/Protocol/Reader.antt =====
-- Reading from a connection: the bytes that are still to come (io.ReadFull, readLen).
use nsq.Common.{
  ℕ, ◌^◌, ◌<◌, ◌≡◌, Bool, List, ltb, leb, Option, none, some, if◌then◌else◌, length, take, drop,
  ◌++◌, length-append, take-append_of, drop-append_of, arith,
}
use native.Mathlib.Numerals.{unary_clauses}
use nsq.Common.Bytes.{be_bytes, from_be, length-be_bytes, from_be-be_bytes}

-- Some bytes and what comes after them, if there are so many.
unfoldable pub read_full : ℕ → List ℕ → Option (List ℕ × List ℕ)
read_full n input = if ltb (length input) n then none else some (take n input, drop n input)

abbrev pub to_len : Option (List ℕ × List ℕ) → Option (ℕ × List ℕ)
to_len none = none
to_len (some (b, rest)) = some (from_be 0 b, rest)

-- A big-endian 32-bit length, as its bit pattern.
unfoldable pub read_len : List ℕ → Option (ℕ × List ℕ)
read_len input = to_len (read_full 4 input)

-- An int32 is negative.
abbrev pub negative32 : ℕ → Bool
negative32 n = leb (2 ^ 31) n

-- An int64 is negative.
abbrev pub negative64 : ℕ → Bool
negative64 n = leb (2 ^ 63) n

-- What is taken from the input when there is enough of it.
pub read_full-append :
    (n : ℕ) (xs rest : List ℕ) → length xs ≡ n → read_full n (xs ++ rest) ≡ some (xs, rest)
unfolding read_full
read_full-append n xs rest e =
    let t = take-append_of n xs rest e in
    let d : drop n (xs ++ rest) ≡ rest = simp unary_clauses at (drop-append_of n 0 xs rest e) in
    rw (t, d) (ground (arith, length-append xs rest, e))

pub read_len-append :
    (n : ℕ) (rest : List ℕ) → n < 256 ^ 4 → read_len (be_bytes 4 n ++ rest) ≡ some (n, rest)
unfolding read_len
read_len-append n rest h =
    rw (read_full-append 4 (be_bytes 4 n) rest (length-be_bytes 4 n), from_be-be_bytes 4 n h)
