-- ===== src/Protocol/Names.antt =====
-- internal/protocol/names.go: the names of topics and channels, as bytes.
use nsq.Common.{
  ℕ, ◌≡◌, ◌⊎◌, Bool, true, false, ◌&&◌, ◌||◌, List, [], ◌∷◌, ◌++◌, ltb, leb, ◌==◌, nat_eq, bytes_eq,
  if◌then◌else◌, length, not, drop, ◌-◌,
}

abbrev pub ephemeral_suffix : List ℕ
ephemeral_suffix = b'#' ∷ b'e' ∷ b'p' ∷ b'h' ∷ b'e' ∷ b'm' ∷ b'e' ∷ b'r' ∷ b'a' ∷ b'l' ∷ []

-- [\.a-zA-Z0-9_-]
unfoldable pub is_name_byte : ℕ → Bool
is_name_byte c =
    (c == b'.')
    || ((leb b'a' c && leb c b'z')
        || ((leb b'A' c && leb c b'Z')
            || ((leb b'0' c && leb c b'9') || ((c == b'_') || (c == b'-')))))

-- The rest of the pattern after one byte of the class: more of them, and the suffix at most once.
unfoldable pub matches_rest : List ℕ → Bool
matches_rest [] = true
matches_rest (c ∷ cs) = (is_name_byte c && matches_rest cs) || (c ∷ cs == ephemeral_suffix)

-- validTopicChannelNameRegex.MatchString
unfoldable pub matches_name : List ℕ → Bool
unfolding matches_rest is_name_byte
matches_name [] = false
matches_name (c ∷ cs) = is_name_byte c && matches_rest cs

-- strings.HasSuffix(s, "#ephemeral")
unfoldable pub is_ephemeral : List ℕ → Bool
is_ephemeral s =
    not (ltb (length s) (length ephemeral_suffix))
    && (drop (length s - length ephemeral_suffix) s == ephemeral_suffix)

unfoldable pub is_valid_name : List ℕ → Bool
unfolding matches_name
is_valid_name name =
    if ltb 64 (length name) || ltb (length name) 1 then false else matches_name name

abbrev pub AreNameBytes : List ℕ → Type 0
AreNameBytes [] = Unit
AreNameBytes (c ∷ cs) = (is_name_byte c ≡ true) × AreNameBytes cs

-- What the pattern denotes: bytes of the class, and then nothing or the suffix.
pub record Denotes (base : List ℕ) (name : List ℕ) : Type 0 where
  pub bytes : AreNameBytes base
  pub ends : (name ≡ base) ⊎ (name ≡ base ++ ephemeral_suffix)
