-- ===== src/Tests/Names.antt =====
-- internal/protocol/names.go.
use nsq.Common.{ℕ, List, [], ◌∷◌, nat_eq}

abbrev orders : List ℕ
orders = b'o' ∷ b'r' ∷ b'd' ∷ b'e' ∷ b'r' ∷ b's' ∷ []
