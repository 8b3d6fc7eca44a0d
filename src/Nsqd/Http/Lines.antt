-- ===== src/Nsqd/Http/Lines.antt =====
-- nsqd/http.go: the text mode of doMPUB, in which each line of a body is a message.
use nsq.Common.{
  ℕ, ◌+◌, ◌≤◌, ◌<◌, ◌≢◌, List, [], ◌∷◌, ◌++◌, ltb, if◌then◌else◌, ◌==◌, nat_eq, length, take,
}
use nsq.Nsqd.Http.{Answer, done, failed, and_then, msg_too_big, body_too_big}

abbrev newline : ℕ
newline = 10

abbrev onto_first : ℕ → List (List ℕ) → List (List ℕ)
onto_first c [] = (c ∷ []) ∷ []
onto_first c (b ∷ bs) = (c ∷ b) ∷ bs

-- What successive calls of ReadBytes give: each line with its newline, and then what is left.
unfoldable pub blocks : List ℕ → List (List ℕ)
blocks [] = [] ∷ []
blocks (c ∷ cs) =
    let rest = blocks cs in if c == newline then (c ∷ []) ∷ rest else onto_first c rest

-- A block without its newline.
unfoldable pub without_newline : List ℕ → List ℕ
without_newline [] = []
without_newline (c ∷ []) = if c == newline then [] else c ∷ []
without_newline (c ∷ d ∷ cs) = c ∷ without_newline (d ∷ cs)

-- The loop; `total` is what has been read.
unfoldable pub text_loop : ℕ → ℕ → ℕ → List (List ℕ) → Answer (List (List ℕ))
text_loop max_msg_size read_max total [] = done []
text_loop max_msg_size read_max total (b ∷ bs) =
    let text = without_newline b in
    let rest = text_loop max_msg_size read_max (total + length b) bs in
    if total + length b == read_max
    then failed body_too_big
    else if length text == 0
    then rest
    else if ltb max_msg_size (length text)
    then failed msg_too_big
    else and_then rest λ texts. done (text ∷ texts)

unfoldable pub read_text : ℕ → ℕ → List ℕ → Answer (List (List ℕ))
read_text max_msg_size max_body_size input =
    text_loop max_msg_size (max_body_size + 1) 0 (blocks (take (max_body_size + 1) input))

-- What a client sends: each message and a newline after it.
abbrev pub lines : List (List ℕ) → List ℕ
lines [] = []
lines (t ∷ ts) = t ++ newline ∷ lines ts

abbrev NoNewline : List ℕ → Type 0
NoNewline [] = Unit
NoNewline (c ∷ t) = (c ≢ newline) × NoNewline t

-- Messages that are not empty, have no newline, and are no longer than a message may be.
abbrev pub AreTexts : ℕ → List (List ℕ) → Type 0
AreTexts max_msg_size [] = Unit
AreTexts max_msg_size (t ∷ ts) =
    NoNewline t × (0 < length t) × (length t ≤ max_msg_size) × AreTexts max_msg_size ts
