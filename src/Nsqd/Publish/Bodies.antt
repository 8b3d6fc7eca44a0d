-- ===== src/Nsqd/Publish/Bodies.antt =====
-- The bodies of an MPUB, as a client writes them, and the reading of them.
use mathlib.Core.List.{append_assoc}
use nsq.Common.{ℕ, ◌-◌, ◌/◌, ◌<◌, ◌≤◌, ◌^◌, ◌≡◌, refl, List, [], ◌∷◌, ◌++◌, nat_eq, length, arith}
use nsq.Common.Bytes.{be_bytes}
use nsq.Protocol.{Code, e_bad_body, e_bad_message}
use nsq.Protocol.Reader.{read_full-append, read_len-append}
use nsq.Nsqd.Publish.{got, read_size, read_body, read_bodies, read_mpub}

abbrev pub framed : List ℕ → List ℕ
framed body = be_bytes 4 (length body) ++ body

abbrev pub framed_all : List (List ℕ) → List ℕ → List ℕ
framed_all [] rest = rest
framed_all (body ∷ bodies) rest = framed body ++ framed_all bodies rest

-- The payload of an MPUB: the number of messages and their bodies.
abbrev pub mpub_payload : List (List ℕ) → List ℕ → List ℕ
mpub_payload bodies rest = be_bytes 4 (length bodies) ++ framed_all bodies rest

-- A size that is accepted.
abbrev pub IsSize : ℕ → ℕ → Type 0
IsSize max n = (0 < n) × (n ≤ max)

abbrev pub AreSizes : ℕ → List (List ℕ) → Type 0
AreSizes max [] = Unit
AreSizes max (body ∷ bodies) = IsSize max (length body) × AreSizes max bodies

read_size-append :
    (code : Code) (max n : ℕ) (rest : List ℕ)
    → max < 2 ^ 31
    → IsSize max n
    → read_size code max (be_bytes 4 n ++ rest) ≡ got n rest
unfolding read_size
read_size-append code max n rest m s =
    rw (read_len-append n rest (omega (arith, s.1))) (ground (arith, s.0, s.1))

read_body-framed :
    (max : ℕ) (body rest : List ℕ)
    → max < 2 ^ 31
    → IsSize max (length body)
    → read_body max (framed body ++ rest) ≡ got body rest
unfolding read_body
read_body-framed max body rest m s = rw (
  append_assoc (be_bytes 4 (length body)) body rest,
  read_size-append e_bad_message max (length body) (body ++ rest) m s,
  read_full-append (length body) body rest refl,
)

read_bodies-framed :
    (max : ℕ) (bodies : List (List ℕ)) (rest : List ℕ)
    → max < 2 ^ 31
    → AreSizes max bodies
    → read_bodies (length bodies) max (framed_all bodies rest) ≡ got bodies rest
unfolding read_bodies
read_bodies-framed max [] rest m s = refl
read_bodies-framed max (body ∷ bodies) rest m s = rw (
  read_body-framed max body (framed_all bodies rest) m s.0,
  read_bodies-framed max bodies rest m s.1,
)

-- readMPUB reads back the bodies that a client framed, and leaves what comes after them, when there
-- is at least one body and no more than the largest request can hold, and each body is neither
-- empty nor too large; the bounds are below 2 ^ 31.
pub read_mpub-payload :
    (max_msg_size max_body_size : ℕ) (bodies : List (List ℕ)) (rest : List ℕ)
    → max_msg_size < 2 ^ 31
    → max_body_size < 2 ^ 31
    → IsSize ((max_body_size - 4) / 5) (length bodies)
    → AreSizes max_msg_size bodies
    → read_mpub max_msg_size max_body_size (mpub_payload bodies rest) ≡ got bodies rest
unfolding read_mpub
read_mpub-payload max_msg_size max_body_size bodies rest m b n s = rw (
  read_size-append e_bad_body ((max_body_size - 4) / 5) (length bodies) (framed_all bodies rest)
      (omega arith) n,
  read_bodies-framed max_msg_size bodies rest m s,
)

-- A size that readLen and its checks accept is one of the range that they allow.
pub read_size-IsSize :
    (code : Code) (max n : ℕ) (input rest : List ℕ)
    → read_size code max input ≡ got n rest
    → IsSize max n
unfolding read_size
read_size-IsSize code max n input rest e = ground arith
