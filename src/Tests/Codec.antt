-- ===== src/Tests/Codec.antt =====
-- nsqd/message.go, internal/protocol/byte_base10.go and the bodies of an MPUB.
use nsq.Common.{ℕ, ◌≡◌, refl, List, [], ◌∷◌, ◌++◌, none, some, length, arith}
use nsq.Common.Bytes.{from_be}
use nsq.Nsqd.Message.{Message, buffer, write_to, decode_message}
use nsq.Nsqd.Message.Codec.{IsWellFormed, decode_message-write_to}
use nsq.Protocol.Base10.{byte_to_base10, base10_loop}
use nsq.Nsqd.Publish.{got, read_mpub}
use nsq.Nsqd.Publish.Bodies.{mpub_payload, read_mpub-payload}

abbrev small : Message
small = record {
  id =
      b'0' ∷ b'1' ∷ b'2' ∷ b'3' ∷ b'4' ∷ b'5' ∷ b'6' ∷ b'7' ∷ b'8' ∷ b'9' ∷ b'a' ∷ b'b' ∷ b'c'
      ∷ b'd' ∷ b'e' ∷ b'f' ∷ [];
  body = b'h' ∷ b'i' ∷ [];
  timestamp = 1556000000000000000;
  attempts = 3;
  deferred = 250;
}

small-IsWellFormed : IsWellFormed small
small-IsWellFormed = record { id_length = refl; timestamp = omega arith; attempts = omega arith }

decode_message-write_to_example :
    (b : List ℕ) × (write_to (buffer {E = ℕ}) small (1 ∷ []) ≡ (1 ∷ [] ++ b, length b, none))
    × (decode_message b ≡ some (record small { deferred = 0 }))
decode_message-write_to_example = decode_message-write_to small (1 ∷ []) small-IsWellFormed

-- 28 bytes, of which two are the body.
abbrev raw : List ℕ
raw =
    0 ∷ 0 ∷ 0 ∷ 0 ∷ 0 ∷ 0 ∷ 1 ∷ 2 ∷ 0 ∷ 5 ∷ 48 ∷ 48 ∷ 48 ∷ 48 ∷ 48 ∷ 48 ∷ 48 ∷ 48 ∷ 48 ∷ 48 ∷ 48
    ∷ 48 ∷ 48 ∷ 48 ∷ 48 ∷ 49 ∷ 104 ∷ 105 ∷ []

abbrev raw_message : Message
raw_message = record {
  id = 48 ∷ 48 ∷ 48 ∷ 48 ∷ 48 ∷ 48 ∷ 48 ∷ 48 ∷ 48 ∷ 48 ∷ 48 ∷ 48 ∷ 48 ∷ 48 ∷ 48 ∷ 49 ∷ [];
  body = 104 ∷ 105 ∷ [];
  timestamp = 258;
  attempts = 5;
  deferred = 0;
}

raw_result : decode_message raw ≡ some raw_message
unfolding decode_message from_be
raw_result = refl

abbrev two_bodies : List (List ℕ)
two_bodies = (b'a' ∷ []) ∷ (b'b' ∷ b'c' ∷ []) ∷ []

read_mpub-payload_example :
    read_mpub 1024 5120 (mpub_payload two_bodies (7 ∷ [])) ≡ got two_bodies (7 ∷ [])
read_mpub-payload_example =
    read_mpub-payload 1024 5120 two_bodies (7 ∷ []) (omega arith) (omega arith) (ground arith)
      (ground arith)

answer : byte_to_base10 (b'4' ∷ b'2' ∷ []) ≡ some 42
unfolding byte_to_base10 base10_loop
answer = refl
