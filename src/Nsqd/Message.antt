-- ===== src/Nsqd/Message.antt =====
-- nsqd/message.go: messages and their encoding on the wire and on disk. A MessageID is its 16
-- bytes, an int64 or uint16 its bit pattern. The fields that only
-- a channel uses are in Nsqd/Channel; `deferred`, which a producer sets, is not encoded.
pub mod Codec
use nsq.Common.{
  ℕ, ◌+◌, ◌≡◌, List, [], ◌∷◌, ◌++◌, Option, none, some, ltb, if◌then◌else◌, length, take, drop,
}
use nsq.Common.Bytes.{be_bytes, from_be}

abbrev pub msg_id_length : ℕ
msg_id_length = 16

-- timestamp and attempts
abbrev pub min_valid_msg_length : ℕ
min_valid_msg_length = msg_id_length + 8 + 2

pub record Message : Type 0 where
  pub id : List ℕ
  pub body : List ℕ
  pub timestamp : ℕ
  pub attempts : ℕ
  pub deferred : ℕ

unfoldable pub new_message : List ℕ → List ℕ → ℕ → Message
new_message id body now = record {
  id = id;
  body = body;
  timestamp = now;
  attempts = 0;
  deferred = 0;
}

-- An io.Writer: what a write of some bytes does to its state. The result is the number of bytes
-- written, and an error if there is one.
pub record Writer (W E : Type 0) : Type 0 where
  pub write : W → List ℕ → W × ℕ × Option E

-- bytes.Buffer: a write never fails.
unfoldable pub buffer : {E : Type 0} → Writer (List ℕ) E
buffer = record { write = λ w p. (w ++ p, length p, none) }

module _ {W E : Type 0} (writer : Writer W E) where
  -- A write of each part in turn, which ends at the first error.
  unfoldable pub write_parts : List (List ℕ) → W → ℕ → W × ℕ × Option E
  write_parts [] w total = (w, total, none)
  write_parts (p ∷ ps) w total =
      let (w', n, failure) = writer.write w p in
      elim failure [ none ↦ write_parts ps w' (total + n) | some e ↦ (w', total + n, some e) ]

  -- The timestamp and the attempts go out in one write.
  unfoldable pub write_to : Message → W → W × ℕ × Option E
  unfolding write_parts
  write_to m w =
      write_parts ((be_bytes 8 m.timestamp ++ be_bytes 2 m.attempts) ∷ m.id ∷ m.body ∷ []) w 0

unfoldable pub decode_message : List ℕ → Option Message
decode_message b =
    if ltb (length b) min_valid_msg_length
    then none
    else some (record {
      timestamp = from_be 0 (take 8 b);
      attempts = from_be 0 (take 2 (drop 8 b));
      id = take msg_id_length (drop 10 b);
      body = drop (10 + msg_id_length) b;
      deferred = 0;
    })

-- The Put of the backend, unless the encoding failed.
abbrev pub put_encoded :
    {B E : Type 0} → (B → List ℕ → B × Option E) → B → List ℕ × ℕ × Option E → B × Option E
put_encoded put backend (buf, n, none) = put backend buf
put_encoded put backend (buf, n, some e) = (backend, some e)

-- writeMessageToBackend, with the buffer reset first.
unfoldable pub write_message_to_backend :
    {B E : Type 0} → (B → List ℕ → B × Option E) → Message → B → B × Option E
write_message_to_backend put m backend = put_encoded put backend (write_to buffer m [])
