-- ===== src/Nsqd/Message/Codec.antt =====
-- Encoding and decoding are inverse to one another.
use mathlib.Core.List.{append_assoc}
use nsq.Common.{
  ℕ, ◌+◌, ◌≤◌, ◌<◌, ◌^◌, ◌≡◌, ◌∙◌, List, [], ◌++◌, Option, none, some, arith, length, length-append,
  take, drop, take-append_of, drop-append_of, take-append-drop, drop-drop, length-take, length-drop,
}
use nsq.Common.Bytes.{
  AreBytes, be_bytes, from_be, length-be_bytes, from_be-be_bytes, be_bytes-field, AreBytes-take,
  AreBytes-drop,
}
use nsq.Nsqd.Message.{
  Message, buffer, write_to, decode_message, msg_id_length, write_message_to_backend,
}

-- The layout that the comment of decodeMessage draws.
abbrev pub encoded : Message → List ℕ
encoded m = be_bytes 8 m.timestamp ++ (be_bytes 2 m.attempts ++ (m.id ++ m.body))

-- Writing to a buffer appends the encoding, counts its bytes and does not fail.
write_to-buffer :
    {E : Type 0} (m : Message) (w : List ℕ)
    → write_to (buffer {E = E}) m w ≡ (w ++ encoded m, length (encoded m), none)
unfolding write_to buffer
write_to-buffer {E} m w =
    let head = be_bytes 8 m.timestamp in
    let mid = be_bytes 2 m.attempts in
    ground (
      arith,
      append_assoc w (head ++ mid) m.id,
      append_assoc w ((head ++ mid) ++ m.id) m.body,
      append_assoc (head ++ mid) m.id m.body,
      append_assoc head mid (m.id ++ m.body),
      length-append head mid,
      length-append head (mid ++ (m.id ++ m.body)),
      length-append mid (m.id ++ m.body),
      length-append m.id m.body,
    )

pub record IsWellFormed (m : Message) : Type 0 where
  pub id_length : length m.id ≡ msg_id_length
  pub timestamp : m.timestamp < 256 ^ 8
  pub attempts : m.attempts < 256 ^ 2

module _ (m : Message) (v : IsWellFormed m) where
  drop_timestamp :
      (k : ℕ) → drop (8 + k) (encoded m) ≡ drop k (be_bytes 2 m.attempts ++ (m.id ++ m.body))
  drop_timestamp k = drop-append_of 8 k (be_bytes 8 m.timestamp) _ (length-be_bytes 8 m.timestamp)

  drop_header : (k : ℕ) → drop (8 + (2 + k)) (encoded m) ≡ drop k (m.id ++ m.body)
  drop_header k =
      drop_timestamp (2 + k)
      ∙ drop-append_of 2 k (be_bytes 2 m.attempts) _ (length-be_bytes 2 m.attempts)

  length-encoded : length (encoded m) ≡ 26 + length m.body
  length-encoded = omega (
    arith,
    length-append (be_bytes 8 m.timestamp) (be_bytes 2 m.attempts ++ (m.id ++ m.body)),
    length-append (be_bytes 2 m.attempts) (m.id ++ m.body),
    length-append m.id m.body,
    length-be_bytes 8 m.timestamp,
    length-be_bytes 2 m.attempts,
    v.id_length,
  )

-- Decoding an encoded message gives the message without its delay, if its id has 16 bytes and its
-- numbers fit their fields.
decode_message-encoded :
    (m : Message) → IsWellFormed m → decode_message (encoded m) ≡ some (record m { deferred = 0 })
unfolding decode_message
decode_message-encoded m v =
    let t1 =
      take-append_of 8 (be_bytes 8 m.timestamp) (be_bytes 2 m.attempts ++ (m.id ++ m.body))
        (length-be_bytes 8 m.timestamp) in
    let t2 =
      take-append_of 2 (be_bytes 2 m.attempts) (m.id ++ m.body) (length-be_bytes 2 m.attempts) in
    let t3 = take-append_of 16 m.id m.body v.id_length in
    let d8 : drop 8 (encoded m) ≡ be_bytes 2 m.attempts ++ (m.id ++ m.body) =
      drop_timestamp m v 0 in
    let d10 : drop 10 (encoded m) ≡ m.id ++ m.body = drop_header m v 0 in
    let d26 : drop 26 (encoded m) ≡ m.body =
      drop_header m v 16 ∙ drop-append_of 16 0 m.id m.body v.id_length in
    rw
      (
        d8,
        d10,
        d26,
        t1,
        t2,
        t3,
        from_be-be_bytes 8 m.timestamp v.timestamp,
        from_be-be_bytes 2 m.attempts v.attempts,
      )
      (ground (arith, length-encoded m v))

-- WriteTo a buffer adds to it the bytes from which decodeMessage gives back the message without its
-- delay, counts these bytes, and returns no error, if the id of the
-- message has 16 bytes and its numbers fit their fields.
pub decode_message-write_to :
    {E : Type 0} (m : Message) (w : List ℕ)
    → IsWellFormed m
    → (b : List ℕ) × (write_to (buffer {E = E}) m w ≡ (w ++ b, length b, none))
      × (decode_message b ≡ some (record m { deferred = 0 }))
decode_message-write_to m w v = (encoded m, write_to-buffer m w, decode_message-encoded m v)

-- What is decoded from bytes encodes to the bytes that it was decoded from.
encoded-decode_message :
    (b : List ℕ) (m : Message) → AreBytes b → decode_message b ≡ some m → encoded m ≡ b
unfolding decode_message
encoded-decode_message b m h e =
    let enough : 26 ≤ length b = ground arith in
    let read : m ≡ record {
      timestamp = from_be 0 (take 8 b);
      attempts = from_be 0 (take 2 (drop 8 b));
      id = take 16 (drop 10 b);
      body = drop 26 b;
      deferred = 0;
    } =
      ground arith in
    let t1 = be_bytes-field 8 (take 8 b) (AreBytes-take 8 b h) (omega (arith, length-take 8 b)) in
    let t2 =
      be_bytes-field 2 (take 2 (drop 8 b)) (AreBytes-take 2 (drop 8 b) (AreBytes-drop 8 b h))
        (omega (arith, length-take 2 (drop 8 b), length-drop 8 b)) in
    rw (
      read,
      t1,
      t2,
      drop-drop 10 16 b,
      take-append-drop 16 (drop 10 b),
      drop-drop 8 2 b,
      take-append-drop 2 (drop 8 b),
      take-append-drop 8 b,
    )

-- A message reaches the backend as its encoding, so that reading it back gives the message.
pub write_message_to_backend_lem :
    {B E : Type 0} (put : B → List ℕ → B × Option E) (m : Message) (backend : B)
    → write_message_to_backend put m backend ≡ put backend (encoded m)
unfolding write_message_to_backend
write_message_to_backend_lem {B} {E} put m backend = rw (write_to-buffer {E = E} m [])
