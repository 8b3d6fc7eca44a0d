-- ===== src/Nsqd/Publish.antt =====
-- nsqd/protocol_v2.go and nsqd/topic.go: the commands of a producer, and the queue of a topic that
-- they put messages into.
pub mod Bodies
pub mod Handlers
pub mod Laws
use nsq.Common.{
  ℕ, zero, suc, ◌+◌, ◌-◌, ◌*◌, ◌/◌, ◌%◌, ◌<◌, ◌≤◌, ◌^◌, ◌≡◌, Bool, true, false, not, ◌&&◌, ◌||◌,
  List, [], ◌∷◌, ◌++◌, Option, none, some, ltb, leb, if◌then◌else◌, ◌==◌, nat_eq, bytes_eq, length,
  get_elem?,
}
use nsq.Common.Map.{lookup, insert}
use nsq.Protocol.{
  Code, ClientErr, fatal_client_err, e_invalid, e_bad_topic, e_bad_message, e_bad_body,
  e_pub_failed, e_mpub_failed, e_dpub_failed, e_auth_first, e_auth_failed, e_unauthorized,
}
use nsq.Protocol.Names.{is_valid_name}
use nsq.Protocol.Base10.{byte_to_base10}
use nsq.Protocol.Reader.{read_full, read_len, negative32, negative64}
use nsq.Nsqd.Message.{Message, new_message, write_message_to_backend}
use nsq.Nsqd.Client.{counter_mod, increment}
use nsq.Nsqd.InFlight.{◌>>=◌}
use nsq.Nsqd.Channel.{BackendQueue}
use nsq.Nsqd.Commands.{Options, milliseconds}

-- A topic; a message in its memory queue is not shared, and its fields for in-flight handling are
-- zero but for `deferred`.
pub record Topic (B : Type 0) : Type 0 where
  pub memory : List Message
  pub memory_size : ℕ
  pub backend : B
  pub is_exiting : Bool
  pub message_count : ℕ
  pub message_bytes : ℕ

pub data TopicFailure (E : Type 0) : Type 0 where
  topic_exiting : TopicFailure E
  topic_backend_error : E → TopicFailure E

abbrev pub to_topic_failure : {E : Type 0} → Option E → Option (TopicFailure E)
to_topic_failure none = none
to_topic_failure (some e) = some (topic_backend_error e)

abbrev pub TopicOutcome : Type 0 → Type 0 → Type 0
TopicOutcome B E = Topic B × Option (TopicFailure E)

abbrev pub count_messages : {B : Type 0} → Topic B → ℕ → ℕ → Topic B
count_messages t n bytes = record t {
  message_count = (t.message_count + n) % counter_mod;
  message_bytes = (t.message_bytes + bytes) % counter_mod;
}

module _ {B E : Type 0} (backend_queue : BackendQueue B E) where
  -- The health of the daemon and the copy for memoryToFileChan are not modelled.
  unfoldable pub put : Topic B → Message → TopicOutcome B E
  put t m =
      let written = write_message_to_backend backend_queue.put m t.backend in
      if ltb (length t.memory) t.memory_size
      then (record t { memory = t.memory ++ m ∷ [] }, none)
      else (record t { backend = written.0 }, to_topic_failure written.1)

  abbrev pub counted : ℕ → ℕ → TopicOutcome B E → TopicOutcome B E
  counted n bytes (t, some e) = (t, some e)
  counted n bytes (t, none) = (count_messages t n bytes, none)

  unfoldable pub put_message : Topic B → Message → TopicOutcome B E
  put_message t m =
      if t.is_exiting then (t, some topic_exiting) else counted 1 (length m.body) (put t m)

  -- The loop of PutMessages with the number of messages put, and their bytes.
  unfoldable pub put_loop : Topic B → List Message → ℕ → ℕ → TopicOutcome B E
  put_loop t [] i total = (count_messages t i total, none)
  put_loop t (m ∷ ms) i total =
      let (t', failure) = put t m in
      elim failure [
        | some e ↦ (count_messages t' i total, some e)
        | none ↦ put_loop t' ms (i + 1) (total + length m.body)
      ]

  unfoldable pub put_messages : Topic B → List Message → TopicOutcome B E
  put_messages t ms = if t.is_exiting then (t, some topic_exiting) else put_loop t ms 0 0

  -- The method Empty.
  unfoldable pub empty_topic : Topic B → TopicOutcome B E
  empty_topic t =
      let (backend, failure) = backend_queue.empty t.backend in
      (record t { memory = []; backend = backend }, to_topic_failure failure)

  abbrev pub write_published : List Message → B → B
  write_published [] b = b
  write_published (m ∷ ms) b = write_published ms (write_message_to_backend backend_queue.put m b).0

  unfoldable pub flush_topic : Topic B → Topic B
  flush_topic t = record t { memory = []; backend = write_published t.memory t.backend }

  unfoldable pub topic_depth : Topic B → ℕ
  topic_depth t = length t.memory + backend_queue.depth t.backend

-- What a read from the connection gives, with the input that is left.
pub data Read (A : Type 0) : Type 0 where
  refused : ClientErr → Read A
  got : A → List ℕ → Read A

abbrev pub then_read : {A C : Type 0} → Read A → (A → List ℕ → Read C) → Read C
then_read (refused e) next = refused e
then_read (got x rest) next = next x rest

abbrev pub check_size : Code → ℕ → Option (ℕ × List ℕ) → Read ℕ
check_size code max none = refused (fatal_client_err code)
check_size code max (some (size, rest)) =
    if negative32 size || size == 0
    then refused (fatal_client_err code)
    else if ltb max size
    then refused (fatal_client_err code)
    else got size rest

-- A length that must be in 1..max.
unfoldable pub read_size : Code → ℕ → List ℕ → Read ℕ
read_size code max input = check_size code max (read_len input)

abbrev pub or_bad_message : Option (List ℕ × List ℕ) → Read (List ℕ)
or_bad_message none = refused (fatal_client_err e_bad_message)
or_bad_message (some (body, rest)) = got body rest

-- A message body with its length before it.
unfoldable pub read_body : ℕ → List ℕ → Read (List ℕ)
read_body max_msg_size input =
    then_read (read_size e_bad_message max_msg_size input)
      λ size rest. or_bad_message (read_full size rest)

-- The loop of readMPUB: so many bodies.
unfoldable pub read_bodies : ℕ → ℕ → List ℕ → Read (List (List ℕ))
read_bodies zero max_msg_size input = got [] input
read_bodies (suc n) max_msg_size input =
    then_read (read_body max_msg_size input) λ body rest.
      then_read (read_bodies n max_msg_size rest) λ bodies left. got (body ∷ bodies) left

-- readMPUB without the ids of the messages.
unfoldable pub read_mpub : ℕ → ℕ → List ℕ → Read (List (List ℕ))
read_mpub max_msg_size max_body_size input =
    then_read (read_size e_bad_body ((max_body_size - 4) / 5) input)
      λ n rest. read_bodies n max_msg_size rest
