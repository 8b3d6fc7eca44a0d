-- ===== src/Nsqd/Publish/Laws.antt =====
-- Where the messages of one request go: to the memory queue of the topic as long as it has room,
-- and to its backend from there on.
use nsq.Common.{
  ℕ, ◌+◌, ◌<◌, ◌≤◌, ◌≡◌, refl, true, false, List, [], ◌∷◌, ◌++◌, none, some, length, take, drop,
  length-append, arith,
}
use nsq.Nsqd.Message.{Message}
use nsq.Nsqd.Channel.{BackendQueue}
use nsq.Nsqd.Publish.{Topic, topic_exiting, put, put_loop, put_messages, write_published}

abbrev pub bytes_of : List Message → ℕ
bytes_of [] = 0
bytes_of (m ∷ ms) = length m.body + bytes_of ms

module _ {B E : Type 0} (backend_queue : BackendQueue B E) where
  -- The topic after so many of the messages went to memory and the others to the backend.
  abbrev pub split_at : Topic B → ℕ → List Message → Topic B
  split_at t room ms = record t {
    memory = t.memory ++ take room ms;
    backend = write_published backend_queue (drop room ms) t.backend;
  }

  put-room :
      (t : Topic B) (m : Message)
      → length t.memory < t.memory_size
      → put backend_queue t m ≡ (record t { memory = t.memory ++ m ∷ [] }, none)
  unfolding put
  put-room t m h = ground arith

  put_loop-room :
      (t : Topic B) (ms : List Message) (i total : ℕ)
      → length t.memory + length ms ≤ t.memory_size
      → (put_loop backend_queue t ms i total).1 ≡ none
  unfolding put_loop
  put_loop-room t [] i total h = refl
  put_loop-room t (m ∷ ms) i total h =
      let t' = record t { memory = t.memory ++ m ∷ [] } in
      let p = put-room t m (omega arith) in
      let later =
        put_loop-room t' ms (i + 1) (total + length m.body)
          (omega (arith, length-append t.memory (m ∷ []))) in
      ground (arith, p, later)

  -- PutMessages succeeds on a topic that is not exiting when the memory queue has room for all of
  -- the messages; on one that is exiting it fails and changes nothing.
  pub put_messages-result :
      (t : Topic B) (ms : List Message)
      → ((t.is_exiting ≡ false)
          → length t.memory + length ms ≤ t.memory_size
          → (put_messages backend_queue t ms).1 ≡ none)
        × ((t.is_exiting ≡ true) → put_messages backend_queue t ms ≡ (t, some topic_exiting))
  unfolding put_messages
  put_messages-result t ms =
      (λ open_topic room. simp open_topic (put_loop-room t ms 0 0 room), λ closed. simp closed refl)
