-- ===== src/Nsqd/Channel/System/Steps.antt =====
-- The life of a channel, as steps: in any order messages are published, delivered, finished, touched
-- and requeued, and the scans run.
use nsq.Common.{ℕ, ◌<◌, ◌≡◌, ◌≢◌, List, [], ◌∷◌, none, some, Bool, false, bytes_eq}
use nsq.Nsqd.Channel.{
  Channel, DeferredQueue, BackendQueue, id_of, start_in_flight_timeout, finish_message,
  touch_message,
}
use nsq.Nsqd.Channel.Deliver.{Owns}
use nsq.Nsqd.Channel.Scan.{
  init_pq, put_message, put_message_deferred, requeue_message, process_in_flight_queue,
  process_deferred_queue,
}
use nsq.Nsqd.Channel.System.{sums, only, each}

-- A channel, the messages that were published to it, and those that were finished.
pub record System (Q B : Type 0) : Type 0 where
  pub channel : Channel Q B
  pub published : List ℕ
  pub finished : List ℕ

module _ {Q B : Type 0} where
  abbrev pub state : Channel Q B → List ℕ → List ℕ → System Q B
  state c published finished = record { channel = c; published = published; finished = finished }

  -- A message that the channel does not hold, under an id that it does not hold, for which memory
  -- has room.
  pub record IsNew (c : Channel Q B) (r : ℕ) : Type 0 where
    pub absent : sums (only r) c ≡ 0
    pub id_absent : (x : ℕ) → 0 < sums (only x) c → id_of c x ≢ id_of c r
    pub room : sums each c < c.memory_size

module _ {Q B E : Type 0} (deferred_queue : DeferredQueue Q)
    (backend_queue : BackendQueue B E) where
  pub data Step : System Q B → System Q B → Type 0 where
    publish :
        (c c' : Channel Q B) (r : ℕ) (published finished : List ℕ)
        → IsNew c r
        → put_message deferred_queue backend_queue c r ≡ (c', none)
        → Step (state c published finished) (state c' (r ∷ published) finished)
    publish_deferred :
        (c c' : Channel Q B) (r now timeout : ℕ) (published finished : List ℕ)
        → IsNew c r
        → put_message_deferred {E = E} deferred_queue backend_queue c r now timeout ≡ some c'
        → Step (state c published finished) (state c' (r ∷ published) finished)
    deliver :
        (c c' : Channel Q B) (r : ℕ) (rest : List ℕ) (client_id now timeout : ℕ)
        (published finished : List ℕ)
        → c.memory ≡ r ∷ rest
        → start_in_flight_timeout {E = E} (record c { memory = rest }) r client_id now timeout
          ≡ some (c', none)
        → Step (state c published finished) (state c' published finished)
    finish :
        (c c' : Channel Q B) (client_id : ℕ) (id : List ℕ) (r : ℕ) (published finished : List ℕ)
        → Owns c client_id id r
        → finish_message {E = E} c client_id id ≡ some (c', none)
        → Step (state c published finished) (state c' published (r ∷ finished))
    touch :
        (c c' : Channel Q B) (client_id : ℕ) (id : List ℕ) (r now timeout max_msg_timeout : ℕ)
        (published finished : List ℕ)
        → Owns c client_id id r
        → touch_message {E = E} c client_id id now timeout max_msg_timeout ≡ some (c', none)
        → Step (state c published finished) (state c' published finished)
    requeue :
        (c c' : Channel Q B) (client_id : ℕ) (id : List ℕ) (r now timeout : ℕ)
        (published finished : List ℕ)
        → Owns c client_id id r
        → requeue_message deferred_queue backend_queue c client_id id now timeout ≡ some (c', none)
        → Step (state c published finished) (state c' published finished)
    scan_in_flight :
        (c c' : Channel Q B) (t : ℕ) (dirty : Bool) (published finished : List ℕ)
        → process_in_flight_queue deferred_queue backend_queue c t ≡ some (c', dirty)
        → Step (state c published finished) (state c' published finished)
    scan_deferred :
        (c c' : Channel Q B) (t : ℕ) (dirty : Bool) (published finished : List ℕ)
        → process_deferred_queue deferred_queue backend_queue c t ≡ some (c', dirty)
        → Step (state c published finished) (state c' published finished)

  -- The states that steps lead to from a new channel.
  pub data Reach : System Q B → Type 0 where
    start :
        (c : Channel Q B)
        → c.memory ≡ []
        → c.is_exiting ≡ false
        → Reach (state (init_pq {E = E} deferred_queue backend_queue c) [] [])
    later : (s t : System Q B) → Reach s → Step s t → Reach t
