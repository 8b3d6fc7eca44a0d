-- ===== src/Nsqd/Channel.antt =====
-- nsqd/channel.go: the queues of a channel. A pointer to a message is a number, and `message` is
-- the heap of messages; the field `index` is kept by Nsqd/InFlight. Each function takes its mutexes
-- once, and runs here as a whole. `none` is a panic. The clock is an argument of what reads it;
-- times are nanoseconds, not negative and without overflow.
pub mod Scan
pub mod InFlight
pub mod Deliver
pub mod Timeouts
pub mod Requeue
pub mod Contract
pub mod Deferred
pub mod System
use nsq.Common.{
  ℕ, zero, suc, ◌+◌, ◌-◌, ◌/◌, ◌≤◌, ◌<◌, ◌≡◌, Bool, true, false, List, [], ◌∷◌, ◌++◌, Option, none,
  some, ltb, leb, if◌then◌else◌, ◌==◌, nat_eq, bytes_eq, length, ◌&&◌, not,
}
use nsq.Common.Map.{lookup, insert, delete}
use nsq.Nsqd.Message.{Message, write_message_to_backend}
use nsq.Nsqd.InFlight.{Pqueue, ◌>>=◌, new_in_flight_pqueue, push, remove, peek_and_shift}
use nsq.Nsqd.Client.{Client, timed_out_message, increment}

-- A message with the fields for in-flight handling.
pub record Entry : Type 0 where
  pub message : Message
  pub client_id : ℕ
  pub delivery_ts : ℕ
  pub pri : ℕ

-- A pqueue.Item: the pointer to the message and the priority.
abbrev pub Item : Type 0
Item = ℕ × ℕ

-- pqueue.PriorityQueue as the channel uses it: New, heap.Push and PeekAndShift. `none` is a panic.
pub record DeferredQueue (Q : Type 0) : Type 0 where
  pub new : ℕ → Q
  pub push : Q → Item → Option Q
  pub peek_and_shift : Q → ℕ → Option (Option Item × Q)

-- The interface BackendQueue, over the state of a backend.
pub record BackendQueue (B E : Type 0) : Type 0 where
  pub put : B → List ℕ → B × Option E
  pub empty : B → B × Option E
  pub delete : B → B × Option E
  pub close : B → B × Option E
  pub depth : B → ℕ

pub data Failure (E : Type 0) : Type 0 where
  exiting id_already_in_flight id_not_in_flight client_does_not_own id_already_deferred
        id_not_deferred too_many_channel_consumers :
      Failure E
  backend_error : E → Failure E

pub record Channel (Q B : Type 0) : Type 0 where
  pub message : ℕ → Entry
  pub requeue_count : ℕ
  pub message_count : ℕ
  pub timeout_count : ℕ
  pub memory : List ℕ
  pub memory_size : ℕ
  pub backend : B
  pub is_exiting : Bool
  pub clients : List (ℕ × Client)
  pub paused : Bool
  pub ephemeral : Bool
  pub deferred_messages : List (List ℕ × Item)
  pub deferred_pq : Q
  pub in_flight_messages : List (List ℕ × ℕ)
  pub in_flight_pq : Pqueue

abbrev pub update : (ℕ → Entry) → ℕ → Entry → ℕ → Entry
update message r e x = if r == x then e else message x

module _ {Q B : Type 0} where
  abbrev pub id_of : Channel Q B → ℕ → List ℕ
  id_of c r = (c.message r).message.id

  abbrev pub pri_of : Channel Q B → ℕ → ℕ
  pri_of c r = (c.message r).pri

-- What a function leaves of the channel, and the error that it returns, if any.
abbrev pub Outcome : Type 0 → Type 0 → Type 0 → Type 0
Outcome Q B E = Channel Q B × Option (Failure E)

-- What popInFlightMessage returns.
pub data Popped (Q B E : Type 0) : Type 0 where
  refused : Failure E → Popped Q B E
  popped : ℕ → Channel Q B → Popped Q B E

-- The rest of a function, unless there was an error.
abbrev pub unless_failed :
    {Q B E : Type 0}
    → Outcome Q B E
    → (Channel Q B → Option (Outcome Q B E))
    → Option (Outcome Q B E)
unless_failed (c, some e) next = some (c, some e)
unless_failed (c, none) next = next c

abbrev pub if_popped :
    {Q B E : Type 0}
    → Channel Q B
    → Popped Q B E
    → (ℕ → Channel Q B → Option (Outcome Q B E))
    → Option (Outcome Q B E)
if_popped c (refused e) next = some (c, some e)
if_popped c (popped r c') next = next r c'

-- math.Max(1, float64(MemQueueSize)/10), as an int
abbrev pub pq_size : ℕ → ℕ
pq_size memory_size = if ltb memory_size 10 then 1 else memory_size / 10

-- The new timeout, no later than the longest time allowed after the delivery.
abbrev pub touched_pri : ℕ → ℕ → ℕ → ℕ → ℕ
touched_pri now timeout delivery_ts max_msg_timeout =
    if leb (delivery_ts + max_msg_timeout) (now + timeout)
    then delivery_ts + max_msg_timeout
    else now + timeout

-- removeFromInFlightPQ: nothing to do for a message with index -1.
unfoldable pub remove_from_in_flight_pq : {Q B : Type 0} → Channel Q B → ℕ → Option (Channel Q B)
remove_from_in_flight_pq c r = elim (c.in_flight_pq.index r) [
  | none ↦ some c
  | some i ↦ remove (pri_of c) c.in_flight_pq i >>= λ (x, q). some (record c { in_flight_pq = q })
]

module _ {Q B E : Type 0} where
  unfoldable pub push_in_flight_message : Channel Q B → ℕ → Outcome Q B E
  push_in_flight_message c r = elim (lookup (id_of c r) c.in_flight_messages) [
    | some _ ↦ (c, some id_already_in_flight)
    | none ↦ (record c { in_flight_messages = insert (id_of c r) r c.in_flight_messages }, none)
  ]

  unfoldable pub pop_in_flight_message : Channel Q B → ℕ → List ℕ → Popped Q B E
  pop_in_flight_message c client_id id = elim (lookup id c.in_flight_messages) [
    | none ↦ refused id_not_in_flight
    | some r ↦
        if (c.message r).client_id == client_id
        then popped r (record c { in_flight_messages = delete id c.in_flight_messages })
        else refused client_does_not_own
  ]

  unfoldable pub add_to_in_flight_pq : Channel Q B → ℕ → Option (Outcome Q B E)
  add_to_in_flight_pq c r =
      push (pri_of c) c.in_flight_pq r >>= λ q. some (record c { in_flight_pq = q }, none)

  unfoldable pub start_in_flight_timeout : Channel Q B → ℕ → ℕ → ℕ → ℕ → Option (Outcome Q B E)
  start_in_flight_timeout c r client_id now timeout =
      let entry = record (c.message r) {
        client_id = client_id;
        delivery_ts = now;
        pri = now + timeout;
      } in
      let marked = record c { message = update c.message r entry } in
      unless_failed (push_in_flight_message marked r) λ c'. add_to_in_flight_pq c' r

  -- The quantile stream of processing times is not modelled.
  unfoldable pub finish_message : Channel Q B → ℕ → List ℕ → Option (Outcome Q B E)
  finish_message c client_id id =
      if_popped c (pop_in_flight_message c client_id id)
        λ r c'. remove_from_in_flight_pq c' r >>= λ c''. some (c'', none)

  unfoldable pub touch_message : Channel Q B → ℕ → List ℕ → ℕ → ℕ → ℕ → Option (Outcome Q B E)
  touch_message c client_id id now timeout max_msg_timeout =
      if_popped c (pop_in_flight_message c client_id id) λ r c'.
        remove_from_in_flight_pq c' r >>= λ c''.
        let entry = c''.message r in
        let later = record entry {
          pri = touched_pri now timeout entry.delivery_ts max_msg_timeout;
        } in
        let marked = record c'' { message = update c''.message r later } in
        unless_failed (push_in_flight_message marked r) λ d. add_to_in_flight_pq d r

  -- AddClient; no limit is 0.
  unfoldable pub add_client : ℕ → Channel Q B → ℕ → Client → Outcome Q B E
  add_client max_consumers c client_id client = elim (lookup client_id c.clients) [
    | some _ ↦ (c, none)
    | none ↦
        if not (max_consumers == 0) && leb max_consumers (length c.clients)
        then (c, some too_many_channel_consumers)
        else (record c { clients = insert client_id client c.clients }, none)
  ]

module _ {Q B : Type 0} where
  -- RemoveClient; the result says whether the callback that deletes the channel is started.
  unfoldable pub remove_client : Channel Q B → ℕ → Channel Q B × Bool
  remove_client c client_id = elim (lookup client_id c.clients) [
    | none ↦ (c, false)
    | some _ ↦
        let left = delete client_id c.clients in
        (record c { clients = left }, length left == 0 && c.ephemeral)
  ]

  unfoldable pub do_pause : Channel Q B → Bool → Channel Q B
  do_pause c pause = record c { paused = pause }

  -- The counters for one message that timed out.
  unfoldable pub count_timeout : Channel Q B → ℕ → Channel Q B
  count_timeout c client_id =
      let counted = increment c.timeout_count in
      elim (lookup client_id c.clients) [
        | none ↦ record c { timeout_count = counted }
        | some client ↦ record c {
          timeout_count = counted;
          clients = insert client_id (timed_out_message client) c.clients;
        }
      ]
