-- ===== src/Nsqd/Channel/Scan.antt =====
-- nsqd/channel.go: what puts messages into the queues of a channel, the scans for messages whose
-- time has come, and the end of a channel.
use nsq.Common.{
  ℕ, zero, suc, ◌+◌, Bool, true, false, List, [], ◌∷◌, ◌++◌, Option, none, some, ltb, if◌then◌else◌,
  ◌==◌, nat_eq, bytes_eq, length, map, ◌||◌,
}
use nsq.Common.Map.{lookup, insert, delete}
use nsq.Nsqd.Message.{write_message_to_backend}
use nsq.Nsqd.InFlight.{◌>>=◌, new_in_flight_pqueue, peek_and_shift}
use nsq.Nsqd.Client.{Client, increment}
use nsq.Nsqd.Client
use nsq.Nsqd.Channel.{
  Channel, Item, DeferredQueue, BackendQueue, Failure, exiting, id_already_deferred,
  id_not_deferred, backend_error, Outcome, Popped, refused, popped, if_popped, unless_failed,
  pq_size, id_of, pri_of, pop_in_flight_message, remove_from_in_flight_pq, count_timeout,
}

-- A scan ends when the message that is due is not in the map, and otherwise goes on.
abbrev pub after_pop :
    {Q B E : Type 0}
    → Channel Q B
    → Popped Q B E
    → (Channel Q B → Option (Channel Q B × Bool))
    → Option (Channel Q B × Bool)
after_pop c (refused e) next = some (c, true)
after_pop c (popped r c') next = next c'

abbrev pub to_failure : {E : Type 0} → Option E → Option (Failure E)
to_failure none = none
to_failure (some e) = some (backend_error e)

module _ {Q B E : Type 0} (deferred_queue : DeferredQueue Q)
    (backend_queue : BackendQueue B E) where
  -- A message goes to the memory queue if that has room, and to the backend otherwise. The health
  -- of the daemon, which an error changes, is not modelled.
  unfoldable pub put : Channel Q B → ℕ → Outcome Q B E
  put c r =
      let written = write_message_to_backend backend_queue.put (c.message r).message c.backend in
      if ltb (length c.memory) c.memory_size
      then (record c { memory = c.memory ++ r ∷ [] }, none)
      else (record c { backend = written.0 }, to_failure written.1)

  unfoldable pub put_message : Channel Q B → ℕ → Outcome Q B E
  put_message c r =
      let (c', failure) = put c r in
      if c.is_exiting then (c, some exiting) else elim failure [
        | some e ↦ (c', some e)
        | none ↦ (record c' { message_count = increment c'.message_count }, none)
      ]

  unfoldable pub push_deferred_message : Channel Q B → Item → Outcome Q B E
  push_deferred_message c item = elim (lookup (id_of c item.0) c.deferred_messages) [
    | some _ ↦ (c, some id_already_deferred)
    | none ↦
        (record c { deferred_messages = insert (id_of c item.0) item c.deferred_messages }, none)
  ]

  unfoldable pub pop_deferred_message : Channel Q B → List ℕ → Popped Q B E
  pop_deferred_message c id = elim (lookup id c.deferred_messages) [
    | none ↦ refused id_not_deferred
    | some item ↦ popped item.0 (record c { deferred_messages = delete id c.deferred_messages })
  ]

  unfoldable pub start_deferred_timeout : Channel Q B → ℕ → ℕ → ℕ → Option (Outcome Q B E)
  start_deferred_timeout c r now timeout =
      let item : Item = (r, now + timeout) in
      unless_failed (push_deferred_message c item) λ c'.
        deferred_queue.push c'.deferred_pq item >>= λ q. some (record c' { deferred_pq = q }, none)

  -- An error of StartDeferredTimeout is dropped.
  unfoldable pub put_message_deferred : Channel Q B → ℕ → ℕ → ℕ → Option (Channel Q B)
  put_message_deferred c r now timeout =
      start_deferred_timeout (record c { message_count = increment c.message_count }) r now timeout
      >>= λ o. some o.0

  unfoldable pub requeue_message : Channel Q B → ℕ → List ℕ → ℕ → ℕ → Option (Outcome Q B E)
  requeue_message c client_id id now timeout =
      if_popped c (pop_in_flight_message c client_id id) λ r c'.
        remove_from_in_flight_pq c' r >>= λ c''.
        let counted = record c'' { requeue_count = increment c''.requeue_count } in
        let at_once = if counted.is_exiting then (counted, some exiting) else put counted r in
        if timeout == 0 then some at_once else start_deferred_timeout counted r now timeout

  -- The loop of processInFlightQueue; the flag is `dirty`. An error of `put` is dropped.
  unfoldable pub in_flight_loop : ℕ → Channel Q B → ℕ → Bool → Option (Channel Q B × Bool)
  in_flight_loop zero c t dirty = none
  in_flight_loop (suc fuel) c t dirty =
      peek_and_shift (pri_of c) c.in_flight_pq t >>= λ (o, delay, q).
      let shifted = record c { in_flight_pq = q } in
      elim o [
        | none ↦ some (shifted, dirty)
        | some r ↦
            after_pop {E = E} shifted
              (pop_in_flight_message shifted (c.message r).client_id (id_of c r))
              λ c'. in_flight_loop fuel (put (count_timeout c' (c.message r).client_id) r).0 t true
      ]

  unfoldable pub process_in_flight_queue : Channel Q B → ℕ → Option (Channel Q B × Bool)
  process_in_flight_queue c t =
      if c.is_exiting
      then some (c, false)
      else in_flight_loop (length c.in_flight_pq.items + 1) c t false

  -- The loop of processDeferredQueue.
  unfoldable pub deferred_loop : ℕ → Channel Q B → ℕ → Bool → Option (Channel Q B × Bool)
  deferred_loop zero c t dirty = none
  deferred_loop (suc fuel) c t dirty = deferred_queue.peek_and_shift c.deferred_pq t >>= λ (o, q).
      let shifted = record c { deferred_pq = q } in
      elim o [
        | none ↦ some (shifted, dirty)
        | some item ↦
            after_pop {E = E} shifted (pop_deferred_message shifted (id_of c item.0))
              λ c'. deferred_loop fuel (put c' item.0).0 t true
      ]

  -- Each round but the last takes an entry out of `deferred_messages`.
  unfoldable pub process_deferred_queue : Channel Q B → ℕ → Option (Channel Q B × Bool)
  process_deferred_queue c t =
      if c.is_exiting
      then some (c, false)
      else deferred_loop (length c.deferred_messages + 1) c t false

  -- What a queueScanWorker does with a channel that it is handed at the time `now`.
  unfoldable pub scan_channel : Channel Q B → ℕ → Option (Channel Q B × Bool)
  scan_channel c now = do
    (scanned, timed_out) ← process_in_flight_queue c now
    (done, came_due) ← process_deferred_queue scanned now
    some (done, timed_out || came_due)

  unfoldable pub init_pq : Channel Q B → Channel Q B
  init_pq c = record c {
    in_flight_messages = [];
    in_flight_pq = new_in_flight_pqueue (pq_size c.memory_size) c.in_flight_pq.index;
    deferred_messages = [];
    deferred_pq = deferred_queue.new (pq_size c.memory_size);
  }

  -- The method Empty.
  unfoldable pub empty : Channel Q B → Outcome Q B E
  unfolding init_pq
  empty c =
      let fresh = init_pq c in
      let (backend, failure) = backend_queue.empty c.backend in
      let emptied = record fresh {
        clients = map (λ (k, client). (k, Client.empty client)) c.clients;
        memory = [];
        backend = backend;
      } in
      (emptied, to_failure failure)

  -- Writes messages to the backend, each whatever becomes of the others.
  unfoldable pub write_all : Channel Q B → List ℕ → B → B
  write_all c [] b = b
  write_all c (r ∷ rs) b =
      write_all c rs (write_message_to_backend backend_queue.put (c.message r).message b).0

  unfoldable pub flush : Channel Q B → Channel Q B
  unfolding write_all
  flush c =
      let in_memory = write_all c c.memory c.backend in
      let in_flight = write_all c (map (λ (id, r). r) c.in_flight_messages) in_memory in
      let deferred = write_all c (map (λ (id, item). item.0) c.deferred_messages) in_flight in
      record c { memory = []; backend = deferred }

  -- The method exit; the connections of the clients, which it closes, are not modelled.
  unfoldable pub exit : Channel Q B → Bool → Outcome Q B E
  unfolding empty flush
  exit c deleted =
      let closing = record c { is_exiting = true } in
      let end : (B → B × Option E) → Channel Q B → Outcome Q B E = λ f d.
        let (backend, failure) = f d.backend in
        (record d { backend = backend }, to_failure failure) in
      if c.is_exiting
      then (c, some exiting)
      else if deleted
      then end backend_queue.delete (empty closing).0
      else end backend_queue.close (flush closing)

  unfoldable pub depth : Channel Q B → ℕ
  depth c = length c.memory + backend_queue.depth c.backend
