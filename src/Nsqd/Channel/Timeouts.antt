-- ===== src/Nsqd/Channel/Timeouts.antt =====
-- processInFlightQueue: the messages whose time has come go back to the queues.
use nsq.Common.{
  ℕ, zero, suc, ◌+◌, ◌≤◌, ◌<◌, ◌≡◌, inl, inr, refl, ap, ◌∙◌, Bool, true, false, List, [], ◌∷◌, ◌++◌,
  Option, some, arith, ltb, if◌then◌else◌, nat_eq, bytes_eq, nat_beq, length, count, Bool-cases,
}
use nsq.Common.Map.{delete}
use nsq.Nsqd.InFlight.{Pqueue, peek_and_shift}
use nsq.Nsqd.InFlight.Queue.{Removed}
use nsq.Nsqd.InFlight.Shrink.{Peeked, early, due, peek_and_shift_correct}
use nsq.Nsqd.Message.{write_message_to_backend}
use nsq.Nsqd.Channel.{Channel, Entry, DeferredQueue, BackendQueue, id_of, pri_of, count_timeout}
use nsq.Nsqd.Channel.Scan.{put, in_flight_loop, process_in_flight_queue}
use nsq.Nsqd.Channel.InFlight.{InQueue, IsConsistent, Removed-IsConsistent}
use nsq.Nsqd.Channel.Deliver.{Owns, pop-Owns}

-- The in-flight part of a channel is the same in `d`.
pub record SameInFlight {Q B : Type 0} (c d : Channel Q B) : Type 0 where
  pub message : d.message ≡ c.message
  pub in_flight_messages : d.in_flight_messages ≡ c.in_flight_messages
  pub in_flight_pq : d.in_flight_pq ≡ c.in_flight_pq

pub SameInFlight-IsConsistent :
    {Q B : Type 0} (c d : Channel Q B) → SameInFlight c d → IsConsistent c → IsConsistent d
SameInFlight-IsConsistent c d s v = record {
  queue = rw (s.message, s.in_flight_pq) v.queue;
  mapped = rw (s.message, s.in_flight_pq, s.in_flight_messages) v.mapped;
  queued = rw (s.message, s.in_flight_pq, s.in_flight_messages) v.queued;
}

-- The parts of a channel that the in-flight messages do not touch.
pub record Elsewhere {Q B : Type 0} (c d : Channel Q B) : Type 0 where
  pub deferred_messages : d.deferred_messages ≡ c.deferred_messages
  pub deferred_pq : d.deferred_pq ≡ c.deferred_pq
  pub memory_size : d.memory_size ≡ c.memory_size
  pub is_exiting : d.is_exiting ≡ c.is_exiting

module _ {Q B E : Type 0} (deferred_queue : DeferredQueue Q)
    (backend_queue : BackendQueue B E) where
  -- Where `put` leaves a message: at the end of the memory queue, or in the backend.
  abbrev pub stored : (ℕ → Entry) → ℕ → List ℕ × B → ℕ → List ℕ × B
  stored message size (memory, backend) r =
      if ltb (length memory) size
      then (memory ++ r ∷ [], backend)
      else (memory, (write_message_to_backend backend_queue.put (message r).message backend).0)

  abbrev pub stored_all : (ℕ → Entry) → ℕ → List ℕ × B → List ℕ → List ℕ × B
  stored_all message size s [] = s
  stored_all message size s (r ∷ rs) = stored_all message size (stored message size s r) rs

  abbrev handed_back : Channel Q B → ℕ → Channel Q B
  handed_back c r = (put deferred_queue backend_queue (count_timeout c (c.message r).client_id) r).0

  handed_back-SameInFlight : (c : Channel Q B) (r : ℕ) → SameInFlight c (handed_back c r)
  unfolding put count_timeout
  handed_back-SameInFlight c r = ground arith

  handed_back-stores :
      (c : Channel Q B) (r : ℕ)
      → ((handed_back c r).memory_size ≡ c.memory_size)
        × (◌≡◌ {A = List ℕ × B}
            ((handed_back c r).memory, (handed_back c r).backend)
            (stored c.message c.memory_size (c.memory, c.backend) r))
  unfolding put count_timeout
  handed_back-stores c r = ground arith

  handed_back-Elsewhere : (c : Channel Q B) (r : ℕ) → Elsewhere c (handed_back c r)
  unfolding put count_timeout
  handed_back-Elsewhere c r = record {
    deferred_messages = ground arith;
    deferred_pq = ground arith;
    memory_size = ground arith;
    is_exiting = ground arith;
  }

  -- What a scan at time `t` does to the channel, where `rs` are the messages that timed out.
  pub record Scanned (c : Channel Q B) (t : ℕ) (rs : List ℕ) (c' : Channel Q B) : Type 0 where
    pub consistent : IsConsistent c'
    pub same_messages : c'.message ≡ c.message
    pub elsewhere : Elsewhere c c'
    pub later : (r : ℕ) → InQueue c' r → t < pri_of c r
    pub each_once :
        (r : ℕ) → count r c.in_flight_pq.items ≡ count r c'.in_flight_pq.items + count r rs
    pub timed_out : (r : ℕ) → 0 < count r rs → pri_of c r ≤ t
    pub stores :
        ◌≡◌ {A = List ℕ × B}
          (c'.memory, c'.backend)
          (stored_all c.message c.memory_size (c.memory, c.backend) rs)

  -- The channel when the loop goes on after the message `x`, with the queue `q`.
  abbrev after_timeout : Channel Q B → ℕ → Pqueue → Channel Q B
  after_timeout c x q =
      handed_back
        (record c {
          in_flight_messages = delete (id_of c x) c.in_flight_messages;
          in_flight_pq = q;
        })
        x

  -- One round: nothing is due, or one message is handed back and the loop goes on.
  data Round (fuel : ℕ) (c : Channel Q B) (t : ℕ) (dirty : Bool) : Type 0 where
    rests :
        in_flight_loop deferred_queue backend_queue (suc fuel) c t dirty ≡ some (c, dirty)
        → ((r : ℕ) → InQueue c r → t < pri_of c r)
        → Round fuel c t dirty
    fires :
        (x : ℕ) (q : Pqueue)
        → in_flight_loop deferred_queue backend_queue (suc fuel) c t dirty
          ≡ in_flight_loop deferred_queue backend_queue fuel (after_timeout c x q) t true
        → pri_of c x ≤ t
        → Removed (pri_of c) c.in_flight_pq x q
        → IsConsistent (after_timeout c x q)
        → Round fuel c t dirty

  Round-of_peek :
      (fuel : ℕ) (c : Channel Q B) (t : ℕ) (dirty : Bool) (o : Option ℕ) (delay : ℕ) (q : Pqueue)
      → IsConsistent c
      → peek_and_shift (pri_of c) c.in_flight_pq t ≡ some (o, delay, q)
      → Peeked (pri_of c) c.in_flight_pq t o q
      → Round fuel c t dirty
  unfolding in_flight_loop
  Round-of_peek fuel c t dirty o delay q v run (early later) = rests (rw run refl) later
  Round-of_peek fuel c t dirty o delay q v run (due x time inq gone least) =
      let found = v.mapped x inq in
      let shifted : Channel Q B = record c { in_flight_pq = q } in
      let taken : Channel Q B = record c {
        in_flight_messages = delete (id_of c x) c.in_flight_messages;
        in_flight_pq = q;
      } in
      let owned : Owns shifted (c.message x).client_id (id_of c x) x = record {
        found = found;
        owner = refl;
      } in
      fires x q
        (rw run (rw (pop-Owns {E = E} shifted (c.message x).client_id (id_of c x) x owned) refl))
        time gone
        (SameInFlight-IsConsistent taken (handed_back taken x) (handed_back-SameInFlight taken x)
          (Removed-IsConsistent c (id_of c x) x q v found gone))

  Round-cases :
      (fuel : ℕ) (c : Channel Q B) (t : ℕ) (dirty : Bool) → IsConsistent c → Round fuel c t dirty
  Round-cases fuel c t dirty v =
      let (o, delay, q, run, peeked) = peek_and_shift_correct (pri_of c) c.in_flight_pq t v.queue in
      Round-of_peek fuel c t dirty o delay q v run peeked

  Scanned-fires :
      (c : Channel Q B) (t x : ℕ) (q : Pqueue) (rs : List ℕ) (c' : Channel Q B)
      → pri_of c x ≤ t
      → Removed (pri_of c) c.in_flight_pq x q
      → Scanned (after_timeout c x q) t rs c'
      → Scanned c t (x ∷ rs) c'
  Scanned-fires c t x q rs c' time gone s =
      let taken : Channel Q B = record c {
        in_flight_messages = delete (id_of c x) c.in_flight_messages;
        in_flight_pq = q;
      } in
      let same = handed_back-SameInFlight taken x in
      let apart = handed_back-Elsewhere taken x in
      let (size, store) = handed_back-stores taken x in
      let pri : (r : ℕ) → pri_of (after_timeout c x q) r ≡ pri_of c r =
        λ r i. (same.message i r).pri in
      record {
        consistent = s.consistent;
        same_messages = s.same_messages ∙ same.message;
        elsewhere = record {
          deferred_messages = s.elsewhere.deferred_messages ∙ apart.deferred_messages;
          deferred_pq = s.elsewhere.deferred_pq ∙ apart.deferred_pq;
          memory_size = s.elsewhere.memory_size ∙ apart.memory_size;
          is_exiting = s.elsewhere.is_exiting ∙ apart.is_exiting;
        };
        later = λ r h. rw (pri r) at (s.later r h);
        each_once = λ r. omega (
          arith,
          gone.counts r,
          s.each_once r,
          ap (λ (p : Pqueue). count r p.items) same.in_flight_pq,
        );
        timed_out = λ r h. elim (Bool-cases (nat_beq x r)) [
          | inl e ↦ let here : x ≡ r = ground arith in rw (← here) time
          | inr ne ↦ rw (pri r) at (s.timed_out r (ground arith))
        ];
        stores = s.stores ∙ (λ i. stored_all (same.message i) (size i) (store i) rs);
      }

  in_flight_loop-Scanned :
      (fuel : ℕ) (c : Channel Q B) (t : ℕ) (dirty : Bool)
      → length c.in_flight_pq.items < fuel
      → IsConsistent c
      → (c' : Channel Q B) × (rs : List ℕ) × (dirty' : Bool) × (in_flight_loop deferred_queue
            backend_queue fuel c t dirty
          ≡ some (c', dirty'))
        × Scanned c t rs c'
  in_flight_loop-Scanned zero c t dirty f v = absurd (omega arith)
  in_flight_loop-Scanned (suc fuel) c t dirty f v = elim (Round-cases fuel c t dirty v) [
    | rests run later ↦ (
      c,
      [],
      dirty,
      run,
      record {
        consistent = v;
        same_messages = refl;
        elsewhere = record {
          deferred_messages = refl;
          deferred_pq = refl;
          memory_size = refl;
          is_exiting = refl;
        };
        later = later;
        each_once = λ r. omega arith;
        timed_out = λ r h. absurd (omega arith);
        stores = refl;
      },
    )
    | fires x q run time gone consistent ↦
        let d = after_timeout c x q in
        let same =
          handed_back-SameInFlight
            (record c {
              in_flight_messages = delete (id_of c x) c.in_flight_messages;
              in_flight_pq = q;
            })
            x in
        let (c', rs, dirty', run', s) =
          in_flight_loop-Scanned fuel d t true
            (omega (arith, gone.shorter, ap (λ (p : Pqueue). length p.items) same.in_flight_pq))
            consistent in
        (c', x ∷ rs, dirty', run ∙ run', Scanned-fires c t x q rs c' time gone s)
  ]

  -- A scan of a consistent channel that is not exiting ends without a panic and leaves it
  -- consistent. The messages whose timeout is at `t` or before are taken out of flight and handed
  -- to `put`, each once; the others stay in flight.
  pub process_in_flight_queue-Scanned :
      (c : Channel Q B) (t : ℕ)
      → c.is_exiting ≡ false
      → IsConsistent c
      → (c' : Channel Q B) × (rs : List ℕ) × (dirty : Bool) × (process_in_flight_queue
            deferred_queue backend_queue c t
          ≡ some (c', dirty))
        × Scanned c t rs c'
  unfolding process_in_flight_queue
  process_in_flight_queue-Scanned c t running v =
      let result =
        in_flight_loop-Scanned (length c.in_flight_pq.items + 1) c t false (omega arith) v in
      simp running result
