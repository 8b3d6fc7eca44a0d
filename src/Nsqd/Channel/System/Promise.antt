-- ===== src/Nsqd/Channel/System/Promise.antt =====
-- What the clients of a channel can rely on, whatever happened before.
use nsq.Common.{
  ℕ, zero, suc, ◌+◌, ◌≤◌, ◌<◌, ◌≡◌, List, [], ◌∷◌, some, Bool, arith, refl, ap, subst, bytes_eq,
  nat_eq, count, bytes_beq_iff, ◌||◌,
}
use nsq.Common.Map.{lookup, total}
use nsq.Nsqd.InFlight.{Pqueue}
use nsq.Nsqd.Channel.{Channel, Item, DeferredQueue, BackendQueue, id_of, pri_of}
use nsq.Nsqd.Channel.Contract.{IsPriorityQueue}
use nsq.Nsqd.Channel.System.{sums, only, IsSound, Keeps, Keeps-IsSound, count-sum_by}
use nsq.Nsqd.Channel.System.Returns.{process_in_flight_queue-Keeps, process_deferred_queue-Keeps}
use nsq.Nsqd.Channel.System.Steps.{System, Reach}
use nsq.Nsqd.Channel.System.Reach.{Reach-Inv, same_result}
use nsq.Nsqd.Channel.Scan.{scan_channel, process_in_flight_queue, process_deferred_queue}
use nsq.Nsqd.Channel.Timeouts.{process_in_flight_queue-Scanned}
use nsq.Nsqd.Channel.Deferred.Scan.{process_deferred_queue-Handed}
use nsq.Nsqd.Channel.InFlight.{InQueue}

none_of : (n : ℕ) → ¬ (0 < n) → n ≡ 0
none_of zero h = refl
none_of (suc n) h = absurd (h (omega arith))

no_entry :
    {V : Type 0} (w : V → ℕ) (m : List (List ℕ × V))
    → ((id : List ℕ) (v : V) → ¬ (lookup id m ≡ some v))
    → total w m ≡ 0
unfolding lookup
no_entry w [] h = refl
no_entry w ((id, v) ∷ m) h = absurd (h id v (ground (arith, bytes_beq_iff id id)))

module _ {Q B E : Type 0} (deferred_queue : DeferredQueue Q) (backend_queue : BackendQueue B E)
    (holds : Q → Item → ℕ) (IsGood : Q → Type 0)
    (queue_lem : IsPriorityQueue holds deferred_queue IsGood) where
  module _ (c : Channel Q B) (t : ℕ) where
    -- A scan of the messages in flight, when all have timed out.
    scan_flight :
        IsSound holds IsGood c
        → ((r : ℕ) → InQueue c r → pri_of c r ≤ t)
        → (c' : Channel Q B) × (dirty : Bool) × (process_in_flight_queue deferred_queue
              backend_queue c t
            ≡ some (c', dirty))
          × Keeps holds IsGood c [] [] c'
          × ((r : ℕ) → count r c'.in_flight_pq.items ≡ 0)
          × (c'.deferred_messages ≡ c.deferred_messages)
    scan_flight v due =
        let (c', rs, dirty, run, s) =
          process_in_flight_queue-Scanned deferred_queue backend_queue c t v.running v.consistent in
        let (d, dirty', run', k) =
          process_in_flight_queue-Keeps deferred_queue backend_queue holds IsGood c t v in
        (
          c',
          dirty,
          run,
          subst (λ x. Keeps holds IsGood c [] [] x) (same_result c' d dirty dirty' run' run) k,
          λ r.
              none_of (count r c'.in_flight_pq.items)
                (λ h. omega (arith, s.later r h, due r (omega (arith, h, s.each_once r)))),
          s.elsewhere.deferred_messages,
        )

    -- A scan of the deferred messages, when the times of all have come.
    scan_deferred_all :
        IsSound holds IsGood c
        → ((id : List ℕ) (i : Item) → lookup id c.deferred_messages ≡ some i → i.1 ≤ t)
        → (c' : Channel Q B) × (dirty : Bool) × (process_deferred_queue deferred_queue backend_queue
              c t
            ≡ some (c', dirty))
          × Keeps holds IsGood c [] [] c'
          × ((w : Item → ℕ) → total w c'.deferred_messages ≡ 0)
          × (c'.in_flight_pq ≡ c.in_flight_pq)
    scan_deferred_all v due =
        let (c', is, dirty, run, s) =
          process_deferred_queue-Handed deferred_queue backend_queue holds IsGood queue_lem c t
            v.running v.deferring in
        let (d, dirty', run', k) =
          process_deferred_queue-Keeps deferred_queue backend_queue holds IsGood queue_lem c t v in
        let gone : (id : List ℕ) (i : Item) → ¬ (lookup id c'.deferred_messages ≡ some i) =
          λ id i found.
            let inside = (s.deferring.queued id i found).1 in
            let was : 0 < holds c.deferred_pq i = omega (arith, inside, s.each_once i) in
            let early = due (id_of c i.0) i (v.deferring.mapped i was) in
            omega (arith, early, s.later i inside) in
        (
          c',
          dirty,
          run,
          subst (λ x. Keeps holds IsGood c [] [] x) (same_result c' d dirty dirty' run' run) k,
          λ w. no_entry w c'.deferred_messages gone,
          s.same_in_flight,
        )

    scan_channel_lem :
        (c1 c2 : Channel Q B) (dirty1 dirty2 : Bool)
        → process_in_flight_queue deferred_queue backend_queue c t ≡ some (c1, dirty1)
        → process_deferred_queue deferred_queue backend_queue c1 t ≡ some (c2, dirty2)
        → scan_channel deferred_queue backend_queue c t ≡ some (c2, dirty1 || dirty2)
    unfolding scan_channel
    scan_channel_lem c1 c2 dirty1 dirty2 run1 run2 = rw (run1, run2) refl

  -- In every state that a new channel reaches by the steps, each message has been published as often
  -- as it is in memory, in flight, deferred and finished together, and it is in at most one of the
  -- first three, once.
  pub Reach-conserves :
      (s : System Q B) (r : ℕ)
      → Reach deferred_queue backend_queue s
      → (count r s.published ≡ sums (only r) s.channel + count r s.finished)
        × (sums (only r) s.channel ≤ 1)
  Reach-conserves s r reach =
      let v = Reach-Inv deferred_queue backend_queue holds IsGood queue_lem reach in
      (
        omega (arith, v.conserved (only r), count-sum_by r s.published, count-sum_by r s.finished),
        v.sound.single r,
      )

  -- In every state that a new channel reaches by the steps, once the timeouts of all messages in
  -- flight and the times of all deferred messages have come, a scan of the channel puts every message
  -- back into memory that was published and not finished.
  pub Reach-scan_channel :
      (s : System Q B) (t : ℕ)
      → Reach deferred_queue backend_queue s
      → ((r : ℕ) → InQueue s.channel r → pri_of s.channel r ≤ t)
      → ((id : List ℕ) (i : Item) → lookup id s.channel.deferred_messages ≡ some i → i.1 ≤ t)
      → (c' : Channel Q B) × (dirty : Bool) × (scan_channel deferred_queue backend_queue s.channel t
          ≡ some (c', dirty))
        × ((r : ℕ) → count r s.published ≡ count r c'.memory + count r s.finished)
  Reach-scan_channel s t reach due_flight due_deferred =
      let c = s.channel in
      let v = Reach-Inv deferred_queue backend_queue holds IsGood queue_lem reach in
      let (c1, dirty1, run1, keeps1, no_flight, same) = scan_flight c t v.sound due_flight in
      let (c2, dirty2, run2, keeps2, no_deferred, same_flight) =
        scan_deferred_all c1 t (Keeps-IsSound holds IsGood c [] c1 v.sound keeps1)
          (λ id i found. due_deferred id i (rw same at found)) in
      (
        c2,
        dirty1 || dirty2,
        scan_channel_lem c t c1 c2 dirty1 dirty2 run1 run2,
        λ r. omega (
          arith,
          v.conserved (only r),
          keeps1.same_sums (only r),
          keeps2.same_sums (only r),
          count-sum_by r s.published,
          count-sum_by r s.finished,
          count-sum_by r c2.memory,
          count-sum_by r c2.in_flight_pq.items,
          no_deferred (λ (i : Item). only r i.0),
          no_flight r,
          ap (λ (q : Pqueue). count r q.items) same_flight,
        ),
      )
