-- ===== src/Nsqd/Channel/System/Returns.antt =====
-- What requeueing a message and the scans keep of a sound channel: the messages go back to memory,
-- which has room for them, or are deferred.
use nsq.Common.{
  ℕ, ◌+◌, ◌%◌, ◌^◌, ◌≤◌, ◌≡◌, List, [], ◌∷◌, ◌++◌, none, some, nat_eq, bytes_eq, arith, refl, ◌∙◌,
  ap, Bool, true, length, length-append, count-append, ltb,
}
use nsq.Common.Map.{delete, total}
use nsq.Common.Sums.{sum_by, sum_by-counts}
use nsq.Nsqd.InFlight.{Pqueue}
use nsq.Nsqd.Channel.{Channel, Entry, Item, DeferredQueue, BackendQueue, id_of, pri_of}
use nsq.Nsqd.Channel.InFlight.{take_out}
use nsq.Nsqd.Channel.Deliver.{Owns, pop-Owns}
use nsq.Nsqd.Channel.Scan.{put, requeue_message, process_in_flight_queue, process_deferred_queue}
use nsq.Nsqd.Channel.Contract.{IsPriorityQueue}
use nsq.Nsqd.Channel.Timeouts.{
  stored, stored_all, process_in_flight_queue-Scanned, SameInFlight-IsConsistent,
}
use nsq.Nsqd.Channel.Deferred.Scan.{process_deferred_queue-Handed, messages_of, weight_of}
use nsq.Nsqd.Channel.System.{each, IsSound, Keeps}
use nsq.Nsqd.Channel.System.Moves.{Removed-sum_by, IsDeferring-ids}

pub sum_by-append : (w : ℕ → ℕ) (a b : List ℕ) → sum_by w (a ++ b) ≡ sum_by w a + sum_by w b
sum_by-append w [] b = omega arith
sum_by-append w (x ∷ a) b = omega (arith, sum_by-append w a b)

pub sum_by-each : (a : List ℕ) → sum_by each a ≡ length a
sum_by-each [] = refl
sum_by-each (x ∷ a) = omega (arith, sum_by-each a)

total_items : (w : ℕ → ℕ) (is : List Item) → weight_of (λ i. w i.0) is ≡ sum_by w (messages_of is)
total_items w [] = refl
total_items w ((r, p) ∷ is) = omega (arith, total_items w is)

-- Messages for which memory has room all go there.
stored_all-sum_by :
    {Q B E : Type 0} (deferred_queue : DeferredQueue Q) (backend_queue : BackendQueue B E)
    (message : ℕ → Entry) (size : ℕ) (memory : List ℕ) (backend : B) (rs : List ℕ)
    → length memory + length rs ≤ size
    → (w : ℕ → ℕ)
    → sum_by w (stored_all deferred_queue backend_queue message size (memory, backend) rs).0
      ≡ sum_by w memory + sum_by w rs
stored_all-sum_by deferred_queue backend_queue message size memory backend [] room w = omega arith
stored_all-sum_by {B = B} deferred_queue backend_queue message size memory backend (r ∷ rs) room w =
    let fits : ltb (length memory) size ≡ true = ground arith in
    let grown = length-append memory (r ∷ []) in
    let rest =
      stored_all-sum_by deferred_queue backend_queue message size (memory ++ r ∷ []) backend rs
        (omega (arith, grown)) w in
    let here : stored deferred_queue backend_queue message size (memory, backend) r
        ≡ (memory ++ r ∷ [], backend) =
      rw fits refl in
    let moved =
      ap
        (λ (p : List ℕ × B). sum_by w (stored_all deferred_queue backend_queue message size p rs).0)
        here in
    omega (arith, moved, rest, sum_by-append w memory (r ∷ []))

module _ {Q B E : Type 0} (deferred_queue : DeferredQueue Q) (backend_queue : BackendQueue B E)
    (holds : Q → Item → ℕ) (IsGood : Q → Type 0) where
  -- REQ without a delay: the message is in memory again.
  pub requeue_message-Keeps :
      (c : Channel Q B) (client_id : ℕ) (id : List ℕ) (r now : ℕ)
      → IsSound holds IsGood c
      → Owns c client_id id r
      → (c' : Channel Q B) × (requeue_message deferred_queue backend_queue c client_id id now 0
          ≡ some (c', none))
        × Keeps holds IsGood c [] [] c'
  unfolding requeue_message put
  requeue_message-Keeps c client_id id r now v o =
      let (q, run, gone, consistent) = take_out c id r v.consistent o.found in
      let lighter : (w : ℕ → ℕ) → sum_by w c.in_flight_pq.items ≡ sum_by w q.items + w r =
        λ w. Removed-sum_by (pri_of c) w c.in_flight_pq r q gone in
      let out : Channel Q B = record c {
        in_flight_messages = delete id c.in_flight_messages;
        in_flight_pq = q;
      } in
      let fits : ltb (length c.memory) c.memory_size ≡ true =
        ground (arith, v.room, lighter each, sum_by-each c.memory) in
      (
        record out { requeue_count = (c.requeue_count + 1) % 2 ^ 64; memory = c.memory ++ r ∷ [] },
        rw (pop-Owns {E = E} c client_id id r o, run, v.running, fits) refl,
        record {
          consistent = record {
            queue = consistent.queue;
            mapped = consistent.mapped;
            queued = consistent.queued;
          };
          deferring = IsDeferring-ids holds IsGood c _ v.deferring refl refl (λ x. refl);
          distinct = v.distinct;
          same_sums = λ w. omega (arith, lighter w, sum_by-append w c.memory (r ∷ []));
          same_ids = λ x. refl;
          same_size = refl;
          same_exiting = refl;
        },
      )

  -- The scan of the messages in flight: those that time out are in memory again.
  pub process_in_flight_queue-Keeps :
      (c : Channel Q B) (t : ℕ)
      → IsSound holds IsGood c
      → (c' : Channel Q B) × (dirty : Bool) × (process_in_flight_queue deferred_queue backend_queue
            c t
          ≡ some (c', dirty))
        × Keeps holds IsGood c [] [] c'
  process_in_flight_queue-Keeps c t v =
      let (c', rs, dirty, run, s) =
        process_in_flight_queue-Scanned deferred_queue backend_queue c t v.running v.consistent in
      let lighter : (w : ℕ → ℕ)
          → sum_by w c.in_flight_pq.items ≡ sum_by w c'.in_flight_pq.items + sum_by w rs =
        λ w. omega (
          arith,
          sum_by-append w c'.in_flight_pq.items rs,
          sum_by-counts w c.in_flight_pq.items (c'.in_flight_pq.items ++ rs)
              (λ r. omega (arith, s.each_once r, count-append r c'.in_flight_pq.items rs)),
        ) in
      let fits : length c.memory + length rs ≤ c.memory_size =
        omega (arith, v.room, lighter each, sum_by-each c.memory, sum_by-each rs) in
      let stores : (w : ℕ → ℕ) → sum_by w c'.memory ≡ sum_by w c.memory + sum_by w rs = λ w.
        ap (λ (p : List ℕ × B). sum_by w p.0) s.stores
        ∙ stored_all-sum_by deferred_queue backend_queue c.message c.memory_size c.memory c.backend
            rs fits w in
      let ids : (r : ℕ) → id_of c' r ≡ id_of c r = λ r i. (s.same_messages i r).message.id in
      (
        c',
        dirty,
        run,
        record {
          consistent = s.consistent;
          deferring =
              IsDeferring-ids holds IsGood c c' v.deferring s.elsewhere.deferred_pq
                s.elsewhere.deferred_messages ids;
          distinct = rw s.elsewhere.deferred_messages v.distinct;
          same_sums = λ w. omega (
            arith,
            lighter w,
            stores w,
            ap (λ (m : List (List ℕ × Item)). total (λ (i : Item). w i.0) m)
                s.elsewhere.deferred_messages,
          );
          same_ids = ids;
          same_size = s.elsewhere.memory_size;
          same_exiting = s.elsewhere.is_exiting;
        },
      )

  module _ (queue_lem : IsPriorityQueue holds deferred_queue IsGood) where
    -- The scan of the deferred messages: those whose time has come are in memory.
    pub process_deferred_queue-Keeps :
        (c : Channel Q B) (t : ℕ)
        → IsSound holds IsGood c
        → (c' : Channel Q B) × (dirty : Bool) × (process_deferred_queue deferred_queue backend_queue
              c t
            ≡ some (c', dirty))
          × Keeps holds IsGood c [] [] c'
    process_deferred_queue-Keeps c t v =
        let (c', is, dirty, run, s) =
          process_deferred_queue-Handed deferred_queue backend_queue holds IsGood queue_lem c t
            v.running v.deferring in
        let rs = messages_of is in
        let (distinct, lighter) = s.moves v.distinct in
        let less : (w : ℕ → ℕ)
            → total (λ (i : Item). w i.0) c.deferred_messages
              ≡ total (λ (i : Item). w i.0) c'.deferred_messages + sum_by w rs =
          λ w. omega (arith, lighter (λ i. w i.0), total_items w is) in
        let fits : length c.memory + length rs ≤ c.memory_size =
          omega (arith, v.room, less each, sum_by-each c.memory, sum_by-each rs) in
        let stores : (w : ℕ → ℕ) → sum_by w c'.memory ≡ sum_by w c.memory + sum_by w rs = λ w.
          ap (λ (p : List ℕ × B). sum_by w p.0) s.stores
          ∙ stored_all-sum_by deferred_queue backend_queue c.message c.memory_size c.memory
              c.backend rs fits w in
        (
          c',
          dirty,
          run,
          record {
            consistent =
                SameInFlight-IsConsistent c c'
                  (record {
                    message = s.same_messages;
                    in_flight_messages = s.same_mapped;
                    in_flight_pq = s.same_in_flight;
                  })
                  v.consistent;
            deferring = s.deferring;
            distinct = distinct;
            same_sums = λ w.
                omega
                  (arith, less w, stores w, ap (λ (q : Pqueue). sum_by w q.items) s.same_in_flight);
            same_ids = λ r i. (s.same_messages i r).message.id;
            same_size = s.same_size;
            same_exiting = s.same_exiting;
          },
        )
