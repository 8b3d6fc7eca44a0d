-- ===== src/Nsqd/Channel/System/Defers.antt =====
-- What deferring a message and publishing keep of a sound channel.
use nsq.Common.{
  ℕ, ◌+◌, ◌%◌, ◌^◌, ◌<◌, ◌≡◌, ◌≢◌, List, [], ◌∷◌, ◌++◌, none, some, nat_eq, bytes_eq, arith, refl,
  sym, ap, ◌∙◌, subst, true, false, length, ltb,
}
use nsq.Common.Map.{lookup, insert, delete, total-insert, insert-HasDistinctKeys, HasDistinctKeys}
use nsq.Common.Sums.{sum_by}
use nsq.Nsqd.Channel.{Channel, Item, DeferredQueue, BackendQueue, id_of, pri_of}
use nsq.Nsqd.Channel.InFlight.{IsConsistent, take_out}
use nsq.Nsqd.Channel.Deliver.{Owns, pop-Owns}
use nsq.Nsqd.Channel.Scan.{
  put, put_message, put_message_deferred, requeue_message, start_deferred_timeout,
}
use nsq.Nsqd.Channel.Contract.{IsPriorityQueue}
use nsq.Nsqd.Channel.Deferred.{IsDeferring, start_deferred_timeout_lem}
use nsq.Nsqd.Channel.System.{sums, only, each, IsSound, Keeps, free_of_deferred, id_free}
use nsq.Nsqd.Channel.System.Moves.{Removed-sum_by, IsDeferring-ids}
use nsq.Nsqd.Channel.System.Returns.{sum_by-append, sum_by-each}

module _ {Q B E : Type 0} (deferred_queue : DeferredQueue Q) (backend_queue : BackendQueue B E)
    (holds : Q → Item → ℕ) (IsGood : Q → Type 0)
    (queue_lem : IsPriorityQueue holds deferred_queue IsGood) where
  -- Deferring the message `r` on the consistent channel `d`, which is `c` but for messages.
  start_deferred_timeout-Keeps :
      (came : List ℕ) (c d : Channel Q B) (r now timeout : ℕ)
      → IsConsistent d
      → IsDeferring holds IsGood d
      → HasDistinctKeys d.deferred_messages
      → lookup (id_of d r) d.deferred_messages ≡ none
      → ((w : ℕ → ℕ) → sums w c + sum_by w came ≡ sums w d + w r)
      → ((x : ℕ) → id_of d x ≡ id_of c x)
      → d.memory_size ≡ c.memory_size
      → d.is_exiting ≡ c.is_exiting
      → (c' : Channel Q B) × (start_deferred_timeout {E = E} deferred_queue backend_queue d r now
            timeout
          ≡ some (c', none))
        × Keeps holds IsGood c came [] c'
        × (c' ≡ record d {
          deferred_messages = insert (id_of d r) (r, now + timeout) d.deferred_messages;
          deferred_pq = c'.deferred_pq;
        })
  start_deferred_timeout-Keeps came c d r now timeout consistent deferring distinct free weights ids
        size running =
      let (c', run, good, adds, shape) =
        start_deferred_timeout_lem {E = E} deferred_queue backend_queue holds IsGood queue_lem d r
          now timeout deferring free in
      let item : Item = (r, now + timeout) in
      let grown = insert (id_of d r) item d.deferred_messages in
      let d' : Channel Q B = record d { deferred_messages = grown; deferred_pq = c'.deferred_pq } in
      let kept : Keeps holds IsGood c came [] d' = record {
        consistent = record {
          queue = consistent.queue;
          mapped = consistent.mapped;
          queued = consistent.queued;
        };
        deferring = subst (λ x. IsDeferring holds IsGood x) shape good;
        distinct = insert-HasDistinctKeys (id_of d r) item d.deferred_messages distinct;
        same_sums = λ w. omega (
          arith,
          weights w,
          total-insert (λ (i : Item). w i.0) (id_of d r) item d.deferred_messages free,
        );
        same_ids = ids;
        same_size = size;
        same_exiting = running;
      } in
      (c', run, subst (λ x. Keeps holds IsGood c came [] x) (sym shape) kept, shape)

  -- REQ with a delay: the message is deferred.
  pub requeue_message_later-Keeps :
      (c : Channel Q B) (client_id : ℕ) (id : List ℕ) (r now timeout : ℕ)
      → IsSound holds IsGood c
      → Owns c client_id id r
      → 0 < timeout
      → (c' : Channel Q B) × (requeue_message deferred_queue backend_queue c client_id id now
            timeout
          ≡ some (c', none))
        × Keeps holds IsGood c [] [] c'
  unfolding requeue_message
  requeue_message_later-Keeps c client_id id r now timeout v o delay =
      let (q, run, gone, consistent) = take_out c id r v.consistent o.found in
      let lighter : (w : ℕ → ℕ) → sum_by w c.in_flight_pq.items ≡ sum_by w q.items + w r =
        λ w. Removed-sum_by (pri_of c) w c.in_flight_pq r q gone in
      let counted : Channel Q B = record c {
        in_flight_messages = delete id c.in_flight_messages;
        in_flight_pq = q;
        requeue_count = (c.requeue_count + 1) % 2 ^ 64;
      } in
      let held : 0 < only r r = ground arith in
      let free =
        free_of_deferred holds IsGood c r v (omega (arith, lighter (only r), held))
          (omega (arith, v.single r, lighter (only r), held)) in
      let deferring : IsDeferring holds IsGood counted =
        IsDeferring-ids holds IsGood c counted v.deferring refl refl (λ x. refl) in
      let (c', run', keeps, shape) =
        start_deferred_timeout-Keeps [] c counted r now timeout
          (record {
            queue = consistent.queue;
            mapped = consistent.mapped;
            queued = consistent.queued;
          })
          deferring v.distinct free (λ w. omega (arith, lighter w)) (λ x. refl) refl refl in
      let later : nat_eq.test timeout 0 ≡ false = ground arith in
      (c', rw (pop-Owns {E = E} c client_id id r o, run) (ground (arith, run')), keeps)

  -- Publishing: the message is in memory.
  pub put_message-Keeps :
      (c : Channel Q B) (r : ℕ)
      → IsSound holds IsGood c
      → sums each c < c.memory_size
      → (c' : Channel Q B) × (put_message deferred_queue backend_queue c r ≡ (c', none))
        × Keeps holds IsGood c (r ∷ []) [] c'
        × (c' ≡ record c { message_count = c'.message_count; memory = c.memory ++ r ∷ [] })
  unfolding put_message put
  put_message-Keeps c r v room =
      let fits : ltb (length c.memory) c.memory_size ≡ true =
        ground (arith, room, sum_by-each c.memory) in
      (
        record c { message_count = (c.message_count + 1) % 2 ^ 64; memory = c.memory ++ r ∷ [] },
        ground (arith, v.running, fits),
        record {
          consistent = record {
            queue = v.consistent.queue;
            mapped = v.consistent.mapped;
            queued = v.consistent.queued;
          };
          deferring = IsDeferring-ids holds IsGood c _ v.deferring refl refl (λ x. refl);
          distinct = v.distinct;
          same_sums = λ w. omega (arith, sum_by-append w c.memory (r ∷ []));
          same_ids = λ x. refl;
          same_size = refl;
          same_exiting = refl;
        },
        refl,
      )

  -- Publishing with a delay: the message is deferred.
  pub put_message_deferred-Keeps :
      (c : Channel Q B) (r now timeout : ℕ)
      → IsSound holds IsGood c
      → ((x : ℕ) → 0 < sums (only x) c → id_of c x ≢ id_of c r)
      → (c' : Channel Q B) × (put_message_deferred {E = E} deferred_queue backend_queue c r now
            timeout
          ≡ some c')
        × Keeps holds IsGood c (r ∷ []) [] c'
        × (c' ≡ record c {
          message_count = c'.message_count;
          deferred_messages = insert (id_of c r) (r, now + timeout) c.deferred_messages;
          deferred_pq = c'.deferred_pq;
        })
  unfolding put_message_deferred
  put_message_deferred-Keeps c r now timeout v id_new =
      let counted : Channel Q B = record c { message_count = (c.message_count + 1) % 2 ^ 64 } in
      let (c', run, keeps, shape) =
        start_deferred_timeout-Keeps (r ∷ []) c counted r now timeout
          (record {
            queue = v.consistent.queue;
            mapped = v.consistent.mapped;
            queued = v.consistent.queued;
          })
          (IsDeferring-ids holds IsGood c counted v.deferring refl refl (λ x. refl)) v.distinct
          (id_free holds IsGood c (id_of c r) v id_new) (λ w. omega arith) (λ x. refl) refl refl in
      (
        c',
        rw run refl,
        keeps,
        shape
            ∙ ap
                (λ (x : Channel Q B). record c {
                  message_count = x.message_count;
                  deferred_messages = insert (id_of c r) (r, now + timeout) c.deferred_messages;
                  deferred_pq = c'.deferred_pq;
                })
                (sym shape),
      )
