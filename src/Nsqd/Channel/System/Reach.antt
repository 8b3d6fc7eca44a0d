-- ===== src/Nsqd/Channel/System/Reach.antt =====
-- No message is lost and none is delivered to two clients at once: an invariant of all steps.
use nsq.Common.{
  ℕ, ◌+◌, ◌≡◌, List, [], ◌∷◌, ◌++◌, Option, none, some, false, arith, ap, subst, bytes_eq, inl, inr,
  Bool-cases, nat_beq, nat_eq,
}
use nsq.Common.Map.{lookup-nil}
use nsq.Common.Sums.{sum_by}
use nsq.Nsqd.InFlight.{new_in_flight_pqueue}
use nsq.Nsqd.Channel.{Channel, Item, DeferredQueue, BackendQueue, pq_size}
use nsq.Nsqd.Channel.Scan.{init_pq, requeue_message}
use nsq.Nsqd.Channel.Contract.{IsPriorityQueue}
use nsq.Nsqd.Channel.Deliver.{Owns}
use nsq.Nsqd.Channel.System.{sums, only, each, IsSound, Keeps, Keeps-IsSound, Keeps-IsSound_new}
use nsq.Nsqd.Channel.System.Moves.{
  start_in_flight_timeout-Keeps, finish_message-Keeps, touch_message-Keeps,
}
use nsq.Nsqd.Channel.System.Returns.{
  sum_by-append, requeue_message-Keeps, process_in_flight_queue-Keeps, process_deferred_queue-Keeps,
}
use nsq.Nsqd.Channel.System.Defers.{
  requeue_message_later-Keeps, put_message-Keeps, put_message_deferred-Keeps,
}
use nsq.Nsqd.Channel.System.Steps.{
  System, state, IsNew, Step, publish, publish_deferred, deliver, finish, touch, requeue,
  scan_in_flight, scan_deferred, Reach, start, later,
}

pub same_result :
    {X Y : Type 0} {o : Option (X × Y)} (x x' : X) (y y' : Y)
    → o ≡ some (x', y')
    → o ≡ some (x, y)
    → x' ≡ x
same_result x x' y y' e e' = cc

module _ {Q B : Type 0} (holds : Q → Item → ℕ) (IsGood : Q → Type 0) where
  -- The channel is sound, and each message that was published is held or finished.
  pub record Inv (s : System Q B) : Type 0 where
    pub sound : IsSound holds IsGood s.channel
    pub conserved : (w : ℕ → ℕ) → sum_by w s.published ≡ sums w s.channel + sum_by w s.finished

  Inv-Keeps :
      (c d c' : Channel Q B) (gone published finished : List ℕ)
      → Inv (state c published finished)
      → Keeps holds IsGood c [] gone d
      → d ≡ c'
      → Inv (state c' published (gone ++ finished))
  Inv-Keeps c d c' gone published finished v k same =
      let k' = subst (λ x. Keeps holds IsGood c [] gone x) same k in
      record {
        sound = Keeps-IsSound holds IsGood c gone c' v.sound k';
        conserved =
            λ w. omega (arith, v.conserved w, k'.same_sums w, sum_by-append w gone finished);
      }

  Inv-Keeps_new :
      (c d c' : Channel Q B) (r : ℕ) (published finished : List ℕ)
      → Inv (state c published finished)
      → IsNew c r
      → Keeps holds IsGood c (r ∷ []) [] d
      → d ≡ c'
      → Inv (state c' (r ∷ published) finished)
  Inv-Keeps_new c d c' r published finished v new k same =
      let k' = subst (λ x. Keeps holds IsGood c (r ∷ []) [] x) same k in
      record {
        sound = Keeps-IsSound_new holds IsGood c r c' v.sound k' new.absent new.id_absent new.room;
        conserved = λ w. omega (arith, v.conserved w, k'.same_sums w);
      }

module _ {Q B E : Type 0} (deferred_queue : DeferredQueue Q) (backend_queue : BackendQueue B E)
    (holds : Q → Item → ℕ) (IsGood : Q → Type 0)
    (queue_lem : IsPriorityQueue holds deferred_queue IsGood) where
  requeue-Keeps :
      (c : Channel Q B) (client_id : ℕ) (id : List ℕ) (r now timeout : ℕ)
      → IsSound holds IsGood c
      → Owns c client_id id r
      → (c' : Channel Q B) × (requeue_message deferred_queue backend_queue c client_id id now
            timeout
          ≡ some (c', none))
        × Keeps holds IsGood c [] [] c'
  requeue-Keeps c client_id id r now timeout v o = elim (Bool-cases (nat_beq timeout 0)) [
    | inl z ↦
        let at_once : 0 ≡ timeout = ground arith in
        subst
          (λ x.
            (c' : Channel Q B) × (requeue_message deferred_queue backend_queue c client_id id now x
              ≡ some (c', none))
            × Keeps holds IsGood c [] [] c')
          at_once
          (requeue_message-Keeps deferred_queue backend_queue holds IsGood c client_id id r now v o)
    | inr nz ↦
        requeue_message_later-Keeps deferred_queue backend_queue holds IsGood queue_lem c client_id
          id r now timeout v o (ground arith)
  ]

  Step-Inv :
      {s t : System Q B}
      → Step deferred_queue backend_queue s t
      → Inv holds IsGood s
      → Inv holds IsGood t
  Step-Inv (publish c c' r published finished new run) v =
      let (d, run', k, _) =
        put_message-Keeps deferred_queue backend_queue holds IsGood queue_lem c r v.sound
          new.room in
      Inv-Keeps_new holds IsGood c d c' r published finished v new k (cc (run, run'))
  Step-Inv (publish_deferred c c' r now timeout published finished new run) v =
      let (d, run', k, _) =
        put_message_deferred-Keeps deferred_queue backend_queue holds IsGood queue_lem c r now
          timeout v.sound new.id_absent in
      Inv-Keeps_new holds IsGood c d c' r published finished v new k (cc (run, run'))
  Step-Inv (deliver c c' r rest client_id now timeout published finished first run) v =
      let (d, run', k) =
        start_in_flight_timeout-Keeps {E = E} holds IsGood c r rest client_id now timeout v.sound
          first in
      Inv-Keeps holds IsGood c d c' [] published finished v k (same_result c' d none none run' run)
  Step-Inv (finish c c' client_id id r published finished o run) v =
      let (d, run', k) = finish_message-Keeps {E = E} holds IsGood c client_id id r v.sound o in
      Inv-Keeps holds IsGood c d c' (r ∷ []) published finished v k
        (same_result c' d none none run' run)
  Step-Inv (touch c c' client_id id r now timeout longest published finished o run) v =
      let (d, run', k) =
        touch_message-Keeps {E = E} holds IsGood c client_id id r now timeout longest v.sound o in
      Inv-Keeps holds IsGood c d c' [] published finished v k (same_result c' d none none run' run)
  Step-Inv (requeue c c' client_id id r now timeout published finished o run) v =
      let (d, run', k) = requeue-Keeps c client_id id r now timeout v.sound o in
      Inv-Keeps holds IsGood c d c' [] published finished v k (same_result c' d none none run' run)
  Step-Inv (scan_in_flight c c' t dirty published finished run) v =
      let (d, dirty', run', k) =
        process_in_flight_queue-Keeps deferred_queue backend_queue holds IsGood c t v.sound in
      Inv-Keeps holds IsGood c d c' [] published finished v k
        (same_result c' d dirty dirty' run' run)
  Step-Inv (scan_deferred c c' t dirty published finished run) v =
      let (d, dirty', run', k) =
        process_deferred_queue-Keeps deferred_queue backend_queue holds IsGood queue_lem c t
          v.sound in
      Inv-Keeps holds IsGood c d c' [] published finished v k
        (same_result c' d dirty dirty' run' run)

  init_pq-IsSound :
      (c : Channel Q B)
      → c.memory ≡ []
      → c.is_exiting ≡ false
      → IsSound holds IsGood (init_pq {E = E} deferred_queue backend_queue c)
  unfolding init_pq new_in_flight_pqueue
  init_pq-IsSound c empty running =
      let (good, nothing) = queue_lem.new_is_empty (pq_size c.memory_size) (ground arith) in
      let none_in_memory : (w : ℕ → ℕ) → sum_by w c.memory ≡ 0 = λ w. ap (sum_by w) empty in
      record {
        consistent = record {
          queue = record {
            heap = λ i p h. absurd (omega arith);
            indexed = λ i h. absurd (omega arith);
            room = omega arith;
            positive = ground arith;
          };
          mapped = λ r h. absurd (omega arith);
          queued = λ id r h. cc (h, lookup-nil {V = ℕ} id);
        };
        deferring = record {
          good = good;
          mapped = λ i h. absurd (omega (arith, nothing i));
          single = λ i. omega (arith, nothing i);
          queued = λ id i h. cc (h, lookup-nil {V = Item} id);
        };
        distinct = tt;
        single = λ r. omega (arith, none_in_memory (only r));
        unique = λ x y p q e. absurd (omega (arith, none_in_memory (only x)));
        room = omega (arith, none_in_memory each);
        running = running;
      }

  pub Reach-Inv : {s : System Q B} → Reach deferred_queue backend_queue s → Inv holds IsGood s
  unfolding init_pq new_in_flight_pqueue
  Reach-Inv (start c empty running) = record {
    sound = init_pq-IsSound c empty running;
    conserved = λ w. omega (arith, ap (sum_by w) empty);
  }
  Reach-Inv (later s t before step) = Step-Inv step (Reach-Inv before)
