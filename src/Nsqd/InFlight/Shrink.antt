-- ===== src/Nsqd/InFlight/Shrink.antt =====
-- Pop, Remove and PeekAndShift.
use nsq.Common.{
  ℕ, zero, suc, ◌-◌, ◌≤◌, ◌<◌, ◌≡◌, refl, ap, ◌∙◌, Option, none, some, arith, ltb, nat_eq, nat_beq,
  length, get_elem?-get_or, count, position_of_count, Bool-cases, inl, inr, true,
}
use nsq.Nsqd.InFlight.{Pqueue, down, pop, remove, peek_and_shift}
use nsq.Nsqd.InFlight.Arrays.{
  at, swapped, swap_lem, length-exchange, at-exchange, count-exchange, swapped-IsIndexed,
  swapped_outside,
}
use nsq.Nsqd.InFlight.Order.{Rearranged, Rearranged-refl, Rearranged-trans, IsHeap}
use nsq.Nsqd.InFlight.Up.{up_restores}
use nsq.Nsqd.InFlight.Down.{down_restores}
use nsq.Nsqd.InFlight.Drop.{drop_last_of, exchange-HoleInv, drop_first, first_least}
use nsq.Nsqd.InFlight.Queue.{IsQueue, Removed, count-at}

module _ (pri : ℕ → ℕ) where
  -- Remove at a position of a well-formed queue takes out the message there, and no other.
  pub remove_correct :
      (q : Pqueue) (i : ℕ)
      → IsQueue pri q
      → i < length q.items
      → (q' : Pqueue) × (remove pri q i ≡ some (at q.items i, q')) × Removed pri q (at q.items i) q'
  unfolding remove
  remove_correct q i v h =
      let n = length q.items - 1 in
      let size : length q.items ≡ suc n = omega arith in
      let some_left : ltb 0 (length q.items) ≡ true = ground arith in
      elim (Bool-cases (nat_beq n i)) [
        | inl last ↦
            let e : n ≡ i = ground arith in
            let (q', run, gone) =
              drop_last_of pri n q q (at q.items i) (ap (at q.items) e) (record {
                size = size;
                total = size;
                heap = λ c p r. v.heap c p (omega arith);
                indexed = v.indexed;
                room = v.room;
                counts = λ r. refl;
                outside = λ r absent. refl;
              }) in
            rw (some_left, last) (q', run, gone)
        | inr inner ↦
            let hi : i < n = ground arith in
            let hn : n < length q.items = omega arith in
            let start = swapped q i n in
            let len = length-exchange q.items i n in
            let moved = at-exchange q.items i n h hn n in
            let hole =
              exchange-HoleInv pri n i q.items size hi (λ c p r. v.heap c p (omega arith)) in
            let (sunk, e1, inv, same1) = down_restores pri n start i hi (omega (arith, len)) hole in
            let (risen, e2, (heap, same2)) =
              up_restores pri n sunk i hi (omega (arith, len, same1.same_length)) inv in
            let same = Rearranged-trans same1 same2 in
            let taken : at risen.items n ≡ at q.items i = ground (arith, moved, same.beyond n) in
            let (q', run, gone) = drop_last_of pri n q risen (at q.items i) taken (record {
              size = omega (arith, len, same.same_length);
              total = size;
              heap = heap;
              indexed = same.indexed (swapped-IsIndexed q i n h hn v.indexed);
              room = omega (arith, len, same.same_length, same.same_capacity, v.room);
              counts = λ r. same.same_count r ∙ count-exchange q.items i n h hn r;
              outside = λ r absent.
                  same.outside r (count-exchange q.items i n h hn r ∙ absent)
                  ∙ swapped_outside q i n h hn r absent;
            }) in
            rw (some_left, inner, swap_lem q i n h hn, e1, e2) (q', run, gone)
      ]

  pop_sinks :
      (n : ℕ) (q : Pqueue)
      → length q.items ≡ suc n
      → IsHeap pri (suc n) q.items
      → (sunk : Pqueue) × (down pri (swapped q 0 n) 0 n ≡ some sunk)
        × IsHeap pri n sunk.items
        × Rearranged n (swapped q 0 n) sunk
  pop_sinks zero q e h =
      (swapped q 0 0, unfold down in refl, (λ c p r. absurd (omega arith)), Rearranged-refl 0 _)
  pop_sinks (suc n) q e h =
      let hole = exchange-HoleInv pri (suc n) 0 q.items e (omega arith) h in
      let (sunk, run, inv, same) =
        down_restores pri (suc n) (swapped q 0 (suc n)) 0 (omega arith)
          (omega (arith, e, length-exchange q.items 0 (suc n))) hole in
      (sunk, run, (λ c p r. inv.edges c p r (omega arith)), same)

  -- Pop of a well-formed queue that is not empty takes out the first message, and no message has a
  -- lower priority.
  pop_correct :
      (q : Pqueue)
      → IsQueue pri q
      → 0 < length q.items
      → (q' : Pqueue) × (pop pri q ≡ some (at q.items 0, q'))
        × Removed pri q (at q.items 0) q'
        × ((r : ℕ) → 0 < count r q.items → pri (at q.items 0) ≤ pri r)
  unfolding pop
  pop_correct q v h =
      let n = length q.items - 1 in
      let size : length q.items ≡ suc n = omega arith in
      let some_left : ltb 0 (length q.items) ≡ true = ground arith in
      let (sunk, run, heap, same) = pop_sinks n q size (λ c p r. v.heap c p (omega arith)) in
      let (q', e, gone) = drop_first pri q sunk v h heap same in
      rw (some_left, swap_lem q 0 n h (omega arith), run) (q', e, gone, first_least pri q v)

  -- What PeekAndShift returns: nothing, if no message has its time at `max` or before, and
  -- otherwise a message whose time has come and comes first.
  pub data Peeked (q : Pqueue) (max : ℕ) : Option ℕ → Pqueue → Type 0 where
    early : ((r : ℕ) → 0 < count r q.items → max < pri r) → Peeked q max none q
    due :
        {q' : Pqueue} (x : ℕ)
        → pri x ≤ max
        → 0 < count x q.items
        → Removed pri q x q'
        → ((r : ℕ) → 0 < count r q.items → pri x ≤ pri r)
        → Peeked q max (some x) q'

  -- PeekAndShift returns a result, and on a well-formed queue takes out a first message whose time
  -- is `max` or before, if there is any such message, and otherwise nothing.
  pub peek_and_shift_correct :
      (q : Pqueue) (max : ℕ)
      → IsQueue pri q
      → (o : Option ℕ) × (delay : ℕ) × (q' : Pqueue) × (peek_and_shift pri q max
          ≡ some (o, delay, q'))
        × Peeked q max o q'
  unfolding peek_and_shift
  peek_and_shift_correct q max v = elim (Bool-cases (nat_beq (length q.items) 0)) [
    | inl empty ↦ (
      none,
      0,
      q,
      rw empty refl,
      early (λ r p. let (i, hi, ei) = position_of_count r q.items 0 p in absurd (ground arith)),
    )
    | inr more ↦
        let h : 0 < length q.items = ground arith in
        let first = get_elem?-get_or q.items 0 0 h in
        let (q', run, gone, least) = pop_correct q v h in
        elim (Bool-cases (ltb max (pri (at q.items 0)))) [
          | inl late ↦ (
            none,
            pri (at q.items 0) - max,
            q,
            rw (more, first, late) refl,
            early (λ r p. ground (arith, least r p)),
          )
          | inr time ↦ (
            some (at q.items 0),
            0,
            q',
            rw (more, first, time, run) refl,
            due (at q.items 0) (ground arith) (count-at q.items 0 h) gone least,
          )
        ]
  ]
