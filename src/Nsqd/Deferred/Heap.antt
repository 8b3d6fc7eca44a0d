-- ===== src/Nsqd/Deferred/Heap.antt =====
-- heap.Push and heap.Remove of the first item keep the heap.
use nsq.Common.{
  ℕ, suc, ◌-◌, ◌≤◌, ◌<◌, ◌≡◌, inl, inr, refl, ◌∙◌, [], ◌∷◌, Option, none, some, arith,
  if◌then◌else◌, ltb, nat_eq, nat_beq, length, get_elem?-get_or, position_of_count, Bool-cases,
  true, length-append, Bool,
}
use nsq.Nsqd.InFlight.{drop_last, Pqueue, push, up}
use nsq.Nsqd.InFlight.Arrays.{at, swapped, swap_lem, length-exchange}
use nsq.Nsqd.InFlight.Order.{Rearranged, IsHeap, HoleInv, UpInv}
use nsq.Nsqd.InFlight.Down.{child_by_lem, down_loop_sinks}
use nsq.Nsqd.InFlight.Drop.{drop_first, drop_last_of, exchange-HoleInv, first_least, shrunk}
use nsq.Nsqd.InFlight.Queue.{IsQueue, Removed, count-at}
use nsq.Nsqd.InFlight.Shrink.{Peeked, early, due}
use nsq.Nsqd.Deferred.{
  lesser_child, heap_down, append_item, heap_push, pop_last, heap_remove, peek_and_shift_first,
}

module _ (pri : ℕ → ℕ) where
  pub heap_push-push :
      (q : Pqueue) (x : ℕ)
      → 0 < q.capacity
      → length q.items ≤ q.capacity
      → heap_push pri q x ≡ push pri q x
  unfolding heap_push append_item push
  heap_push-push q x pos room = ground (arith, length-append q.items (x ∷ []))

  heap_down_restores :
      (n : ℕ) (q : Pqueue) (i : ℕ)
      → i < n
      → n ≤ length q.items
      → HoleInv pri n q.items i
      → (q' : Pqueue) × (heap_down pri q i n ≡ some q') × UpInv pri n q'.items i × Rearranged n q q'
  unfolding heap_down lesser_child
  heap_down_restores =
      down_loop_sinks pri (lesser_child pri)
        (child_by_lem pri (λ l r. ltb r l) (λ l r. (λ e. ground arith, λ e. ground arith)))

  -- The entries but the last, when the first and the last one have changed places.
  remove_sinks :
      (n : ℕ) (q : Pqueue)
      → length q.items ≡ suc n
      → 0 < n
      → IsHeap pri (suc n) q.items
      → (sunk : Pqueue) × (heap_down pri (swapped q 0 n) 0 n ≡ some sunk)
        × ((b : Bool) → (if b then up pri sunk 0 else some sunk) ≡ some sunk)
        × IsHeap pri n sunk.items
        × Rearranged n (swapped q 0 n) sunk
  unfolding up
  remove_sinks n q e pos h =
      let hole = exchange-HoleInv pri n 0 q.items e pos h in
      let (sunk, run, inv, same) =
        heap_down_restores n (swapped q 0 n) 0 pos (omega (arith, e, length-exchange q.items 0 n))
          hole in
      (sunk, run, (λ b. ground arith), (λ c p r. inv.edges c p r (omega arith)), same)

  pop_last_shrinks :
      (p : Pqueue) (n c : ℕ)
      → length p.items ≡ n
      → p.capacity ≡ c
      → pop_last p ≡ drop_last (record p { capacity = shrunk pri n c })
  unfolding pop_last
  pop_last_shrinks p n c e e' = rw (← e) (rw (← e') refl)

  one_left :
      (q : Pqueue)
      → IsQueue pri q
      → length q.items ≡ 1
      → (q' : Pqueue) × (pop_last q ≡ some (at q.items 0, q')) × Removed pri q (at q.items 0) q'
  one_left q v e =
      let ready : Pqueue = record q { capacity = shrunk pri (length q.items) q.capacity } in
      let (q', run, gone) = drop_last_of pri 0 q ready (at q.items 0) refl (record {
        size = e;
        total = e;
        heap = λ c p r. absurd (omega arith);
        indexed = v.indexed;
        room = ground (arith, v.room);
        counts = λ r. refl;
        outside = λ r absent. refl;
      }) in
      (q', pop_last_shrinks q (length q.items) q.capacity refl refl ∙ run, gone)

  heap_remove_first :
      (q : Pqueue)
      → IsQueue pri q
      → 0 < length q.items
      → (q' : Pqueue) × (heap_remove pri q 0 ≡ some (at q.items 0, q'))
        × Removed pri q (at q.items 0) q'
  unfolding heap_remove
  heap_remove_first q v h =
      let some_left : ltb 0 (length q.items) ≡ true = ground arith in
      elim (Bool-cases (nat_beq (length q.items - 1) 0)) [
        | inl single ↦ rw (some_left, single) (one_left q v (ground arith))
        | inr more ↦
            let n = length q.items - 1 in
            let (sunk, run, still, heap, same) =
              remove_sinks n q (omega arith) (ground arith) (λ c p r. v.heap c p (omega arith)) in
            let len = length-exchange q.items 0 n in
            let (q', e, gone) = drop_first pri q sunk v h heap same in
            let popped =
              pop_last_shrinks sunk (length q.items) q.capacity (same.same_length ∙ len)
                same.same_capacity
              ∙ e in
            rw (some_left, more, swap_lem q 0 n h (omega arith), run, still _) (q', popped, gone)
      ]

  -- What PeekAndShift does to a well-formed queue.
  pub peek_and_shift_first_lem :
      (q : Pqueue) (max : ℕ)
      → IsQueue pri q
      → (o : Option ℕ) × (q' : Pqueue) × (peek_and_shift_first pri q max ≡ some (o, q'))
        × Peeked pri q max o q'
  unfolding peek_and_shift_first
  peek_and_shift_first_lem q max v = elim (Bool-cases (nat_beq (length q.items) 0)) [
    | inl empty ↦ (
      none,
      q,
      rw empty refl,
      early (λ r p. let (i, hi, ei) = position_of_count r q.items 0 p in absurd (ground arith)),
    )
    | inr more ↦
        let h : 0 < length q.items = ground arith in
        let first = get_elem?-get_or q.items 0 0 h in
        let (q', run, gone) = heap_remove_first q v h in
        elim (Bool-cases (ltb max (pri (at q.items 0)))) [
          | inl late ↦ (
            none,
            q,
            rw (more, first, late) refl,
            early (λ r p. ground (arith, first_least pri q v r p)),
          )
          | inr time ↦ (
            some (at q.items 0),
            q',
            rw (more, first, time, run) refl,
            due (at q.items 0) (ground arith) (count-at q.items 0 h) gone (first_least pri q v),
          )
        ]
  ]
