-- ===== src/Nsqd/InFlight/Up.antt =====
-- The loop `up`.
use nsq.Common.{
  ℕ, zero, suc, ◌+◌, ◌≤◌, ◌<◌, ◌≡◌, refl, List, some, arith, leb, ◌==◌, nat_eq, length, Bool-cases,
  inl, inr,
}
use nsq.Nsqd.InFlight.{Pqueue, up_loop, up}
use nsq.Nsqd.InFlight.Arrays.{exchange, swapped, swap_lem, pri_at_lem, length-exchange, at-exchange}
use nsq.Nsqd.InFlight.Order.{
  parent, Rearranged, Rearranged-refl, Rearranged-trans, swapped-Rearranged, key, IsHeap, UpInv,
}

module _ (pri : ℕ → ℕ) where
  swapped-UpInv :
      (n : ℕ) (a : List ℕ) (i : ℕ)
      → i < n
      → n ≤ length a
      → UpInv pri n a i
      → 0 < i
      → key pri a i < key pri a (parent i)
      → UpInv pri n (exchange a (parent i) i) (parent i)
  swapped-UpInv n a i hi hn v pos below =
      let swap_at = at-exchange a (parent i) i (omega arith) (omega arith) in
      record {
        edges = λ c p q ne.
            ground
              (arith, swap_at c, swap_at (parent c), v.edges c, v.bridged c, v.edges (parent c));
        bridged = λ c p q e pos'. ground (
          arith,
          swap_at c,
          swap_at (parent (parent i)),
          v.edges c,
          v.edges (parent i),
          v.bridged c,
        );
      }

  -- The loop ends, and makes a heap of the same entries.
  abbrev pub Restored : ℕ → Pqueue → Pqueue → Type 0
  Restored n q q' = IsHeap pri n q'.items × Rearranged n q q'

  up_loop_restores :
      (fuel n : ℕ) (q : Pqueue) (i : ℕ)
      → i < fuel
      → i < n
      → n ≤ length q.items
      → UpInv pri n q.items i
      → (q' : Pqueue) × (up_loop pri fuel q i ≡ some q') × Restored n q q'
  unfolding up_loop
  up_loop_restores zero n q i f hi hn v = absurd (omega arith)
  up_loop_restores (suc fuel) n q i f hi hn v = elim (Bool-cases (parent i == i)) [
    | inl root ↦ (q, rw root refl, (λ c p r. ground (arith, v.edges c), Rearranged-refl n q))
    | inr child ↦
        let pi : i < length q.items = omega arith in
        let pp : parent i < length q.items = omega arith in
        let pos : 0 < i = ground arith in
        rw
          (
            child,
            pri_at_lem pri q i pi,
            pri_at_lem pri q (parent i) pp,
            swap_lem q (parent i) i pp pi,
          )
          (elim (Bool-cases (leb (key pri q.items (parent i)) (key pri q.items i))) [
            | inl settled ↦
                (q, rw settled refl, (λ c p r. ground (arith, v.edges c), Rearranged-refl n q))
            | inr below ↦
                let moved = swapped-UpInv n q.items i hi hn v pos (ground arith) in
                let (q', e, (heap, same)) =
                  up_loop_restores fuel n (swapped q (parent i) i) (parent i) (omega arith)
                    (omega arith) (omega (arith, length-exchange q.items (parent i) i)) moved in
                (
                  q',
                  rw below e,
                  (
                    heap,
                    Rearranged-trans (swapped-Rearranged n (parent i) i q (omega arith) hi hn) same,
                  ),
                )
          ])
  ]

  -- `up` repairs the edge above one entry.
  pub up_restores :
      (n : ℕ) (q : Pqueue) (i : ℕ)
      → i < n
      → n ≤ length q.items
      → UpInv pri n q.items i
      → (q' : Pqueue) × (up pri q i ≡ some q') × Restored n q q'
  unfolding up
  up_restores n q i hi hn v = up_loop_restores (i + 1) n q i (omega arith) hi hn v
