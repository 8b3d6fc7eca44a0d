-- ===== src/Nsqd/InFlight/Down.antt =====
-- The loop `down`.
use native.Mathlib.Numerals.{add-one}
use nsq.Common.{
  Option, ℕ, zero, suc, ◌+◌, ◌-◌, ◌*◌, ◌≤◌, ◌<◌, ◌≡◌, ◌⊎◌, refl, ◌∙◌, List, some, arith, ltb, leb,
  nat_eq, Bool, true, false, length, Bool-cases, inl, inr,
}
use nsq.Nsqd.InFlight.{Pqueue, child_by, smaller_child, down_loop, down}
use nsq.Nsqd.InFlight.Arrays.{exchange, swapped, swap_lem, pri_at_lem, length-exchange, at-exchange}
use nsq.Nsqd.InFlight.Order.{
  parent, Rearranged, Rearranged-refl, Rearranged-trans, swapped-Rearranged, key, IsHeap, UpInv,
  DownInv, HoleInv,
}
use nsq.Nsqd.InFlight.Up.{Restored}

module _ (pri : ℕ → ℕ) where
  -- `m` is the child of `i` with the lower priority.
  pub record IsSmallerChild (n : ℕ) (a : List ℕ) (i m : ℕ) : Type 0 where
    pub inside : m < n
    pub child : (m ≡ 2 * i + 1) ⊎ (m ≡ 2 * i + 2)
    pub least : (c : ℕ) → 0 < c → c < n → parent c ≡ i → key pri a m ≤ key pri a c

  -- A test that prefers the right child only where its priority is not higher, and the left one only
  -- where its is not.
  abbrev pub IsPreference : (ℕ → ℕ → Bool) → Type 0
  IsPreference prefers = (l r : ℕ) → (prefers l r ≡ true → r ≤ l) × (prefers l r ≡ false → l ≤ r)

  pub child_by_lem :
      (prefers : ℕ → ℕ → Bool)
      → IsPreference prefers
      → (n : ℕ) (q : Pqueue) (i : ℕ) → 2 * i + 1 < n
      → n ≤ length q.items
      → (m : ℕ) × (child_by pri prefers q (2 * i + 1) n ≡ some m) × IsSmallerChild n q.items i m
  unfolding child_by
  child_by_lem prefers pref n q i h hn = elim (Bool-cases (ltb (2 * i + 1 + 1) n)) [
    | inr single ↦ (
      2 * i + 1,
      rw single refl,
      record {
        inside = h;
        child = omega arith;
        least = λ c p r e. let only : c ≡ 2 * i + 1 = ground arith in rw only (omega arith);
      },
    )
    | inl both ↦
        let left = pri_at_lem pri q (2 * i + 1) (omega arith) in
        let right = pri_at_lem pri q (2 * i + 1 + 1) (ground arith) in
        let (l_r, r_l) = pref (key pri q.items (2 * i + 1)) (key pri q.items (2 * i + 1 + 1)) in
        elim (Bool-cases
          (prefers (key pri q.items (2 * i + 1)) (key pri q.items (2 * i + 1 + 1)))) [
            | inl lower ↦ (
              2 * i + 1 + 1,
              rw (both, left, right, lower) refl,
              record {
                inside = ground arith;
                child = omega arith;
                least = λ c p r e. pick c (2 * i + 1 + 1) p e (l_r lower) (omega arith);
              },
            )
            | inr higher ↦ (
              2 * i + 1,
              rw (both, left, right, higher) refl,
              record {
                inside = h;
                child = omega arith;
                least = λ c p r e. pick c (2 * i + 1) p e (omega arith) (r_l higher);
              },
            )
          ]
  ]
    where
      pick :
          (c m : ℕ)
          → 0 < c
          → parent c ≡ i
          → key pri q.items m ≤ key pri q.items (2 * i + 1)
          → key pri q.items m ≤ key pri q.items (2 * i + 1 + 1)
          → key pri q.items m ≤ key pri q.items c
      pick c m p e l r = elim (two c) [ inl first ↦ rw first l | inr second ↦ rw second r ]
        where
          two : (k : ℕ) → (c ≡ 2 * i + 1) ⊎ (c ≡ 2 * i + 1 + 1)
          two k = omega arith

  swapped-DownInv :
      (n : ℕ) (a : List ℕ) (i m : ℕ)
      → n ≤ length a
      → HoleInv pri n a i
      → IsSmallerChild n a i m
      → key pri a m < key pri a i
      → DownInv pri n (exchange a i m) m
  swapped-DownInv n a i m hn v s below =
      let swap_at = at-exchange a i m (omega arith) (omega (arith, s.inside)) in
      record {
        edges = λ c p q ne.
            ground (arith, swap_at c, swap_at (parent c), v.edges c, v.bridged m, s.least c);
        bridged = λ c p q e pos. ground (arith, swap_at c, swap_at (parent m), v.edges c);
      }

  DownInv-HoleInv : (n : ℕ) (a : List ℕ) (i : ℕ) → DownInv pri n a i → HoleInv pri n a i
  DownInv-HoleInv n a i v = record {
    edges = λ c p q ne ne'. v.edges c p q ne';
    bridged = v.bridged;
  }

  IsHeap-UpInv : (n : ℕ) (a : List ℕ) (i : ℕ) → IsHeap pri n a → UpInv pri n a i
  IsHeap-UpInv n a i h = record {
    edges = λ c p q ne. h c p q;
    bridged = λ c p q e pos. ground (arith, h c, h i);
  }

  -- A function that chooses the child with the lower priority.
  abbrev pub Chooses : (Pqueue → ℕ → ℕ → Option ℕ) → Type 0
  Chooses child =
      (n : ℕ) (q : Pqueue) (i : ℕ)
      → 2 * i + 1 < n
      → n ≤ length q.items
      → (m : ℕ) × (child q (2 * i + 1) n ≡ some m) × IsSmallerChild n q.items i m

module _ (pri : ℕ → ℕ) (child : Pqueue → ℕ → ℕ → Option ℕ) (chooses : Chooses pri child) where
  -- One round: the loop stops, or goes on below with the entry exchanged.
  data Round (fuel n : ℕ) (q : Pqueue) (i : ℕ) : Type 0 where
    stops :
        down_loop pri child (suc fuel) q i n ≡ some q
        → ((c : ℕ) → 0 < c → c < n → parent c ≡ i → key pri q.items i ≤ key pri q.items c)
        → Round fuel n q i
    sinks :
        (m : ℕ)
        → down_loop pri child (suc fuel) q i n ≡ down_loop pri child fuel (swapped q i m) m n
        → IsSmallerChild pri n q.items i m
        → key pri q.items m < key pri q.items i
        → Round fuel n q i

  Round-cases : (fuel n : ℕ) (q : Pqueue) (i : ℕ) → i < n → n ≤ length q.items → Round fuel n q i
  unfolding down_loop
  Round-cases fuel n q i hi hn = elim (Bool-cases (leb n (2 * i + 1))) [
    | inl leaf ↦ stops (rw leaf refl) (λ c p r e. absurd (ground arith))
    | inr inner ↦
        let (m, e, s) = chooses n q i (ground arith) hn in
        let pm : m < length q.items = omega (arith, s.inside) in
        let pi : i < length q.items = omega arith in
        elim (Bool-cases (leb (key pri q.items i) (key pri q.items m))) [
          | inl settled ↦
              stops (rw (inner, e, pri_at_lem pri q m pm, pri_at_lem pri q i pi, settled) refl)
                (λ c p r e'. ground (arith, s.least c))
          | inr below ↦
              sinks m
                (rw
                  (
                    inner,
                    e,
                    pri_at_lem pri q m pm,
                    pri_at_lem pri q i pi,
                    below,
                    swap_lem q i m pi pm,
                  )
                  refl)
                s (ground arith)
        ]
  ]

  down_loop_restores :
      (fuel n : ℕ) (q : Pqueue) (i : ℕ)
      → n - i < fuel
      → i < n
      → n ≤ length q.items
      → DownInv pri n q.items i
      → (q' : Pqueue) × (down_loop pri child fuel q i n ≡ some q') × Restored pri n q q'
  down_loop_restores zero n q i f hi hn v = absurd (omega arith)
  down_loop_restores (suc fuel) n q i f hi hn v = elim (Round-cases fuel n q i hi hn) [
    | stops e settled ↦ (q, e, (λ c p r. ground (arith, v.edges c, settled c), Rearranged-refl n q))
    | sinks m e s below ↦
        let moved =
          swapped-DownInv pri n q.items i m hn (DownInv-HoleInv pri n q.items i v) s below in
        let (q', e', (heap, same)) =
          down_loop_restores fuel n (swapped q i m) m (omega (arith, s.inside, s.child)) s.inside
            (omega (arith, length-exchange q.items i m)) moved in
        (q', e ∙ e', (heap, Rearranged-trans (swapped-Rearranged n i m q hi s.inside hn) same))
  ]

  -- The loop leaves at most the edge above its entry out of order.
  pub down_loop_sinks :
      (n : ℕ) (q : Pqueue) (i : ℕ)
      → i < n
      → n ≤ length q.items
      → HoleInv pri n q.items i
      → (q' : Pqueue) × (down_loop pri child (n + 1) q i n ≡ some q')
        × UpInv pri n q'.items i
        × Rearranged n q q'
  down_loop_sinks n q i hi hn v = elim (Round-cases n n q i hi hn) [
    | stops e settled ↦
        (rw (add-one n) (
          q,
          e,
          record { edges = λ c p r ne. ground (arith, v.edges c, settled c); bridged = v.bridged },
          Rearranged-refl n q,
        ))
    | sinks m e s below ↦
        let moved = swapped-DownInv pri n q.items i m hn v s below in
        let (q', e', (heap, same)) =
          down_loop_restores n n (swapped q i m) m (omega (arith, s.inside, s.child)) s.inside
            (omega (arith, length-exchange q.items i m)) moved in
        rw (add-one n) (
          q',
          e ∙ e',
          IsHeap-UpInv pri n q'.items i heap,
          Rearranged-trans (swapped-Rearranged n i m q hi s.inside hn) same,
        )
  ]

module _ (pri : ℕ → ℕ) where
  -- `down` leaves at most the edge above its entry out of order.
  pub down_restores :
      (n : ℕ) (q : Pqueue) (i : ℕ)
      → i < n
      → n ≤ length q.items
      → HoleInv pri n q.items i
      → (q' : Pqueue) × (down pri q i n ≡ some q') × UpInv pri n q'.items i × Rearranged n q q'
  unfolding down smaller_child
  down_restores =
      down_loop_sinks pri (smaller_child pri)
        (child_by_lem pri (λ l r. leb r l) (λ l r. (λ e. ground arith, λ e. ground arith)))
