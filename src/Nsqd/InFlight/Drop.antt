-- ===== src/Nsqd/InFlight/Drop.antt =====
-- What takes the last entry out of the slice, and the first one after an exchange.
use nsq.Common.{
  ℕ, suc, ◌-◌, ◌/◌, ◌≤◌, ◌<◌, ◌≡◌, refl, subst, ◌∙◌, List, none, some, arith, if◌then◌else◌, ltb,
  nat_eq, length, length-take, take, get_elem?-get_or, get_or-take, count, position_of_count, ◌&&◌,
  true,
}
use nsq.Nsqd.InFlight.{Pqueue, assign, drop_last}
use nsq.Nsqd.InFlight.Arrays.{
  at, exchange, swapped, IsIndexed, length-exchange, at-exchange, count-exchange, swapped-IsIndexed,
  swapped_outside,
}
use nsq.Nsqd.InFlight.Order.{parent, Rearranged, IsHeap, HoleInv, root_least}
use nsq.Nsqd.InFlight.Queue.{IsQueue, Removed, count-take_last, count-at}

module _ (pri : ℕ → ℕ) where
  -- The entries but the last are a heap, and the others are as in `q`: what `drop_last` needs.
  pub record IsReady (n : ℕ) (q p : Pqueue) : Type 0 where
    pub size : length p.items ≡ suc n
    pub total : length q.items ≡ suc n
    pub heap : IsHeap pri n p.items
    pub indexed : IsIndexed p
    pub room : length p.items ≤ p.capacity
    pub counts : (r : ℕ) → count r p.items ≡ count r q.items
    pub outside : (r : ℕ) → count r q.items ≡ 0 → p.index r ≡ q.index r

  drop_last_lem :
      (n : ℕ) (q p : Pqueue)
      → IsReady n q p
      → (q' : Pqueue) × (drop_last p ≡ some (at p.items n, q')) × Removed pri q (at p.items n) q'
  unfolding drop_last
  drop_last_lem n q p v =
      let m : length p.items - 1 ≡ n = omega (arith, v.size) in
      let some_left : ltb 0 (length p.items) ≡ true = ground (arith, v.size) in
      let x = at p.items n in
      let last : p.index x ≡ some n = v.indexed n (omega (arith, v.size)) in
      let short = length-take n p.items in
      (
        record p { items = take n p.items; index = assign p.index x none },
        rw (some_left, m, get_elem?-get_or p.items n 0 (omega (arith, v.size))) refl,
        record {
          valid = record {
            heap = λ c r s. ground (
              arith,
              short,
              v.size,
              v.heap c,
              get_or-take n p.items c 0,
              get_or-take n p.items (parent c) 0,
            );
            indexed =
                λ i h. ground (arith, short, v.size, last, v.indexed i, get_or-take n p.items i 0);
            room = omega (arith, short, v.size, v.room);
            positive = omega (arith, v.size, v.room);
          };
          counts = λ r. omega (arith, v.counts r, count-take_last r n p.items v.size);
          shorter = omega (arith, short, v.size, v.total);
          cleared = ground arith;
          outside = λ r absent.
              ground (arith, v.counts r, v.outside r, count-at p.items n (omega (arith, v.size)));
        },
      )

  pub drop_last_of :
      (n : ℕ) (q p : Pqueue) (x : ℕ)
      → at p.items n ≡ x
      → IsReady n q p
      → (q' : Pqueue) × (drop_last p ≡ some (x, q')) × Removed pri q x q'
  drop_last_of n q p x e v =
      subst (λ y. (q' : Pqueue) × (drop_last p ≡ some (y, q')) × Removed pri q y q') e
        (drop_last_lem n q p v)

  -- Exchanging an entry with the last one leaves at most its two edges out of order.
  pub exchange-HoleInv :
      (n i : ℕ) (a : List ℕ)
      → length a ≡ suc n
      → i < n
      → IsHeap pri (suc n) a
      → HoleInv pri n (exchange a i n) i
  exchange-HoleInv n i a e hi h =
      let swap_at = at-exchange a i n (omega arith) (omega arith) in
      record {
        edges = λ c p q ne ne'. ground (arith, swap_at c, swap_at (parent c), h c);
        bridged = λ c p q e' pos. ground (arith, swap_at c, swap_at (parent i), h c, h i);
      }

  -- The capacity after Pop has room for what is left.
  abbrev pub shrunk : ℕ → ℕ → ℕ
  shrunk n c = if ltb n (c / 2) && ltb 25 c then c / 2 else c

  -- The last entry goes out, after the first one was exchanged with it and the others are a heap.
  pub drop_first :
      (q sunk : Pqueue)
      → IsQueue pri q
      → 0 < length q.items
      → let n = length q.items - 1 in
        IsHeap pri n sunk.items
        → Rearranged n (swapped q 0 n) sunk
        → (q' : Pqueue) × (drop_last (record sunk { capacity = shrunk (length q.items) q.capacity })
            ≡ some (at q.items 0, q'))
          × Removed pri q (at q.items 0) q'
  drop_first q sunk v h heap same =
      let n = length q.items - 1 in
      let hn : n < length q.items = omega arith in
      let len = length-exchange q.items 0 n in
      let moved = at-exchange q.items 0 n h hn n in
      let taken : at sunk.items n ≡ at q.items 0 = ground (arith, moved, same.beyond n) in
      let ready : Pqueue = record sunk { capacity = shrunk (length q.items) q.capacity } in
      drop_last_of n q ready (at q.items 0) taken (record {
        size = omega (arith, len, same.same_length);
        total = omega arith;
        heap = heap;
        indexed = same.indexed (swapped-IsIndexed q 0 n h hn v.indexed);
        room = ground (arith, len, same.same_length, v.room);
        counts = λ r. same.same_count r ∙ count-exchange q.items 0 n h hn r;
        outside = λ r absent.
            same.outside r (count-exchange q.items 0 n h hn r ∙ absent)
            ∙ swapped_outside q 0 n h hn r absent;
      })

  -- No message has a lower priority than the first one.
  pub first_least :
      (q : Pqueue) → IsQueue pri q → (r : ℕ) → 0 < count r q.items → pri (at q.items 0) ≤ pri r
  first_least q v r p =
      let (i, hi, ei) = position_of_count r q.items 0 p in
      ground (arith, root_least pri (length q.items) q.items i v.heap hi)
