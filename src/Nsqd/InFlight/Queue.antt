-- ===== src/Nsqd/InFlight/Queue.antt =====
-- The invariant of the queue, and Push.
use nsq.Common.{
  ℕ, zero, suc, ◌+◌, ◌*◌, ◌≤◌, ◌<◌, ◌≡◌, ◌≢◌, ◌⊎◌, List, [], ◌∷◌, ◌++◌, none, some, arith,
  if◌then◌else◌, ltb, leb, nat_eq, nat_beq, length, length-append, take, get_or-append_left,
  get_or-append_last, count, count-append, Bool-cases, inl, inr, true,
}
use nsq.Nsqd.InFlight.{Pqueue, assign, push}
use nsq.Nsqd.InFlight.Arrays.{at, IsIndexed}
use nsq.Nsqd.InFlight.Order.{parent, IsHeap, UpInv}
use nsq.Nsqd.InFlight.Up.{up_restores}

abbrev pub once : ℕ → ℕ → ℕ
once x r = if nat_beq x r then 1 else 0

pub count-take_last :
    (r n : ℕ) (a : List ℕ) → length a ≡ suc n → count r a ≡ count r (take n a) + once (at a n) r
count-take_last r n [] h = absurd (omega arith)
count-take_last r zero (x ∷ []) h = omega arith
count-take_last r zero (x ∷ y ∷ a) h = absurd (omega arith)
count-take_last r (suc n) (x ∷ a) h = omega (arith, count-take_last r n a (omega arith))

pub count-at : (a : List ℕ) (i : ℕ) → i < length a → 0 < count (at a i) a
count-at [] i h = absurd (omega arith)
count-at (x ∷ a) zero h = ground arith
count-at (x ∷ a) (suc i) h = omega (arith, count-at a i (omega arith))

module _ (pri : ℕ → ℕ) where
  -- A heap whose messages know their positions, within its capacity.
  pub record IsQueue (q : Pqueue) : Type 0 where
    pub heap : IsHeap pri (length q.items) q.items
    pub indexed : IsIndexed q
    pub room : length q.items ≤ q.capacity
    pub positive : 0 < q.capacity

  -- `q'` is `q` with the message `x` in addition.
  pub record Added (q : Pqueue) (x : ℕ) (q' : Pqueue) : Type 0 where
    pub valid : IsQueue q'
    pub counts : (r : ℕ) → count r q'.items ≡ count r q.items + once x r
    pub outside : (r : ℕ) → count r q.items ≡ 0 → r ≢ x → q'.index r ≡ q.index r

  -- `q'` is `q` without the message `x`, which is marked as not in the queue.
  pub record Removed (q : Pqueue) (x : ℕ) (q' : Pqueue) : Type 0 where
    pub valid : IsQueue q'
    pub counts : (r : ℕ) → count r q.items ≡ count r q'.items + once x r
    pub shorter : length q.items ≡ suc (length q'.items)
    pub cleared : q'.index x ≡ none
    pub outside : (r : ℕ) → count r q.items ≡ 0 → q'.index r ≡ q.index r

  at-push_start :
      (a : List ℕ) (x i : ℕ)
      → i < suc (length a)
      → ((i < length a) × (at (a ++ x ∷ []) i ≡ at a i))
        ⊎ ((i ≡ length a) × (at (a ++ x ∷ []) i ≡ x))
  at-push_start a x i h = elim (Bool-cases (ltb i (length a))) [
    | inl old ↦ inl (ground arith, get_or-append_left a (x ∷ []) i 0 (ground arith))
    | inr new ↦ let e : i ≡ length a = ground arith in inr (e, rw e (get_or-append_last a x 0))
  ]

  -- Push of a message that is not in the well-formed queue adds it, and keeps the queue well
  -- formed.
  pub push_correct :
      (q : Pqueue) (x : ℕ)
      → IsQueue q
      → count x q.items ≡ 0
      → (q' : Pqueue) × (push pri q x ≡ some q') × Added q x q'
  unfolding push
  push_correct q x v new =
      let n = length q.items in
      let c = if ltb q.capacity (n + 1) then q.capacity * 2 else q.capacity in
      let a = q.items ++ x ∷ [] in
      let start : Pqueue = record { items = a; index = assign q.index x (some n); capacity = c } in
      let size : length a ≡ n + 1 = length-append q.items (x ∷ []) in
      let enough : leb (n + 1) c ≡ true = ground (arith, v.room, v.positive) in
      let inv : UpInv pri (n + 1) a n = record {
        edges = λ k p r ne.
            ground (arith, v.heap k, at-push_start q.items x k, at-push_start q.items x (parent k));
        bridged = λ k p r e pos. absurd (omega arith);
      } in
      let (q', e, (heap, same)) =
        up_restores pri (n + 1) start n (omega arith) (omega (arith, size)) inv in
      let indexed : IsIndexed start =
        λ i h. ground (arith, size, at-push_start q.items x i, v.indexed i, count-at q.items i) in
      (
        q',
        rw enough e,
        record {
          valid = record {
            heap = λ k p r. heap k p (omega (arith, same.same_length, size));
            indexed = same.indexed indexed;
            room = ground (arith, same.same_length, size, same.same_capacity, v.room, v.positive);
            positive = ground (arith, same.same_capacity, v.positive);
          };
          counts = λ r. omega (arith, same.same_count r, count-append r q.items (x ∷ []));
          outside = λ r absent ne.
              let out : count r a ≡ 0 = ground (arith, count-append r q.items (x ∷ [])) in
              ground (arith, same.outside r out);
        },
      )
