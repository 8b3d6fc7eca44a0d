-- ===== src/Nsqd/InFlight/Arrays.antt =====
-- Exchanging two entries of the slice, with the indexes of the two messages.
use nsq.Common.{
  ℕ, zero, suc, ◌<◌, ◌≡◌, ◌≢◌, ◌∙◌, List, [], ◌∷◌, some, arith, if◌then◌else◌, nat_eq, nat_beq,
  length, get_or, set, length-set, get_or-set, get_elem?-get_or, count, count-set,
}
use nsq.Nsqd.InFlight.{Pqueue, assign, swap, pri_at}

abbrev pub at : List ℕ → ℕ → ℕ
at a i = get_or a i 0

abbrev pub exchange : List ℕ → ℕ → ℕ → List ℕ
exchange a i j = set (set a i (at a j)) j (at a i)

abbrev pub swapped : Pqueue → ℕ → ℕ → Pqueue
swapped q i j = record q {
  items = exchange q.items i j;
  index = assign (assign q.index (at q.items j) (some i)) (at q.items i) (some j);
}

-- Each message in the slice knows its position, so no message stands there twice.
abbrev pub IsIndexed : Pqueue → Type 0
IsIndexed q = (i : ℕ) → i < length q.items → q.index (at q.items i) ≡ some i

pub length-exchange : (a : List ℕ) (i j : ℕ) → length (exchange a i j) ≡ length a
length-exchange a i j = length-set (set a i (at a j)) j (at a i) ∙ length-set a i (at a j)

module _ (a : List ℕ) (i j : ℕ) (hi : i < length a) (hj : j < length a) where
  pub at-exchange :
      (c : ℕ)
      → at (exchange a i j) c
        ≡ (if nat_beq j c then at a i else if nat_beq i c then at a j else at a c)
  at-exchange c =
      rw (get_or-set (set a i (at a j)) j c (at a i) 0 (rw length-set hj))
        (rw (get_or-set a i c (at a j) 0 hi))

  pub count-exchange : (r : ℕ) → count r (exchange a i j) ≡ count r a
  count-exchange r =
      let b = set a i (at a j) in
      let first = count-set r a i (at a j) 0 hi in
      let second = count-set r b j (at a i) 0 (rw length-set hj) in
      let kept : at b j ≡ at a j = ground (arith, get_or-set a i j (at a j) 0) in
      omega (arith, first, rw kept at second)

module _ (q : Pqueue) (i j : ℕ) (hi : i < length q.items) (hj : j < length q.items) where
  pub swap_lem : swap q i j ≡ some (swapped q i j)
  unfolding swap
  swap_lem = rw (get_elem?-get_or q.items i 0 hi, get_elem?-get_or q.items j 0 hj)

  pub swapped-IsIndexed : IsIndexed q → IsIndexed (swapped q i j)
  swapped-IsIndexed v c h =
      let size = length-exchange q.items i j in
      let inside : c < length q.items = omega (arith, size) in
      ground (arith, at-exchange q.items i j hi hj c, v i, v j, v c)

  pub swapped_outside : (r : ℕ) → count r q.items ≡ 0 → (swapped q i j).index r ≡ q.index r
  swapped_outside r h = ground (arith, absent q.items i r hi h, absent q.items j r hj h)
    where
      absent : (a : List ℕ) (k x : ℕ) → k < length a → count x a ≡ 0 → at a k ≢ x
      absent [] k x p z = absurd (omega arith)
      absent (y ∷ a) zero x p z = ground arith
      absent (y ∷ a) (suc k) x p z = absent a k x (omega arith) (omega arith)

pub pri_at_lem :
    (pri : ℕ → ℕ) (q : Pqueue) (i : ℕ)
    → i < length q.items
    → pri_at pri q i ≡ some (pri (at q.items i))
unfolding pri_at
pri_at_lem pri q i h = rw (get_elem?-get_or q.items i 0 h)
