-- ===== src/Nsqd/InFlight/Order.antt =====
-- The order of the heap, and what a loop that moves entries keeps.
use nsq.Common.{ℕ, zero, suc, ◌-◌, ◌/◌, ◌≤◌, ◌<◌, ◌≡◌, ◌≢◌, refl, ◌∙◌, List, arith, length, count}
use nsq.Nsqd.InFlight.{Pqueue}
use nsq.Nsqd.InFlight.Arrays.{
  at, swapped, IsIndexed, length-exchange, at-exchange, count-exchange, swapped-IsIndexed,
  swapped_outside,
}

abbrev pub parent : ℕ → ℕ
parent c = (c - 1) / 2

-- `q'` has the entries of `q`, those from `n` on at the same place.
pub record Rearranged (n : ℕ) (q q' : Pqueue) : Type 0 where
  pub same_length : length q'.items ≡ length q.items
  pub same_capacity : q'.capacity ≡ q.capacity
  pub same_count : (r : ℕ) → count r q'.items ≡ count r q.items
  pub beyond : (c : ℕ) → n ≤ c → at q'.items c ≡ at q.items c
  pub indexed : IsIndexed q → IsIndexed q'
  pub outside : (r : ℕ) → count r q.items ≡ 0 → q'.index r ≡ q.index r

pub Rearranged-refl : (n : ℕ) (q : Pqueue) → Rearranged n q q
Rearranged-refl n q = record {
  same_length = refl;
  same_capacity = refl;
  same_count = λ r. refl;
  beyond = λ c h. refl;
  indexed = λ v. v;
  outside = λ r h. refl;
}

pub Rearranged-trans :
    {n : ℕ} {p q r : Pqueue} → Rearranged n p q → Rearranged n q r → Rearranged n p r
Rearranged-trans v w = record {
  same_length = w.same_length ∙ v.same_length;
  same_capacity = w.same_capacity ∙ v.same_capacity;
  same_count = λ x. w.same_count x ∙ v.same_count x;
  beyond = λ c h. w.beyond c h ∙ v.beyond c h;
  indexed = λ i. w.indexed (v.indexed i);
  outside = λ x h. w.outside x (v.same_count x ∙ h) ∙ v.outside x h;
}

pub swapped-Rearranged :
    (n i j : ℕ) (q : Pqueue) → i < n → j < n → n ≤ length q.items → Rearranged n q (swapped q i j)
swapped-Rearranged n i j q hi hj hn =
    let pi : i < length q.items = omega arith in
    let pj : j < length q.items = omega arith in
    record {
      same_length = length-exchange q.items i j;
      same_capacity = refl;
      same_count = count-exchange q.items i j pi pj;
      beyond = λ c h. ground (arith, at-exchange q.items i j pi pj c);
      indexed = swapped-IsIndexed q i j pi pj;
      outside = swapped_outside q i j pi pj;
    }

module _ (pri : ℕ → ℕ) where
  abbrev pub key : List ℕ → ℕ → ℕ
  key a i = pri (at a i)

  -- The first n entries are a heap.
  abbrev pub IsHeap : ℕ → List ℕ → Type 0
  IsHeap n a = (c : ℕ) → 0 < c → c < n → key a (parent c) ≤ key a c

  -- The children of `i` are not below the parent of `i`.
  abbrev pub IsBridged : ℕ → List ℕ → ℕ → Type 0
  IsBridged n a i = (c : ℕ) → 0 < c → c < n → parent c ≡ i → 0 < i → key a (parent i) ≤ key a c

  -- Only the edge above `i` may be out of order.
  pub record UpInv (n : ℕ) (a : List ℕ) (i : ℕ) : Type 0 where
    pub edges : (c : ℕ) → 0 < c → c < n → c ≢ i → key a (parent c) ≤ key a c
    pub bridged : IsBridged n a i

  -- Only the edges below `i` may be out of order.
  pub record DownInv (n : ℕ) (a : List ℕ) (i : ℕ) : Type 0 where
    pub edges : (c : ℕ) → 0 < c → c < n → parent c ≢ i → key a (parent c) ≤ key a c
    pub bridged : IsBridged n a i

  -- Only the edges above and below `i` may be out of order.
  pub record HoleInv (n : ℕ) (a : List ℕ) (i : ℕ) : Type 0 where
    pub edges : (c : ℕ) → 0 < c → c < n → c ≢ i → parent c ≢ i → key a (parent c) ≤ key a c
    pub bridged : IsBridged n a i

  root_least_below : (k n : ℕ) (a : List ℕ) (i : ℕ) → IsHeap n a → i < k → i < n → key a 0 ≤ key a i
  root_least_below zero n a i h f p = absurd (omega arith)
  root_least_below (suc k) n a i h f p = ground (arith, h i, root_least_below k n a (parent i) h)

  -- The first entry of a heap has the lowest priority.
  pub root_least : (n : ℕ) (a : List ℕ) (i : ℕ) → IsHeap n a → i < n → key a 0 ≤ key a i
  root_least n a i h p = root_least_below (suc i) n a i h (omega arith) p
