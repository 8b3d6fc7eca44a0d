-- ===== src/Nsqd/InFlight.antt =====
-- nsqd/in_flight_pqueue.go: a min-heap of pointers to messages, ordered by their field `pri`.
-- A pointer is a number. The slice is `items`, its capacity `capacity`; the field `index` of the
-- messages is a function of the pointer, with `none` for -1. A run that indexes out of range
-- panics, which is `none`; so is a loop that runs out of fuel.
-- An int64 priority is a time and not negative; an index stays far from the end of int.
pub mod Arrays
pub mod Order
pub mod Up
pub mod Down
pub mod Queue
pub mod Drop
pub mod Shrink
use nsq.Common.{
  ℕ, zero, suc, ◌+◌, ◌-◌, ◌*◌, ◌/◌, ◌<◌, ◌≡◌, Bool, List, [], ◌∷◌, ◌++◌, Option, none, some, ltb,
  leb, if◌then◌else◌, ◌==◌, nat_eq, length, get_elem?, set, take, ◌&&◌, ◌||◌,
}

infixl 5 ◌>>=◌ ◌>>◌
abbrev pub ◌>>=◌ : {A B : Type 0} → Option A → (A → Option B) → Option B
none >>= f = none
some a >>= f = f a

abbrev pub ◌>>◌ : {B : Type 0} → Option (Unit {0}) → Option B → Option B
m >> k = m >>= λ _. k

abbrev pub guard : Bool → Option (Unit {0})
guard b = if b then some tt else none

pub record Pqueue : Type 0 where
  pub items : List ℕ
  pub index : ℕ → Option ℕ
  pub capacity : ℕ

unfoldable pub new_in_flight_pqueue : ℕ → (ℕ → Option ℕ) → Pqueue
new_in_flight_pqueue capacity index = record { items = []; index = index; capacity = capacity }

-- x.index = i
abbrev pub assign : (ℕ → Option ℕ) → ℕ → Option ℕ → ℕ → Option ℕ
assign index r i x = if r == x then i else index x

unfoldable pub swap : Pqueue → ℕ → ℕ → Option Pqueue
swap q i j = do
  x ← get_elem? q.items i
  y ← get_elem? q.items j
  some (record q {
    items = set (set q.items i y) j x;
    index = assign (assign q.index y (some i)) x (some j);
  })

-- `x := (*pq)[n-1]; x.index = -1; *pq = (*pq)[0 : n-1]`
unfoldable pub drop_last : Pqueue → Option (ℕ × Pqueue)
drop_last q = do
  let n = length q.items
  guard (ltb 0 n)
  x ← get_elem? q.items (n - 1)
  some (x, record q { items = take (n - 1) q.items; index = assign q.index x none })

-- The order of the heap: the `pri` of each message.
module _ (pri : ℕ → ℕ) where
  -- (*pq)[i].pri
  unfoldable pub pri_at : Pqueue → ℕ → Option ℕ
  pri_at q i = get_elem? q.items i >>= λ r. some (pri r)

  unfoldable pub up_loop : ℕ → Pqueue → ℕ → Option Pqueue
  up_loop zero q j = none
  up_loop (suc fuel) q j =
      let i = (j - 1) / 2 in
      let rise = swap q i j >>= λ q'. up_loop fuel q' i in
      let step : Option Pqueue = do
        pj ← pri_at q j
        p ← pri_at q i
        if leb p pj then some q else rise
      in if i == j then some q else step

  unfoldable pub up : Pqueue → ℕ → Option Pqueue
  unfolding up_loop
  up q j = up_loop (j + 1) q j

  -- The child to compare with, of the node with left child `j1`: the right one, if there is one and
  -- the test of the two priorities prefers it.
  unfoldable pub child_by : (ℕ → ℕ → Bool) → Pqueue → ℕ → ℕ → Option ℕ
  child_by prefers q j1 n =
      if ltb (j1 + 1) n
      then (do
        left ← pri_at q j1
        right ← pri_at q (j1 + 1)
        some (if prefers left right then j1 + 1 else j1))
      else some j1

  -- (*pq)[j1].pri >= (*pq)[j2].pri prefers the right child.
  unfoldable pub smaller_child : Pqueue → ℕ → ℕ → Option ℕ
  smaller_child q j1 n = child_by (λ left right. leb right left) q j1 n

  -- The loop of `down`, where `child` chooses among the children of a node.
  unfoldable pub down_loop : (Pqueue → ℕ → ℕ → Option ℕ) → ℕ → Pqueue → ℕ → ℕ → Option Pqueue
  down_loop child zero q i n = none
  down_loop child (suc fuel) q i n =
      let step : Option Pqueue = do
        j ← child q (2 * i + 1) n
        pj ← pri_at q j
        p ← pri_at q i
        let sink = swap q i j >>= λ q'. down_loop child fuel q' j n
        if leb p pj then some q else sink
      in if leb n (2 * i + 1) then some q else step

  unfoldable pub down : Pqueue → ℕ → ℕ → Option Pqueue
  unfolding down_loop
  down q i n = down_loop smaller_child (n + 1) q i n

  -- The slice grows to twice its capacity; `(*pq)[0 : n+1]` panics past the capacity.
  unfoldable pub push : Pqueue → ℕ → Option Pqueue
  push q x = do
    let n = length q.items
    let c = if ltb q.capacity (n + 1) then q.capacity * 2 else q.capacity
    guard (leb (n + 1) c)
    up (record { items = q.items ++ x ∷ []; index = assign q.index x (some n); capacity = c }) n

  unfoldable pub pop : Pqueue → Option (ℕ × Pqueue)
  pop q = do
    let n = length q.items
    let c = q.capacity
    guard (ltb 0 n)
    swapped ← swap q 0 (n - 1)
    sunk ← down swapped 0 (n - 1)
    drop_last (record sunk { capacity = if ltb n (c / 2) && ltb 25 c then c / 2 else c })

  unfoldable pub remove : Pqueue → ℕ → Option (ℕ × Pqueue)
  remove q i = do
    let n = length q.items
    guard (ltb 0 n)
    let moved : Option Pqueue = do
      swapped ← swap q i (n - 1)
      sunk ← down swapped i (n - 1)
      up sunk i
    q' ← if n - 1 == i then some q else moved
    drop_last q'

  -- The message, if its time has come, and otherwise how long it is until then.
  unfoldable pub peek_and_shift : Pqueue → ℕ → Option (Option ℕ × ℕ × Pqueue)
  peek_and_shift q max =
      let nothing : Option (Option ℕ × ℕ × Pqueue) = some (none, 0, q) in
      let first : Option (Option ℕ × ℕ × Pqueue) = do
        x ← get_elem? q.items 0
        let early : Option (Option ℕ × ℕ × Pqueue) = some (none, pri x - max, q)
        let due : Option (Option ℕ × ℕ × Pqueue) = pop q >>= λ p. some (some x, 0, p.1)
        if ltb max (pri x) then early else due
      in if length q.items == 0 then nothing else first
