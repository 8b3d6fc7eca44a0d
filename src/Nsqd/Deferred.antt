-- ===== src/Nsqd/Deferred.antt =====
-- internal/pqueue/pqueue.go under container/heap: the queue of deferred messages. A pointer to an
-- Item is a number, and `item` the heap of items; the slice and the fields Index are a Pqueue, as
-- for Nsqd/InFlight. `up` and `down` of container/heap exchange entries by the same tests as those
-- of in_flight_pqueue.go, but for the choice between two children of the same priority. `none` is a
-- panic. PeekAndShift leaves out the time until the first item is due, which no caller reads.
pub mod Heap
pub mod Refines
use nsq.Common.{
  ℕ, zero, suc, ◌+◌, ◌-◌, ◌*◌, ◌/◌, ◌<◌, ◌≡◌, Bool, true, false, List, [], ◌∷◌, ◌++◌, Option, none,
  some, ltb, leb, if◌then◌else◌, ◌==◌, nat_eq, nat_beq, length, get_elem?, ◌&&◌,
}
use nsq.Nsqd.InFlight.{◌>>=◌, ◌>>◌, guard, Pqueue, assign, swap, drop_last, child_by, up, down_loop}
use nsq.Nsqd.Channel.{Item, DeferredQueue}

-- The method Push; the slice grows to twice its capacity.
unfoldable pub append_item : Pqueue → ℕ → Option Pqueue
append_item q x = do
  let n = length q.items
  let c = if ltb q.capacity (n + 1) then q.capacity * 2 else q.capacity
  guard (leb (n + 1) c)
  some (record { items = q.items ++ x ∷ []; index = assign q.index x (some n); capacity = c })

-- The method Pop.
unfoldable pub pop_last : Pqueue → Option (ℕ × Pqueue)
pop_last q =
    let n = length q.items in
    let c = q.capacity in
    drop_last (record q { capacity = if ltb n (c / 2) && ltb 25 c then c / 2 else c })

-- Whether the entries at a position are the same, as when `down` did not move it.
abbrev pub same_entry : Option ℕ → Option ℕ → Bool
same_entry none none = true
same_entry none (some y) = false
same_entry (some x) none = false
same_entry (some x) (some y) = nat_beq x y

module _ (priority : ℕ → ℕ) where
  -- Less(j2, j1) prefers the right child.
  unfoldable pub lesser_child : Pqueue → ℕ → ℕ → Option ℕ
  lesser_child q j1 n = child_by priority (λ left right. ltb right left) q j1 n

  unfoldable pub heap_down : Pqueue → ℕ → ℕ → Option Pqueue
  heap_down q i n = down_loop priority lesser_child (n + 1) q i n

  -- heap.Push
  unfoldable pub heap_push : Pqueue → ℕ → Option Pqueue
  heap_push q x = append_item q x >>= λ q'. up priority q' (length q'.items - 1)

  -- heap.Remove: up, unless down moved the entry.
  unfoldable pub heap_remove : Pqueue → ℕ → Option (ℕ × Pqueue)
  heap_remove q i = do
    guard (ltb 0 (length q.items))
    let n = length q.items - 1
    let moved : Option Pqueue = do
      swapped ← swap q i n
      sunk ← heap_down swapped i n
      (if same_entry (get_elem? swapped.items i) (get_elem? sunk.items i)
          then up priority sunk i
          else some sunk)
    q' ← if n == i then some q else moved
    pop_last q'

  unfoldable pub peek_and_shift_first : Pqueue → ℕ → Option (Option ℕ × Pqueue)
  peek_and_shift_first q max =
      let nothing : Option (Option ℕ × Pqueue) = some (none, q) in
      let first : Option (Option ℕ × Pqueue) = do
        x ← get_elem? q.items 0
        let early : Option (Option ℕ × Pqueue) = some (none, q)
        let due : Option (Option ℕ × Pqueue) = heap_remove q 0 >>= λ p. some (some x, p.1)
        if ltb max (priority x) then early else due
      in if length q.items == 0 then nothing else first

-- The queue with the items that its pointers stand for; pointers from `next` on are not in use.
pub record PriorityQueue : Type 0 where
  pub pointers : Pqueue
  pub item : ℕ → Item
  pub next : ℕ

abbrev pub priority_of : (ℕ → Item) → ℕ → ℕ
priority_of item x = (item x).1

-- pqueue.New
unfoldable pub new_queue : ℕ → PriorityQueue
new_queue capacity = record {
  pointers = record { items = []; index = λ x. none; capacity = capacity };
  item = λ x. (0, 0);
  next = 0;
}

abbrev pub allocate : PriorityQueue → Item → ℕ → Item
allocate q i x = if q.next == x then i else q.item x

-- heap.Push of a new item.
unfoldable pub push_item : PriorityQueue → Item → Option PriorityQueue
unfolding heap_push
push_item q i = heap_push (priority_of (allocate q i)) q.pointers q.next >>= λ p.
    some (record { pointers = p; item = allocate q i; next = q.next + 1 })

unfoldable pub shift_item : PriorityQueue → ℕ → Option (Option Item × PriorityQueue)
unfolding peek_and_shift_first
shift_item q max = peek_and_shift_first (priority_of q.item) q.pointers max >>= λ (o, p). some (
  elim o as (λ _. Option Item) [ none ↦ none | some x ↦ some (q.item x) ],
  record q { pointers = p },
)

abbrev pub priority_queue : DeferredQueue PriorityQueue
priority_queue = record { new = new_queue; push = push_item; peek_and_shift = shift_item }
