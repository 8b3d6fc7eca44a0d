-- ===== src/Nsqd/Deferred/Refines.antt =====
-- The priority queue of internal/pqueue is one that the channel can rely on.
use nsq.Common.{
  ℕ, ◌+◌, ◌≤◌, ◌<◌, ◌≡◌, refl, ap, subst, ◌∙◌, List, ◌∷◌, Option, none, some, arith, if◌then◌else◌,
  nat_beq, nat_eq, count,
}
use nsq.Common.Sums.{sum_by, sum_by-counts, sum_by-agree, sum_by-positive}
use nsq.Nsqd.InFlight.{Pqueue}
use nsq.Nsqd.InFlight.Queue.{IsQueue, push_correct}
use nsq.Nsqd.InFlight.Shrink.{Peeked, early, due}
use nsq.Nsqd.Channel.{Item}
use nsq.Nsqd.Channel.InFlight.{IsQueue-agree}
use nsq.Nsqd.Channel.Contract.{
  same_item, same_item-eq, Shifted, nothing_due, gives, IsPriorityQueue,
}
use nsq.Nsqd.Deferred.{
  PriorityQueue, priority_of, allocate, new_queue, push_item, shift_item, priority_queue,
  peek_and_shift_first,
}
use nsq.Nsqd.Deferred.Heap.{heap_push-push, peek_and_shift_first_lem}

-- How often the queue holds an item.
abbrev pub holds : PriorityQueue → Item → ℕ
holds q i = sum_by (λ x. same_item (q.item x) i) q.pointers.items

-- A well-formed queue of pointers that are in use.
pub record IsGood (q : PriorityQueue) : Type 0 where
  pub queue : IsQueue (priority_of q.item) q.pointers
  pub in_use : (x : ℕ) → q.next ≤ x → count x q.pointers.items ≡ 0

new_is_good :
    (capacity : ℕ)
    → 0 < capacity
    → IsGood (new_queue capacity) × ((i : Item) → holds (new_queue capacity) i ≡ 0)
unfolding new_queue
new_is_good capacity pos = (
  record {
    queue = record {
      heap = λ c p r. absurd (omega arith);
      indexed = λ i h. absurd (omega arith);
      room = omega arith;
      positive = pos;
    };
    in_use = λ x h. refl;
  },
  λ i. refl,
)

-- The weights change only at the new pointer, which is not in the queue.
allocate_old :
    (q : PriorityQueue) (i : Item) (y : ℕ)
    → IsGood q
    → 0 < count y q.pointers.items
    → q.item y ≡ allocate q i y
allocate_old q i y v h = ground (arith, v.in_use y)

holds_counts :
    (item : ℕ → Item) (a b : List ℕ) (x : ℕ) (j : Item)
    → ((r : ℕ) → count r a ≡ count r b + (if nat_beq x r then 1 else 0))
    → sum_by (λ y. same_item (item y) j) a
      ≡ sum_by (λ y. same_item (item y) j) b + same_item (item x) j
holds_counts item a b x j h =
    omega (arith, sum_by-counts (λ y. same_item (item y) j) a (x ∷ b) (λ r. omega (arith, h r)))

push_is_good :
    (q : PriorityQueue) (i : Item)
    → IsGood q
    → (q' : PriorityQueue) × (push_item q i ≡ some q')
      × IsGood q'
      × ((j : Item) → holds q' j ≡ holds q j + same_item i j)
unfolding push_item
push_is_good q i v =
    let item' = allocate q i in
    let x = q.next in
    let old = λ (y : ℕ) (h : 0 < count y q.pointers.items). allocate_old q i y v h in
    let w =
      IsQueue-agree (priority_of q.item) (priority_of item') q.pointers
        (λ y h. ap (λ (k : Item). k.1) (old y h)) v.queue in
    let (p, run, added) =
      push_correct (priority_of item') q.pointers x w (v.in_use x (omega arith)) in
    let here : item' x ≡ i = ground arith in
    (
      record { pointers = p; item = item'; next = x + 1 },
      rw (heap_push-push (priority_of item') q.pointers x w.positive w.room, run) refl,
      record { queue = added.valid; in_use = λ y h. ground (arith, added.counts y, v.in_use y) },
      λ j.
          holds_counts item' p.items q.pointers.items x j added.counts
          ∙ omega (
            arith,
            sum_by-agree (λ y. same_item (q.item y) j) (λ y. same_item (item' y) j) q.pointers.items
                (λ y h. ap (λ (k : Item). same_item k j) (old y h)),
            ap (λ (k : Item). same_item k j) here,
          ),
    )

-- An item of a bag stands at some pointer.
held :
    (q : PriorityQueue) (i : Item)
    → 0 < holds q i
    → (x : ℕ) × (0 < count x q.pointers.items) × (q.item x ≡ i)
held q i h =
    let (x, p, w) = sum_by-positive (λ y. same_item (q.item y) i) q.pointers.items h in
    (x, p, same_item-eq (q.item x) i w)

shift_of_peek :
    (q : PriorityQueue) (max : ℕ) (o : Option ℕ) (p : Pqueue)
    → IsGood q
    → peek_and_shift_first (priority_of q.item) q.pointers max ≡ some (o, p)
    → Peeked (priority_of q.item) q.pointers max o p
    → (o' : Option Item) × (q' : PriorityQueue) × (shift_item q max ≡ some (o', q'))
      × IsGood q'
      × Shifted holds q max o' q'
unfolding shift_item
shift_of_peek q max o p v run (early later) = (
  none,
  q,
  rw run refl,
  v,
  nothing_due (λ i. refl)
      (λ i h. let (x, inq, e) = held q i h in subst (λ (k : Item). max < k.1) e (later x inq)),
)
shift_of_peek q max o p v run (due x time inq gone least) = (
  some (q.item x),
  record q { pointers = p },
  rw run refl,
  record { queue = gone.valid; in_use = λ y h. ground (arith, gone.counts y, v.in_use y h) },
  gives (q.item x) time (λ j. holds_counts q.item q.pointers.items p.items x j gone.counts)
      (λ j h.
        let (y, iny, e) = held q j h in subst (λ (k : Item). (q.item x).1 ≤ k.1) e (least y iny)),
)

pub priority_queue-IsPriorityQueue : IsPriorityQueue holds priority_queue IsGood
unfolding push_item shift_item new_queue
priority_queue-IsPriorityQueue = record {
  new_is_empty = new_is_good;
  push_adds = push_is_good;
  peek_shifts = λ q max v.
      let (o, p, run, peeked) =
        peek_and_shift_first_lem (priority_of q.item) q.pointers max v.queue in
      shift_of_peek q max o p v run peeked;
}
