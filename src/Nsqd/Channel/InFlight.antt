-- ===== src/Nsqd/Channel/InFlight.antt =====
-- The in-flight messages of a channel: the map and the priority queue hold the same messages.
use nsq.Common.{
  ℕ, suc, ◌+◌, ◌-◌, ◌/◌, ◌≤◌, ◌<◌, ◌≡◌, ◌≢◌, inl, inr, refl, subst, List, [], ◌∷◌, Option, none,
  some, arith, nat_eq, bytes_eq, bytes_beq, bytes_beq_iff, nat_beq, length, count,
  position_of_count, Bool-cases,
}
use nsq.Common.Map.{lookup, insert, delete, lookup-insert, lookup-delete}
use nsq.Nsqd.InFlight.{Pqueue}
use nsq.Nsqd.InFlight.Arrays.{at}
use nsq.Nsqd.InFlight.Queue.{IsQueue, Added, Removed, push_correct, count-at}
use nsq.Nsqd.InFlight.Shrink.{remove_correct}
use nsq.Nsqd.Channel.{
  Channel, Entry, unless_failed, update, id_of, pri_of, push_in_flight_message, add_to_in_flight_pq,
  remove_from_in_flight_pq,
}

-- A queue is one for any priorities that agree on its messages.
pub IsQueue-agree :
    (p p' : ℕ → ℕ) (q : Pqueue)
    → ((r : ℕ) → 0 < count r q.items → p r ≡ p' r)
    → IsQueue p q
    → IsQueue p' q
IsQueue-agree p p' q same v = record {
  heap = λ c pos h.
      let parent_in = count-at q.items ((c - 1) / 2) (omega arith) in
      ground (
        arith,
        v.heap c pos h,
        same (at q.items c) (count-at q.items c h),
        same (at q.items ((c - 1) / 2)) parent_in,
      );
  indexed = v.indexed;
  room = v.room;
  positive = v.positive;
}

absent_from :
    (f : ℕ → Option ℕ) (r j k : ℕ) (a : List ℕ)
    → f r ≡ some j
    → j < k
    → ((i : ℕ) → i < length a → f (at a i) ≡ some (i + k))
    → count r a ≡ 0
absent_from f r j k [] e h all = refl
absent_from f r j k (x ∷ a) e h all =
    let rest = absent_from f r j (suc k) a e (omega arith) (λ i p.
      let shift : suc i + k ≡ i + suc k = omega arith in
      rw (← shift) (all (suc i) (omega arith))) in
    ground (arith, rest, all 0 (omega arith))

once_from :
    (f : ℕ → Option ℕ) (r k : ℕ) (a : List ℕ)
    → ((i : ℕ) → i < length a → f (at a i) ≡ some (i + k))
    → count r a ≤ 1
once_from f r k [] all = omega arith
once_from f r k (x ∷ a) all =
    let tail : (i : ℕ) → i < length a → f (at a i) ≡ some (i + suc k) = λ i p.
      let shift : suc i + k ≡ i + suc k = omega arith in rw (← shift) (all (suc i) (omega arith)) in
    elim (Bool-cases (nat_beq x r)) [
      | inl here ↦
          let e : x ≡ r = ground arith in
          let first : f r ≡ some k = ground (arith, all 0 (omega arith)) in
          ground (arith, absent_from f r k (suc k) a first (omega arith) tail)
      | inr there ↦ ground (arith, once_from f r (suc k) a tail)
    ]

-- A message occurs at most once.
pub count-le_one : (p : ℕ → ℕ) (q : Pqueue) (r : ℕ) → IsQueue p q → count r q.items ≤ 1
count-le_one p q r v =
    once_from q.index r 0 q.items (λ i h. let e : i + 0 ≡ i = omega arith in rw e (v.indexed i h))

kept-delete :
    (k k' : List ℕ) (m : List (List ℕ × ℕ)) (x : ℕ)
    → lookup k' (delete k m) ≡ some x
    → (k ≢ k') × (lookup k' m ≡ some x)
kept-delete k k' m x h = elim (Bool-cases (bytes_beq k k')) [
  | inl e ↦ absurd (ground (arith, lookup-delete k k' m))
  | inr ne ↦ (λ e. ground (arith, bytes_beq_iff k k'), ground (arith, lookup-delete k k' m))
]

module _ {Q B : Type 0} where
  -- The message stands in the priority queue.
  abbrev pub InQueue : Channel Q B → ℕ → Type 0
  InQueue c r = 0 < count r c.in_flight_pq.items

  pub record IsConsistent (c : Channel Q B) : Type 0 where
    pub queue : IsQueue (pri_of c) c.in_flight_pq
    pub mapped : (r : ℕ) → InQueue c r → lookup (id_of c r) c.in_flight_messages ≡ some r
    pub queued :
        (id : List ℕ) (r : ℕ)
        → lookup id c.in_flight_messages ≡ some r
        → (id_of c r ≡ id) × InQueue c r

  -- A message that leaves both the map and the queue leaves them consistent.
  pub Removed-IsConsistent :
      (c : Channel Q B) (id : List ℕ) (r : ℕ) (q : Pqueue)
      → IsConsistent c
      → lookup id c.in_flight_messages ≡ some r
      → Removed (pri_of c) c.in_flight_pq r q
      → IsConsistent
          (record c { in_flight_messages = delete id c.in_flight_messages; in_flight_pq = q })
  Removed-IsConsistent c id r q v found gone =
      let single = count-le_one (pri_of c) c.in_flight_pq r v.queue in
      record {
        queue = gone.valid;
        mapped = λ x h.
            let was : InQueue c x = omega (arith, gone.counts x) in
            ground (
              arith,
              gone.counts x,
              v.mapped x was,
              lookup-delete id (id_of c x) c.in_flight_messages,
              bytes_beq_iff id (id_of c x),
            );
        queued = λ id' x h.
            let (ne, was) = kept-delete id id' c.in_flight_messages x h in
            let (same, inq) = v.queued id r found in
            let (named, inside) = v.queued id' x was in (named, ground (arith, gone.counts x));
      }

  -- Taking a message out of the map and out of the queue.
  pub take_out :
      (c : Channel Q B) (id : List ℕ) (r : ℕ)
      → IsConsistent c
      → lookup id c.in_flight_messages ≡ some r
      → let left = delete id c.in_flight_messages in
        (q : Pqueue) × (remove_from_in_flight_pq (record c { in_flight_messages = left }) r
          ≡ some (record c { in_flight_messages = left; in_flight_pq = q }))
        × Removed (pri_of c) c.in_flight_pq r q
        × IsConsistent (record c { in_flight_messages = left; in_flight_pq = q })
  unfolding remove_from_in_flight_pq
  take_out c id r v found =
      let (same, inq) = v.queued id r found in
      let (i, hi, ei) = position_of_count r c.in_flight_pq.items 0 inq in
      let indexed : c.in_flight_pq.index r ≡ some i = rw ei at (v.queue.indexed i hi) in
      let (q, run, removed) = remove_correct (pri_of c) c.in_flight_pq i v.queue hi in
      let gone = subst (λ x. Removed (pri_of c) c.in_flight_pq x q) ei removed in
      (q, rw (indexed, run) refl, gone, Removed-IsConsistent c id r q v found gone)

  -- A message that is not in the queue may change.
  pub update-IsConsistent :
      (c : Channel Q B) (r : ℕ) (entry : Entry)
      → IsConsistent c
      → count r c.in_flight_pq.items ≡ 0
      → IsConsistent (record c { message = update c.message r entry })
  update-IsConsistent c r entry v new = record {
    queue =
        IsQueue-agree (pri_of c) (λ x. (update c.message r entry x).pri) c.in_flight_pq
          (λ x h. ground arith) v.queue;
    mapped = λ x h. ground (arith, v.mapped x h);
    queued = λ id x h. let (named, inside) = v.queued id x h in (ground arith, inside);
  }

  push_in_flight_message_lem :
      {E : Type 0} (c : Channel Q B) (r : ℕ)
      → lookup (id_of c r) c.in_flight_messages ≡ none
      → push_in_flight_message {E = E} c r
        ≡ (record c { in_flight_messages = insert (id_of c r) r c.in_flight_messages }, none)
  unfolding push_in_flight_message
  push_in_flight_message_lem c r free = rw (free, push_in_flight_message) refl

  -- Putting a message into the map and into the queue.
  pub put_in :
      {E : Type 0} (c : Channel Q B) (r : ℕ)
      → IsConsistent c
      → count r c.in_flight_pq.items ≡ 0
      → lookup (id_of c r) c.in_flight_messages ≡ none
      → let grown = insert (id_of c r) r c.in_flight_messages in
        (q : Pqueue) × (unless_failed {E = E}
            (push_in_flight_message c r)
            (λ d. add_to_in_flight_pq d r)
          ≡ some (record c { in_flight_messages = grown; in_flight_pq = q }, none))
        × Added (pri_of c) c.in_flight_pq r q
        × IsConsistent (record c { in_flight_messages = grown; in_flight_pq = q })
  unfolding add_to_in_flight_pq
  put_in {E} c r v new free =
      let (q, run, added) = push_correct (pri_of c) c.in_flight_pq r v.queue new in
      (
        q,
        rw (push_in_flight_message_lem {E = E} c r free, run) refl,
        added,
        record {
          queue = added.valid;
          mapped = λ x h. ground (
            arith,
            added.counts x,
            v.mapped x,
            lookup-insert (id_of c r) (id_of c x) r c.in_flight_messages,
            bytes_beq_iff (id_of c r) (id_of c x),
          );
          queued = λ id' x h. ground (
            arith,
            added.counts x,
            v.queued id' x,
            lookup-insert (id_of c r) id' r c.in_flight_messages,
            bytes_beq_iff (id_of c r) id',
          );
        },
      )
