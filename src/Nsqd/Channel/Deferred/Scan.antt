-- ===== src/Nsqd/Channel/Deferred/Scan.antt =====
-- processDeferredQueue: the deferred messages whose time has come go to the queues.
use nsq.Common.{
  ℕ, zero, suc, ◌+◌, ◌≤◌, ◌<◌, ◌≡◌, refl, ◌∙◌, Bool, true, false, List, [], ◌∷◌, Option, some,
  arith, nat_eq, bytes_eq, bytes_beq_iff, length,
}
use nsq.Common.Map.{
  HasDistinctKeys, total, total-delete, delete-HasDistinctKeys, lookup, delete, lookup-delete,
  length-delete,
}
use nsq.Nsqd.Channel.{Channel, Item, DeferredQueue, BackendQueue, id_of}
use nsq.Nsqd.Channel.Scan.{put, deferred_loop, process_deferred_queue}
use nsq.Nsqd.Channel.Timeouts.{stored, stored_all}
use nsq.Nsqd.Channel.Contract.{
  same_item, same_item-eq, same_item_refl, Shifted, nothing_due, gives, IsPriorityQueue,
}
use nsq.Nsqd.Channel.Deferred.{IsDeferring, pop_deferred_message_lem}

-- How often an item is in a list.
abbrev pub items_in : List Item → Item → ℕ
items_in [] j = 0
items_in (i ∷ is) j = same_item i j + items_in is j

abbrev pub weight_of : (Item → ℕ) → List Item → ℕ
weight_of w [] = 0
weight_of w (i ∷ is) = w i + weight_of w is

abbrev pub messages_of : List Item → List ℕ
messages_of [] = []
messages_of ((r, p) ∷ is) = r ∷ messages_of is

module _ {Q B E : Type 0} (deferred_queue : DeferredQueue Q) (backend_queue : BackendQueue B E)
    (holds : Q → Item → ℕ) (IsGood : Q → Type 0)
    (queue_lem : IsPriorityQueue holds deferred_queue IsGood) where
  -- What a scan at time `t` does to the channel, where `is` are the items that were due.
  pub record Handed (c : Channel Q B) (t : ℕ) (is : List Item) (c' : Channel Q B) : Type 0 where
    pub deferring : IsDeferring holds IsGood c'
    pub same_messages : c'.message ≡ c.message
    pub same_in_flight : c'.in_flight_pq ≡ c.in_flight_pq
    pub same_mapped : c'.in_flight_messages ≡ c.in_flight_messages
    pub same_size : c'.memory_size ≡ c.memory_size
    pub same_exiting : c'.is_exiting ≡ c.is_exiting
    pub moves :
        HasDistinctKeys c.deferred_messages
        → HasDistinctKeys c'.deferred_messages
          × ((w : Item → ℕ)
              → total w c.deferred_messages ≡ total w c'.deferred_messages + weight_of w is)
    pub later : (i : Item) → 0 < holds c'.deferred_pq i → t < i.1
    pub each_once : (i : Item) → holds c.deferred_pq i ≡ holds c'.deferred_pq i + items_in is i
    pub was_due : (i : Item) → 0 < items_in is i → i.1 ≤ t
    pub stores :
        ◌≡◌ {A = List ℕ × B}
          (c'.memory, c'.backend)
          (stored_all deferred_queue backend_queue c.message c.memory_size
            (c.memory, c.backend)
            (messages_of is))

  -- The channel after `put` of a message.
  abbrev after_put : Channel Q B → ℕ → Channel Q B
  after_put c r =
      let s = stored deferred_queue backend_queue c.message c.memory_size (c.memory, c.backend) r in
      record c { memory = s.0; backend = s.1 }

  put_lem :
      (c : Channel Q B) (r : ℕ) → (put {E = E} deferred_queue backend_queue c r).0 ≡ after_put c r
  unfolding put
  put_lem c r = ground arith

  abbrev without : Channel Q B → Item → Q → Channel Q B
  without c i q = record c {
    deferred_messages = delete (id_of c i.0) c.deferred_messages;
    deferred_pq = q;
  }

  without-IsDeferring :
      (c : Channel Q B) (i : Item) (q : Q)
      → IsDeferring holds IsGood c
      → IsGood q
      → lookup (id_of c i.0) c.deferred_messages ≡ some i
      → ((j : Item) → holds c.deferred_pq j ≡ holds q j + same_item i j)
      → IsDeferring holds IsGood (without c i q)
  without-IsDeferring c i q v good found gone = record {
    good = good;
    mapped = λ j h. ground (
      arith,
      found,
      gone j,
      v.mapped j,
      v.single j,
      same_item_refl j,
      lookup-delete (id_of c i.0) (id_of c j.0) c.deferred_messages,
      bytes_beq_iff (id_of c i.0) (id_of c j.0),
    );
    single = λ j. omega (arith, gone j, v.single j);
    queued = λ id j h. ground (
      arith,
      gone j,
      v.queued id j,
      same_item-eq i j,
      lookup-delete (id_of c i.0) id c.deferred_messages,
      bytes_beq_iff (id_of c i.0) id,
    );
  }

  -- One round: nothing is due, or an item is handed on and the loop goes on.
  data Round (fuel : ℕ) (c : Channel Q B) (t : ℕ) (dirty : Bool) : Type 0 where
    rests :
        (q : Q)
        → deferred_loop {E = E} deferred_queue backend_queue (suc fuel) c t dirty
          ≡ some (record c { deferred_pq = q }, dirty)
        → IsDeferring holds IsGood (record c { deferred_pq = q })
        → ((i : Item) → holds q i ≡ holds c.deferred_pq i)
        → ((i : Item) → 0 < holds c.deferred_pq i → t < i.1)
        → Round fuel c t dirty
    hands :
        (i : Item) (q : Q)
        → deferred_loop {E = E} deferred_queue backend_queue (suc fuel) c t dirty
          ≡ deferred_loop deferred_queue backend_queue fuel (after_put (without c i q) i.0) t true
        → i.1 ≤ t
        → ((j : Item) → holds c.deferred_pq j ≡ holds q j + same_item i j)
        → lookup (id_of c i.0) c.deferred_messages ≡ some i
        → IsDeferring holds IsGood (without c i q)
        → Round fuel c t dirty

  Round-of_shift :
      (fuel : ℕ) (c : Channel Q B) (t : ℕ) (dirty : Bool) (o : Option Item) (q : Q)
      → IsDeferring holds IsGood c
      → deferred_queue.peek_and_shift c.deferred_pq t ≡ some (o, q)
      → IsGood q
      → Shifted holds c.deferred_pq t o q
      → Round fuel c t dirty
  unfolding deferred_loop
  Round-of_shift fuel c t dirty o q v run good (nothing_due same later) =
      rests q (rw run refl)
        (record {
          good = good;
          mapped = λ i h. v.mapped i (omega (arith, same i));
          single = λ i. omega (arith, same i, v.single i);
          queued = λ id i h. let (e, inq) = v.queued id i h in (e, omega (arith, same i));
        })
        same later
  Round-of_shift fuel c t dirty o q v run good (gives i time gone least) =
      let found = v.mapped i (omega (arith, gone i, same_item_refl i)) in
      let taken =
        pop_deferred_message_lem {E = E} deferred_queue backend_queue (record c { deferred_pq = q })
          (id_of c i.0) i found in
      hands i q (rw (run, taken, put_lem (without c i q) i.0) refl) time gone found
        (without-IsDeferring c i q v good found gone)

  Round-cases :
      (fuel : ℕ) (c : Channel Q B) (t : ℕ) (dirty : Bool)
      → IsDeferring holds IsGood c
      → Round fuel c t dirty
  Round-cases fuel c t dirty v =
      let (o, q, run, good, shifted) = queue_lem.peek_shifts c.deferred_pq t v.good in
      Round-of_shift fuel c t dirty o q v run good shifted

  Handed-hands :
      (c : Channel Q B) (t : ℕ) (i : Item) (q : Q) (is : List Item) (c' : Channel Q B)
      → i.1 ≤ t
      → ((j : Item) → holds c.deferred_pq j ≡ holds q j + same_item i j)
      → lookup (id_of c i.0) c.deferred_messages ≡ some i
      → Handed (after_put (without c i q) i.0) t is c'
      → Handed c t (i ∷ is) c'
  Handed-hands c t i q is c' time gone found s = record {
    deferring = s.deferring;
    same_messages = s.same_messages;
    same_in_flight = s.same_in_flight;
    same_mapped = s.same_mapped;
    same_size = s.same_size;
    same_exiting = s.same_exiting;
    moves = λ d.
        let (d', sums) = s.moves (delete-HasDistinctKeys (id_of c i.0) c.deferred_messages d) in
        (
          d',
          λ w. omega (arith, sums w, total-delete w (id_of c i.0) i c.deferred_messages d found),
        );
    later = s.later;
    each_once = λ j. omega (arith, gone j, s.each_once j);
    was_due = λ j h. ground (arith, same_item-eq i j, s.was_due j);
    stores = s.stores;
  }

  after_put-IsDeferring :
      (c : Channel Q B) (r : ℕ)
      → IsDeferring holds IsGood c
      → IsDeferring holds IsGood (after_put c r)
  after_put-IsDeferring c r v = record {
    good = v.good;
    mapped = v.mapped;
    single = v.single;
    queued = v.queued;
  }

  deferred_loop-Handed :
      (fuel : ℕ) (c : Channel Q B) (t : ℕ) (dirty : Bool)
      → length c.deferred_messages < fuel
      → IsDeferring holds IsGood c
      → (c' : Channel Q B) × (is : List Item) × (dirty' : Bool) × (deferred_loop {E = E}
            deferred_queue backend_queue fuel c t dirty
          ≡ some (c', dirty'))
        × Handed c t is c'
  deferred_loop-Handed zero c t dirty f v = absurd (omega arith)
  deferred_loop-Handed (suc fuel) c t dirty f v = elim (Round-cases fuel c t dirty v) [
    | rests q run w same later ↦ (
      record c { deferred_pq = q },
      [],
      dirty,
      run,
      record {
        deferring = w;
        same_messages = refl;
        same_in_flight = refl;
        same_mapped = refl;
        same_size = refl;
        same_exiting = refl;
        moves = λ d. (d, λ w. omega arith);
        later = λ i h. later i (omega (arith, same i));
        each_once = λ i. omega (arith, same i);
        was_due = λ i h. absurd (omega arith);
        stores = refl;
      },
    )
    | hands i q run time gone found w ↦
        let d = after_put (without c i q) i.0 in
        let (c', is, dirty', run', s) =
          deferred_loop-Handed fuel d t true
            (omega (arith, length-delete (id_of c i.0) i c.deferred_messages found))
            (after_put-IsDeferring (without c i q) i.0 w) in
        (c', i ∷ is, dirty', run ∙ run', Handed-hands c t i q is c' time gone found s)
  ]

  -- On a channel that is not exiting and whose deferred messages are consistent, the scan of the
  -- deferred messages ends without a panic and leaves them consistent. The items whose time is
  -- `t` or before are taken out and their messages handed to `put`, each once; the others stay.
  pub process_deferred_queue-Handed :
      (c : Channel Q B) (t : ℕ)
      → c.is_exiting ≡ false
      → IsDeferring holds IsGood c
      → (c' : Channel Q B) × (is : List Item) × (dirty : Bool) × (process_deferred_queue {E = E}
            deferred_queue backend_queue c t
          ≡ some (c', dirty))
        × Handed c t is c'
  unfolding process_deferred_queue
  process_deferred_queue-Handed c t running v =
      let result =
        deferred_loop-Handed (length c.deferred_messages + 1) c t false (omega arith) v in
      simp running result
