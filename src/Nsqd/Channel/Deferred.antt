-- ===== src/Nsqd/Channel/Deferred.antt =====
-- The deferred messages of a channel, over any queue that meets the contract: the map and the queue
-- hold the same items.
pub mod Scan
use nsq.Common.{
  ℕ, zero, suc, ◌+◌, ◌≤◌, ◌<◌, ◌≡◌, ◌≢◌, inl, inr, refl, ap, sym, subst, ◌∙◌, Bool, true, false,
  List, [], ◌∷◌, ◌++◌, Option, none, some, arith, ltb, if◌then◌else◌, nat_eq, bytes_eq, bytes_beq,
  bytes_beq_iff, nat_beq, length, Bool-cases, ◌&&◌,
}
use nsq.Common.Map.{lookup, insert, delete, lookup-insert, lookup-delete, length-delete}
use nsq.Nsqd.InFlight.{◌>>=◌}
use nsq.Nsqd.Message.{write_message_to_backend}
use nsq.Nsqd.Channel.{
  Channel, Entry, Item, DeferredQueue, BackendQueue, Popped, popped, unless_failed, id_of,
}
use nsq.Nsqd.Channel.Scan.{
  put, push_deferred_message, pop_deferred_message, start_deferred_timeout, deferred_loop,
  process_deferred_queue,
}
use nsq.Nsqd.Channel.Timeouts.{stored, stored_all}
use nsq.Nsqd.Channel.Contract.{
  same_item, same_item-eq, same_item_refl, same_item-le_one, Shifted, nothing_due, gives,
  IsPriorityQueue,
}

module _ {Q B : Type 0} (holds : Q → Item → ℕ) (IsGood : Q → Type 0) where
  -- The map and the queue hold the same items, each under the id of its message.
  pub record IsDeferring (c : Channel Q B) : Type 0 where
    pub good : IsGood c.deferred_pq
    pub mapped :
        (i : Item) → 0 < holds c.deferred_pq i → lookup (id_of c i.0) c.deferred_messages ≡ some i
    pub single : (i : Item) → holds c.deferred_pq i ≤ 1
    pub queued :
        (id : List ℕ) (i : Item)
        → lookup id c.deferred_messages ≡ some i
        → (id_of c i.0 ≡ id) × (0 < holds c.deferred_pq i)

module _ {Q B E : Type 0} (deferred_queue : DeferredQueue Q)
    (backend_queue : BackendQueue B E) where
  push_deferred_message_lem :
      (c : Channel Q B) (i : Item)
      → lookup (id_of c i.0) c.deferred_messages ≡ none
      → push_deferred_message {E = E} deferred_queue backend_queue c i
        ≡ (record c { deferred_messages = insert (id_of c i.0) i c.deferred_messages }, none)
  unfolding push_deferred_message
  push_deferred_message_lem c i free = rw (free, push_deferred_message) refl

  pub pop_deferred_message_lem :
      (c : Channel Q B) (id : List ℕ) (i : Item)
      → lookup id c.deferred_messages ≡ some i
      → pop_deferred_message {E = E} deferred_queue backend_queue c id
        ≡ popped i.0 (record c { deferred_messages = delete id c.deferred_messages })
  unfolding pop_deferred_message
  pop_deferred_message_lem c id i found = rw (found, pop_deferred_message) refl

module _ {Q B E : Type 0} (deferred_queue : DeferredQueue Q) (backend_queue : BackendQueue B E)
    (holds : Q → Item → ℕ) (IsGood : Q → Type 0)
    (queue_lem : IsPriorityQueue holds deferred_queue IsGood) where
  -- The message is deferred until `timeout` from now, if its id is not deferred already.
  pub start_deferred_timeout_lem :
      (c : Channel Q B) (r now timeout : ℕ)
      → IsDeferring holds IsGood c
      → lookup (id_of c r) c.deferred_messages ≡ none
      → (c' : Channel Q B) × (start_deferred_timeout {E = E} deferred_queue backend_queue c r now
            timeout
          ≡ some (c', none))
        × IsDeferring holds IsGood c'
        × ((j : Item)
            → holds c'.deferred_pq j ≡ holds c.deferred_pq j + same_item (r, now + timeout) j)
        × (c' ≡ record c {
          deferred_messages = insert (id_of c r) (r, now + timeout) c.deferred_messages;
          deferred_pq = c'.deferred_pq;
        })
  unfolding start_deferred_timeout
  start_deferred_timeout_lem c r now timeout v free =
      let item : Item = (r, now + timeout) in
      let (q, run, good, adds) = queue_lem.push_adds c.deferred_pq item v.good in
      let grown = insert (id_of c r) item c.deferred_messages in
      (
        record c { deferred_messages = grown; deferred_pq = q },
        rw (push_deferred_message_lem {E = E} deferred_queue backend_queue c item free, run) refl,
        record {
          good = good;
          mapped = λ i h. ground (
            arith,
            adds i,
            v.mapped i,
            same_item-eq item i,
            lookup-insert (id_of c r) (id_of c i.0) item c.deferred_messages,
            bytes_beq_iff (id_of c r) (id_of c i.0),
          );
          single = λ i.
              ground (
                arith,
                adds i,
                v.mapped i,
                v.single i,
                same_item-eq item i,
                same_item-le_one item i,
              );
          queued = λ id i h. ground (
            arith,
            adds i,
            v.queued id i,
            same_item_refl item,
            lookup-insert (id_of c r) id item c.deferred_messages,
            bytes_beq_iff (id_of c r) id,
          );
        },
        adds,
        refl,
      )
