-- ===== src/Nsqd/Channel/Deliver.antt =====
-- Delivering, finishing and touching a message.
use nsq.Common.{
  ℕ, ◌+◌, ◌≤◌, ◌≡◌, ◌≢◌, ◌⊎◌, inl, inr, refl, ◌∙◌, List, none, some, arith, nat_eq, bytes_eq,
  bytes_beq_iff, nat_beq, count, Bool-cases, Option-cases,
}
use nsq.Common.Map.{lookup, insert, delete, lookup-insert, lookup-delete}
use nsq.Nsqd.Channel.{
  Channel, Entry, Failure, id_not_in_flight, client_does_not_own, refused, popped, update, id_of,
  pri_of, pop_in_flight_message, start_in_flight_timeout, finish_message, touch_message,
  touched_pri,
}
use nsq.Nsqd.Channel.InFlight.{count-le_one, IsConsistent, take_out, put_in, update-IsConsistent}

-- The entry that a delivery writes.
abbrev pub delivered : Entry → ℕ → ℕ → ℕ → Entry
delivered entry client_id now timeout = record entry {
  client_id = client_id;
  delivery_ts = now;
  pri = now + timeout;
}

module _ {Q B : Type 0} where
  -- The client has the message with this id in flight.
  pub record Owns (c : Channel Q B) (client_id : ℕ) (id : List ℕ) (r : ℕ) : Type 0 where
    pub found : lookup id c.in_flight_messages ≡ some r
    pub owner : (c.message r).client_id ≡ client_id

  pub Owns-cases :
      (c : Channel Q B) (client_id : ℕ) (id : List ℕ)
      → ((r : ℕ) × Owns c client_id id r) ⊎ ((r : ℕ) → ¬ (Owns c client_id id r))
  Owns-cases c client_id id = elim (Option-cases (lookup id c.in_flight_messages)) [
    | inl missing ↦ inr (λ r o. cc (missing, o.found))
    | inr (r, found) ↦ elim (Bool-cases (nat_beq (c.message r).client_id client_id)) [
      | inl own ↦ inl (r, record { found = found; owner = ground arith })
      | inr other ↦ inr λ x o.
          let same : r ≡ x = cc (found, o.found) in absurd (ground (arith, other, same, o.owner))
    ]
  ]

module _ {Q B E : Type 0} where
  pub pop-Owns :
      (c : Channel Q B) (client_id : ℕ) (id : List ℕ) (r : ℕ)
      → Owns c client_id id r
      → pop_in_flight_message {E = E} c client_id id
        ≡ popped r (record c { in_flight_messages = delete id c.in_flight_messages })
  unfolding pop_in_flight_message
  pop-Owns c client_id id r o = rw (o.found, pop_in_flight_message) (ground (arith, o.owner))

  pub pop-refused :
      (c : Channel Q B) (client_id : ℕ) (id : List ℕ)
      → ((r : ℕ) → ¬ (Owns c client_id id r))
      → (e : Failure E) × (pop_in_flight_message {E = E} c client_id id ≡ refused e)
  unfolding pop_in_flight_message
  pop-refused c client_id id no_owner = elim (Option-cases (lookup id c.in_flight_messages)) [
    | inl missing ↦ (id_not_in_flight, rw (missing, pop_in_flight_message) refl)
    | inr (r, found) ↦ elim (Bool-cases (nat_beq (c.message r).client_id client_id)) [
      | inl own ↦ absurd (no_owner r (record { found = found; owner = ground arith }))
      | inr other ↦ (client_does_not_own, rw (found, pop_in_flight_message, other) refl)
    ]
  ]

  -- On a consistent channel, FIN by the client that has the message in flight takes the message out
  -- of the map and the queue and changes nothing else; the id is then not in flight.
  pub finish_message-Owns :
      (c : Channel Q B) (client_id : ℕ) (id : List ℕ) (r : ℕ)
      → IsConsistent c
      → Owns c client_id id r
      → (c' : Channel Q B) × (finish_message {E = E} c client_id id ≡ some (c', none))
        × IsConsistent c'
        × (lookup id c'.in_flight_messages ≡ none)
        × ((id' : List ℕ)
            → id ≢ id'
            → lookup id' c'.in_flight_messages ≡ lookup id' c.in_flight_messages)
        × (c' ≡ record c {
          in_flight_messages = c'.in_flight_messages;
          in_flight_pq = c'.in_flight_pq;
        })
  unfolding finish_message
  finish_message-Owns c client_id id r v o =
      let (q, run, gone, consistent) = take_out c id r v o.found in
      let left = delete id c.in_flight_messages in
      (
        record c { in_flight_messages = left; in_flight_pq = q },
        rw (pop-Owns c client_id id r o, run) refl,
        consistent,
        ground (arith, lookup-delete id id c.in_flight_messages, bytes_beq_iff id id),
        λ id' ne. ground (arith, lookup-delete id id' c.in_flight_messages, bytes_beq_iff id id'),
        refl,
      )

  -- FIN by any other client, and of an id that is not in flight, fails and leaves the channel as it
  -- is.
  pub finish_message-refused :
      (c : Channel Q B) (client_id : ℕ) (id : List ℕ)
      → ((r : ℕ) → ¬ (Owns c client_id id r))
      → (e : Failure E) × (finish_message {E = E} c client_id id ≡ some (c, some e))
  unfolding finish_message
  finish_message-refused c client_id id no_owner =
      let (e, run) = pop-refused c client_id id no_owner in (e, rw run refl)

  -- On a consistent channel, a message with neither its pointer in the queue nor its id in the map
  -- is put in flight for its client, to time out at now + timeout.
  pub start_in_flight_timeout_lem :
      (c : Channel Q B) (r client_id now timeout : ℕ)
      → IsConsistent c
      → count r c.in_flight_pq.items ≡ 0
      → lookup (id_of c r) c.in_flight_messages ≡ none
      → (c' : Channel Q B) × (start_in_flight_timeout {E = E} c r client_id now timeout
          ≡ some (c', none))
        × IsConsistent c'
        × Owns c' client_id (id_of c r) r
        × (pri_of c' r ≡ now + timeout)
        × ((x : ℕ) → x ≢ r → c'.message x ≡ c.message x)
        × ((id : List ℕ)
            → id_of c r ≢ id
            → lookup id c'.in_flight_messages ≡ lookup id c.in_flight_messages)
  unfolding start_in_flight_timeout
  start_in_flight_timeout_lem c r client_id now timeout v new free =
      let entry = delivered (c.message r) client_id now timeout in
      let marked = record c { message = update c.message r entry } in
      let same : id_of marked r ≡ id_of c r = ground arith in
      let consistent = update-IsConsistent c r entry v new in
      let (q, run, added, result) = put_in {E = E} marked r consistent new (rw same free) in
      let grown = insert (id_of marked r) r c.in_flight_messages in
      (
        record marked { in_flight_messages = grown; in_flight_pq = q },
        run,
        result,
        record {
          found = ground (
            arith,
            lookup-insert (id_of marked r) (id_of c r) r c.in_flight_messages,
            bytes_beq_iff (id_of marked r) (id_of c r),
          );
          owner = ground arith;
        },
        ground arith,
        λ x ne. ground arith,
        λ id ne. ground (
          arith,
          lookup-insert (id_of marked r) id r c.in_flight_messages,
          bytes_beq_iff (id_of marked r) id,
        ),
      )

  -- On a consistent channel, TOUCH by the client that has the message in flight keeps it in flight
  -- for the client, and moves its timeout; nothing else in flight changes.
  pub touch_message-Owns :
      (c : Channel Q B) (client_id : ℕ) (id : List ℕ) (r now timeout max_msg_timeout : ℕ)
      → IsConsistent c
      → Owns c client_id id r
      → (c' : Channel Q B) × (touch_message {E = E} c client_id id now timeout max_msg_timeout
          ≡ some (c', none))
        × IsConsistent c'
        × Owns c' client_id id r
        × (pri_of c' r ≡ touched_pri now timeout (c.message r).delivery_ts max_msg_timeout)
        × (pri_of c' r ≤ (c.message r).delivery_ts + max_msg_timeout)
        × ((x : ℕ) → x ≢ r → c'.message x ≡ c.message x)
        × ((id' : List ℕ) → lookup id' c'.in_flight_messages ≡ lookup id' c.in_flight_messages)
  unfolding touch_message
  touch_message-Owns c client_id id r now timeout max_msg_timeout v o =
      let (q, run, gone, consistent) = take_out c id r v o.found in
      let (named, inq) = v.queued id r o.found in
      let left = delete id c.in_flight_messages in
      let taken : Channel Q B = record c { in_flight_messages = left; in_flight_pq = q } in
      let out : count r q.items ≡ 0 =
        ground (arith, gone.counts r, count-le_one (pri_of c) c.in_flight_pq r v.queue) in
      let later = record (c.message r) {
        pri = touched_pri now timeout (c.message r).delivery_ts max_msg_timeout;
      } in
      let marked = record taken { message = update c.message r later } in
      let same : id_of marked r ≡ id = ground arith in
      let free : lookup (id_of marked r) left ≡ none =
        rw same (ground (arith, lookup-delete id id c.in_flight_messages, bytes_beq_iff id id)) in
      let (p, run', added, result) =
        put_in {E = E} marked r (update-IsConsistent taken r later consistent out) out free in
      let grown = insert (id_of marked r) r left in
      let looks : (id' : List ℕ) → lookup id' grown ≡ lookup id' c.in_flight_messages = λ id'.
        ground (
          arith,
          lookup-insert (id_of marked r) id' r left,
          lookup-delete id id' c.in_flight_messages,
          bytes_beq_iff (id_of marked r) id',
          bytes_beq_iff id id',
          o.found,
        ) in
      (
        record marked { in_flight_messages = grown; in_flight_pq = p },
        rw (pop-Owns c client_id id r o, run) run',
        result,
        record { found = looks id ∙ o.found; owner = ground (arith, o.owner) },
        ground arith,
        ground arith,
        λ x ne. ground arith,
        looks,
      )
