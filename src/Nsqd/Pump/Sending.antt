-- ===== src/Nsqd/Pump/Sending.antt =====
-- Which message a round of messagePump is to send to its client, and what a delivery does.
use nsq.Common.{
  ℕ, ◌+◌, ◌%◌, ◌^◌, ◌≡◌, ◌≢◌, refl, sym, ◌∙◌, ap, subst, Bool, true, not, ◌&&◌, ◌||◌, List, [], ◌∷◌,
  Option, none, some, if◌then◌else◌, ◌==◌, nat_eq, bytes_eq, bytes_beq_iff, ltb, leb, arith,
  Bool-cases, Option-cases, inl, inr,
}
use nsq.Common.Map.{lookup, insert, lookup-insert}
use nsq.Nsqd.Client.{sending_message}
use nsq.Nsqd.InFlight.{Pqueue, ◌>>=◌, push}
use nsq.Nsqd.Channel.Deliver.{delivered}
use nsq.Nsqd.Channel.{
  Channel, Outcome, Failure, update, id_of, pri_of, start_in_flight_timeout, push_in_flight_message,
  add_to_in_flight_pq, unless_failed, id_already_in_flight,
}
use nsq.Nsqd.Commands.{Connection, with_client}
use nsq.Nsqd.Pump.{
  Pump, Delivery, Event, flush_tick, ready_state, sub_event, identify_event, heartbeat,
  backend_message, memory_message, exit, Next, blocked, goes, stops, is_paused, is_skipped,
  after_start, deliver, from_memory, from_backend,
}

abbrev pub first : List ℕ → Option ℕ
first [] = none
first (r ∷ rest) = some r

-- The message that an event has for the client, with the draw for it.
abbrev pub offered : {Q B : Type 0} → Channel Q B → Event → Option (ℕ × ℕ)
offered c (memory_message d) = first c.memory >>= λ r. some (r, d.draw)
offered c (backend_message decoded d) = decoded >>= λ r. some (r, d.draw)
offered c (flush_tick ok) = none
offered c ready_state = none
offered c sub_event = none
offered c (identify_event request) = none
offered c (heartbeat ok) = none
offered c exit = none

-- The client has subscribed, its channel is not paused, and fewer messages are in flight than it
-- asked for.
abbrev pub wants_messages : {Q B : Type 0} → Pump → Connection Q B → Bool
wants_messages p conn =
    p.subscribed
    && not (is_paused conn.channel)
    && ltb conn.client.in_flight_count conn.client.ready_count

-- The draw is in the sample, or there is no sampling.
abbrev pub is_sampled : ℕ → ℕ → Bool
is_sampled sample_rate draw = sample_rate == 0 || leb draw sample_rate

is_sampled-is_skipped : (rate draw : ℕ) → is_sampled rate draw ≡ not (is_skipped rate draw)
unfolding is_skipped
is_sampled-is_skipped rate draw = ground arith

abbrev pub chosen : Bool → ℕ → Option (ℕ × ℕ) → Option ℕ
chosen wants sample_rate none = none
chosen wants sample_rate (some (r, draw)) =
    if wants && is_sampled sample_rate draw then some r else none

module _ {Q B : Type 0} where
  -- The message that a round is to send.
  abbrev pub to_send : Bool → ℕ → Option (Channel Q B) → Event → Option ℕ
  to_send wants sample_rate none e = none
  to_send wants sample_rate (some c) e = chosen wants sample_rate (offered c e)

  abbrev pub in_flight : Option (Channel Q B) → List (List ℕ × ℕ)
  in_flight none = []
  in_flight (some c) = c.in_flight_messages

  -- A message of the channel `c` is sent: it is in flight, under its id, with all that were before,
  -- and is counted once.
  pub record Sends (r : ℕ) (conn : Connection Q B) (c : Channel Q B) (conn' : Connection Q B)
      : Type 0 where
    pub sent : (x : ℕ) × (lookup (id_of c r) (in_flight conn'.channel) ≡ some x)
    pub others :
        (id : List ℕ)
        → id_of c r ≢ id
        → lookup id (in_flight conn'.channel) ≡ lookup id c.in_flight_messages
    pub counts : conn'.client ≡ record conn.client {
      in_flight_count = (conn.client.in_flight_count + 1) % 2 ^ 64;
      message_count = (conn.client.message_count + 1) % 2 ^ 64;
    }

  -- What a round does that is to send a message, or none.
  abbrev pub IsRound : Option ℕ → Connection Q B → Connection Q B → Type 0
  IsRound none conn conn' =
      (conn'.client ≡ conn.client) × (in_flight conn'.channel ≡ in_flight conn.channel)
  IsRound (some r) conn conn' = (c : Channel Q B) × (conn.channel ≡ some c) × Sends r conn c conn'

  -- The end of a round, if there is one.
  abbrev pub EndsRound : Option ℕ → Connection Q B → Option (Next Q B) → Type 0
  EndsRound o conn none = Unit
  EndsRound o conn (some blocked) = Unit
  EndsRound o conn (some (goes p conn')) = IsRound o conn conn'
  EndsRound o conn (some (stops conn')) = IsRound o conn conn'

module _ {Q B : Type 0} (E : Type 0) where
  -- Whether StartInFlightTimeout succeeds or finds the id in flight, the id is in flight after it.
  pub record Started (c c' : Channel Q B) (r : ℕ) : Type 0 where
    pub here : (x : ℕ) × (lookup (id_of c r) c'.in_flight_messages ≡ some x)
    pub others :
        (id : List ℕ)
        → id_of c r ≢ id
        → lookup id c'.in_flight_messages ≡ lookup id c.in_flight_messages

  same_channel :
      (c c' : Channel Q B) (x y : Option (Failure E))
      → ◌≡◌ {A = Option (Outcome Q B E)} (some (c, x)) (some (c', y))
      → c ≡ c'
  same_channel c c' x y e = cc e

  -- Adding a message to the queue keeps the map.
  added-in_flight :
      (o : Option Pqueue) (d c' : Channel Q B) (err : Option (Failure E))
      → ◌>>=◌ {A = Pqueue} {B = Outcome Q B E} o (λ q. some (record d { in_flight_pq = q }, none))
        ≡ some (c', err)
      → d.in_flight_messages ≡ c'.in_flight_messages
  added-in_flight none d c' err run = absurd (cc run)
  added-in_flight (some q) d c' err run =
      ap (λ (x : Channel Q B). x.in_flight_messages)
        (same_channel (record d { in_flight_pq = q }) c' none err run)

  start_in_flight_timeout-Started :
      (c c' : Channel Q B) (r client_id now timeout : ℕ) (err : Option (Failure E))
      → start_in_flight_timeout {E = E} c r client_id now timeout ≡ some (c', err)
      → Started c c' r
  unfolding start_in_flight_timeout push_in_flight_message add_to_in_flight_pq
  start_in_flight_timeout-Started c c' r client_id now timeout err run =
      let entry = delivered (c.message r) client_id now timeout in
      let m : Channel Q B = record c { message = update c.message r entry } in
      let named : id_of m r ≡ id_of c r = ground arith in
      let after : (o : Outcome Q B E)
          → push_in_flight_message m r ≡ o
          → unless_failed o (λ d. add_to_in_flight_pq {E = E} d r) ≡ some (c', err) =
        λ o e.
          subst (λ x. unless_failed x (λ d. add_to_in_flight_pq {E = E} d r) ≡ some (c', err)) e
            run in
      elim (Option-cases (lookup (id_of c r) c.in_flight_messages)) [
        | inl missing ↦
            let d : Channel Q B = record m {
              in_flight_messages = insert (id_of m r) r c.in_flight_messages;
            } in
            let found : lookup (id_of m r) c.in_flight_messages ≡ none =
              ap (λ id. lookup id c.in_flight_messages) named ∙ missing in
            let same : insert (id_of c r) r c.in_flight_messages ≡ c'.in_flight_messages =
              ap (λ id. insert id r c.in_flight_messages) (sym named)
              ∙ added-in_flight (push (pri_of d) d.in_flight_pq r) d c' err
                  (after (d, none) (rw (found, push_in_flight_message) refl)) in
            let at_id : (id : List ℕ)
                → lookup id c'.in_flight_messages
                  ≡ (if id_of c r == id then some r else lookup id c.in_flight_messages) =
              λ id.
                ap (λ l. lookup id l) (sym same)
                ∙ lookup-insert (id_of c r) id r c.in_flight_messages in
            record {
              here = (r, ground (arith, at_id (id_of c r), bytes_beq_iff (id_of c r) (id_of c r)));
              others = λ id ne. ground (arith, at_id id, bytes_beq_iff (id_of c r) id);
            }
        | inr (x, there) ↦
            let found : lookup (id_of m r) c.in_flight_messages ≡ some x =
              ap (λ id. lookup id c.in_flight_messages) named ∙ there in
            let same : c.in_flight_messages ≡ c'.in_flight_messages =
              ap (λ (d : Channel Q B). d.in_flight_messages)
                (same_channel m c' (some id_already_in_flight) err (
                  after (m, some id_already_in_flight)
                    (rw (found, push_in_flight_message) refl))) in
            record {
              here = (x, ap (λ l. lookup (id_of c r) l) (sym same) ∙ there);
              others = λ id ne. ap (λ l. lookup id l) (sym same);
            }
      ]

  -- A round with a message that is sampled.
  after_start-EndsRound :
      (p : Pump) (conn : Connection Q B) (c counted : Channel Q B) (r : ℕ) (d : Delivery)
      (o : Option (Outcome Q B E))
      → conn.channel ≡ some c
      → id_of counted r ≡ id_of c r
      → counted.in_flight_messages ≡ c.in_flight_messages
      → ((c' : Channel Q B) (err : Option (Failure E)) → o ≡ some (c', err) → Started counted c' r)
      → EndsRound (some r) conn (after_start E p conn d o)
  unfolding sending_message
  after_start-EndsRound p conn c counted r d none here named same started = tt
  after_start-EndsRound p conn c counted r d (some (c', err)) here named same started =
      let s = started c' err refl in
      let ends : Sends r conn c (with_client conn c' (sending_message conn.client)) = record {
        sent = (s.here.0, ap (λ id. lookup id c'.in_flight_messages) (sym named) ∙ s.here.1);
        others = λ id ne. s.others id (λ e. ne (sym named ∙ e)) ∙ ap (λ l. lookup id l) same;
        counts = refl;
      } in
      elim (Bool-cases d.is_sent) [
        | inl sent ↦ rw sent (c, here, ends)
        | inr lost ↦ rw lost (c, here, ends)
      ]

  -- The message is of `left`, which is the channel but for what waits in memory.
  deliver-EndsRound :
      (p : Pump) (conn : Connection Q B) (c left : Channel Q B) (r : ℕ) (d : Delivery)
      → conn.channel ≡ some c
      → left.message ≡ c.message
      → left.in_flight_messages ≡ c.in_flight_messages
      → EndsRound (some r) conn (deliver E p conn left r d)
  unfolding deliver
  deliver-EndsRound p conn c left r d here messages same =
      let entry = left.message r in
      let message = record (entry.message) { attempts = (entry.message.attempts + 1) % 2 ^ 16 } in
      let counted : Channel Q B = record left {
        message = update left.message r (record entry { message = message });
      } in
      let named : id_of counted r ≡ id_of left r = ground arith in
      after_start-EndsRound p conn c counted r d _ here
        (named ∙ ap (λ h. (h r).message.id) messages) same
        (λ c' err run.
          start_in_flight_timeout-Started counted c' r conn.client_id d.now p.msg_timeout err run)

  pub from_memory-EndsRound :
      (p : Pump) (conn : Connection Q B) (c : Channel Q B) (d : Delivery) (l : List ℕ)
      → conn.channel ≡ some c
      → EndsRound
          (chosen true p.sample_rate (first l >>= λ r. some (r, d.draw)))
          conn
          (from_memory E p conn c d l)
  from_memory-EndsRound p conn c d [] here = tt
  from_memory-EndsRound p conn c d (r ∷ rest) here =
      elim (Bool-cases (is_skipped p.sample_rate d.draw)) [
        | inl skipped ↦ rw (is_sampled-is_skipped p.sample_rate d.draw, skipped, here) (refl, refl)
        | inr taken ↦
            rw (is_sampled-is_skipped p.sample_rate d.draw, taken)
              (deliver-EndsRound p conn c (record c { memory = rest }) r d here refl refl)
      ]

  pub from_backend-EndsRound :
      (p : Pump) (conn : Connection Q B) (c : Channel Q B) (d : Delivery) (decoded : Option ℕ)
      → conn.channel ≡ some c
      → EndsRound
          (chosen true p.sample_rate (decoded >>= λ r. some (r, d.draw)))
          conn
          (from_backend E p conn c d decoded)
  from_backend-EndsRound p conn c d none here = (refl, refl)
  from_backend-EndsRound p conn c d (some r) here =
      elim (Bool-cases (is_skipped p.sample_rate d.draw)) [
        | inl skipped ↦ rw (is_sampled-is_skipped p.sample_rate d.draw, skipped) (refl, refl)
        | inr taken ↦
            rw (is_sampled-is_skipped p.sample_rate d.draw, taken)
              (deliver-EndsRound p conn c c r d here refl refl)
      ]
