-- ===== src/Nsqd/Topic/Received.antt =====
-- What a channel of a topic needs in order to receive a message, and what it receives.
use nsq.Common.{
  ℕ, ◌+◌, ◌<◌, ◌≡◌, ◌≢◌, List, [], ◌∷◌, some, arith, sym, subst, ◌∙◌, ◌++◌, if◌then◌else◌, ◌==◌,
  nat_eq, nat_beq, bytes_eq, Bool-cases, inl, inr,
}
use nsq.Common.Map.{lookup, insert}
use nsq.Nsqd.Channel.{Channel, Entry, Item, update, id_of}
use nsq.Nsqd.Channel.InFlight.{update-IsConsistent}
use nsq.Nsqd.Channel.System.{sums, only, each, IsSound, count-sum_by, deferred-held}
use nsq.Nsqd.Message.{Message}
use nsq.Nsqd.Topic.{Feed}

-- Where a channel puts the pointer `r`: at the end of its memory, or, with a delay, among the
-- deferred messages, due when the delay has passed.
pub record Placed {Q B : Type 0} (m : Message) (r now : ℕ) (c c' : Channel Q B) : Type 0 where
  pub memory : c'.memory ≡ (if m.deferred == 0 then c.memory ++ r ∷ [] else c.memory)
  pub deferred : c'.deferred_messages ≡ (
      if m.deferred == 0
      then c.deferred_messages
      else insert m.id (r, now + m.deferred) c.deferred_messages)
  pub in_flight : c'.in_flight_messages ≡ c.in_flight_messages
  pub backend : c'.backend ≡ c.backend

module _ {Q B : Type 0} (holds : Q → Item → ℕ) (IsGood : Q → Type 0) where
  -- A message that the channel does not hold may change.
  pub fresh_entry-IsSound :
      (c : Channel Q B) (r : ℕ) (entry : Entry)
      → IsSound holds IsGood c
      → sums (only r) c ≡ 0
      → IsSound holds IsGood (record c { message = update c.message r entry })
  fresh_entry-IsSound c r entry v absent =
      let marked : Channel Q B = record c { message = update c.message r entry } in
      let other : (x : ℕ) → 0 < sums (only x) c → id_of marked x ≡ id_of c x = λ x h.
        elim (Bool-cases (nat_beq r x)) [
          | inl here ↦
              let e : r ≡ x = ground arith in
              absurd (omega (arith, absent, subst (λ y. 0 < sums (only y) c) (sym e) h))
          | inr there ↦ ground (arith, there)
        ] in
      record {
        consistent =
            update-IsConsistent c r entry v.consistent
              (omega (arith, absent, count-sum_by r c.in_flight_pq.items));
        deferring = record {
          good = v.deferring.good;
          mapped = λ i h.
              let found = v.deferring.mapped i h in
              let held = (deferred-held holds IsGood c (id_of c i.0) i v found).2 in
              subst (λ x. lookup x c.deferred_messages ≡ some i) (sym (other i.0 held)) found;
          single = v.deferring.single;
          queued = λ id i found.
              let (named, inside, held) = deferred-held holds IsGood c id i v found in
              (other i.0 held ∙ named, (v.deferring.queued id i found).1);
        };
        distinct = v.distinct;
        single = v.single;
        unique = λ x y p q e. v.unique x y p q (sym (other x p) ∙ e ∙ other y q);
        room = v.room;
        running = v.running;
      }

  -- A sound channel that holds no message with the id of `m`, has a pointer that is not in use, and
  -- room for a message.
  pub record IsReady (m : Message) (f : Feed Q B) : Type 0 where
    pub sound : IsSound holds IsGood f.channel
    pub absent : sums (only f.next_message) f.channel ≡ 0
    pub id_absent : (x : ℕ) → 0 < sums (only x) f.channel → id_of f.channel x ≢ m.id
    pub room : sums each f.channel < f.channel.memory_size

  -- The channel holds one message more, at a new pointer, in memory or deferred, with what `m` holds
  -- but for its attempts; all other messages are as before.
  pub record Received (m : Message) (now : ℕ) (f f' : Feed Q B) : Type 0 where
    pub sound : IsSound holds IsGood f'.channel
    pub gains : (w : ℕ → ℕ) → sums w f'.channel ≡ sums w f.channel + w f.next_message
    pub placed : Placed m f.next_message now f.channel f'.channel
    pub same_id : id_of f'.channel f.next_message ≡ m.id
    pub same_body : (f'.channel.message f.next_message).message.body ≡ m.body
    pub same_timestamp : (f'.channel.message f.next_message).message.timestamp ≡ m.timestamp
    pub same_delay : (f'.channel.message f.next_message).message.deferred ≡ m.deferred
    pub others : (x : ℕ) → x ≢ f.next_message → f'.channel.message x ≡ f.channel.message x

  abbrev pub AllReady : Message → List (Feed Q B) → Type 0
  AllReady m [] = Unit
  AllReady m (f ∷ fs) = IsReady m f × AllReady m fs

  abbrev pub AllReceived : Message → ℕ → List (Feed Q B) → List (Feed Q B) → Type 0
  AllReceived m now [] [] = Unit
  AllReceived m now [] (f' ∷ fs') = ⊥
  AllReceived m now (f ∷ fs) [] = ⊥
  AllReceived m now (f ∷ fs) (f' ∷ fs') = Received m now f f' × AllReceived m now fs fs'
