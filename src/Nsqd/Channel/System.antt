-- ===== src/Nsqd/Channel/System.antt =====
-- The life of a channel: what it holds, when it is sound, and what an operation that keeps it so does
-- to what it holds. The operations as steps are in System/Steps.
pub mod Moves
pub mod Returns
pub mod Defers
pub mod Steps
pub mod Reach
pub mod Promise
use nsq.Common.{
  ℕ, ◌+◌, ◌≤◌, ◌<◌, ◌≡◌, ◌≢◌, ◌⊎◌, sym, ap, List, [], ◌∷◌, Option, none, some, count, nat_eq,
  bytes_eq, Bool, false, arith, ◌∙◌, nat_beq, if◌then◌else◌, Option-cases, inl, inr, refl,
}
use nsq.Common.Map.{HasDistinctKeys, total, lookup, weight-le-total}
use nsq.Common.Sums.{sum_by}
use nsq.Nsqd.Channel.{Channel, Item, id_of}
use nsq.Nsqd.Channel.InFlight.{IsConsistent}
use nsq.Nsqd.Channel.Deferred.{IsDeferring}

-- The weight of all messages that the channel holds: in memory, in flight or deferred.
abbrev pub sums : {Q B : Type 0} → (ℕ → ℕ) → Channel Q B → ℕ
sums w c =
    sum_by w c.memory
    + sum_by w c.in_flight_pq.items
    + total (λ (i : Item). w i.0) c.deferred_messages

-- The weight that counts a message, and the one that counts them all.
abbrev pub only : ℕ → ℕ → ℕ
only r x = count r (x ∷ [])

abbrev pub each : ℕ → ℕ
each x = 1

pub count-sum_by : (r : ℕ) (a : List ℕ) → sum_by (only r) a ≡ count r a
count-sum_by r [] = refl
count-sum_by r (x ∷ a) = omega (arith, count-sum_by r a)

only_self : (r : ℕ) → only r r ≡ 1
only_self r = ground arith

only_eq : (r x : ℕ) → 0 < only r x → x ≡ r
only_eq r x h = ground arith

module _ {Q B : Type 0} (holds : Q → Item → ℕ) (IsGood : Q → Type 0) where
  -- A running channel that is consistent, holds each message once and each id for one message, and
  -- has room in memory for all messages that it holds.
  pub record IsSound (c : Channel Q B) : Type 0 where
    pub consistent : IsConsistent c
    pub deferring : IsDeferring holds IsGood c
    pub distinct : HasDistinctKeys c.deferred_messages
    pub single : (r : ℕ) → sums (only r) c ≤ 1
    pub unique :
        (x y : ℕ) → 0 < sums (only x) c → 0 < sums (only y) c → id_of c x ≡ id_of c y → x ≡ y
    pub room : sums each c ≤ c.memory_size
    pub running : c.is_exiting ≡ false

  -- `c'` is `c` with the messages `came` and without the messages `gone`.
  pub record Keeps (c : Channel Q B) (came gone : List ℕ) (c' : Channel Q B) : Type 0 where
    pub consistent : IsConsistent c'
    pub deferring : IsDeferring holds IsGood c'
    pub distinct : HasDistinctKeys c'.deferred_messages
    pub same_sums : (w : ℕ → ℕ) → sums w c + sum_by w came ≡ sums w c' + sum_by w gone
    pub same_ids : (r : ℕ) → id_of c' r ≡ id_of c r
    pub same_size : c'.memory_size ≡ c.memory_size
    pub same_exiting : c'.is_exiting ≡ c.is_exiting

  pub Keeps-IsSound :
      (c : Channel Q B) (gone : List ℕ) (c' : Channel Q B)
      → IsSound c
      → Keeps c [] gone c'
      → IsSound c'
  Keeps-IsSound c gone c' v k = record {
    consistent = k.consistent;
    deferring = k.deferring;
    distinct = k.distinct;
    single = λ r. omega (arith, v.single r, k.same_sums (only r));
    unique = λ x y p q e.
        v.unique x y (omega (arith, k.same_sums (only x))) (omega (arith, k.same_sums (only y)))
          (cc (k.same_ids x, k.same_ids y, e));
    room = omega (arith, v.room, k.same_sums each, k.same_size);
    running = k.same_exiting ∙ v.running;
  }

  -- A message that the channel does not hold, under an id that it does not hold, may come.
  pub Keeps-IsSound_new :
      (c : Channel Q B) (r : ℕ) (c' : Channel Q B)
      → IsSound c
      → Keeps c (r ∷ []) [] c'
      → sums (only r) c ≡ 0
      → ((x : ℕ) → 0 < sums (only x) c → id_of c x ≢ id_of c r)
      → sums each c < c.memory_size
      → IsSound c'
  Keeps-IsSound_new c r c' v k new id_new room =
      let held : (x : ℕ) → 0 < sums (only x) c' → (x ≡ r) ⊎ (0 < sums (only x) c) =
        λ x h. ground (arith, k.same_sums (only x)) in
      record {
        consistent = k.consistent;
        deferring = k.deferring;
        distinct = k.distinct;
        single = λ x. ground (arith, v.single x, k.same_sums (only x), new);
        unique = λ x y p q e'.
            let e : id_of c x ≡ id_of c y = cc (k.same_ids x, k.same_ids y, e') in
            elim (held x p) [
              | inl here ↦ elim (held y q) [
                | inl there ↦ here ∙ sym there
                | inr old ↦ absurd (id_new y old (sym e ∙ ap (id_of c) here))
              ]
              | inr old ↦ elim (held y q) [
                | inl there ↦ absurd (id_new x old (e ∙ ap (id_of c) there))
                | inr older ↦ v.unique x y old older e
              ]
            ];
        room = omega (arith, room, k.same_sums each, k.same_size);
        running = k.same_exiting ∙ v.running;
      }

  in_flight-held :
      (c : Channel Q B) (id : List ℕ) (x : ℕ)
      → IsSound c
      → lookup id c.in_flight_messages ≡ some x
      → (id_of c x ≡ id) × (0 < count x c.in_flight_pq.items) × (0 < sums (only x) c)
  in_flight-held c id x v found =
      let (named, inside) = v.consistent.queued id x found in
      (named, inside, omega (arith, count-sum_by x c.in_flight_pq.items))

  pub deferred-held :
      (c : Channel Q B) (id : List ℕ) (i : Item)
      → IsSound c
      → lookup id c.deferred_messages ≡ some i
      → (id_of c i.0 ≡ id)
        × (0 < total (λ (j : Item). only i.0 j.0) c.deferred_messages)
        × (0 < sums (only i.0) c)
  deferred-held c id i v found =
      let (named, inside) = v.deferring.queued id i found in
      let weighs : only i.0 i.0 ≤ total (λ (j : Item). only i.0 j.0) c.deferred_messages =
        weight-le-total (λ j. only i.0 j.0) id i c.deferred_messages found in
      let held : 0 < total (λ (j : Item). only i.0 j.0) c.deferred_messages =
        omega (arith, weighs, only_self i.0) in
      (named, held, omega (arith, held))

  -- A message that the channel holds, but not in flight, has its id not in flight.
  pub free_of_flight :
      (c : Channel Q B) (r : ℕ)
      → IsSound c
      → 0 < sums (only r) c
      → count r c.in_flight_pq.items ≡ 0
      → lookup (id_of c r) c.in_flight_messages ≡ none
  free_of_flight c r v held out = elim (Option-cases (lookup (id_of c r) c.in_flight_messages)) [
    | inl free ↦ free
    | inr (x, found) ↦
        let (named, inside, h) = in_flight-held c (id_of c r) x v found in
        let same = v.unique x r h held named in absurd (omega (arith, out, rw same at inside))
  ]

  -- A message that the channel holds, but not deferred, has its id not deferred.
  pub free_of_deferred :
      (c : Channel Q B) (r : ℕ)
      → IsSound c
      → 0 < sums (only r) c
      → total (λ (j : Item). only r j.0) c.deferred_messages ≡ 0
      → lookup (id_of c r) c.deferred_messages ≡ none
  free_of_deferred c r v held out = elim (Option-cases (lookup (id_of c r) c.deferred_messages)) [
    | inl free ↦ free
    | inr (i, found) ↦
        let (named, inside, h) = deferred-held c (id_of c r) i v found in
        let same = v.unique i.0 r h held named in absurd (omega (arith, out, rw same at inside))
  ]

  -- An id that no message has that the channel holds is not deferred.
  pub id_free :
      (c : Channel Q B) (id : List ℕ)
      → IsSound c
      → ((x : ℕ) → 0 < sums (only x) c → id_of c x ≢ id)
      → lookup id c.deferred_messages ≡ none
  id_free c id v new = elim (Option-cases (lookup id c.deferred_messages)) [
    | inl free ↦ free
    | inr (i, found) ↦
        let (named, inside, held) = deferred-held c id i v found in absurd (new i.0 held named)
  ]
