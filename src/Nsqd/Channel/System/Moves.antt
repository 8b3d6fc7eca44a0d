-- ===== src/Nsqd/Channel/System/Moves.antt =====
-- What each operation on a sound channel keeps: delivering, finishing and touching a message.
use nsq.Common.{
  ℕ, ◌+◌, ◌≡◌, List, [], ◌∷◌, none, some, count, nat_eq, bytes_eq, bytes_beq_iff, arith, refl, ◌∙◌,
  ap,
}
use nsq.Common.Map.{lookup, insert, delete, lookup-delete}
use nsq.Common.Sums.{sum_by, sum_by-counts}
use nsq.Nsqd.InFlight.{Pqueue}
use nsq.Nsqd.InFlight.Queue.{Added, Removed}
use nsq.Nsqd.Channel.{
  Channel, Item, id_of, pri_of, update, start_in_flight_timeout, finish_message, touch_message,
  touched_pri,
}
use nsq.Nsqd.Channel.InFlight.{count-le_one, IsConsistent, take_out, put_in, update-IsConsistent}
use nsq.Nsqd.Channel.Deliver.{Owns, pop-Owns, delivered}
use nsq.Nsqd.Channel.Deferred.{IsDeferring}
use nsq.Nsqd.Channel.System.{only, IsSound, Keeps, count-sum_by, free_of_flight}

Added-sum_by :
    (pri : ℕ → ℕ) (w : ℕ → ℕ) (q : Pqueue) (r : ℕ) (q' : Pqueue)
    → Added pri q r q'
    → sum_by w q'.items ≡ sum_by w q.items + w r
Added-sum_by pri w q r q' added =
    omega (arith, sum_by-counts w q'.items (r ∷ q.items) (λ x. omega (arith, added.counts x)))

pub Removed-sum_by :
    (pri : ℕ → ℕ) (w : ℕ → ℕ) (q : Pqueue) (r : ℕ) (q' : Pqueue)
    → Removed pri q r q'
    → sum_by w q.items ≡ sum_by w q'.items + w r
Removed-sum_by pri w q r q' gone =
    omega (arith, sum_by-counts w q.items (r ∷ q'.items) (λ x. omega (arith, gone.counts x)))

module _ {Q B : Type 0} (holds : Q → Item → ℕ) (IsGood : Q → Type 0) where
  -- Consistency of the deferred messages depends on them and on the ids alone.
  pub IsDeferring-ids :
      (c d : Channel Q B)
      → IsDeferring holds IsGood c
      → d.deferred_pq ≡ c.deferred_pq
      → d.deferred_messages ≡ c.deferred_messages
      → ((r : ℕ) → id_of d r ≡ id_of c r)
      → IsDeferring holds IsGood d
  IsDeferring-ids c d v pq map ids = record {
    good = rw pq v.good;
    mapped = λ i h. rw (ids i.0, map) (v.mapped i (rw pq at h));
    single = λ i. rw pq (v.single i);
    queued = λ id i h.
        let (named, inside) = v.queued id i (rw map at h) in (ids i.0 ∙ named, rw pq inside);
  }

module _ {Q B E : Type 0} (holds : Q → Item → ℕ) (IsGood : Q → Type 0) where
  -- The first message in memory is delivered to a client: it is then in flight.
  pub start_in_flight_timeout-Keeps :
      (c : Channel Q B) (r : ℕ) (rest : List ℕ) (client_id now timeout : ℕ)
      → IsSound holds IsGood c
      → c.memory ≡ r ∷ rest
      → (c' : Channel Q B) × (start_in_flight_timeout {E = E}
            (record c { memory = rest })
            r
            client_id
            now
            timeout
          ≡ some (c', none))
        × Keeps holds IsGood c [] [] c'
  unfolding start_in_flight_timeout
  start_in_flight_timeout-Keeps c r rest client_id now timeout v first =
      let taken : Channel Q B = record c { memory = rest } in
      let entry = delivered (c.message r) client_id now timeout in
      let marked : Channel Q B = record taken { message = update c.message r entry } in
      let weight : (w : ℕ → ℕ) → sum_by w c.memory ≡ w r + sum_by w rest =
        λ w. ap (sum_by w) first in
      let out : count r c.in_flight_pq.items ≡ 0 =
        ground (arith, weight (only r), v.single r, count-sum_by r c.in_flight_pq.items) in
      let free = free_of_flight holds IsGood c r v (ground (arith, weight (only r))) out in
      let ids : (x : ℕ) → id_of marked x ≡ id_of c x = λ x. ground arith in
      let was : IsConsistent taken = record {
        queue = v.consistent.queue;
        mapped = v.consistent.mapped;
        queued = v.consistent.queued;
      } in
      let (q, run, added, result) =
        put_in {E = E} marked r (update-IsConsistent taken r entry was out) out (rw (ids r) free) in
      (
        record marked {
          in_flight_messages = insert (id_of marked r) r c.in_flight_messages;
          in_flight_pq = q;
        },
        run,
        record {
          consistent = result;
          deferring = IsDeferring-ids holds IsGood c _ v.deferring refl refl ids;
          distinct = v.distinct;
          same_sums =
              λ w. omega (arith, weight w, Added-sum_by (pri_of marked) w c.in_flight_pq r q added);
          same_ids = ids;
          same_size = refl;
          same_exiting = refl;
        },
      )

  pub finish_message-Keeps :
      (c : Channel Q B) (client_id : ℕ) (id : List ℕ) (r : ℕ)
      → IsSound holds IsGood c
      → Owns c client_id id r
      → (c' : Channel Q B) × (finish_message {E = E} c client_id id ≡ some (c', none))
        × Keeps holds IsGood c [] (r ∷ []) c'
  unfolding finish_message
  finish_message-Keeps c client_id id r v o =
      let (q, run, gone, consistent) = take_out c id r v.consistent o.found in
      (
        record c { in_flight_messages = delete id c.in_flight_messages; in_flight_pq = q },
        rw (pop-Owns c client_id id r o, run) refl,
        record {
          consistent = consistent;
          deferring = IsDeferring-ids holds IsGood c _ v.deferring refl refl (λ x. refl);
          distinct = v.distinct;
          same_sums = λ w. omega (arith, Removed-sum_by (pri_of c) w c.in_flight_pq r q gone);
          same_ids = λ x. refl;
          same_size = refl;
          same_exiting = refl;
        },
      )

  pub touch_message-Keeps :
      (c : Channel Q B) (client_id : ℕ) (id : List ℕ) (r now timeout max_msg_timeout : ℕ)
      → IsSound holds IsGood c
      → Owns c client_id id r
      → (c' : Channel Q B) × (touch_message {E = E} c client_id id now timeout max_msg_timeout
          ≡ some (c', none))
        × Keeps holds IsGood c [] [] c'
  unfolding touch_message
  touch_message-Keeps c client_id id r now timeout max_msg_timeout v o =
      let (q, run, gone, consistent) = take_out c id r v.consistent o.found in
      let named = (v.consistent.queued id r o.found).0 in
      let left = delete id c.in_flight_messages in
      let taken : Channel Q B = record c { in_flight_messages = left; in_flight_pq = q } in
      let out : count r q.items ≡ 0 =
        ground
          (arith, gone.counts r, count-le_one (pri_of c) c.in_flight_pq r v.consistent.queue) in
      let later = record (c.message r) {
        pri = touched_pri now timeout (c.message r).delivery_ts max_msg_timeout;
      } in
      let marked : Channel Q B = record taken { message = update c.message r later } in
      let ids : (x : ℕ) → id_of marked x ≡ id_of c x = λ x. ground arith in
      let free : lookup (id_of marked r) left ≡ none =
        rw (ids r, named)
          (ground (arith, lookup-delete id id c.in_flight_messages, bytes_beq_iff id id)) in
      let (p, run', added, result) =
        put_in {E = E} marked r (update-IsConsistent taken r later consistent out) out free in
      (
        record marked { in_flight_messages = insert (id_of marked r) r left; in_flight_pq = p },
        rw (pop-Owns c client_id id r o, run) run',
        record {
          consistent = result;
          deferring = IsDeferring-ids holds IsGood c _ v.deferring refl refl ids;
          distinct = v.distinct;
          same_sums = λ w. omega (
            arith,
            Removed-sum_by (pri_of c) w c.in_flight_pq r q gone,
            Added-sum_by (pri_of marked) w q r p added,
          );
          same_ids = ids;
          same_size = refl;
          same_exiting = refl;
        },
      )
