-- ===== src/Nsqd/Topic/FanOut.antt =====
-- A message of a topic reaches every channel of the topic, once.
use nsq.Common.{
  ℕ, ◌+◌, ◌<◌, ◌≡◌, ◌≢◌, List, [], ◌∷◌, some, arith, refl, sym, ap, subst, ◌∙◌, ltb, nat_eq,
  nat_beq, bytes_eq, Bool-cases, inl, inr,
}
use nsq.Common.Map.{insert}
use nsq.Nsqd.Message.{new_message}
use nsq.Nsqd.Channel.{Channel, Item, DeferredQueue, BackendQueue, update, id_of}
use nsq.Nsqd.Channel.Contract.{IsPriorityQueue}
use nsq.Nsqd.Channel.System.{sums, only, Keeps, Keeps-IsSound_new}
use nsq.Nsqd.Channel.System.Defers.{put_message-Keeps, put_message_deferred-Keeps}
use nsq.Nsqd.Message.{Message}
use nsq.Nsqd.Topic.{Feed, entry_of, copy_message, hand_over, fan_out_loop, fan_out}
use nsq.Nsqd.Topic.Received.{Placed, IsReady, Received, AllReady, AllReceived, fresh_entry-IsSound}

module _ {Q B E : Type 0} (deferred_queue : DeferredQueue Q) (backend_queue : BackendQueue B E)
    (holds : Q → Item → ℕ) (IsGood : Q → Type 0)
    (queue_lem : IsPriorityQueue holds deferred_queue IsGood) where
  abbrev marked : Message → Feed Q B → Channel Q B
  marked m f = record f.channel { message = update f.channel.message f.next_message (entry_of m) }

  other_id :
      (m : Message) (f : Feed Q B) (x : ℕ)
      → x ≢ f.next_message
      → id_of (marked m f) x ≡ id_of f.channel x
  other_id m f x ne = ground (arith, ne)

  other_message :
      (m : Message) (f : Feed Q B) (x : ℕ)
      → x ≢ f.next_message
      → (marked m f).message x ≡ f.channel.message x
  other_message m f x ne = ground (arith, ne)

  id_absent :
      (m : Message) (f : Feed Q B)
      → IsReady holds IsGood m f
      → (x : ℕ) → 0 < sums (only x) (marked m f)
      → id_of (marked m f) x ≢ id_of (marked m f) f.next_message
  id_absent m f v x h e =
      let r = f.next_message in
      let ne : x ≢ r =
        λ same. omega (arith, v.absent, subst (λ y. 0 < sums (only y) f.channel) same h) in
      let named : id_of (marked m f) r ≡ m.id = ground arith in
      v.id_absent x h (sym (other_id m f x ne) ∙ e ∙ named)

  Received-Keeps :
      (m : Message) (now : ℕ) (f : Feed Q B) (c' : Channel Q B)
      → IsReady holds IsGood m f
      → Keeps holds IsGood (marked m f) (f.next_message ∷ []) [] c'
      → c'.message ≡ (marked m f).message
      → Placed m f.next_message now f.channel c'
      → Received holds IsGood m now f (record { channel = c'; next_message = f.next_message + 1 })
  Received-Keeps m now f c' v k same placed =
      let r = f.next_message in
      let c = marked m f in
      let here : (marked m f).message r ≡ entry_of m = ground arith in
      let named : id_of c r ≡ m.id = ap (λ e. e.message.id) here in
      record {
        sound =
            Keeps-IsSound_new holds IsGood c r c'
              (fresh_entry-IsSound holds IsGood f.channel r (entry_of m) v.sound v.absent) k
              v.absent (id_absent m f v) v.room;
        gains = λ w. omega (arith, k.same_sums w);
        placed = placed;
        same_id = k.same_ids r ∙ named;
        same_body = ap (λ h. (h r).message.body) same ∙ ap (λ e. e.message.body) here;
        same_timestamp =
            ap (λ h. (h r).message.timestamp) same ∙ ap (λ e. e.message.timestamp) here;
        same_delay = ap (λ h. (h r).message.deferred) same ∙ ap (λ e. e.message.deferred) here;
        others = λ x ne. ap (λ h. h x) same ∙ other_message m f x ne;
      }

  hand_over-Received :
      (m : Message) (now : ℕ) (f : Feed Q B)
      → IsReady holds IsGood m f
      → (f' : Feed Q B) × (hand_over deferred_queue backend_queue m now f ≡ some f')
        × Received holds IsGood m now f f'
  unfolding hand_over
  hand_over-Received m now f v =
      let r = f.next_message in
      let named : id_of (marked m f) r ≡ m.id = ground arith in
      let sound = fresh_entry-IsSound holds IsGood f.channel r (entry_of m) v.sound v.absent in
      elim (Bool-cases (nat_beq m.deferred 0)) [
        | inl at_once ↦
            let (c', run, k, shape) =
              put_message-Keeps deferred_queue backend_queue holds IsGood queue_lem (marked m f) r
                sound v.room in
            (
              record { channel = c'; next_message = r + 1 },
              rw (at_once, run) refl,
              Received-Keeps m now f c' v k (ap (λ d. d.message) shape) (record {
                memory = ap (λ d. d.memory) shape ∙ rw at_once refl;
                deferred = ap (λ d. d.deferred_messages) shape ∙ rw at_once refl;
                in_flight = ap (λ d. d.in_flight_messages) shape;
                backend = ap (λ d. d.backend) shape;
              }),
            )
        | inr later ↦
            let (c', run, k, shape) =
              put_message_deferred-Keeps deferred_queue backend_queue holds IsGood queue_lem
                (marked m f) r now m.deferred sound (id_absent m f v) in
            (
              record { channel = c'; next_message = r + 1 },
              rw (later, run) refl,
              Received-Keeps m now f c' v k (ap (λ d. d.message) shape) (record {
                memory = ap (λ d. d.memory) shape ∙ rw later refl;
                deferred =
                    ap (λ d. d.deferred_messages) shape
                    ∙ ap (λ x. insert x (r, now + m.deferred) f.channel.deferred_messages) named
                    ∙ rw later refl;
                in_flight = ap (λ d. d.in_flight_messages) shape;
                backend = ap (λ d. d.backend) shape;
              }),
            )
      ]

  copied-Received :
      (m : Message) (now : ℕ) (f : Feed Q B)
      → IsReady holds IsGood m f
      → (f' : Feed Q B) × (hand_over deferred_queue backend_queue (copy_message m) now f ≡ some f')
        × Received holds IsGood m now f f'
  unfolding copy_message new_message
  copied-Received m now f v =
      let (f', run, got) =
        hand_over-Received (copy_message m) now f
          (record { sound = v.sound; absent = v.absent; id_absent = v.id_absent; room = v.room }) in
      (
        f',
        run,
        record {
          sound = got.sound;
          gains = got.gains;
          placed = record {
            memory = got.placed.memory;
            deferred = got.placed.deferred;
            in_flight = got.placed.in_flight;
            backend = got.placed.backend;
          };
          same_id = got.same_id;
          same_body = got.same_body;
          same_timestamp = got.same_timestamp;
          same_delay = got.same_delay;
          others = got.others;
        },
      )

  fan_out_loop-Received :
      (i : ℕ) (m : Message) (now : ℕ) (fs : List (Feed Q B))
      → AllReady holds IsGood m fs
      → (fs' : List (Feed Q B)) × (fan_out_loop deferred_queue backend_queue i m now fs ≡ some fs')
        × AllReceived holds IsGood m now fs fs'
  unfolding fan_out_loop
  fan_out_loop-Received i m now [] v = ([], refl, tt)
  fan_out_loop-Received i m now (f ∷ fs) v =
      let (fs', run', all) = fan_out_loop-Received (i + 1) m now fs v.1 in
      elim (Bool-cases (ltb 0 i)) [
        | inl later ↦
            let (f', run, got) = copied-Received m now f v.0 in
            (f' ∷ fs', rw (later, run, run') refl, (got, all))
        | inr first ↦
            let (f', run, got) = hand_over-Received m now f v.0 in
            (f' ∷ fs', rw (first, run, run') refl, (got, all))
      ]

  -- messagePump hands a message to every channel of the topic. Where each channel is sound, has room
  -- and holds no message with its id, this returns. Each channel then holds one message more, with
  -- the id, body, timestamp and delay of the message: without a delay it is the last in memory, and
  -- otherwise it is deferred by the delay. All other messages are as before, and the channel stays
  -- sound.
  pub fan_out-Received :
      (m : Message) (now : ℕ) (fs : List (Feed Q B))
      → AllReady holds IsGood m fs
      → (fs' : List (Feed Q B)) × (fan_out deferred_queue backend_queue m now fs ≡ some fs')
        × AllReceived holds IsGood m now fs fs'
  unfolding fan_out
  fan_out-Received m now fs v = fan_out_loop-Received 0 m now fs v
