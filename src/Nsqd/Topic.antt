-- ===== src/Nsqd/Topic.antt =====
-- nsqd/topic.go: the channels of a topic, and how messagePump hands a message to each of them. A
-- channel has its own part of the heap of messages, in which `next_message` is not in use: no two
-- channels get the same pointer. Logging and the notification of nsqlookupd are left out.
pub mod Received
pub mod FanOut
use nsq.Common.{
  ℕ, zero, suc, ◌+◌, ◌<◌, Bool, true, false, not, ◌&&◌, List, [], ◌∷◌, Option, none, some, ltb,
  if◌then◌else◌, ◌==◌, nat_eq, bytes_eq, length,
}
use nsq.Common.Map.{lookup, insert, delete}
use nsq.Nsqd.Message.{Message, new_message}
use nsq.Nsqd.InFlight.{◌>>=◌}
use nsq.Nsqd.Channel.{Channel, Entry, DeferredQueue, BackendQueue, update}
use nsq.Nsqd.Channel.Scan.{put_message, put_message_deferred}
use nsq.Nsqd.Channel.Scan

pub record Feed (Q B : Type 0) : Type 0 where
  pub channel : Channel Q B
  pub next_message : ℕ

abbrev pub entry_of : Message → Entry
entry_of m = record { message = m; client_id = 0; delivery_ts = 0; pri = 0 }

-- The copy of a message: NewMessage, which sets the time, and the two fields that follow it.
unfoldable pub copy_message : Message → Message
unfolding new_message
copy_message m = record (new_message m.id m.body 0) {
  timestamp = m.timestamp;
  deferred = m.deferred;
}

module _ {Q B E : Type 0} (deferred_queue : DeferredQueue Q)
    (backend_queue : BackendQueue B E) where
  -- One round of the loop over the channels; an error is only logged.
  unfoldable pub hand_over : Message → ℕ → Feed Q B → Option (Feed Q B)
  hand_over m now f =
      let r = f.next_message in
      let c = record f.channel { message = update f.channel.message r (entry_of m) } in
      let at_once : Option (Channel Q B) = some (put_message deferred_queue backend_queue c r).0 in
      let deferring =
        put_message_deferred {E = E} deferred_queue backend_queue c r now m.deferred in
      (if m.deferred == 0 then at_once else deferring) >>= λ c'.
      some (record { channel = c'; next_message = r + 1 })

  -- The loop; the first channel gets the message itself.
  unfoldable pub fan_out_loop : ℕ → Message → ℕ → List (Feed Q B) → Option (List (Feed Q B))
  fan_out_loop i m now [] = some []
  fan_out_loop i m now (f ∷ fs) = hand_over (if ltb 0 i then copy_message m else m) now f >>= λ f'.
      fan_out_loop (i + 1) m now fs >>= λ fs'. some (f' ∷ fs')

  unfoldable pub fan_out : Message → ℕ → List (Feed Q B) → Option (List (Feed Q B))
  fan_out m now fs = fan_out_loop 0 m now fs
