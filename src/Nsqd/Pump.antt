-- ===== src/Nsqd/Pump.antt =====
-- nsqd/protocol_v2.go: messagePump, which sends the messages of a channel to one client. A round of
-- its loop prepares the channels of Go that it selects on, and then handles one event. What a case of
-- the select receives, the draw of rand, the time and whether writes succeed are part of the event.
pub mod Sending
pub mod Flow
use nsq.Common.{
  ℕ, ◌+◌, ◌%◌, ◌^◌, ◌≡◌, Bool, true, false, not, ◌&&◌, ◌||◌, List, [], ◌∷◌, Option, none, some, ltb,
  if◌then◌else◌,
}
use nsq.Nsqd.InFlight.{◌>>=◌}
use nsq.Nsqd.Client.{Client, is_ready_for_messages, sending_message}
use nsq.Nsqd.Channel.{Channel, Outcome, update, start_in_flight_timeout}
use nsq.Nsqd.Commands.{Connection, with_client}

-- The variables of messagePump; a Go channel or ticker channel is its being set.
pub record Pump : Type 0 where
  pub subscribed : Bool
  pub may_subscribe : Bool
  pub may_identify : Bool
  pub heartbeats : Bool
  pub sample_rate : ℕ
  pub msg_timeout : ℕ
  pub flushed : Bool

-- What the client sent by IDENTIFY, with a sample rate and a heartbeat interval that are not negative.
pub record IdentifyEvent : Type 0 where
  pub heartbeat_interval : ℕ
  pub sample_rate : ℕ
  pub msg_timeout : ℕ

pub record Delivery : Type 0 where
  pub draw : ℕ
  pub now : ℕ
  pub is_sent : Bool

pub data Event : Type 0 where
  flush_tick : Bool → Event
  ready_state : Event
  sub_event : Event
  identify_event : IdentifyEvent → Event
  heartbeat : Bool → Event
  -- A message read from the backend, as decodeMessage gives it: `none` is an error.
  backend_message : Option ℕ → Delivery → Event
  memory_message : Delivery → Event
  exit : Event

-- The end of a round: it cannot be as the case is not selected on, the loop goes on, or it ends.
pub data Next (Q B : Type 0) : Type 0 where
  blocked : Next Q B
  goes : Pump → Connection Q B → Next Q B
  stops : Connection Q B → Next Q B

abbrev pub is_paused : {Q B : Type 0} → Option (Channel Q B) → Bool
is_paused none = false
is_paused (some c) = c.paused

unfoldable pub start_pump : ℕ → Pump
start_pump msg_timeout = record {
  subscribed = false;
  may_subscribe = true;
  may_identify = true;
  heartbeats = true;
  sample_rate = 0;
  msg_timeout = msg_timeout;
  flushed = true;
}

-- The message is left out of the sample.
unfoldable pub is_skipped : ℕ → ℕ → Bool
is_skipped sample_rate draw = ltb 0 sample_rate && ltb sample_rate draw

abbrev pub take_identify : IdentifyEvent → Pump → Pump
take_identify data' p = record p {
  may_identify = false;
  heartbeats = ltb 0 data'.heartbeat_interval;
  sample_rate = if ltb 0 data'.sample_rate then data'.sample_rate else p.sample_rate;
  msg_timeout = data'.msg_timeout;
}

module _ {Q B : Type 0} (E : Type 0) where
  -- An error of StartInFlightTimeout is not looked at.
  abbrev pub after_start :
      Pump → Connection Q B → Delivery → Option (Outcome Q B E) → Option (Next Q B)
  after_start p conn d none = none
  after_start p conn d (some (c, err)) =
      let conn' = with_client conn c (sending_message conn.client) in
      if d.is_sent then some (goes (record p { flushed = false }) conn') else some (stops conn')

  -- msg.Attempts++, StartInFlightTimeout, SendingMessage and SendMessage.
  unfoldable pub deliver : Pump → Connection Q B → Channel Q B → ℕ → Delivery → Option (Next Q B)
  deliver p conn c r d =
      let entry = c.message r in
      let message = record (entry.message) { attempts = (entry.message.attempts + 1) % 2 ^ 16 } in
      let counted = record c {
        message = update c.message r (record entry { message = message });
      } in
      after_start p conn d
        (start_in_flight_timeout {E = E} counted r conn.client_id d.now p.msg_timeout)

  abbrev pub from_memory :
      Pump → Connection Q B → Channel Q B → Delivery → List ℕ → Option (Next Q B)
  from_memory p conn c d [] = some blocked
  from_memory p conn c d (r ∷ rest) =
      let left = record c { memory = rest } in
      if is_skipped p.sample_rate d.draw
      then some (goes p (record conn { channel = some left }))
      else deliver p conn left r d

  abbrev pub from_backend :
      Pump → Connection Q B → Channel Q B → Delivery → Option ℕ → Option (Next Q B)
  from_backend p conn c d none = some (goes p conn)
  from_backend p conn c d (some r) =
      if is_skipped p.sample_rate d.draw then some (goes p conn) else deliver p conn c r d

  abbrev pub if_flushed : Pump → Connection Q B → Bool → Option (Next Q B)
  if_flushed p conn true = some (goes (record p { flushed = true }) conn)
  if_flushed p conn false = some (stops conn)

  abbrev pub if_open : Bool → Option (Next Q B) → Option (Next Q B)
  if_open true next = next
  if_open false next = some blocked

  abbrev pub if_channel :
      Option (Channel Q B) → (Channel Q B → Option (Next Q B)) → Option (Next Q B)
  if_channel none next = none
  if_channel (some c) next = next c

  -- The select; `messages` and `flusher` say which Go channels were set. `none` is a panic.
  unfoldable pub handle : Bool → Bool → Pump → Connection Q B → Event → Option (Next Q B)
  handle messages flusher p conn (flush_tick ok) = if_open flusher (if_flushed p conn ok)
  handle messages flusher p conn ready_state = some (goes p conn)
  handle messages flusher p conn sub_event =
      if_open p.may_subscribe
        (some (goes (record p { subscribed = true; may_subscribe = false }) conn))
  handle messages flusher p conn (identify_event data') =
      if_open p.may_identify (some (goes (take_identify data' p) conn))
  handle messages flusher p conn (heartbeat ok) =
      if_open p.heartbeats (if ok then some (goes p conn) else some (stops conn))
  handle messages flusher p conn (backend_message decoded d) =
      if_open messages (if_channel conn.channel λ c. from_backend p conn c d decoded)
  handle messages flusher p conn (memory_message d) =
      if_open messages (if_channel conn.channel λ c. from_memory p conn c d c.memory)
  handle messages flusher p conn exit = some (stops conn)

  -- A round; `is_flushed` says whether the forced flush succeeds where there is one.
  unfoldable pub pump_round : Bool → Pump → Connection Q B → Event → Option (Next Q B)
  pump_round is_flushed p conn event =
      if not p.subscribed || not (is_ready_for_messages (is_paused conn.channel) conn.client)
      then (if is_flushed
          then handle false false (record p { flushed = true }) conn event
          else some (stops conn))
      else handle true (not p.flushed) p conn event
