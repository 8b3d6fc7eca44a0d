-- ===== src/Nsqd/Commands.antt =====
-- nsqd/protocol_v2.go: the commands of a consumer that has subscribed. A handler takes the
-- connection and the parameters, the command first; `none` is a panic, such as the use of a nil
-- channel.
pub mod Laws
pub mod Subscribe
use nsq.Common.{
  ℕ, ◌+◌, ◌-◌, ◌*◌, ◌%◌, ◌<◌, ◌≤◌, ◌^◌, ◌≡◌, Bool, true, false, not, ◌&&◌, ◌||◌, List, [], ◌∷◌,
  Option, none, some, ltb, leb, if◌then◌else◌, ◌==◌, nat_eq, length, get_elem?,
}
use nsq.Common.Map.{lookup, insert}
use nsq.Protocol.{
  Code, ClientErr, client_err, fatal_client_err, e_invalid, e_fin_failed, e_req_failed,
  e_touch_failed,
}
use nsq.Protocol.Base10.{byte_to_base10}
use nsq.Protocol.Reader.{negative64}
use nsq.Nsqd.Message.{msg_id_length}
use nsq.Nsqd.InFlight.{◌>>=◌}
use nsq.Nsqd.Client.{
  Client, ClientState, init, disconnected, connected, subscribed, closing, set_ready_count,
  finished_message, requeued_message, start_close,
}
use nsq.Nsqd.Channel.{
  Channel, Outcome, Failure, DeferredQueue, BackendQueue, finish_message, touch_message,
}
use nsq.Nsqd.Channel.Scan.{requeue_message}

-- The options that the handlers read; the times are in nanoseconds.
pub record Options : Type 0 where
  pub max_rdy_count : ℕ
  pub max_req_timeout : ℕ
  pub max_msg_timeout : ℕ
  pub max_msg_size : ℕ
  pub max_body_size : ℕ
  pub tls_required : Bool

-- The connection of a client with its id and, once it has subscribed, its channel, whose map holds
-- the same client under the id.
pub record Connection (Q B : Type 0) : Type 0 where
  pub client_id : ℕ
  pub client : Client
  pub channel : Option (Channel Q B)
  pub msg_timeout : ℕ
  pub tls : Bool

pub data Answer : Type 0 where
  nothing ok close_wait : Answer
  failed : ClientErr → Answer

abbrev pub Done : Type 0 → Type 0 → Type 0
Done Q B = Connection Q B × Answer

abbrev pub is_subscribed : ClientState → Bool
is_subscribed init = false
is_subscribed disconnected = false
is_subscribed connected = false
is_subscribed subscribed = true
is_subscribed closing = false

abbrev pub is_closing : ClientState → Bool
is_closing init = false
is_closing disconnected = false
is_closing connected = false
is_closing subscribed = false
is_closing closing = true

-- time.Duration(ms) * time.Millisecond, which wraps
abbrev pub milliseconds : ℕ → ℕ
milliseconds ms = ms * 1000000 % 2 ^ 64

-- The timeout of REQ within its range.
unfoldable pub clamp_timeout : ℕ → ℕ → ℕ
clamp_timeout max_req_timeout timeout =
    if negative64 timeout
    then 0
    else if ltb max_req_timeout timeout
    then max_req_timeout
    else timeout

unfoldable pub get_message_id : List ℕ → Option (List ℕ)
get_message_id p = if length p == msg_id_length then some p else none

abbrev pub refuse : {Q B : Type 0} → Connection Q B → Code → Option (Done Q B)
refuse conn code = some (conn, failed (fatal_client_err code))

-- The parameter at a position; out of range is a panic.
abbrev pub param :
    {Q B : Type 0} → List (List ℕ) → ℕ → (List ℕ → Option (Done Q B)) → Option (Done Q B)
param params i next = get_elem? params i >>= next

-- The rest of a handler, with what was parsed.
abbrev pub parsed :
    {Q B : Type 0} {A : Type 0}
    → Connection Q B
    → Code
    → Option A
    → (A → Option (Done Q B))
    → Option (Done Q B)
parsed conn code none next = refuse conn code
parsed conn code (some x) next = next x

-- The client, here and in the map of its channel.
abbrev pub with_client : {Q B : Type 0} → Connection Q B → Channel Q B → Client → Connection Q B
with_client conn c client = record conn {
  client = client;
  channel = some (record c { clients = insert conn.client_id client c.clients });
}

-- The end of FIN, REQ and TOUCH, after the call of the channel.
abbrev pub after_call :
    {Q B E : Type 0} → Connection Q B → Code → (Client → Client) → Outcome Q B E → Done Q B
after_call conn code counted (c, some e) =
    (record conn { channel = some c }, failed (client_err code))
after_call conn code counted (c, none) = (with_client conn c (counted conn.client), nothing)

-- enforceTLSPolicy
unfoldable pub enforce_tls_policy : {Q B : Type 0} → Options → Connection Q B → Option ClientErr
enforce_tls_policy options conn =
    if options.tls_required && not (conn.tls) then some (fatal_client_err e_invalid) else none

-- The count of RDY, 1 if none is given.
abbrev pub parse_count : List (List ℕ) → Option ℕ
parse_count [] = some 1
parse_count (command ∷ []) = some 1
parse_count (command ∷ count ∷ rest) = byte_to_base10 count

module _ {Q B : Type 0} (options : Options) where
  unfoldable pub rdy : Connection Q B → List (List ℕ) → Option (Done Q B)
  rdy conn params =
      let state = conn.client.state in
      if is_closing state
      then some (conn, nothing)
      else if not (is_subscribed state)
      then refuse conn e_invalid
      else parsed conn e_invalid (parse_count params) λ count.
        if negative64 count || ltb options.max_rdy_count count
        then refuse conn e_invalid
        else conn.channel >>= λ c.
            some (with_client conn c (set_ready_count conn.client count), nothing)

module _ {Q B : Type 0} where
  unfoldable pub cls : Connection Q B → Option (Done Q B)
  cls conn =
      if not (is_subscribed (conn.client.state))
      then refuse conn e_invalid
      else conn.channel >>= λ c. some (with_client conn c (start_close conn.client), close_wait)

module _ {Q B : Type 0} (E : Type 0) (options : Options) where
  unfoldable pub fin : Connection Q B → List (List ℕ) → Option (Done Q B)
  fin conn params =
      let state = conn.client.state in
      if not (is_subscribed state) && not (is_closing state)
      then refuse conn e_invalid
      else if ltb (length params) 2
      then refuse conn e_invalid
      else param params 1 λ p. parsed conn e_invalid (get_message_id p) λ id. conn.channel >>= λ c.
          finish_message {E = E} c conn.client_id id >>= λ o.
          some (after_call conn e_fin_failed finished_message o)

  unfoldable pub touch : Connection Q B → List (List ℕ) → ℕ → Option (Done Q B)
  touch conn params now =
      let state = conn.client.state in
      if not (is_subscribed state) && not (is_closing state)
      then refuse conn e_invalid
      else if ltb (length params) 2
      then refuse conn e_invalid
      else param params 1 λ p. parsed conn e_invalid (get_message_id p) λ id. conn.channel >>= λ c.
          touch_message {E = E} c conn.client_id id now conn.msg_timeout options.max_msg_timeout
          >>= λ o. some (after_call conn e_touch_failed (λ client. client) o)

module _ {Q B E : Type 0} (deferred_queue : DeferredQueue Q) (backend_queue : BackendQueue B E)
    (options : Options) where
  unfoldable pub req : Connection Q B → List (List ℕ) → ℕ → Option (Done Q B)
  req conn params now =
      let state = conn.client.state in
      if not (is_subscribed state) && not (is_closing state)
      then refuse conn e_invalid
      else if ltb (length params) 3
      then refuse conn e_invalid
      else param params 1 λ p. parsed conn e_invalid (get_message_id p) λ id. param params 2 λ q.
        parsed conn e_invalid (byte_to_base10 q) λ timeout_ms.
          let timeout = clamp_timeout options.max_req_timeout (milliseconds timeout_ms) in
          conn.channel >>= λ c.
          requeue_message deferred_queue backend_queue c conn.client_id id now timeout >>= λ o.
          some (after_call conn e_req_failed requeued_message o)
