-- ===== src/Nsqd/Commands/Subscribe.antt =====
-- nsqd/protocol_v2.go: SUB. Other goroutines act between its attempts, so an attempt finds the topic
-- and the channel as they then are, whatever the attempt before left: `found i` is what GetTopic and
-- GetChannel give at the attempt `i`. The loop runs on fuel: so many attempts.
pub mod Joins
use nsq.Common.{
  ℕ, zero, suc, ◌+◌, ◌<◌, ◌≤◌, ◌≡◌, Bool, true, false, not, ◌&&◌, ◌||◌, List, [], ◌∷◌, ◌++◌, Option,
  none, some, ltb, leb, if◌then◌else◌, ◌==◌, nat_eq, nat_beq, length, get_elem?, arith, refl, ap,
  ◌∙◌, Option-cases, Bool-cases, inl, inr,
}
use nsq.Common.Map.{lookup, insert, lookup-insert, lookup-delete}
use nsq.Protocol.{
  Code, ClientErr, fatal_client_err, e_invalid, e_bad_topic, e_bad_channel,
  e_too_many_channel_consumers,
}
use nsq.Protocol.Names.{is_valid_name}
use nsq.Protocol.Reader.{negative64}
use nsq.Nsqd.Client.{Client, ClientState, init, disconnected, connected, subscribed, closing}
use nsq.Nsqd.Channel.{Channel, Outcome, Failure, add_client, remove_client}
use nsq.Nsqd.Commands.{Connection, Answer, ok, failed}
use nsq.Nsqd.Publish.Handlers.{Auth, check_auth}

-- What an attempt finds.
pub record Found (Q B : Type 0) : Type 0 where
  pub channel : Channel Q B
  pub topic_ephemeral : Bool
  pub topic_exiting : Bool

-- How the loop ends, with the channels that the attempts before left after RemoveClient.
pub data Joined (Q B : Type 0) : Type 0 where
  refused : List (Channel Q B) → Joined Q B
  joined : List (Channel Q B) → Channel Q B → Joined Q B

abbrev pub after_leaving : {Q B : Type 0} → Channel Q B → Joined Q B → Joined Q B
after_leaving left (refused others) = refused (left ∷ others)
after_leaving left (joined others c) = joined (left ∷ others) c

abbrev pub and_left : {Q B : Type 0} → Channel Q B → Option (Joined Q B) → Option (Joined Q B)
and_left left none = none
and_left left (some j) = some (after_leaving left j)

-- An attempt after AddClient; the client leaves again what is exiting.
abbrev pub after_adding :
    {Q B E : Type 0}
    → Bool
    → (Channel Q B → Option (Joined Q B))
    → Outcome Q B E
    → Option (Joined Q B)
after_adding leaving again (c, some e) = some (refused [])
after_adding leaving again (c, none) = if leaving then again c else some (joined [] c)

abbrev pub is_init : ClientState → Bool
is_init init = true
is_init disconnected = false
is_init connected = false
is_init subscribed = false
is_init closing = false

-- An ephemeral channel or topic that is exiting.
unfoldable pub is_leaving : {Q B : Type 0} → Found Q B → Bool
is_leaving f =
    (f.channel.ephemeral && f.channel.is_exiting) || (f.topic_ephemeral && f.topic_exiting)

module _ {Q B : Type 0} (E : Type 0) (max_consumers : ℕ) (client_id : ℕ) (client : Client) where
  unfoldable pub join_loop : ℕ → (ℕ → Found Q B) → ℕ → Option (Joined Q B)
  join_loop zero found i = none
  join_loop (suc fuel) found i =
      let rest = join_loop fuel found (i + 1) in
      after_adding (is_leaving (found i)) (λ c. and_left (remove_client c client_id).0 rest)
        (add_client {E = E} max_consumers (found i).channel client_id client)

abbrev subscribe_to : {Q B : Type 0} → Connection Q B → Joined Q B → Connection Q B × Answer
subscribe_to conn (refused left) = (conn, failed (fatal_client_err e_too_many_channel_consumers))
subscribe_to conn (joined left c) =
    (record conn { client = record (conn.client) { state = subscribed }; channel = some c }, ok)

module _ {Q B : Type 0} (E : Type 0) (max_consumers heartbeat_interval : ℕ) (auth : Auth) where
  -- From the checks of the state on; `none` is a panic, or that the attempts do not suffice.
  unfoldable pub sub :
      ℕ
      → (List ℕ → List ℕ → ℕ → Found Q B)
      → Connection Q B
      → List (List ℕ)
      → Option (Connection Q B × Answer)
  sub fuel found conn (command ∷ topic ∷ channel ∷ rest) =
      let refuse : Code → Option (Connection Q B × Answer) =
        λ code. some (conn, failed (fatal_client_err code)) in
      let join : Option (Connection Q B × Answer) =
        elim (join_loop E max_consumers conn.client_id conn.client fuel (found topic channel) 0)
          as (λ _. Option (Connection Q B × Answer)) [
            | none ↦ none
            | some j ↦ some (subscribe_to conn j)
          ] in
      if not (is_init (conn.client.state))
        || (negative64 heartbeat_interval || heartbeat_interval == 0)
      then refuse e_invalid
      else if not (is_valid_name topic)
      then refuse e_bad_topic
      else if not (is_valid_name channel)
      then refuse e_bad_channel
      else elim (check_auth auth topic channel) as (λ _. Option (Connection Q B × Answer)) [
        | some e ↦ some (conn, failed e)
        | none ↦ join
      ]
  sub fuel found conn params = some (conn, failed (fatal_client_err e_invalid))
