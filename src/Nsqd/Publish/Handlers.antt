-- ===== src/Nsqd/Publish/Handlers.antt =====
-- nsqd/protocol_v2.go: PUB, MPUB and DPUB, and CheckAuth. Their errors are all fatal, so that what
-- is left of the input after one does not matter.
use nsq.Common.{
  ℕ, ◌+◌, ◌%◌, Bool, true, false, not, ◌||◌, List, [], ◌∷◌, Option, none, some, ltb, if◌then◌else◌,
  ◌==◌, nat_eq, bytes_eq, length, get_elem?,
}
use nsq.Common.Map.{lookup, insert}
use nsq.Protocol.{
  Code, ClientErr, fatal_client_err, e_invalid, e_bad_topic, e_pub_failed, e_mpub_failed,
  e_dpub_failed, e_auth_first, e_auth_failed, e_unauthorized,
}
use nsq.Protocol.Names.{is_valid_name}
use nsq.Protocol.Base10.{byte_to_base10}
use nsq.Protocol.Reader.{negative64}
use nsq.Protocol.{e_bad_body}
use nsq.Nsqd.Message.{Message, new_message}
use nsq.Nsqd.Client.{counter_mod}
use nsq.Nsqd.InFlight.{◌>>=◌}
use nsq.Nsqd.Channel.{BackendQueue}
use nsq.Nsqd.Commands.{Options, milliseconds}
use nsq.Nsqd.Publish.{
  Topic, TopicOutcome, put_message, put_messages, Read, refused, got, read_size, read_body,
  read_mpub,
}

-- What CheckAuth reads: whether the daemon has an auth server, whether the client has
-- authorizations, and what IsAuthorized answers, `none` for an error.
pub record Auth : Type 0 where
  pub auth_enabled : Bool
  pub has_authorizations : Bool
  pub is_authorized : List ℕ → List ℕ → Option Bool

abbrev pub answer_of : Option Bool → Option ClientErr
answer_of none = some (fatal_client_err e_auth_failed)
answer_of (some true) = none
answer_of (some false) = some (fatal_client_err e_unauthorized)

unfoldable pub check_auth : Auth → List ℕ → List ℕ → Option ClientErr
check_auth auth topic channel =
    if not (auth.auth_enabled)
    then none
    else if not (auth.has_authorizations)
    then some (fatal_client_err e_auth_first)
    else answer_of (auth.is_authorized topic channel)

-- The topics, as GetTopic gives them by name, and the numbers of messages that this client
-- published to each.
pub record Publisher (B : Type 0) : Type 0 where
  pub topics : List ℕ → Topic B
  pub pub_counts : List (List ℕ × ℕ)

-- The map's value, 0 if there is none.
abbrev pub or_zero : Option ℕ → ℕ
or_zero none = 0
or_zero (some n) = n

abbrev pub set_topic : {B : Type 0} → Publisher B → List ℕ → Topic B → Publisher B
set_topic s name t = record s { topics = λ x. if name == x then t else s.topics x }

-- PublishedMessage of the client
abbrev pub published_message : {B : Type 0} → Publisher B → List ℕ → ℕ → Publisher B
published_message s name count = record s {
  pub_counts =
      insert name ((or_zero (lookup name s.pub_counts) + count) % counter_mod) s.pub_counts;
}

-- OK is the unit value.
abbrev pub PubDone : Type 0 → Type 0
PubDone B = Publisher B × Read Unit

-- The messages of some bodies, with the ids that GenerateID gives and the times of their creation.
abbrev pub new_messages : (ℕ → List ℕ × ℕ) → ℕ → List (List ℕ) → List Message
new_messages fresh i [] = []
new_messages fresh i (body ∷ bodies) =
    new_message (fresh i).0 body (fresh i).1 ∷ new_messages fresh (i + 1) bodies

abbrev pub after_put :
    {B E : Type 0} → Publisher B → List ℕ → Code → ℕ → List ℕ → TopicOutcome B E → PubDone B
after_put s name code count rest (t, some e) = (set_topic s name t, refused (fatal_client_err code))
after_put s name code count rest (t, none) =
    (published_message (set_topic s name t) name count, got tt rest)

-- The rest of a handler, unless the client is refused.
abbrev pub if_authorized : {B : Type 0} → Publisher B → Option ClientErr → PubDone B → PubDone B
if_authorized s (some e) next = (s, refused e)
if_authorized s none next = next

abbrev pub if_read : {B A : Type 0} → Publisher B → Read A → (A → List ℕ → PubDone B) → PubDone B
if_read s (refused e) next = (s, refused e)
if_read s (got x rest) next = next x rest

abbrev pub if_parsed : {B A : Type 0} → Publisher B → Option A → (A → PubDone B) → PubDone B
if_parsed s none next = (s, refused (fatal_client_err e_invalid))
if_parsed s (some x) next = next x

module _ {B E : Type 0} (backend_queue : BackendQueue B E) (options : Options) (auth : Auth)
    (fresh : ℕ → List ℕ × ℕ) where
  -- PUB and DPUB from the reading of the body on.
  unfoldable pub publish_body : Code → ℕ → Publisher B → List ℕ → List ℕ → PubDone B
  publish_body code deferred s name input =
      if_read s (read_body options.max_msg_size input) λ body rest.
        if_authorized s (check_auth auth name []) (
          after_put s name code 1 rest (
            put_message backend_queue (s.topics name)
              (record (new_message (fresh 0).0 body (fresh 0).1) { deferred = deferred })))

  unfoldable pub pub_command : Publisher B → List (List ℕ) → List ℕ → PubDone B
  unfolding publish_body
  pub_command s params input =
      if ltb (length params) 2
      then (s, refused (fatal_client_err e_invalid))
      else if_parsed s (get_elem? params 1) λ name.
        if not (is_valid_name name)
        then (s, refused (fatal_client_err e_bad_topic))
        else publish_body e_pub_failed 0 s name input

  unfoldable pub dpub : Publisher B → List (List ℕ) → List ℕ → PubDone B
  unfolding publish_body
  dpub s params input =
      if ltb (length params) 3
      then (s, refused (fatal_client_err e_invalid))
      else if_parsed s (get_elem? params 1) λ name.
        if not (is_valid_name name)
        then (s, refused (fatal_client_err e_bad_topic))
        else if_parsed s (get_elem? params 2 >>= byte_to_base10) λ timeout_ms.
          let timeout = milliseconds timeout_ms in
          if negative64 timeout || ltb options.max_req_timeout timeout
          then (s, refused (fatal_client_err e_invalid))
          else publish_body e_dpub_failed timeout s name input

  -- MPUB from the reading of the size of the body on.
  unfoldable pub publish_bodies : Publisher B → List ℕ → List ℕ → PubDone B
  publish_bodies s name input =
      if_read s (read_size e_bad_body options.max_body_size input) λ size rest.
        if_read s (read_mpub options.max_msg_size options.max_body_size rest) λ bodies left.
          after_put s name e_mpub_failed (length bodies) left
            (put_messages backend_queue (s.topics name) (new_messages fresh 0 bodies))

  unfoldable pub mpub : Publisher B → List (List ℕ) → List ℕ → PubDone B
  unfolding publish_bodies
  mpub s params input =
      if ltb (length params) 2
      then (s, refused (fatal_client_err e_invalid))
      else if_parsed s (get_elem? params 1) λ name.
        if not (is_valid_name name)
        then (s, refused (fatal_client_err e_bad_topic))
        else if_authorized s (check_auth auth name []) (publish_bodies s name input)
