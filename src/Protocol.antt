-- ===== src/Protocol.antt =====
-- internal/protocol: names, numbers on the wire and error values.
pub mod Names
pub mod Base10
pub mod Reader
use nsq.Common.{List, ℕ, Bool}

-- errors.go: an error for the client, which closes the connection if it is fatal. The code is a
-- constructor; the description and the parent error are not modelled.
pub data Code : Type 0 where
  e_invalid e_bad_topic e_bad_channel e_bad_body e_bad_message e_too_many_channel_consumers
        e_fin_failed e_req_failed e_touch_failed e_pub_failed e_mpub_failed e_dpub_failed
        e_auth_first e_auth_failed e_unauthorized e_auth_disabled e_auth_error e_unauthorized_auth :
      Code

pub data ClientErr : Type 0 where
  client_err fatal_client_err : Code → ClientErr

-- The test by which IOLoop ends the connection.
abbrev pub is_fatal : ClientErr → Bool
is_fatal (client_err code) = Bool.false
is_fatal (fatal_client_err code) = Bool.true
