-- ===== src/Tests/Access.antt =====
-- internal/auth with one server that answers.
use nsq.Common.{ℕ, true, [], ◌∷◌}
use nsq.Nsqd.Client.Settings.{pos}
use nsq.Auth.{State, Regexp, subscribe}

-- Every expression compiles and matches everything.
abbrev anything : Regexp
anything = record { compiles = λ r. true; matches = λ r s. true }

abbrev granted : ℕ → State
granted expires = record {
  ttl = pos 60;
  authorizations = record { topic = []; channels = [] ∷ []; permissions = subscribe ∷ [] } ∷ [];
  identity = [];
  identity_url = [];
  expires = expires;
}
