-- ===== src/Auth.antt =====
-- internal/auth/authorizations.go: the answers of the authorization servers, and what they allow. The
-- package regexp is a parameter, and so is what a GET of a server gives. `none` is a panic, which
-- MustCompile raises for an expression that does not compile.
use nsq.Common.{
  ℕ, ◌+◌, ◌*◌, ◌-◌, ◌%◌, ◌^◌, ◌<◌, ◌≡◌, Bool, true, false, not, ◌&&◌, ◌||◌, List, [], ◌∷◌, Option,
  none, some, ltb, if◌then◌else◌, ◌==◌, nat_eq, bytes_eq,
}
use nsq.Protocol.Reader.{negative64}
use nsq.Nsqd.Client.Settings.{ℤ, pos, negsuc}

pub record Authorization : Type 0 where
  pub topic : List ℕ
  pub channels : List (List ℕ)
  pub permissions : List (List ℕ)

-- The state of a client; the time is in nanoseconds.
pub record State : Type 0 where
  pub ttl : ℤ
  pub authorizations : List Authorization
  pub identity : List ℕ
  pub identity_url : List ℕ
  pub expires : ℕ

-- Whether an expression compiles, and whether it then matches a string.
pub record Regexp : Type 0 where
  pub compiles : List ℕ → Bool
  pub matches : List ℕ → List ℕ → Bool

abbrev pub subscribe : List ℕ
subscribe = b's' ∷ b'u' ∷ b'b' ∷ b's' ∷ b'c' ∷ b'r' ∷ b'i' ∷ b'b' ∷ b'e' ∷ []

abbrev pub publish : List ℕ
publish = b'p' ∷ b'u' ∷ b'b' ∷ b'l' ∷ b'i' ∷ b's' ∷ b'h' ∷ []

abbrev pub has_loop : List (List ℕ) → List ℕ → Bool
has_loop [] permission = false
has_loop (p ∷ ps) permission =
    let rest = has_loop ps permission in if permission == p then true else rest

unfoldable pub has_permission : Authorization → List ℕ → Bool
has_permission a permission = has_loop a.permissions permission

-- The permission that the code asks for: no channel is the empty name.
abbrev pub permission_for : List ℕ → List ℕ
permission_for channel = if channel == [] then publish else subscribe

abbrev pub second : ℕ
second = 1000000000

abbrev pub is_known : List ℕ → Bool
is_known p = (p == subscribe) || (p == publish)

abbrev pub are_known : List (List ℕ) → Bool
are_known [] = true
are_known (p ∷ ps) = is_known p && are_known ps

module _ (regexp : Regexp) where
  -- The loop over the channels.
  unfoldable pub match_channels : List (List ℕ) → List ℕ → Option Bool
  match_channels [] channel = some false
  match_channels (c ∷ cs) channel =
      let rest = match_channels cs channel in
      if not (regexp.compiles c) then none else if regexp.matches c channel then some true else rest

  unfoldable pub is_allowed : Authorization → List ℕ → List ℕ → Option Bool
  is_allowed a topic channel =
      if not (has_permission a (permission_for channel))
      then some false
      else if not (regexp.compiles a.topic)
      then none
      else if not (regexp.matches a.topic topic)
      then some false
      else match_channels a.channels channel

  abbrev pub or_next : Option Bool → Option Bool → Option Bool
  or_next none rest = none
  or_next (some true) rest = some true
  or_next (some false) rest = rest

  abbrev pub allowed_loop : List Authorization → List ℕ → List ℕ → Option Bool
  allowed_loop [] topic channel = some false
  allowed_loop (a ∷ as') topic channel =
      or_next (is_allowed a topic channel) (allowed_loop as' topic channel)

  -- IsAllowed of the state.
  unfoldable pub is_allowed_any : State → List ℕ → List ℕ → Option Bool
  is_allowed_any s topic channel = allowed_loop s.authorizations topic channel

  abbrev pub compile_all : List (List ℕ) → Bool
  compile_all [] = true
  compile_all (c ∷ cs) = regexp.compiles c && compile_all cs

  -- The validation of an answer; each error of it is one refusal.
  abbrev pub are_valid : List Authorization → Bool
  are_valid [] = true
  are_valid (a ∷ as') =
      (are_known a.permissions && (regexp.compiles a.topic && compile_all a.channels))
      && are_valid as'

  abbrev pub is_positive : ℤ → Bool
  is_positive (pos n) = ltb 0 n
  is_positive (negsuc n) = false

  abbrev pub seconds_of : ℤ → ℕ
  seconds_of (pos n) = n
  seconds_of (negsuc n) = 0

  -- time.Now().Add of the seconds, a product that wraps as an int64.
  abbrev pub after_seconds : ℕ → ℕ → ℕ
  after_seconds now seconds =
      let d = seconds * second % 2 ^ 64 in if negative64 d then now - (2 ^ 64 - d) else now + d

  abbrev pub validated : ℕ → Option State → Option State
  validated now none = none
  validated now (some s) =
      if are_valid s.authorizations && is_positive s.ttl
      then some (record s { expires = after_seconds now (seconds_of s.ttl) })
      else none

  -- QueryAuthd, given what the GET of a server gives, and the time.
  unfoldable pub query_authd : (List ℕ → Option State) → ℕ → List ℕ → Option State
  query_authd get now authd = validated now (get authd)

  abbrev pub or_state : Option State → Option State → Option State
  or_state none rest = rest
  or_state (some s) rest = some s

  unfoldable pub query_any_authd : (List ℕ → Option State) → ℕ → List (List ℕ) → Option State
  query_any_authd get now [] = none
  query_any_authd get now (a ∷ authd) =
      or_state (query_authd get now a) (query_any_authd get now authd)

unfoldable pub is_expired : State → ℕ → Bool
is_expired s now = ltb s.expires now

module _ (regexp : Regexp) where
  -- What an authorization and a list of them allow.
  abbrev pub some_match : List (List ℕ) → List ℕ → Bool
  some_match [] channel = false
  some_match (c ∷ cs) channel = regexp.matches c channel || some_match cs channel

  abbrev pub allows : Authorization → List ℕ → List ℕ → Bool
  allows a topic channel =
      has_permission a (permission_for channel)
      && (regexp.matches a.topic topic && some_match a.channels channel)

  abbrev pub some_allows : List Authorization → List ℕ → List ℕ → Bool
  some_allows [] topic channel = false
  some_allows (a ∷ as') topic channel = allows a topic channel || some_allows as' topic channel

  -- A state that is returned was validated, and has not expired at `now` if its time does not wrap.
  IsValidated : ℕ → State → Type 0
  IsValidated now s =
      (are_valid regexp s.authorizations ≡ true)
      × (seconds_of regexp s.ttl * second < 2 ^ 63 → is_expired s now ≡ false)
