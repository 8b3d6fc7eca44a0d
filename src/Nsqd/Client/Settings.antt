-- ===== src/Nsqd/Client/Settings.antt =====
-- nsqd/client_v2.go: the settings that a client negotiates by IDENTIFY. A number of the client is
-- an integer; times are kept in nanoseconds, and the limits are options of nsqd. The strings of
-- IDENTIFY and the event for the message pump are not modelled, and of the writer only whether its
-- flush fails.
pub mod Ranges
use nsq.Common.{
  ℕ, ◌+◌, ◌*◌, ◌/◌, ◌<◌, ◌≤◌, ◌≡◌, Bool, true, false, not, ◌&&◌, ◌||◌, ltb, leb, if◌then◌else◌,
  ◌==◌, nat_eq,
}

-- The int n, or - n - 1.
pub data ℤ : Type 0 where
  pos : ℕ → ℤ
  negsuc : ℕ → ℤ

abbrev pub is_minus_one : ℤ → Bool
is_minus_one (pos n) = false
is_minus_one (negsuc n) = n == 0

abbrev pub is_zero : ℤ → Bool
is_zero (pos n) = n == 0
is_zero (negsuc n) = false

abbrev pub is_within : ℕ → ℕ → ℤ → Bool
is_within low high (pos n) = leb low n && leb n high
is_within low high (negsuc n) = false

-- The value of a number that is not negative.
abbrev pub magnitude : ℤ → ℕ
magnitude (pos n) = n
magnitude (negsuc n) = 0

abbrev pub millisecond : ℕ
millisecond = 1000000

pub record Limits : Type 0 where
  pub max_heartbeat_interval : ℕ
  pub min_output_buffer_timeout : ℕ
  pub max_output_buffer_timeout : ℕ
  pub max_output_buffer_size : ℕ
  pub max_msg_timeout : ℕ

pub record Settings : Type 0 where
  pub heartbeat_interval : ℕ
  pub output_buffer_timeout : ℕ
  pub output_buffer_size : ℕ
  pub sample_rate : ℕ
  pub msg_timeout : ℕ

-- The fields of the request.
pub record IdentifyData : Type 0 where
  pub heartbeat_interval : ℤ
  pub output_buffer_size : ℤ
  pub output_buffer_timeout : ℤ
  pub sample_rate : ℤ
  pub msg_timeout : ℤ

-- The settings after a call, and whether it returned without an error.
abbrev pub Result : Type 0
Result = Settings × Bool

-- The next call, unless there was an error.
abbrev pub and_then : Result → (Settings → Result) → Result
and_then (s, true) next = next s
and_then (s, false) next = (s, false)

module _ (limits : Limits) where
  unfoldable pub set_heartbeat_interval : Settings → ℤ → Result
  set_heartbeat_interval s desired =
      if is_minus_one desired
      then (record s { heartbeat_interval = 0 }, true)
      else if is_zero desired
      then (s, true)
      else if is_within 1000 (limits.max_heartbeat_interval / millisecond) desired
      then (record s { heartbeat_interval = magnitude desired * millisecond }, true)
      else (s, false)

  -- The first switch of SetOutputBuffer.
  unfoldable pub set_output_timeout : Settings → ℤ → Result
  set_output_timeout s desired =
      if is_minus_one desired
      then (record s { output_buffer_timeout = 0 }, true)
      else if is_zero desired
      then (s, true)
      else if is_within (limits.min_output_buffer_timeout / millisecond)
          (limits.max_output_buffer_timeout / millisecond) desired
      then (record s { output_buffer_timeout = magnitude desired * millisecond }, true)
      else (s, false)

  -- The second one.
  unfoldable pub set_output_size : Settings → ℤ → Result
  set_output_size s desired =
      if is_minus_one desired
      then (record s { output_buffer_size = 1; output_buffer_timeout = 0 }, true)
      else if is_zero desired
      then (s, true)
      else if is_within 64 limits.max_output_buffer_size desired
      then (record s { output_buffer_size = magnitude desired }, true)
      else (s, false)

  -- SetOutputBuffer, given whether the flush of the old writer fails.
  unfoldable pub set_output_buffer : Bool → Settings → ℤ → ℤ → Result
  unfolding set_output_timeout set_output_size
  set_output_buffer flush_fails s size timeout = and_then (set_output_timeout s timeout) λ timed.
      and_then (set_output_size timed size) λ sized. (sized, is_zero size || not flush_fails)

  unfoldable pub set_msg_timeout : Settings → ℤ → Result
  set_msg_timeout s desired =
      if is_zero desired
      then (s, true)
      else if is_within 1000 (limits.max_msg_timeout / millisecond) desired
      then (record s { msg_timeout = magnitude desired * millisecond }, true)
      else (s, false)

unfoldable pub set_sample_rate : Settings → ℤ → Result
set_sample_rate s desired =
    if is_within 0 99 desired
    then (record s { sample_rate = magnitude desired }, true)
    else (s, false)

-- The method Identify.
unfoldable pub identify_settings : Limits → Bool → Settings → IdentifyData → Result
identify_settings limits flush_fails s request =
    and_then (set_heartbeat_interval limits s request.heartbeat_interval) λ s1.
      and_then
        (set_output_buffer limits flush_fails s1 request.output_buffer_size
          request.output_buffer_timeout)
        λ s2.
          and_then (set_sample_rate s2 request.sample_rate)
            λ s3. set_msg_timeout limits s3 request.msg_timeout
