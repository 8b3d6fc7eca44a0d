-- ===== src/Nsqd/Client/Settings/Ranges.antt =====
-- Whatever a client asks for, its settings stay within the limits of nsqd.
use nsq.Common.{
  ℕ, ◌*◌, ◌/◌, ◌<◌, ◌≤◌, ◌≡◌, ◌⊎◌, inl, inr, refl, Bool, true, false, arith, if◌then◌else◌, nat_eq,
}
use nsq.Nsqd.Client.Settings.{
  ℤ, pos, negsuc, is_minus_one, is_zero, is_within, magnitude, millisecond, Limits, Settings,
  IdentifyData, Result, and_then, set_heartbeat_interval, set_output_timeout, set_output_size,
  set_output_buffer, set_msg_timeout, set_sample_rate, identify_settings,
}

-- Off, or between a least and a largest time.
abbrev pub IsOffOr : ℕ → ℕ → ℕ → Type 0
IsOffOr low high n = (n ≡ 0) ⊎ ((low ≤ n) × (n ≤ high))

-- The smallest number of milliseconds that SetOutputBuffer takes.
abbrev pub least_output_timeout : Limits → ℕ
least_output_timeout limits = limits.min_output_buffer_timeout / millisecond * millisecond

-- One byte, for no buffering, or at least 64 bytes.
abbrev pub IsBufferSize : ℕ → ℕ → Type 0
IsBufferSize max n = ((n ≡ 1) ⊎ (64 ≤ n)) × (n ≤ max)

pub record IsWithin (limits : Limits) (s : Settings) : Type 0 where
  pub heartbeat : IsOffOr (1000 * millisecond) limits.max_heartbeat_interval s.heartbeat_interval
  pub output_timeout :
      IsOffOr (least_output_timeout limits) limits.max_output_buffer_timeout s.output_buffer_timeout
  pub output_size : IsBufferSize limits.max_output_buffer_size s.output_buffer_size
  pub rate : s.sample_rate < 100
  pub timeout : (1000 * millisecond ≤ s.msg_timeout) × (s.msg_timeout ≤ limits.max_msg_timeout)

within_bounds :
    (low high : ℕ) (n : ℤ)
    → is_within low high n ≡ true
    → (low ≤ magnitude n) × (magnitude n ≤ high)
within_bounds low high (pos n) e = ground arith
within_bounds low high (negsuc n) e = cc

-- The same for a number of milliseconds, with the result in nanoseconds.
within_bounds_ms :
    (low high : ℕ) (n : ℤ)
    → is_within low (high / millisecond) n ≡ true
    → (low * millisecond ≤ magnitude n * millisecond) × (magnitude n * millisecond ≤ high)
within_bounds_ms low high n e =
    let (l, h) = within_bounds low (high / millisecond) n e in (omega arith, omega arith)

module _ (limits : Limits) where
  abbrev Holds : Result → Type 0
  Holds r = IsWithin limits r.0

  branch :
      (b : Bool) (x y : Result)
      → (b ≡ true → Holds x)
      → (b ≡ false → Holds y)
      → Holds (if b then x else y)
  branch true x y p q = p refl
  branch false x y p q = q refl

  in_turn :
      (r : Result) (next : Settings → Result)
      → Holds r
      → ((s : Settings) → IsWithin limits s → Holds (next s))
      → Holds (and_then r next)
  in_turn (s, true) next v w = w s v
  in_turn (s, false) next v w = v

  module _ (s : Settings) (v : IsWithin limits s) where
    new_heartbeat :
        (n : ℕ)
        → IsOffOr (1000 * millisecond) limits.max_heartbeat_interval n
        → IsWithin limits (record s { heartbeat_interval = n })
    new_heartbeat n h = record {
      heartbeat = h;
      output_timeout = v.output_timeout;
      output_size = v.output_size;
      rate = v.rate;
      timeout = v.timeout;
    }

    new_output :
        (size time : ℕ)
        → IsBufferSize limits.max_output_buffer_size size
        → IsOffOr (least_output_timeout limits) limits.max_output_buffer_timeout time
        → IsWithin limits (record s { output_buffer_size = size; output_buffer_timeout = time })
    new_output size time h t = record {
      heartbeat = v.heartbeat;
      output_timeout = t;
      output_size = h;
      rate = v.rate;
      timeout = v.timeout;
    }

    set_heartbeat_interval-IsWithin : (n : ℤ) → Holds (set_heartbeat_interval limits s n)
    unfolding set_heartbeat_interval
    set_heartbeat_interval-IsWithin n =
        branch (is_minus_one n) _ _ (λ e. new_heartbeat 0 (inl refl))
          λ e.
            branch (is_zero n) _ _ (λ z. v)
              λ z.
                branch (is_within 1000 (limits.max_heartbeat_interval / millisecond) n) _ _
                  (λ w.
                    new_heartbeat (magnitude n * millisecond)
                      (inr (within_bounds_ms 1000 limits.max_heartbeat_interval n w)))
                  λ w. v

    set_output_timeout-IsWithin : (n : ℤ) → Holds (set_output_timeout limits s n)
    unfolding set_output_timeout
    set_output_timeout-IsWithin n =
        let low = limits.min_output_buffer_timeout / millisecond in
        let high = limits.max_output_buffer_timeout in
        let keep = new_output s.output_buffer_size in
        branch (is_minus_one n) _ _ (λ e. keep 0 v.output_size (inl refl))
          λ e.
            branch (is_zero n) _ _ (λ z. v)
              λ z.
                branch (is_within low (high / millisecond) n) _ _
                  (λ w.
                    keep (magnitude n * millisecond) v.output_size
                      (inr (within_bounds_ms low high n w)))
                  λ w. v

    set_output_size-IsWithin : (n : ℤ) → Holds (set_output_size limits s n)
    unfolding set_output_size
    set_output_size-IsWithin n =
        let high = limits.max_output_buffer_size in
        branch (is_minus_one n) _ _
          (λ e. new_output 1 0 (inl refl, omega (arith, v.output_size)) (inl refl))
          λ e.
            branch (is_zero n) _ _ (λ z. v)
              λ z.
                branch (is_within 64 high n) _ _
                  (λ w.
                    let (l, h) = within_bounds 64 high n w in
                    new_output (magnitude n) s.output_buffer_timeout (inr l, h) v.output_timeout)
                  λ w. v

    set_sample_rate-IsWithin : (n : ℤ) → Holds (set_sample_rate s n)
    unfolding set_sample_rate
    set_sample_rate-IsWithin n =
        branch (is_within 0 99 n) _ _
          (λ w.
            let (l, h) = within_bounds 0 99 n w in
            record {
              heartbeat = v.heartbeat;
              output_timeout = v.output_timeout;
              output_size = v.output_size;
              rate = omega arith;
              timeout = v.timeout;
            })
          λ w. v

    set_msg_timeout-IsWithin : (n : ℤ) → Holds (set_msg_timeout limits s n)
    unfolding set_msg_timeout
    set_msg_timeout-IsWithin n =
        branch (is_zero n) _ _ (λ z. v)
          λ z.
            branch (is_within 1000 (limits.max_msg_timeout / millisecond) n) _ _
              (λ w. record {
                heartbeat = v.heartbeat;
                output_timeout = v.output_timeout;
                output_size = v.output_size;
                rate = v.rate;
                timeout = within_bounds_ms 1000 limits.max_msg_timeout n w;
              })
              λ w. v

  set_output_buffer-IsWithin :
      (flush_fails : Bool) (s : Settings) (size timeout : ℤ)
      → IsWithin limits s
      → Holds (set_output_buffer limits flush_fails s size timeout)
  unfolding set_output_buffer
  set_output_buffer-IsWithin flush_fails s size timeout v =
      in_turn (set_output_timeout limits s timeout) _ (set_output_timeout-IsWithin s v timeout)
        λ t w.
          in_turn (set_output_size limits t size) _ (set_output_size-IsWithin t w size) λ u x. x

  -- Whatever a client asks for, Identify keeps settings within the limits, also where it returns an
  -- error after some of the settings have changed: the heartbeat interval off or between a second
  -- and its limit; the output timeout off or between its two limits, the lower one in whole
  -- milliseconds; the buffer size 1 or at least 64, and at most its limit; the sample rate below
  -- 100; and the message timeout between a second and its limit.
  pub identify_settings-IsWithin :
      (flush_fails : Bool) (s : Settings) (request : IdentifyData)
      → IsWithin limits s
      → IsWithin limits (identify_settings limits flush_fails s request).0
  unfolding identify_settings
  identify_settings-IsWithin flush_fails s request v =
      in_turn (set_heartbeat_interval limits s request.heartbeat_interval) _
        (set_heartbeat_interval-IsWithin s v request.heartbeat_interval)
        λ s1 v1.
          in_turn
            (set_output_buffer limits flush_fails s1 request.output_buffer_size
              request.output_buffer_timeout)
            _
            (set_output_buffer-IsWithin flush_fails s1 request.output_buffer_size
              request.output_buffer_timeout v1)
            λ s2 v2.
              in_turn (set_sample_rate s2 request.sample_rate) _
                (set_sample_rate-IsWithin s2 v2 request.sample_rate)
                λ s3 v3. set_msg_timeout-IsWithin s3 v3 request.msg_timeout
