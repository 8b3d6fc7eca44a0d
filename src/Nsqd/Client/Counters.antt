-- ===== src/Nsqd/Client/Counters.antt =====
-- When a client is sent messages, and what the counters do.
use nsq.Common.{◌^◌, ◌<◌, ◌≡◌, ◌↔◌, Bool, true, false, arith}
use nsq.Nsqd.Client.{Client, is_ready_for_messages, start_close}

-- A client is sent a message exactly when its channel is not paused and it has fewer messages in
-- flight than it asked for by RDY, for counters that are no negative int64.
pub is_ready_iff :
    (paused : Bool) (c : Client)
    → c.ready_count < 2 ^ 63
    → c.in_flight_count < 2 ^ 63
    → (is_ready_for_messages paused c ≡ true)
      ↔ ((paused ≡ false) × (c.in_flight_count < c.ready_count))
unfolding is_ready_for_messages
is_ready_iff paused c hr hi = (λ e. ground arith, λ p. ground arith)

-- A closing client is sent nothing more, whatever it has in flight.
pub is_ready-start_close :
    (paused : Bool) (c : Client) → is_ready_for_messages paused (start_close c) ≡ false
unfolding is_ready_for_messages start_close
is_ready-start_close paused c = ground arith
