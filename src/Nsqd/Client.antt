-- ===== src/Nsqd/Client.antt =====
-- nsqd/client_v2.go: the counters and the state of a connected client. An int64 or uint64 counter
-- is its 64-bit pattern. The connection, its buffers and the goroutines' channels are not modelled.
pub mod Counters
pub mod Settings
use nsq.Common.{ℕ, ◌+◌, ◌-◌, ◌%◌, ◌^◌, Bool, true, false, ◌||◌, leb, if◌then◌else◌}

pub data ClientState : Type 0 where
  init disconnected connected subscribed closing : ClientState

abbrev pub counter_mod : ℕ
counter_mod = 2 ^ 64

pub record Client : Type 0 where
  pub ready_count : ℕ
  pub in_flight_count : ℕ
  pub message_count : ℕ
  pub finish_count : ℕ
  pub requeue_count : ℕ
  pub state : ClientState

abbrev pub increment : ℕ → ℕ
increment n = (n + 1) % counter_mod

abbrev pub decrement : ℕ → ℕ
decrement n = (n + counter_mod - 1) % counter_mod

-- a <= b of two int64
abbrev pub int64_le : ℕ → ℕ → Bool
int64_le a b = leb ((a + 2 ^ 63) % counter_mod) ((b + 2 ^ 63) % counter_mod)

-- IsReadyForMessages, given whether the channel of the client is paused
unfoldable pub is_ready_for_messages : Bool → Client → Bool
is_ready_for_messages paused c =
    if paused
    then false
    else if int64_le c.ready_count c.in_flight_count || int64_le c.ready_count 0
    then false
    else true

unfoldable pub set_ready_count : Client → ℕ → Client
set_ready_count c count = record c { ready_count = count }

unfoldable pub finished_message : Client → Client
finished_message c = record c {
  finish_count = increment c.finish_count;
  in_flight_count = decrement c.in_flight_count;
}

unfoldable pub empty : Client → Client
empty c = record c { in_flight_count = 0 }

unfoldable pub sending_message : Client → Client
sending_message c = record c {
  in_flight_count = increment c.in_flight_count;
  message_count = increment c.message_count;
}

unfoldable pub timed_out_message : Client → Client
timed_out_message c = record c { in_flight_count = decrement c.in_flight_count }

unfoldable pub requeued_message : Client → Client
requeued_message c = record c {
  requeue_count = increment c.requeue_count;
  in_flight_count = decrement c.in_flight_count;
}

unfoldable pub start_close : Client → Client
unfolding set_ready_count
start_close c = record (set_ready_count c 0) { state = closing }
