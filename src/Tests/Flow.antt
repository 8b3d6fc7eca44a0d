-- ===== src/Tests/Flow.antt =====
-- messagePump with a client that is ready for messages.
use nsq.Common.{ℕ, true, List, [], ◌∷◌, some}
use nsq.Nsqd.Channel.{Item}
use nsq.Nsqd.Commands.{Connection}
use nsq.Nsqd.Pump.{Pump, Event, start_pump, memory_message}
use nsq.Tests.InFlight.{connection, one}

abbrev running : Pump
running = record (start_pump 60000000000) { subscribed = true }

-- Message 6 waits in the memory of the channel.
abbrev waiting : Connection (List Item) (List (List ℕ))
waiting = record (connection 9) { channel = some (record one { memory = 6 ∷ [] }) }

abbrev next : Event
next = memory_message (record { draw = 0; now = 5; is_sent = true })
