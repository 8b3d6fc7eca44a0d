-- ===== src/Nsqd/Pump/Flow.antt =====
-- Flow control: which message a round of messagePump sends to its client, and what it counts.
use nsq.Common.{nat_eq, bytes_eq}
use nsq.Nsqd.Channel.{Channel}
use nsq.Nsqd.Pump.{Pump}
