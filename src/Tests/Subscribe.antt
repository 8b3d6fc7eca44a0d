-- ===== src/Tests/Subscribe.antt =====
-- nsqd/protocol_v2.go: SUB to an ephemeral channel that is on its way out at the first attempt.
use nsq.Common.{ℕ, true, false, List, nat_beq}
use nsq.Nsqd.Commands.Subscribe.{Found}
use nsq.Tests.System.{unused}
use nsq.Nsqd.Deferred.{PriorityQueue}

abbrev attempt : ℕ → Found PriorityQueue (List (List ℕ))
attempt i = record {
  channel = record unused { ephemeral = true; is_exiting = nat_beq i 0 };
  topic_ephemeral = false;
  topic_exiting = false;
}
