-- ===== src/Tests/Producer.antt =====
-- nsqd/topic.go and nsqd/client_v2.go.
use nsq.Common.{ℕ, ◌≡◌, refl, false, List, [], ◌∷◌, ◌++◌, none, length}
use nsq.Nsqd.Message.{Message}
use nsq.Nsqd.Client.{Client, subscribed}
use nsq.Nsqd.Channel.{BackendQueue}
use nsq.Nsqd.Commands.{milliseconds}
use nsq.Nsqd.Publish.{Topic, put}

-- A backend that keeps what it is given.
abbrev pub kept : BackendQueue (List (List ℕ)) Unit
kept = record {
  put = λ b m. (b ++ m ∷ [], none);
  empty = λ b. ([], none);
  delete = λ b. ([], none);
  close = λ b. (b, none);
  depth = λ b. length b;
}

abbrev published : ℕ → Message
published n = record { id = n ∷ []; body = n ∷ n ∷ []; timestamp = 1; attempts = 0; deferred = 0 }

-- A topic with room for one message more.
abbrev topic : Topic (List (List ℕ))
topic = record {
  memory = published 1 ∷ [];
  memory_size = 2;
  backend = [];
  is_exiting = false;
  message_count = 1;
  message_bytes = 2;
}

abbrev batch : List Message
batch = published 2 ∷ published 3 ∷ []

abbrev busy : Client
busy = record {
  ready_count = 3;
  in_flight_count = 2;
  message_count = 9;
  finish_count = 6;
  requeue_count = 1;
  state = subscribed;
}

-- A timeout of DPUB of more than 584 years wraps to less than a millisecond.
timeout_wraps : milliseconds 18446744073710 ≡ 448384
timeout_wraps = refl
