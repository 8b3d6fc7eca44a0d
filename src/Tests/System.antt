-- ===== src/Tests/System.antt =====
-- nsqd/channel.go with the queue of internal/pqueue: a channel to which two messages are published,
-- one of them with a delay.
use nsq.Common.{
  ℕ, ◌+◌, ◌≤◌, ◌≡◌, refl, Bool, false, List, [], ◌∷◌, Option, none, some, arith, count, bytes_eq,
}
use nsq.Common.Map.{lookup, insert, lookup-nil}
use nsq.Nsqd.InFlight.{new_in_flight_pqueue, up}
use nsq.Nsqd.Channel.{Channel, Item, id_of, pri_of}
use nsq.Nsqd.Channel.InFlight.{InQueue}
use nsq.Nsqd.Channel.Scan.{
  init_pq, put, put_message, push_deferred_message, put_message_deferred, start_deferred_timeout,
  process_deferred_queue, scan_channel,
}
use nsq.Nsqd.Channel.Deferred.{IsDeferring}
use nsq.Nsqd.Channel.Deferred.Scan.{Handed, process_deferred_queue-Handed}
use nsq.Nsqd.Channel.System.{sums, only}
use nsq.Nsqd.Channel.System.Steps.{state, IsNew, publish, publish_deferred, Reach, start, later}
use nsq.Nsqd.Channel.System.Reach.{Reach-Inv}
use nsq.Nsqd.Channel.System.Promise.{Reach-conserves, Reach-scan_channel}
use nsq.Nsqd.Deferred.{PriorityQueue, priority_queue, new_queue, push_item, heap_push, append_item}
use nsq.Nsqd.Deferred.Refines.{holds, IsGood, priority_queue-IsPriorityQueue}
use nsq.Tests.InFlight.{entries}
use nsq.Tests.Producer.{kept}

abbrev pub Sample : Type 0
Sample = Channel PriorityQueue (List (List ℕ))

abbrev pub unused : Sample
unused = record {
  message = entries;
  requeue_count = 0;
  message_count = 0;
  timeout_count = 0;
  memory = [];
  memory_size = 10;
  backend = [];
  is_exiting = false;
  clients = [];
  paused = false;
  ephemeral = false;
  deferred_messages = [];
  deferred_pq = new_queue 1;
  in_flight_messages = [];
  in_flight_pq = record { items = []; index = λ r. none; capacity = 1 };
}

abbrev pub fresh : Sample
fresh = init_pq {E = Unit} priority_queue kept unused

-- Message 6 is in memory.
abbrev loaded : Sample
loaded = (put_message priority_queue kept fresh 6).0

fresh-IsNew : IsNew fresh 6
unfolding init_pq new_in_flight_pqueue
fresh-IsNew = record { absent = refl; id_absent = λ x h. absurd (omega arith); room = omega arith }

loaded_run : put_message priority_queue kept fresh 6 ≡ (loaded, none)
unfolding init_pq put_message put
loaded_run = refl

loaded-Reach : Reach priority_queue kept (state loaded (6 ∷ []) [])
loaded-Reach =
    later _ _ (start unused refl refl) (publish fresh loaded 6 [] [] fresh-IsNew loaded_run)

loaded-IsNew : IsNew loaded 5
unfolding init_pq new_in_flight_pqueue put_message put
loaded-IsNew = record { absent = refl; id_absent = λ x h e. ground (arith, e); room = omega arith }

abbrev or_loaded : Option Sample → Sample
or_loaded none = loaded
or_loaded (some c) = c

-- Message 5 is deferred until 40 besides.
abbrev waiting : Sample
waiting = or_loaded (put_message_deferred {E = Unit} priority_queue kept loaded 5 10 30)

waiting_run : put_message_deferred {E = Unit} priority_queue kept loaded 5 10 30 ≡ some waiting
unfolding init_pq put_message put put_message_deferred start_deferred_timeout push_deferred_message
    push_item heap_push append_item up new_queue new_in_flight_pqueue lookup insert
waiting_run = refl

waiting-Reach : Reach priority_queue kept (state waiting (5 ∷ 6 ∷ []) [])
waiting-Reach =
    later _ _ loaded-Reach
      (publish_deferred loaded waiting 5 10 30 (6 ∷ []) [] loaded-IsNew waiting_run)

waiting_due : (id : List ℕ) (i : Item) → lookup id waiting.deferred_messages ≡ some i → i.1 ≤ 50
unfolding init_pq put_message put put_message_deferred start_deferred_timeout push_deferred_message
    push_item heap_push append_item up new_queue new_in_flight_pqueue lookup insert
waiting_due id i h = ground (arith, h)

waiting_flight : (r : ℕ) → InQueue waiting r → pri_of waiting r ≤ 50
unfolding init_pq put_message put put_message_deferred start_deferred_timeout push_deferred_message
    push_item heap_push append_item up new_queue new_in_flight_pqueue lookup insert
waiting_flight r h = absurd (omega arith)

Reach-conserves_example :
    (count 5 (5 ∷ 6 ∷ []) ≡ sums (only 5) waiting + 0) × (sums (only 5) waiting ≤ 1)
Reach-conserves_example =
    Reach-conserves priority_queue kept holds IsGood priority_queue-IsPriorityQueue
      (state waiting (5 ∷ 6 ∷ []) []) 5 waiting-Reach

Reach-scan_channel_example :
    (c' : Sample) × (dirty : Bool) × (scan_channel priority_queue kept waiting 50
      ≡ some (c', dirty))
    × ((r : ℕ) → count r (5 ∷ 6 ∷ []) ≡ count r c'.memory + count r [])
Reach-scan_channel_example =
    Reach-scan_channel priority_queue kept holds IsGood priority_queue-IsPriorityQueue
      (state waiting (5 ∷ 6 ∷ []) []) 50 waiting-Reach waiting_flight waiting_due

waiting_running : waiting.is_exiting ≡ false
waiting_running =
    (Reach-Inv priority_queue kept holds IsGood priority_queue-IsPriorityQueue
      waiting-Reach).sound.running

waiting-IsDeferring : IsDeferring holds IsGood waiting
waiting-IsDeferring =
    (Reach-Inv priority_queue kept holds IsGood priority_queue-IsPriorityQueue
      waiting-Reach).sound.deferring

process_deferred_queue-Handed_example :
    (c' : Sample) × (is : List Item) × (dirty : Bool) × (process_deferred_queue priority_queue kept
        waiting 50
      ≡ some (c', dirty))
    × Handed priority_queue kept holds IsGood priority_queue-IsPriorityQueue waiting 50 is c'
process_deferred_queue-Handed_example =
    process_deferred_queue-Handed priority_queue kept holds IsGood priority_queue-IsPriorityQueue
      waiting 50 waiting_running waiting-IsDeferring

loaded-IsDeferring : IsDeferring holds IsGood loaded
loaded-IsDeferring =
    (Reach-Inv priority_queue kept holds IsGood priority_queue-IsPriorityQueue
      loaded-Reach).sound.deferring

loaded_free : lookup (id_of loaded 5) loaded.deferred_messages ≡ none
unfolding init_pq put_message put
loaded_free = lookup-nil (id_of loaded 5)
