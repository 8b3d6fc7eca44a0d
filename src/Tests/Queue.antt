-- ===== src/Tests/Queue.antt =====
-- nsqd/in_flight_pqueue.go on a queue of three messages.
use nsq.Common.{
  ℕ, zero, suc, ◌*◌, ◌≡◌, refl, [], ◌∷◌, none, some, arith, if◌then◌else◌, ◌==◌, nat_eq,
}
use nsq.Nsqd.InFlight.{Pqueue, remove}
use nsq.Nsqd.InFlight.Arrays.{IsIndexed}
use nsq.Nsqd.InFlight.Queue.{IsQueue, Removed}
use nsq.Nsqd.InFlight.Shrink.{remove_correct}

-- Message r is due at 10 * r.
abbrev due_at : ℕ → ℕ
due_at r = r * 10

abbrev three : Pqueue
three = record {
  items = 1 ∷ 3 ∷ 2 ∷ [];
  index =
      λ r. if r == 1 then some 0 else if r == 3 then some 1 else if r == 2 then some 2 else none;
  capacity = 3;
}

three-IsIndexed : IsIndexed three
three-IsIndexed zero h = refl
three-IsIndexed (suc zero) h = refl
three-IsIndexed (suc (suc zero)) h = refl
three-IsIndexed (suc (suc (suc i))) h = absurd (omega arith)

three-IsQueue : IsQueue due_at three
three-IsQueue = record {
  heap = λ c p q. ground arith;
  indexed = three-IsIndexed;
  room = omega arith;
  positive = omega arith;
}

remove_correct_example :
    (q' : Pqueue) × (remove due_at three 1 ≡ some (3, q')) × Removed due_at three 3 q'
remove_correct_example = remove_correct due_at three 1 three-IsQueue (omega arith)
