-- ===== src/Queue/Polling/Tests.antt =====
-- Dequeue at concrete inputs.
use stitch.Prelude.{ℕ, ◌≡◌, refl, true, none, List, [], ◌∷◌, arith}
use stitch.Prelude.Int.{pos}
use stitch.Queue.Message.{fifo}
use stitch.Queue.Live.{Queue, new_queue, promote, promote_due}
use stitch.Queue.Order.{ready_pop}
use stitch.Queue.Heap
use stitch.Queue.Ops.{try_dequeue, pick, dequeue_commit}
use stitch.Queue.Polling.{Round, timer_fired, context_done, after_try, poll, dequeue}
use stitch.Queue.Polling.Laws.{has_ended, dequeue_ends, dequeue-silent}

abbrev idle_queue : Queue
idle_queue = new_queue (record {
  name = "jobs";
  mode = fifo;
  priority = true;
  delay = true;
  visibility_timeout_ms = pos 1000;
  max_attempts = pos 3;
  dlq = true;
})

-- A try at a time after which the timer fires, while nothing else happens.
abbrev round : ℕ → Round
round checked = record {
  now = 1000;
  token = λ i. "t";
  answer = none;
  checked = checked;
  woken = timer_fired;
  meanwhile = λ q. q;
}

abbrev rounds : List Round
rounds =
    round 100
    ∷ round 5000100
    ∷ round 10000200
    ∷ record (round 12000100) { woken = context_done }
    ∷ []

dequeue_ends_example : has_ended (dequeue 100 (pos 1) 12000000 rounds idle_queue).0 ≡ true
dequeue_ends_example =
    dequeue_ends 100 (pos 1) 12000000 3 rounds idle_queue
      (omega arith, (omega arith, (omega arith, (omega arith, tt)))) (omega arith) (omega arith)

dequeue-silent_example : (dequeue 100 (pos 1) 12000000 rounds idle_queue).1.1 ≡ []
unfolding dequeue poll after_try try_dequeue pick dequeue_commit promote_due promote ready_pop
    Heap.pop
dequeue-silent_example = dequeue-silent 100 (pos 1) 12000000 rounds idle_queue refl
