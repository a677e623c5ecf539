-- ===== src/Queue/Tests.antt =====
-- Tests of a queue, and its theorems at concrete inputs.
use stitch.Prelude.{◌+◌, ◌≡◌, refl, true, false, none, [], ◌∷◌, ok, err, arith}
use stitch.Prelude.Int.{pos}
use stitch.Queue.Message.{
  Config, Message, normalize, name_matches, fifo, default_visibility_timeout, default_max_attempts,
  invalid_queue_cfg, bad_mode,
}
use stitch.Queue.Message.Normal.{IsNormal, normalize-IsNormal}
use stitch.Queue.Heap
use stitch.Queue.Order.{less, ready_less, no_message, ready_push, ready_pop}
use stitch.Queue.Live.{Queue, new_queue}
use stitch.Queue.Ops.{pick, enqueue, try_dequeue, stats}
use stitch.Queue.Invariant.{Balanced}
use stitch.Queue.Invariant.Waiting.{ready_push-ReadyHeap}
use stitch.Queue.Invariant.Operations.{
  new_queue-Balanced, enqueue-Balanced, try_dequeue-Balanced, stats-total,
}
use stitch.Queue.Delivery.{Picked, pick-Picked}

abbrev jobs : Config
jobs = record {
  name = "jobs";
  mode = "";
  priority = true;
  delay = true;
  visibility_timeout_ms = pos 0;
  max_attempts = pos 0;
  dlq = true;
}

-- The configuration with its defaults filled in.
abbrev normal_jobs : Config
normal_jobs = record jobs {
  mode = fifo;
  visibility_timeout_ms = default_visibility_timeout;
  max_attempts = default_max_attempts;
}

normalize_test : normalize jobs ≡ ok normal_jobs
unfolding normalize name_matches
normalize_test = refl

normalize_mode_test : normalize (record jobs { mode = "heap" }) ≡ err (invalid_queue_cfg bad_mode)
unfolding normalize name_matches
normalize_mode_test = refl

abbrev low : Message
low = record no_message { id = "low"; priority = pos 1; seq = 1 }

abbrev high : Message
high = record no_message { id = "high"; priority = pos 7; seq = 2 }

abbrev two_ready : Queue
two_ready = record (new_queue (record jobs { mode = fifo })) {
  seq = 2;
  ready = ready_push false (ready_push false [] low) high;
}

pick_test : (pick 5 two_ready []).1 ≡ high ∷ low ∷ []
unfolding pick ready_push ready_pop Heap.push Heap.up ready_less less Heap.swap Heap.pop Heap.down
pick_test = refl

pick-Picked_example : Picked 5 two_ready (pick 5 two_ready [])
pick-Picked_example = pick-Picked 5 two_ready (
    ready_push-ReadyHeap false (ready_push false [] low) high
      (ready_push-ReadyHeap false [] low (λ c p lt. absurd (omega (arith, lt)))))

-- A queue that a message was put into, and then the queue from which it was leased.
abbrev enqueued : Queue
enqueued =
    (enqueue 100 101 "a" (1 ∷ 2 ∷ []) (pos 3) (pos 0) "" none
      (new_queue (record jobs { mode = fifo }))).1.0

abbrev leased : Queue
leased = (try_dequeue 200 4 (λ _. "token") none enqueued).1.0

enqueued-Balanced : Balanced [] enqueued
enqueued-Balanced =
    enqueue-Balanced [] 100 101 "a" (1 ∷ 2 ∷ []) (pos 3) (pos 0) "" none
      (new_queue (record jobs { mode = fifo })) refl
      (new_queue-Balanced (record jobs { mode = fifo }))

leased-Balanced : Balanced [] leased
leased-Balanced = try_dequeue-Balanced [] 200 4 (λ _. "token") none enqueued enqueued-Balanced

stats-total_example :
    (stats 300 leased).0.depth
      + (stats 300 leased).0.delayed
      + (stats 300 leased).0.in_flight
      + (stats 300 leased).0.dlq
    ≡ (stats 300 leased).0.total
stats-total_example = stats-total 300 leased leased-Balanced

normalize-IsNormal_example :
    IsNormal normal_jobs
    × (normal_jobs ≡ record jobs {
      mode = fifo;
      visibility_timeout_ms = default_visibility_timeout;
      max_attempts = default_max_attempts;
    })
unfolding normalize name_matches
normalize-IsNormal_example = normalize-IsNormal jobs normal_jobs refl
