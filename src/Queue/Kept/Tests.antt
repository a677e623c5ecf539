-- ===== src/Queue/Kept/Tests.antt =====
-- A Dequeue and a Maintain at concrete inputs: a message is leased after a first append failed, and
-- its lease runs out.
use stitch.Prelude.{refl, true, none, some, [], ◌∷◌}
use stitch.Prelude.Int.{pos}
use stitch.Queue.Message.{Config, fifo, manager_closed}
use stitch.Queue.Live.{Queue, new_queue}
use stitch.Queue.Ops.{enqueue, try_dequeue}
use stitch.Queue.Maintain.{maintain}
use stitch.Queue.Invariant.{Balanced}
use stitch.Queue.Invariant.Operations.{new_queue-Balanced, enqueue-Balanced, try_dequeue-Balanced}
use stitch.Queue.Kept.{handed}
use stitch.Queue.Kept.Dequeue.{Handed, try_dequeue-Handed}
use stitch.Queue.Kept.Maintain.Whole.{Maintained, maintain-Maintained}

abbrev jobs : Config
jobs = record {
  name = "jobs";
  mode = fifo;
  priority = true;
  delay = true;
  visibility_timeout_ms = pos 1000;
  max_attempts = pos 3;
  dlq = true;
}

abbrev filled : Queue
filled = (enqueue 100 101 "a" (1 ∷ 2 ∷ []) (pos 3) (pos 0) "" none (new_queue jobs)).1.0

filled-Balanced : Balanced [] filled
filled-Balanced =
    enqueue-Balanced [] 100 101 "a" (1 ∷ 2 ∷ []) (pos 3) (pos 0) "" none (new_queue jobs) refl
      (new_queue-Balanced jobs)

try_dequeue-Handed_example :
    Balanced [] (try_dequeue 200 4 (λ i. "t") (some manager_closed) filled).1.0
    × Handed
        (handed (try_dequeue 200 4 (λ i. "t") (some manager_closed) filled).0)
        filled
        (try_dequeue 200 4 (λ i. "t") (some manager_closed) filled).1.0
try_dequeue-Handed_example =
    try_dequeue-Handed [] 200 4 (λ i. "t") (some manager_closed) filled filled-Balanced

abbrev leased : Queue
leased = (try_dequeue 200 4 (λ i. "t") none filled).1.0

leased-Balanced : Balanced [] leased
leased-Balanced = try_dequeue-Balanced [] 200 4 (λ i. "t") none filled filled-Balanced

maintain-Maintained_example :
    Balanced [] (maintain 1500 (some manager_closed) none leased).1.0
    × Maintained
        (some manager_closed)
        none
        leased
        (maintain 1500 (some manager_closed) none leased).1.0
maintain-Maintained_example =
    maintain-Maintained [] 1500 (some manager_closed) none leased leased-Balanced
