-- ===== src/Queue/Interleaving/Tests.antt =====
-- Two callers of Enqueue and one of Dequeue on one queue, their locked parts interleaved.
use stitch.Prelude.{◌+◌, ◌≤◌, ◌≡◌, refl, true, none, [], ◌∷◌}
use stitch.Prelude.Int.{pos}
use stitch.Prelude.Map
use stitch.Prelude.Tally.{tally}
use stitch.Queue.Message.{Config, Message, fifo}
use stitch.Queue.Live.{
  Queue, new_queue, dedup_hit, make_message, enqueue_reserve, enqueue_commit, put, promote_due,
}
use stitch.Queue.Ops.{pick}
use stitch.Queue.Invariant.{by_id, waiting}
use stitch.Queue.Interleaving.{Pending, World, Step, Run}
use stitch.Queue.Interleaving.Safe.{held, interleaved_once}

abbrev jobs : Config
jobs = record {
  name = "jobs";
  mode = fifo;
  priority = true;
  delay = true;
  visibility_timeout_ms = pos 1000;
  max_attempts = pos 3;
  dlq = true;
}

abbrev first : Message
first = make_message 10 "a" (1 ∷ []) (pos 0) (pos 0) "" (new_queue jobs)

-- The first caller's append runs.
abbrev one_reserved : Queue
one_reserved = enqueue_reserve first (new_queue jobs)

abbrev second : Message
second = make_message 11 "b" (2 ∷ []) (pos 5) (pos 0) "" one_reserved

abbrev both_reserved : Queue
both_reserved = enqueue_reserve second one_reserved

-- The first caller's append is done, the second's still runs.
abbrev one_in : Queue
one_in = (enqueue_commit first none 12 both_reserved).1

-- A consumer takes what is ready.
abbrev last : World
last = record {
  queue = (pick 5 (promote_due 13 one_in) []).0;
  pending =
      Pending.granting 1013 (λ _. "token") (pick 5 (promote_due 13 one_in) []).1
      ∷ Pending.enqueueing second
      ∷ [];
}

path : Run (record { queue = new_queue jobs; pending = [] }) last
unfolding dedup_hit make_message enqueue_reserve enqueue_commit put
path =
    Run.step _ (record { queue = one_reserved; pending = Pending.enqueueing first ∷ [] }) _
      (Step.enqueue_start 10 "a" (1 ∷ []) (pos 0) (pos 0) "" (new_queue jobs) [] refl)
      (Run.step _
        (record {
          queue = both_reserved;
          pending = Pending.enqueueing second ∷ Pending.enqueueing first ∷ [];
        })
        _
        (Step.enqueue_start 11 "b" (2 ∷ []) (pos 5) (pos 0) "" one_reserved
          (Pending.enqueueing first ∷ []) refl)
        (Run.step _ (record { queue = one_in; pending = Pending.enqueueing second ∷ [] }) _
          (Step.enqueue_end first none 12 both_reserved (Pending.enqueueing second ∷ []) [] refl)
          (Run.step _ last _
            (Step.dequeue_start 13 5 (λ _. "token") one_in (Pending.enqueueing second ∷ []))
            (Run.stop last))))

interleaved_once_example :
    (waiting (Map.is "a") last.queue
        + tally (Map.is "a") (Map.keys last.queue.inflight)
        + tally (by_id (Map.is "a")) (held last.pending)
      ≡ tally (Map.is "a") (Map.keys last.queue.msgs))
    × (tally (Map.is "a") (Map.keys last.queue.msgs) ≤ 1)
interleaved_once_example = interleaved_once jobs last path "a"
