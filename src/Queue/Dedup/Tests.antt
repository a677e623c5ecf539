-- ===== src/Queue/Dedup/Tests.antt =====
-- A dedup key at concrete inputs: the first message is delivered and acknowledged before the second
-- Enqueue with its key.
use stitch.Prelude.{◌≡◌, refl, inc64, true, none, some, [], ◌∷◌, ◌++◌, ok, arith}
use stitch.Prelude.Int.{pos}
use stitch.Prelude.Map
use stitch.Queue.Message.{Config, fifo, manager_closed}
use stitch.Queue.Live.{Queue, new_queue, dedup_hit, make_message}
use stitch.Queue.Ops.{Trace, enqueue, try_dequeue, ack}
use stitch.Manager.Mirror.History.{Move, History}
use stitch.Queue.Dedup.Window.{dedup_window}

abbrev jobs : Config
jobs = record {
  name = "jobs";
  mode = fifo;
  priority = true;
  delay = true;
  visibility_timeout_ms = pos 1000;
  max_attempts = pos 3;
  dlq = true;
}

abbrev first : Queue
first = (enqueue 100 101 "a" (1 ∷ []) (pos 3) (pos 0) "key" none (new_queue jobs)).1.0

abbrev leased : Queue
leased = (try_dequeue 120 1 (λ i. "t") none first).1.0

abbrev done : Queue
done = (ack "a" "t" none leased).1.0

abbrev trace : Trace
trace = (try_dequeue 120 1 (λ i. "t") none first).1.1 ++ ((ack "a" "t" none leased).1.1 ++ [])

meanwhile : History first trace done
meanwhile =
    History.next _ _ _ _ _ (Move.dequeued 120 1 (λ i. "t") none first)
      (History.next _ _ _ _ _ (Move.acked "a" "t" none leased) (History.stop done))

dedup_window_example :
    enqueue 200 201 "b" (2 ∷ []) (pos 0) (pos 0) "key" (some manager_closed) done ≡ (
      ok (make_message 100 "a" (1 ∷ []) (pos 3) (pos 0) "key" (new_queue jobs), true),
      (record done { cnt = record done.cnt { deduped = inc64 done.cnt.deduped } }, []),
    )
unfolding dedup_hit meanwhile Map.lookup
dedup_window_example =
    dedup_window 100 101 200 201 "a" "b" (1 ∷ []) (2 ∷ []) (pos 3) (pos 0) (pos 0) (pos 0) "key"
      (some manager_closed) (new_queue jobs) done trace refl meanwhile refl (refl, (refl, tt))
      (omega arith)
