-- ===== src/Manager/Mirror/Tests.antt =====
-- A history of a queue, and what replay and a restart make of it.
use stitch.Prelude.{arith, inc64, ◌++◌, ◌≡◌, refl, true, none, some, [], ◌∷◌, ok}
use stitch.Prelude.Int.{pos}
use stitch.Queue.Message.{Config, fifo, manager_closed}
use stitch.Prelude.Map
use stitch.Queue.Live.{
  Queue, new_queue, enqueue_reserve, enqueue_commit, dedup_hit, make_message, put, wake_if_sooner,
}
use stitch.Queue.Ops.{Trace, enqueue, try_dequeue, nack}
use stitch.Manager.Mirror.{logged, fold_payloads, Reaches}
use stitch.Manager.Mirror.History.{Move, History, replay_refines}
use stitch.Manager.Mirror.Window.{dedup_restart}
use stitch.Manager.Finalize.{finalize_queue}
use stitch.Manager.Finalize.Restart.{Restarted, restart_lossless}

abbrev jobs : Config
jobs = record {
  name = "jobs";
  mode = fifo;
  priority = true;
  delay = true;
  visibility_timeout_ms = pos 1000;
  max_attempts = pos 3;
  dlq = true;
}

-- Two messages come, one lease is granted, another is refused by the log, the first message is
-- nacked and leased again.
abbrev q1 : Queue
q1 = (enqueue 100 101 "a" (1 ∷ 2 ∷ []) (pos 3) (pos 0) "" none (new_queue jobs)).1.0

abbrev q2 : Queue
q2 = (enqueue 110 111 "b" (4 ∷ []) (pos 1) (pos 0) "k" none q1).1.0

abbrev q3 : Queue
q3 = (try_dequeue 120 1 (λ i. "t") none q2).1.0

abbrev q4 : Queue
q4 = (try_dequeue 130 1 (λ i. "u") (some manager_closed) q3).1.0

abbrev q5 : Queue
q5 = (nack 140 "a" "t" (pos 0) none q4).1.0

abbrev q6 : Queue
q6 = (try_dequeue 150 2 (λ i. "v") none q5).1.0

abbrev trace : Trace
trace =
    (enqueue 100 101 "a" (1 ∷ 2 ∷ []) (pos 3) (pos 0) "" none (new_queue jobs)).1.1
    ++ ((enqueue 110 111 "b" (4 ∷ []) (pos 1) (pos 0) "k" none q1).1.1
        ++ ((try_dequeue 120 1 (λ i. "t") none q2).1.1
            ++ ((try_dequeue 130 1 (λ i. "u") (some manager_closed) q3).1.1
                ++ ((nack 140 "a" "t" (pos 0) none q4).1.1
                    ++ ((try_dequeue 150 2 (λ i. "v") none q5).1.1 ++ [])))))

history : History (new_queue jobs) trace q6
unfolding enqueue enqueue_reserve enqueue_commit dedup_hit make_message put wake_if_sooner
    Map.insert Map.lookup
history =
    History.next _ _ _ _ _
      (Move.enqueued 100 101 "a" (1 ∷ 2 ∷ []) (pos 3) (pos 0) "" none (new_queue jobs) refl)
      (History.next _ _ _ _ _ (Move.enqueued 110 111 "b" (4 ∷ []) (pos 1) (pos 0) "k" none q1 refl)
        (History.next _ _ _ _ _ (Move.dequeued 120 1 (λ i. "t") none q2) (
          History.next _ _ _ _ _ (Move.dequeued 130 1 (λ i. "u") (some manager_closed) q3) (
            History.next _ _ _ _ _ (Move.nacked 140 "a" "t" (pos 0) none q4) (
              History.next _ _ _ _ _ (Move.dequeued 150 2 (λ i. "v") none q5) (History.stop q6))))))

replay_refines_example : Reaches (logged trace) (new_queue jobs) q6
replay_refines_example = replay_refines jobs trace q6 history

restart_lossless_example :
    (r : Queue) × (fold_payloads (logged trace) (new_queue jobs) ≡ ok r)
    × Restarted q6 (finalize_queue 160 (("a", tt) ∷ ("b", tt) ∷ []) r)
restart_lossless_example = restart_lossless jobs trace q6 160 (("a", tt) ∷ ("b", tt) ∷ []) history

-- The dedup key of the message "b", sent again after a restart.
abbrev opening : Trace
opening = (enqueue 100 101 "a" (1 ∷ 2 ∷ []) (pos 3) (pos 0) "" none (new_queue jobs)).1.1 ++ []

before : History (new_queue jobs) opening q1
before =
    History.next _ _ _ _ _
      (Move.enqueued 100 101 "a" (1 ∷ 2 ∷ []) (pos 3) (pos 0) "" none (new_queue jobs) refl)
      (History.stop q1)

abbrev closing : Trace
closing =
    (try_dequeue 120 1 (λ i. "t") none q2).1.1
    ++ ((try_dequeue 130 1 (λ i. "u") (some manager_closed) q3).1.1
        ++ ((nack 140 "a" "t" (pos 0) none q4).1.1 ++ []))

meanwhile : History q2 closing q5
meanwhile = History.next _ _ _ _ _ (Move.dequeued 120 1 (λ i. "t") none q2) (
    History.next _ _ _ _ _ (Move.dequeued 130 1 (λ i. "u") (some manager_closed) q3)
      (History.next _ _ _ _ _ (Move.nacked 140 "a" "t" (pos 0) none q4) (History.stop q5)))

abbrev restarted : Queue → Queue
restarted r = finalize_queue 160 [] r

dedup_restart_example :
    (r : Queue) × (fold_payloads
        (logged
          (opening ++ ((enqueue 110 111 "b" (4 ∷ []) (pos 1) (pos 0) "k" none q1).1.1 ++ closing)))
        (new_queue jobs)
      ≡ ok r)
    × (enqueue 200 201 "c" (5 ∷ []) (pos 2) (pos 0) "k" none (restarted r) ≡ (
      ok (make_message 110 "b" (4 ∷ []) (pos 1) (pos 0) "k" q1, true),
      (
        record (restarted r) {
          cnt = record (restarted r).cnt { deduped = inc64 (restarted r).cnt.deduped };
        },
        [],
      ),
    ))
unfolding before meanwhile enqueue enqueue_reserve enqueue_commit dedup_hit make_message put
    wake_if_sooner Map.insert Map.lookup
dedup_restart_example =
    dedup_restart jobs 110 111 160 200 201 "b" "c" (4 ∷ []) (5 ∷ []) (pos 1) (pos 2) (pos 0) (pos 0)
      "k" none [] q1 q5 opening closing before refl refl meanwhile refl (refl, (refl, (refl, tt)))
      (omega arith) (omega arith)
