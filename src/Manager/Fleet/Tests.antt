-- ===== src/Manager/Fleet/Tests.antt =====
-- The life of a manager with two queues, and what a restart makes of it.
use stitch.Prelude.{◌≡◌, refl, true, String, none, some, [], ◌∷◌, ◌++◌, ok}
use stitch.Prelude.Int.{pos}
use stitch.Prelude.Map
use stitch.Queue.Message.{Config, fifo, lifo, manager_closed, normalize, name_matches}
use stitch.Queue.Live.{
  Queue, new_queue, dedup_hit, make_message, enqueue_reserve, enqueue_commit, put, wake_if_sooner,
}
use stitch.Queue.Ops.{Trace, enqueue, try_dequeue}
use stitch.Manager.{Manager, Replay, create_queue}
use stitch.Manager.Mirror.{logged}
use stitch.Manager.Mirror.History.{Move}
use stitch.Manager.Finalize.{finalize}
use stitch.Manager.Finalize.Restart.{Restarted}
use stitch.Manager.Fleet.{Act, Life, new_manager, new_replay, fold_replay}
use stitch.Manager.Fleet.Laws.{fleet_restarts}

abbrev jobs : Config
jobs = record {
  name = "jobs";
  mode = fifo;
  priority = true;
  delay = true;
  visibility_timeout_ms = pos 1000;
  max_attempts = pos 3;
  dlq = true;
}

abbrev mail : Config
mail = record jobs { name = "mail"; mode = lifo }

abbrev with : String → Queue → Manager → Manager
with name q m = record m { queues = Map.update name q m.queues }

-- A queue is created, a message comes to it, another queue is created, a message is refused there,
-- and a lease is granted in the first.
abbrev m1 : Manager
m1 = (create_queue jobs none new_manager).1.0

abbrev jobs1 : Queue
jobs1 = (enqueue 100 101 "a" (1 ∷ 2 ∷ []) (pos 3) (pos 0) "" none (new_queue jobs)).1.0

abbrev m2 : Manager
m2 = with "jobs" jobs1 m1

abbrev m3 : Manager
m3 = (create_queue mail none m2).1.0

abbrev mail1 : Queue
mail1 = (enqueue 110 111 "b" (7 ∷ []) (pos 0) (pos 0) "" (some manager_closed) (new_queue mail)).1.0

abbrev m4 : Manager
m4 = with "mail" mail1 m3

abbrev jobs2 : Queue
jobs2 = (try_dequeue 120 1 (λ i. "t") none jobs1).1.0

abbrev m5 : Manager
m5 = with "jobs" jobs2 m4

abbrev trace : Trace
trace =
    (create_queue jobs none new_manager).1.1
    ++ ((enqueue 100 101 "a" (1 ∷ 2 ∷ []) (pos 3) (pos 0) "" none (new_queue jobs)).1.1
        ++ ((create_queue mail none m2).1.1
            ++ ((enqueue 110 111 "b" (7 ∷ []) (pos 0) (pos 0) "" (some manager_closed)
                  (new_queue mail)).1.1
                ++ ((try_dequeue 120 1 (λ i. "t") none jobs1).1.1 ++ []))))

life : Life new_manager trace m5
unfolding create_queue normalize name_matches Map.lookup Map.insert Map.update enqueue dedup_hit
    make_message enqueue_reserve enqueue_commit put wake_if_sooner
life = Life.next _ _ _ _ _ (Act.created jobs none new_manager) (
    Life.next _ _ _ _ _
      (Act.moved (new_queue jobs) jobs1 _ m1 refl
        (Move.enqueued 100 101 "a" (1 ∷ 2 ∷ []) (pos 3) (pos 0) "" none (new_queue jobs) refl))
      (Life.next _ _ _ _ _ (Act.created mail none m2) (
        Life.next _ _ _ _ _
          (Act.moved (new_queue mail) mail1 _ m3 refl (
            Move.enqueued 110 111 "b" (7 ∷ []) (pos 0) (pos 0) "" (some manager_closed)
              (new_queue mail) refl))
          (Life.next _ _ _ _ _
            (Act.moved jobs1 jobs2 _ m4 refl (Move.dequeued 120 1 (λ i. "t") none jobs1))
            (Life.stop m5)))))

fleet_restarts_example :
    (r : Replay) × (fold_replay (logged trace) new_replay ≡ ok r)
    × ((n : String) (q : Queue)
        → Map.lookup n m5.queues ≡ some q
        → (q' : Queue) × (Map.lookup n (finalize 160 r).queues ≡ some q') × Restarted q q')
fleet_restarts_example = fleet_restarts trace m5 160 life
