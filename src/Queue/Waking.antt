-- ===== src/Queue/Waking.antt =====
-- internal/queue/queue.go: the maintenance goroutine (maintain, start) beside the callers of
-- Queue/Interleaving.antt. It arms itself with the next deadline, sleeps until the timer fires, a
-- token arrives on `wake` or `done` is closed, and runs Maintain when the timer fires; an error of
-- Maintain ends it. The other goroutines take the steps that are not of Maintain.
pub mod Heeds
pub mod Steps
pub mod Deadline
pub mod Pledges
pub mod Notice
pub mod Alert
mod Tests
use stitch.Prelude.{ℕ, ◌<◌, ◌≡◌, Bool, true, false, none, some, List, ◌∷◌, ◌++◌, ltb}
use stitch.Queue.Order.{LeaseEntry}
use stitch.Queue.Live.{Queue}
use stitch.Queue.Ops.{LogAnswer, next_deadline}
use stitch.Queue.Maintain.{is_empty, first_error, maintain_reserve, commit_requeue, commit_bury}
use stitch.Queue.Message.{Message}
use stitch.Queue.Interleaving.{Pending, World, Step}
use stitch.Prelude.{if◌then◌else◌}

-- Where the goroutine is: before nextDeadline, in one of the two selects (at 0 in the one without a
-- timer), in Maintain, with its reading of the clock and its first error so far, or returned.
pub data Phase : Type 0 where
  arming ended : Phase
  sleeping : ℕ → Phase
  reclaiming : ℕ → LogAnswer → Phase

pub record Site : Type 0 where
  pub world : World
  pub phase : Phase

-- The error that one append of Maintain adds; without messages there is no append.
abbrev pub error_of : List (Message × LeaseEntry) → LogAnswer → LogAnswer
error_of r answer = if is_empty r then none else answer

-- How the loop goes on after Maintain.
abbrev pub after_maintain : LogAnswer → Phase
after_maintain none = arming
after_maintain (some e) = ended

-- Whether a step is one of another goroutine, whose Dequeue reads a time after the epoch.
abbrev pub by_others : {u v : World} → Step u v → Bool
by_others (Step.enqueue_start now id body priority delay k q ps free) = true
by_others (Step.enqueue_deduped now k e q ps hit) = true
by_others (Step.enqueue_end m answer later q ps qs fresh) = true
by_others (Step.dequeue_start now n token q ps) = ltb 0 now
by_others (Step.dequeue_end expires token picked answer q ps qs) = true
by_others (Step.ack_start id token m q q1 ps took) = true
by_others (Step.ack_end id m answer q ps qs) = true
by_others (Step.nack_start now id token delay m q q1 ps took) = true
by_others (Step.nack_end m to_dlq visible_at now answer q ps qs) = true
by_others (Step.maintain_start now q ps) = false
by_others (Step.maintain_middle now requeue to_dlq answer q ps qs) = false
by_others (Step.maintain_end to_dlq answer q ps qs) = false
by_others (Step.stats_taken now q ps) = true
by_others (Step.timer_armed q ps) = false

-- One step of the goroutine, or of another.
pub data Turn : Site → Site → Type 0 where
  others :
      (u v : World) (phase : Phase) (s : Step u v)
      → by_others s ≡ true
      → Turn (record { world = u; phase = phase }) (record { world = v; phase = phase })
  rearmed :
      (q : Queue) (ps : List Pending)
      → Turn
          (record { world = record { queue = q; pending = ps }; phase = arming })
          (record {
            world = record { queue = (next_deadline q).1; pending = ps };
            phase = sleeping (next_deadline q).0;
          })
  nudged :
      (d : ℕ) (q : Queue) (ps : List Pending)
      → q.wake ≡ true
      → Turn
          (record { world = record { queue = q; pending = ps }; phase = sleeping d })
          (record {
            world = record { queue = record q { wake = false }; pending = ps };
            phase = arming;
          })
  closed :
      (d : ℕ) (w : World)
      → Turn (record { world = w; phase = sleeping d }) (record { world = w; phase = ended })
  fired :
      (d now : ℕ) (q : Queue) (ps : List Pending)
      → 0 < d
      → Turn
          (record { world = record { queue = q; pending = ps }; phase = sleeping d })
          (record {
            world = record {
              queue = (maintain_reserve now q).queue;
              pending =
                  Pending.requeueing
                    (maintain_reserve now q).requeue
                    (maintain_reserve now q).to_dlq
                  ∷ ps;
            };
            phase = reclaiming now none;
          })
  requeued :
      (now : ℕ) (e : LogAnswer) (requeue to_dlq : List (Message × LeaseEntry)) (answer : LogAnswer)
      (q : Queue) (ps qs : List Pending)
      → Turn
          (record {
            world = record { queue = q; pending = ps ++ Pending.requeueing requeue to_dlq ∷ qs };
            phase = reclaiming now e;
          })
          (record {
            world = record {
              queue = commit_requeue now requeue answer q;
              pending = ps ++ Pending.burying to_dlq ∷ qs;
            };
            phase = reclaiming now (first_error e (error_of requeue answer));
          })
  buried :
      (now : ℕ) (e : LogAnswer) (to_dlq : List (Message × LeaseEntry)) (answer : LogAnswer)
      (q : Queue) (ps qs : List Pending)
      → Turn
          (record {
            world = record { queue = q; pending = ps ++ Pending.burying to_dlq ∷ qs };
            phase = reclaiming now e;
          })
          (record {
            world = record { queue = commit_bury to_dlq answer q; pending = ps ++ qs };
            phase = after_maintain (first_error e (error_of to_dlq answer));
          })

-- Any number of steps.
pub data Turns : Site → Site → Type 0 where
  stop : (s : Site) → Turns s s
  turn : (r s t : Site) → Turn r s → Turns s t → Turns r t
