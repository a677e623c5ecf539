-- ===== src/Queue/Waking/Tests.antt =====
-- The maintenance goroutine at concrete inputs: it sleeps without a timer while a message is
-- enqueued and leased, which leaves it a token.
use stitch.Prelude.{◌≡◌, ◌⊎◌, refl, true, none, [], ◌∷◌}
use stitch.Prelude.Int.{pos}
use stitch.Queue.Message.{Config, Message, fifo}
use stitch.Queue.Live.{Queue, new_queue, dedup_hit, make_message, enqueue_reserve, enqueue_commit}
use stitch.Queue.Ops.{next_deadline}
use stitch.Queue.Invariant.Operations.{new_queue-Balanced}
use stitch.Queue.Interleaving.{Step}
use stitch.Queue.Waking.{Phase, Turn, Turns}
use stitch.Queue.Waking.Heeds.{due_times, missed}
use stitch.Queue.Waking.Alert.{no_lost_wakeup}

abbrev jobs : Config
jobs = record {
  name = "jobs";
  mode = fifo;
  priority = true;
  delay = true;
  visibility_timeout_ms = pos 1000;
  max_attempts = pos 3;
  dlq = true;
}

abbrev late : Message
late = make_message 100 "a" (1 ∷ []) (pos 3) (pos 9000000) "" (new_queue jobs)

abbrev reserved : Queue
reserved = enqueue_reserve late (next_deadline (new_queue jobs)).1

abbrev delayed_one : Queue
delayed_one = (enqueue_commit late none 101 reserved).1

asleep :
    Turns
      (record { world = record { queue = new_queue jobs; pending = [] }; phase = Phase.arming })
      (record { world = record { queue = delayed_one; pending = [] }; phase = Phase.sleeping 0 })
unfolding next_deadline dedup_hit enqueue_reserve make_message
asleep = Turns.turn _ _ _ (Turn.rearmed (new_queue jobs) []) (
    Turns.turn _ _ _
      (Turn.others _ _ (Phase.sleeping 0)
        (Step.enqueue_start 100 "a" (1 ∷ []) (pos 3) (pos 9000000) ""
          (next_deadline (new_queue jobs)).1 [] refl)
        refl)
      (Turns.turn _ _ _
        (Turn.others _ _ (Phase.sleeping 0) (Step.enqueue_end late none 101 reserved [] [] refl)
          refl)
        (Turns.stop _)))

no_lost_wakeup_example : (delayed_one.wake ≡ true) ⊎ (due_times (missed 0) delayed_one ≡ 0)
no_lost_wakeup_example =
    no_lost_wakeup (new_queue jobs) 0 (record { queue = delayed_one; pending = [] })
      (new_queue-Balanced jobs) refl asleep
