-- ===== src/Queue/Interleaving/Safe.antt =====
-- The messages of a queue under the steps of Queue/Interleaving.antt.
use mathlib.Core.List.{append_assoc}
use mathlib.Core.Path.{subst}
use stitch.Prelude.{◌+◌, ◌≤◌, ◌≡◌, refl, sym, Bool, String, List, [], ◌∷◌, ◌++◌, arith}
use stitch.Prelude.Map
use stitch.Prelude.Tally.{tally, tally-append}
use stitch.Queue.Message.{Config, Message}
use stitch.Queue.Order.{LeaseEntry}
use stitch.Queue.Live.{Queue, new_queue, promote_due, enqueue_reserve}
use stitch.Queue.Ops.{next_deadline}
use stitch.Queue.Maintain.{maintain_reserve}
use stitch.Queue.Invariant.{by_id, Balanced, waiting, count_ids}
use stitch.Queue.Invariant.Steps.{adjusted-Balanced}
use stitch.Queue.Invariant.Loops.{promote_due-Balanced, pick-Balanced}
use stitch.Queue.Invariant.Operations.{
  new_queue-Balanced, taken-Balanced, ack_commit-Balanced, nack_commit-Balanced,
  dequeue_commit-Balanced, enqueue_commit-Balanced,
}
use stitch.Queue.Invariant.Maintenance.{
  held-Balanced, messages, maintain_reserve-Balanced, commit_requeue-Balanced, commit_bury-Balanced,
}
use stitch.Queue.Interleaving.{Pending, World, Step, Run}

-- The messages that an operation holds.
abbrev pub held_by : Pending → List Message
held_by (Pending.enqueueing m) = []
held_by (Pending.granting expires token picked) = picked
held_by (Pending.acking id m) = m ∷ []
held_by (Pending.nacking m to_dlq visible_at) = m ∷ []
held_by (Pending.requeueing requeue to_dlq) = messages requeue ++ messages to_dlq
held_by (Pending.burying to_dlq) = messages to_dlq

abbrev pub held : List Pending → List Message
held [] = []
held (p ∷ ps) = held_by p ++ held ps

-- An Ack holds the message of its ID.
abbrev IsFitting : Pending → Type 0
IsFitting (Pending.acking id m) = m.id ≡ id
IsFitting (Pending.enqueueing m) = Unit
IsFitting (Pending.granting expires token picked) = Unit
IsFitting (Pending.nacking m to_dlq visible_at) = Unit
IsFitting (Pending.requeueing requeue to_dlq) = Unit
IsFitting (Pending.burying to_dlq) = Unit

abbrev AllFitting : List Pending → Type 0
AllFitting [] = Unit
AllFitting (p ∷ ps) = IsFitting p × AllFitting ps

-- The queue is balanced with what the operations hold.
pub record Safe (w : World) : Type 0 where
  pub balanced : Balanced (held w.pending) w.queue
  pub fitting : AllFitting w.pending

tally-held :
    (f : Message → Bool) (ps : List Pending) (p : Pending) (qs : List Pending)
    → tally f (held (ps ++ p ∷ qs)) ≡ tally f (held_by p ++ held (ps ++ qs))
tally-held f [] p qs = refl
tally-held f (r ∷ ps) p qs = omega (
  arith,
  tally-held f ps p qs,
  tally-append f (held_by r) (held (ps ++ p ∷ qs)),
  tally-append f (held_by r) (held (ps ++ qs)),
  tally-append f (held_by p) (held (ps ++ qs)),
  tally-append f (held_by p) (held_by r ++ held (ps ++ qs)),
)

AllFitting-split :
    (ps : List Pending) (p : Pending) (qs : List Pending)
    → AllFitting (ps ++ p ∷ qs)
    → IsFitting p × AllFitting (ps ++ qs)
AllFitting-split [] p qs h = h
AllFitting-split (r ∷ ps) p qs h =
    let (here, rest) = AllFitting-split ps p qs h.1 in (here, (h.0, rest))

-- An operation that ends, or goes on, lets go of what it holds.
pub release :
    (ps : List Pending) (p : Pending) (qs : List Pending) {q : Queue}
    → Balanced (held (ps ++ p ∷ qs)) q
    → Balanced (held_by p ++ held (ps ++ qs)) q
release ps p qs b = held-Balanced (λ f. tally-held f ps p qs) b

pub release_both :
    (ps : List Pending) (requeue to_dlq : List (Message × LeaseEntry)) (qs : List Pending)
    {q : Queue}
    → Balanced (held (ps ++ Pending.requeueing requeue to_dlq ∷ qs)) q
    → Balanced (messages requeue ++ (messages to_dlq ++ held (ps ++ qs))) q
release_both ps requeue to_dlq qs {q} b =
    subst (λ h. Balanced h q) (append_assoc (messages requeue) (messages to_dlq) (held (ps ++ qs)))
      (release ps (Pending.requeueing requeue to_dlq) qs b)

retain :
    (ps : List Pending) (p : Pending) (qs : List Pending) {q : Queue}
    → Balanced (held_by p ++ held (ps ++ qs)) q
    → Balanced (held (ps ++ p ∷ qs)) q
retain ps p qs b = held-Balanced (λ f. sym (tally-held f ps p qs)) b

AllFitting-join :
    (ps : List Pending) (p : Pending) (qs : List Pending)
    → IsFitting p
    → AllFitting (ps ++ qs)
    → AllFitting (ps ++ p ∷ qs)
AllFitting-join [] p qs here h = (here, h)
AllFitting-join (r ∷ ps) p qs here h = (h.0, AllFitting-join ps p qs here h.1)

-- Every locked part keeps the queue balanced.
pub Step-Safe : (u v : World) → Step u v → Safe u → Safe v
unfolding enqueue_reserve next_deadline
Step-Safe u v (Step.enqueue_start now id body priority delay k q ps free) s = record {
  balanced = adjusted-Balanced _ q _ q.dlq _ q.cnt q.armed q.wake s.balanced;
  fitting = (tt, s.fitting);
}
Step-Safe u v (Step.enqueue_deduped now k e q ps hit) s = record {
  balanced = adjusted-Balanced _ q q.seq q.dlq q.dedup _ q.armed q.wake s.balanced;
  fitting = s.fitting;
}
Step-Safe u v (Step.enqueue_end m answer later q ps qs fresh) s = record {
  balanced =
      enqueue_commit-Balanced (held (ps ++ qs)) m answer later q fresh (release ps _ qs s.balanced);
  fitting = (AllFitting-split ps _ qs s.fitting).1;
}
Step-Safe u v (Step.dequeue_start now n token q ps) s = record {
  balanced = pick-Balanced _ n (promote_due now q) (promote_due-Balanced _ now q s.balanced);
  fitting = (tt, s.fitting);
}
Step-Safe u v (Step.dequeue_end expires token picked answer q ps qs) s = record {
  balanced =
      dequeue_commit-Balanced (held (ps ++ qs)) expires token picked answer q
        (release ps _ qs s.balanced);
  fitting = (AllFitting-split ps _ qs s.fitting).1;
}
Step-Safe u v (Step.ack_start id token m q q1 ps took) s =
    let (same, b) = taken-Balanced _ id token q m q1 took s.balanced in
    record { balanced = b; fitting = (same, s.fitting) }
Step-Safe u v (Step.ack_end id m answer q ps qs) s =
    let (same, rest) = AllFitting-split ps _ qs s.fitting in
    record {
      balanced =
          ack_commit-Balanced (held (ps ++ qs)) id m answer q same (release ps _ qs s.balanced);
      fitting = rest;
    }
Step-Safe u v (Step.nack_start now id token delay m q q1 ps took) s =
    let (same, b) = taken-Balanced _ id token q m q1 took s.balanced in
    record { balanced = b; fitting = (tt, s.fitting) }
Step-Safe u v (Step.nack_end m to_dlq visible_at now answer q ps qs) s = record {
  balanced =
      nack_commit-Balanced (held (ps ++ qs)) m to_dlq visible_at now answer q
        (release ps _ qs s.balanced);
  fitting = (AllFitting-split ps _ qs s.fitting).1;
}
Step-Safe u v (Step.maintain_start now q ps) s =
    let r = maintain_reserve now q in
    record {
      balanced =
          rw (append_assoc (messages r.requeue) (messages r.to_dlq) (held ps))
            (maintain_reserve-Balanced _ now q s.balanced);
      fitting = (tt, s.fitting);
    }
Step-Safe u v (Step.maintain_middle now requeue to_dlq answer q ps qs) s =
    let H = held (ps ++ qs) in
    let p = Pending.requeueing requeue to_dlq in
    let b = release_both ps requeue to_dlq qs s.balanced in
    record {
      balanced =
          retain ps (Pending.burying to_dlq) qs
            (commit_requeue-Balanced (messages to_dlq ++ H) now requeue answer q b);
      fitting =
          AllFitting-join ps (Pending.burying to_dlq) qs tt (AllFitting-split ps p qs s.fitting).1;
    }
Step-Safe u v (Step.maintain_end to_dlq answer q ps qs) s = record {
  balanced = commit_bury-Balanced (held (ps ++ qs)) to_dlq answer q (release ps _ qs s.balanced);
  fitting = (AllFitting-split ps _ qs s.fitting).1;
}
Step-Safe u v (Step.stats_taken now q ps) s = record {
  balanced = promote_due-Balanced _ now q s.balanced;
  fitting = s.fitting;
}
Step-Safe u v (Step.timer_armed q ps) s = record {
  balanced = adjusted-Balanced _ q q.seq q.dlq q.dedup q.cnt _ q.wake s.balanced;
  fitting = s.fitting;
}

Run-Safe : (u v : World) → Run u v → Safe u → Safe v
Run-Safe u v (Run.stop w) s = s
Run-Safe u v (Run.step a b c first rest) s = Run-Safe b c rest (Step-Safe a b first s)

-- After any interleaving of the locked parts of any operations on a new queue, with any answers of
-- the log, where each message that Enqueue puts in has the ID of no live message: each live message
-- is waiting, in flight or held by one operation that runs, once, and nothing else is, so no message
-- is lost, leased twice or both leased and waiting.
pub interleaved_once :
    (cfg : Config) (w : World)
    → Run (record { queue = new_queue cfg; pending = [] }) w
    → (k : String)
    → (waiting (Map.is k) w.queue
          + tally (Map.is k) (Map.keys w.queue.inflight)
          + tally (by_id (Map.is k)) (held w.pending)
        ≡ tally (Map.is k) (Map.keys w.queue.msgs))
      × (tally (Map.is k) (Map.keys w.queue.msgs) ≤ 1)
interleaved_once cfg w path k =
    let safe = Run-Safe _ w path (record { balanced = new_queue-Balanced cfg; fitting = tt }) in
    (count_ids (Map.is k) safe.balanced, safe.balanced.once k)
