-- ===== src/Manager/Mirror/History.antt =====
-- Any sequence of operations of internal/queue/queue.go on a queue, and the replay of its log.
use stitch.Prelude.{ℕ, ◌≡◌, refl, String, List, [], ◌++◌}
use mathlib.Core.Path.{subst, sym}
use stitch.Prelude.Int.{ℤ}
use stitch.Prelude.Map
use stitch.Prelude.Tally.{tally}
use stitch.Queue.Message.{Config}
use stitch.Queue.Live.{Queue, new_queue, promote_due}
use stitch.Queue.Ops.{LogAnswer, Trace, enqueue, try_dequeue, ack, nack, next_deadline}
use stitch.Queue.Maintain.{maintain}
use stitch.Queue.Invariant.{Balanced}
use stitch.Queue.Invariant.Steps.{adjusted-Balanced}
use stitch.Queue.Invariant.Loops.{promote_due-Balanced}
use stitch.Queue.Invariant.Operations.{
  new_queue-Balanced, enqueue-Balanced, try_dequeue-Balanced, ack-Balanced, nack-Balanced,
}
use stitch.Queue.Invariant.Maintenance.{maintain-Balanced}
use stitch.Manager.Mirror.{Mirrors, logged, Reaches}
use stitch.Manager.Mirror.Commits.{Mirrors-view}
use stitch.Manager.Mirror.Silent.{view-promote_due, logged-append, Reaches-append}
use stitch.Manager.Mirror.Maintenance.{maintain-Reaches}
use stitch.Manager.Mirror.Operations.{
  enqueue-Reaches, try_dequeue-Reaches, ack-Reaches, nack-Reaches,
}

-- One operation, with any answer of the log, clock reading and tokens, and what it handed to the
-- log. A message that Enqueue makes has the ID of no live message.
pub data Move : Queue → Trace → Queue → Type 0 where
  enqueued :
      (now later : ℕ) (id : String) (body : List ℕ) (priority delay : ℤ) (k : String)
      (answer : LogAnswer) (q : Queue)
      → tally (Map.is id) (Map.keys q.msgs) ≡ 0
      → Move q
          (enqueue now later id body priority delay k answer q).1.1
          (enqueue now later id body priority delay k answer q).1.0
  dequeued :
      (now n : ℕ) (token : ℕ → String) (answer : LogAnswer) (q : Queue)
      → Move q (try_dequeue now n token answer q).1.1 (try_dequeue now n token answer q).1.0
  acked :
      (id token : String) (answer : LogAnswer) (q : Queue)
      → Move q (ack id token answer q).1.1 (ack id token answer q).1.0
  nacked :
      (now : ℕ) (id token : String) (delay : ℤ) (answer : LogAnswer) (q : Queue)
      → Move q (nack now id token delay answer q).1.1 (nack now id token delay answer q).1.0
  maintained :
      (now : ℕ) (answer1 answer2 : LogAnswer) (q : Queue)
      → Move q (maintain now answer1 answer2 q).1.1 (maintain now answer1 answer2 q).1.0
  inspected : (now : ℕ) (q : Queue) → Move q [] (promote_due now q)
  armed : (q : Queue) → Move q [] (next_deadline q).1

-- Operations one after the other.
pub data History : Queue → Trace → Queue → Type 0 where
  stop : (q : Queue) → History q [] q
  next : (q1 q2 q3 : Queue) (t u : Trace) → Move q1 t q2 → History q2 u q3 → History q1 (t ++ u) q3

pub Move-Balanced : (q q' : Queue) (t : Trace) → Move q t q' → Balanced [] q → Balanced [] q'
unfolding next_deadline
Move-Balanced q q' t (Move.enqueued now later id body priority delay k answer _ fresh) b =
    enqueue-Balanced [] now later id body priority delay k answer q fresh b
Move-Balanced q q' t (Move.dequeued now n token answer _) b =
    try_dequeue-Balanced [] now n token answer q b
Move-Balanced q q' t (Move.acked id token answer _) b = ack-Balanced [] id token answer q b
Move-Balanced q q' t (Move.nacked now id token delay answer _) b =
    nack-Balanced [] now id token delay answer q b
Move-Balanced q q' t (Move.maintained now answer1 answer2 _) b =
    maintain-Balanced [] now answer1 answer2 q b
Move-Balanced q q' t (Move.inspected now _) b = promote_due-Balanced [] now q b
Move-Balanced q q' t (Move.armed _) b =
    adjusted-Balanced [] q q.seq q.dlq q.dedup q.cnt (next_deadline q).0 q.wake b

pub Move-Reaches :
    (q q' : Queue) (t : Trace) (r : Queue)
    → Move q t q'
    → Balanced [] q
    → Mirrors q r
    → Reaches (logged t) r q'
unfolding next_deadline
Move-Reaches q q' t r (Move.enqueued now later id body priority delay k answer _ fresh) b s =
    enqueue-Reaches [] now later id body priority delay k answer q r s
Move-Reaches q q' t r (Move.dequeued now n token answer _) b s =
    try_dequeue-Reaches [] now n token answer q r b s
Move-Reaches q q' t r (Move.acked id token answer _) b s = ack-Reaches [] id token answer q r b s
Move-Reaches q q' t r (Move.nacked now id token delay answer _) b s =
    nack-Reaches [] now id token delay answer q r b s
Move-Reaches q q' t r (Move.maintained now answer1 answer2 _) b s =
    maintain-Reaches [] now answer1 answer2 q r b s
Move-Reaches q q' t r (Move.inspected now _) b s =
    (r, refl, Mirrors-view (view-promote_due now q) s)
Move-Reaches q q' t r (Move.armed _) b s = (r, refl, Mirrors-view refl s)

pub History-Balanced : (q q' : Queue) (t : Trace) → History q t q' → Balanced [] q → Balanced [] q'
History-Balanced q q' t (History.stop _) b = b
History-Balanced q q' t (History.next _ q2 _ u v m h) b =
    History-Balanced q2 q' v h (Move-Balanced q q2 u m b)

pub History-Reaches :
    (q q' : Queue) (t : Trace) (r : Queue)
    → History q t q'
    → Balanced [] q
    → Mirrors q r
    → Reaches (logged t) r q'
History-Reaches q q' t r (History.stop _) b s = (r, refl, s)
History-Reaches q q' t r (History.next _ q2 _ u v m h) b s =
    subst (λ ps. Reaches ps r q') (sym (logged-append u v))
      (Reaches-append (logged u) (logged v) r q2 q' (Move-Reaches q q2 u r m b s)
        (λ r1 s1. History-Reaches q2 q' v r1 h (Move-Balanced q q2 u m b) s1))

-- Whatever operations ran on a queue since it was created, one after the other in whatever order,
-- each new message under an ID that no live message has, and whichever of their appends failed:
-- replay of the payloads that the log confirmed, in the order of the log, onto the new queue
-- succeeds, and gives a queue with empty heaps and the configuration, the messages in every field,
-- the dead letters and the counters of the live queue, but for the sequence number, the dedup
-- entries and the counters of expired and deduplicated messages.
pub replay_refines :
    (cfg : Config) (t : Trace) (q : Queue)
    → History (new_queue cfg) t q
    → Reaches (logged t) (new_queue cfg) q
replay_refines cfg t q h =
    History-Reaches (new_queue cfg) q t (new_queue cfg) h (new_queue-Balanced cfg)
      (record { seen = refl; idle = refl })
