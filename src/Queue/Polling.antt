-- ===== src/Queue/Polling.antt =====
-- Dequeue of internal/queue/queue.go: the loop that tries, and sleeps until it tries again. A round
-- carries what it meets: the readings of the clock (in milliseconds for tryDequeue, in nanoseconds
-- against the deadline), the tokens, the outcome of the append, which channel of the select was
-- ready, and what other operations did to the queue during the sleep. Without a further round the
-- call is still waiting.
pub mod Laws
mod Tests
use stitch.Prelude.{
  ℕ, ◌+◌, ◌-◌, Bool, true, false, String, List, [], ◌∷◌, ◌++◌, Result, ok, err, leb, min,
  if◌then◌else◌,
}
use stitch.Prelude.Int.{ℤ, pos, pos_part, ltb_ℤ}
use stitch.Queue.Message.{Delivery, QueueError, manager_closed}
use stitch.Queue.Live.{Queue}
use stitch.Queue.Ops.{LogAnswer, Trace, try_dequeue}

-- pollInterval in nanoseconds
abbrev pub poll_interval : ℕ
poll_interval = 5000000

-- The case that the select took.
pub data Woken : Type 0 where
  context_done queue_done timer_fired : Woken

pub record Round : Type 0 where
  pub now : ℕ
  pub token : ℕ → String
  pub answer : LogAnswer
  pub checked : ℕ
  pub woken : Woken
  pub meanwhile : Queue → Queue

pub data Outcome : Type 0 where
  waiting hung_up : Outcome
  returned : Result QueueError (List Delivery) → Outcome

-- How long the loop sleeps at a reading of the clock.
abbrev pub sleep : ℕ → ℕ → ℕ
sleep deadline checked = min poll_interval (deadline - checked)

-- What the call does after a try: `past` says that the wait is over, and `later` is what comes of
-- the rounds after the sleep.
unfoldable pub after_try :
    Result QueueError (List Delivery)
    → Bool
    → Woken
    → Queue × Trace
    → Outcome × (Queue × Trace)
    → Outcome × (Queue × Trace)
after_try (err e) past woken (q, t) later = (returned (err e), (q, t))
after_try (ok (d ∷ ds)) past woken (q, t) later = (returned (ok (d ∷ ds)), (q, t))
after_try (ok []) true woken (q, t) later = (returned (ok []), (q, t))
after_try (ok []) false context_done (q, t) later = (hung_up, (q, t))
after_try (ok []) false queue_done (q, t) later = (returned (err manager_closed), (q, t))
after_try (ok []) false timer_fired (q, t) (out, (q', u)) = (out, (q', t ++ u))

unfoldable pub poll : ℕ → ℕ → List Round → Queue → Outcome × (Queue × Trace)
unfolding after_try
poll deadline n [] q = (waiting, (q, []))
poll deadline n (r ∷ rs) q =
    let (result, (q1, t)) = try_dequeue r.now n r.token r.answer q in
    let later = poll deadline n rs (r.meanwhile q1) in
    after_try result (leb deadline r.checked) r.woken (q1, t) later

-- `if n <= 0 { n = 1 }`
abbrev pub wanted : ℤ → ℕ
wanted n = if ltb_ℤ (pos 0) n then pos_part n else 1

-- Dequeue, from the time `start` on.
unfoldable pub dequeue : ℕ → ℤ → ℕ → List Round → Queue → Outcome × (Queue × Trace)
unfolding poll
dequeue start n wait rounds q = poll (start + wait) (wanted n) rounds q
