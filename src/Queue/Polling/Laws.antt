-- ===== src/Queue/Polling/Laws.antt =====
-- When Dequeue of internal/queue/queue.go returns, and what it has logged by then.
use stitch.Prelude.{
  ℕ, zero, suc, ◌+◌, ◌*◌, ◌≤◌, ◌<◌, ◌≡◌, refl, Bool, true, false, String, none, some, List, [], ◌∷◌,
  Result, ok, err, arith, leb, length, ◌==◌, Bool-cases, inl, inr,
}
use stitch.Prelude.Int.{ℤ}
use stitch.Queue.Message.{Message, Delivery, QueueError}
use stitch.Prelude.Int.{pos_part}
use stitch.Queue.Live.{Queue, promote_due}
use stitch.Queue.Ops.{LogAnswer, Trace, try_dequeue, pick, grant, lease_items, dequeue_commit}
use stitch.Queue.Polling.{
  Woken, context_done, queue_done, timer_fired, Round, Outcome, waiting, returned, poll_interval,
  sleep, after_try, poll, wanted, dequeue,
}

-- The clock reads at least `c` in the first round, and each timer fires no earlier than it was set
-- to.
abbrev pub Ticking : ℕ → ℕ → List Round → Type 0
Ticking deadline c [] = Unit
Ticking deadline c (r ∷ rs) =
    (c ≤ r.checked) × Ticking deadline (r.checked + sleep deadline r.checked) rs

-- The call has returned to its caller.
abbrev pub has_ended : Outcome → Bool
has_ended waiting = false
has_ended _ = true

after_try_ends :
    (result : Result QueueError (List Delivery)) (past : Bool) (woken : Woken) (x : Queue × Trace)
    (later : Outcome × (Queue × Trace))
    → (past ≡ false → has_ended later.0 ≡ true)
    → has_ended (after_try result past woken x later).0 ≡ true
unfolding after_try
after_try_ends (err e) past woken x later h = refl
after_try_ends (ok (d ∷ ds)) past woken x later h = refl
after_try_ends (ok []) true woken x later h = refl
after_try_ends (ok []) false context_done x later h = refl
after_try_ends (ok []) false queue_done x later h = refl
after_try_ends (ok []) false timer_fired x later h = h refl

-- One sleep brings the clock to the deadline, or an interval closer to it.
closer :
    (k deadline c checked : ℕ)
    → c ≤ checked
    → checked < deadline
    → deadline ≤ c + suc k * poll_interval
    → deadline ≤ checked + sleep deadline checked + k * poll_interval
closer k deadline c checked late before enough = omega arith

poll_ends :
    (k deadline c n : ℕ) (rs : List Round) (q : Queue)
    → Ticking deadline c rs
    → deadline ≤ c + k * poll_interval
    → k < length rs
    → has_ended (poll deadline n rs q).0 ≡ true
unfolding poll
poll_ends k deadline c n [] q ticks enough more = absurd (omega (arith, more))
poll_ends zero deadline c n (r ∷ rs) q (late, ticks) enough more =
    after_try_ends _ _ r.woken _ _ (λ left. absurd (ground (arith, left, late, enough)))
poll_ends (suc k) deadline c n (r ∷ rs) q (late, ticks) enough more =
    after_try_ends _ _ r.woken _ _ (λ left.
      poll_ends k deadline _ n rs _ ticks
        (closer k deadline c r.checked late (ground (arith, left)) enough) (omega (arith, more)))

-- Dequeue ends: with a clock that reads at least the start of the call, and timers that fire no
-- earlier than they were set to, it has returned after at most one try more than the wait has poll
-- intervals (rounded up), whatever the log answers and other operations do meanwhile.
pub dequeue_ends :
    (start : ℕ) (n : ℤ) (wait k : ℕ) (rounds : List Round) (q : Queue)
    → Ticking (start + wait) start rounds
    → wait ≤ k * poll_interval
    → k < length rounds
    → has_ended (dequeue start n wait rounds q).0 ≡ true
unfolding dequeue
dequeue_ends start n wait k rounds q ticks enough more =
    poll_ends k (start + wait) start (wanted n) rounds q ticks (omega (arith, enough)) more

-- The caller has no message and no error.
abbrev pub is_empty_handed : Outcome → Bool
is_empty_handed (returned (ok (d ∷ ds))) = false
is_empty_handed (returned (err e)) = false
is_empty_handed _ = true

abbrev is_nothing : Result QueueError (List Delivery) → Bool
is_nothing (ok []) = true
is_nothing _ = false

dequeue_commit-nothing :
    (expires : ℕ) (token : ℕ → String) (picked : List Message) (answer : LogAnswer) (q : Queue)
    → is_nothing (dequeue_commit expires picked (lease_items token 0 picked) answer q).0 ≡ true
    → (length picked == 0) ≡ true
unfolding dequeue_commit lease_items grant
dequeue_commit-nothing expires token [] answer q e = refl
dequeue_commit-nothing expires token (m ∷ ms) (some x) q e = absurd (ground (arith, e))
dequeue_commit-nothing expires token (m ∷ ms) none q e = absurd (ground (arith, e))

try_dequeue-nothing :
    (now n : ℕ) (token : ℕ → String) (answer : LogAnswer) (q : Queue)
    → is_nothing (try_dequeue now n token answer q).0 ≡ true
    → (try_dequeue now n token answer q).1.1 ≡ []
unfolding try_dequeue
try_dequeue-nothing now n token answer q empty =
    let x = pick n (promote_due now q) [] in
    let expires = now + pos_part q.cfg.visibility_timeout_ms in
    elim (Bool-cases (length x.1 == 0)) [
      | inl none_left ↦ rw (try_dequeue, none_left) refl
      | inr taken ↦
          let all =
            dequeue_commit-nothing expires token x.1 answer x.0
              (rw (try_dequeue, taken) at empty) in
          absurd (ground (arith, all, taken))
    ]

after_try-silent :
    (result : Result QueueError (List Delivery)) (past : Bool) (woken : Woken) (q : Queue)
    (t : Trace) (later : Outcome × (Queue × Trace))
    → (is_nothing result ≡ true → t ≡ [])
    → (is_empty_handed later.0 ≡ true → later.1.1 ≡ [])
    → is_empty_handed (after_try result past woken (q, t) later).0 ≡ true
    → (after_try result past woken (q, t) later).1.1 ≡ []
unfolding after_try
after_try-silent (err x) past woken q t later now after e = absurd (ground (arith, e))
after_try-silent (ok (d ∷ ds)) past woken q t later now after e = absurd (ground (arith, e))
after_try-silent (ok []) true woken q t later now after e = now refl
after_try-silent (ok []) false context_done q t later now after e = now refl
after_try-silent (ok []) false queue_done q t later now after e = absurd (ground (arith, e))
after_try-silent (ok []) false timer_fired q t later now after e = rw (now refl, after e) refl

poll-silent :
    (deadline n : ℕ) (rounds : List Round) (q : Queue)
    → is_empty_handed (poll deadline n rounds q).0 ≡ true
    → (poll deadline n rounds q).1.1 ≡ []
unfolding poll
poll-silent deadline n [] q e = refl
poll-silent deadline n (r ∷ rs) q e =
    let q1 = (try_dequeue r.now n r.token r.answer q).1.0 in
    after_try-silent _ (leb deadline r.checked) r.woken q1 _ _
      (try_dequeue-nothing r.now n r.token r.answer q) (poll-silent deadline n rs (r.meanwhile q1))
      e

-- A call of Dequeue that returned no message and no error, that ended because its client hung up, or
-- that is still waiting, has handed nothing to the log in any of its tries: no lease is lost in it.
pub dequeue-silent :
    (start : ℕ) (n : ℤ) (wait : ℕ) (rounds : List Round) (q : Queue)
    → is_empty_handed (dequeue start n wait rounds q).0 ≡ true
    → (dequeue start n wait rounds q).1.1 ≡ []
unfolding dequeue
dequeue-silent start n wait rounds q e = poll-silent (start + wait) (wanted n) rounds q e
