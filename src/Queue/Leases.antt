-- ===== src/Queue/Leases.antt =====
-- The leases of internal/queue/queue.go: the in-flight table and the heap of lease entries that
-- Maintain reads, and what the steps of the operations do to the two.
pub mod Operations
pub mod Reclaim
pub mod Sweep
pub mod Due
pub mod Exclusive
pub mod Holds
mod Tests
use stitch.Prelude.{
  ℕ, zero, suc, ◌+◌, ◌≤◌, ◌<◌, ◌≡◌, refl, ap, ◌∙◌, Bool, true, false, not, ◌&&◌, ◌||◌, String, List,
  [], ◌∷◌, ltb, leb, ◌==◌, str_eq, length, arith, Bool-cases, List-cases, inl, inr,
}
use stitch.Prelude.Map
use stitch.Prelude.Map.{Map}
use stitch.Prelude.Tally.{bit, tally}
use stitch.Queue.Message.{Message}
use stitch.Queue.Message.Same.{same_message}
use stitch.Queue.Order.{LeaseEntry, ready_push}
use stitch.Queue.Payload.{LeaseItem}
use stitch.Queue.Live.{Queue, is_lifo, wake_if_sooner, put, promote, promote_due, move_to_dlq}
use stitch.Queue.Ops.{push_back}
use stitch.Queue.Maintain.{requeue_all, bury_all}
use stitch.Queue.Invariant.Loops.{promoted, promote-empty, promote-later, promote-due}

-- Whether the entry is one for the lease that the message carries, due no later than it.
unfoldable pub watches : Message → LeaseEntry → Bool
watches m e = str_eq e.id m.id && str_eq e.token m.lease_token && leb e.expires_at m.lease_expires

abbrev pub Lent : Type 0
Lent = Map Message × List LeaseEntry

abbrev pub lent : Queue → Lent
lent q = (q.inflight, q.leases)

-- Each message in flight, and each of `held`, has an entry among the leases.
abbrev pub Watched : List Message → Lent → Type 0
Watched held (inflight, leases) =
    (m : Message)
    → 0 < tally (same_message m) (Map.values inflight) + tally (same_message m) held
    → 0 < tally (watches m) leases

-- The steps that leave the two alone.
pub lent-wake_if_sooner : (deadline : ℕ) (q : Queue) → lent (wake_if_sooner deadline q) ≡ lent q
unfolding wake_if_sooner
lent-wake_if_sooner deadline q = elim (Bool-cases (not (q.armed == 0) && leb q.armed deadline)) [
  | inl sooner ↦ rw sooner refl
  | inr later ↦ rw later refl
]

pub lent-put : (m : Message) (now : ℕ) (q : Queue) → lent (put m now q) ≡ lent q
unfolding put
lent-put m now q = elim (Bool-cases (ltb now m.visible_at)) [
  | inl later ↦ rw later (lent-wake_if_sooner m.visible_at _)
  | inr due ↦ rw due refl
]

lent-promote : (fuel now : ℕ) (q : Queue) → lent (promote fuel now q) ≡ lent q
unfolding promote
lent-promote zero now q = refl
lent-promote (suc fuel) now q = elim (List-cases q.delayed) [
  | inl e ↦ ap lent (promote-empty fuel now q e)
  | inr (m, ms, e) ↦ elim (Bool-cases (ltb now m.visible_at)) [
    | inl later ↦ ap lent (promote-later fuel now q m ms e later)
    | inr due ↦ ap lent (promote-due fuel now q m ms e due) ∙ lent-promote fuel now (promoted q)
  ]
]

pub lent-promote_due : (now : ℕ) (q : Queue) → lent (promote_due now q) ≡ lent q
unfolding promote_due
lent-promote_due now q = lent-promote (length q.delayed) now q

pub lent-push_back : (ms : List Message) (q : Queue) → lent (push_back ms q) ≡ lent q
unfolding push_back
lent-push_back [] q = refl
lent-push_back (m ∷ ms) q =
    lent-push_back ms (record q { ready = ready_push (is_lifo q) q.ready m })

pub lent-requeue_all :
    (now : ℕ) (r : List (Message × LeaseEntry)) (q : Queue) → lent (requeue_all now r q) ≡ lent q
unfolding requeue_all
lent-requeue_all now [] q = refl
lent-requeue_all now ((m, e) ∷ r) q = lent-requeue_all now r _ ∙ lent-put _ now q

pub lent-bury_all : (r : List (Message × LeaseEntry)) (q : Queue) → lent (bury_all r q) ≡ lent q
unfolding bury_all move_to_dlq
lent-bury_all [] q = refl
lent-bury_all ((m, e) ∷ r) q = lent-bury_all r _
