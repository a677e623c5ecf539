-- ===== src/Queue/Waking/Pledges.antt =====
-- Maintain of internal/queue/queue.go, and the deadlines that running operations hold.
use stitch.Prelude.{
  ℕ, zero, suc, ◌+◌, ◌≤◌, ◌<◌, ◌≡◌, ap, Bool, none, some, List, [], ◌∷◌, ◌++◌, ltb, str_eq, length,
  arith, Bool-cases, Option-cases, List-cases, inl, inr,
}
use stitch.Prelude.Map
use stitch.Prelude.Tally.{bit, tally, tally-append}
use stitch.Queue.Message.{Message}
use stitch.Queue.Order.{LeaseEntry, lease_pop}
use stitch.Queue.Live.{Queue, promote_due, restore_leased_entry}
use stitch.Queue.Ops.{LogAnswer, is_exhausted}
use stitch.Queue.Maintain.{
  Reclaimed, reclaim_entry, reclaim, maintain_reserve, restore_all, commit_requeue, commit_bury,
}
use stitch.Queue.Invariant.{Balanced}
use stitch.Queue.Invariant.Loops.{promote_due-Balanced}
use stitch.Queue.Invariant.Maintenance.{
  Holding, messages, restored, stripped, reclaim-empty, reclaim-later, reclaim-due,
  reclaim_entry-Holding, leases-Balanced,
}
use stitch.Queue.Interleaving.{Pending}
use stitch.Queue.Leases.Operations.{tally-lease_push}
use stitch.Queue.Leases.Reclaim.{lease_pop-Popped}
use stitch.Queue.Leases.Due.{timed-requeue_all, timed-bury_all}
use stitch.Queue.Waking.Heeds.{due_times}
use stitch.Queue.Waking.Steps.{lease_times, promote_due-Heeds}

abbrev pub entry_times : List (Message × LeaseEntry) → List ℕ
entry_times [] = []
entry_times ((m, e) ∷ r) = e.expires_at ∷ entry_times r

entry_times-snoc :
    (p : ℕ → Bool) (r : List (Message × LeaseEntry)) (m : Message) (e : LeaseEntry)
    → tally p (entry_times (r ++ ((m, e) ∷ []))) ≡ tally p (entry_times r) + bit (p e.expires_at)
entry_times-snoc p [] m e = omega arith
entry_times-snoc p ((k, f) ∷ r) m e = omega (arith, entry_times-snoc p r m e)

-- The deadlines that an operation may add to the queue when it goes on.
abbrev pub pledged : Pending → List ℕ
pledged (Pending.enqueueing m) = []
pledged (Pending.granting expires token picked) = lease_times expires picked
pledged (Pending.acking id m) = []
pledged (Pending.nacking m to_dlq visible_at) = []
pledged (Pending.requeueing requeue to_dlq) = entry_times requeue ++ entry_times to_dlq
pledged (Pending.burying to_dlq) = entry_times to_dlq

abbrev pub all_pledged : List Pending → List ℕ
all_pledged [] = []
all_pledged (p ∷ ps) = pledged p ++ all_pledged ps

pub tally-all_pledged :
    (f : ℕ → Bool) (ps : List Pending) (p : Pending) (qs : List Pending)
    → tally f (all_pledged (ps ++ p ∷ qs)) ≡ tally f (pledged p) + tally f (all_pledged (ps ++ qs))
tally-all_pledged f [] p qs = tally-append f (pledged p) (all_pledged qs)
tally-all_pledged f (r ∷ ps) p qs = omega (
  arith,
  tally-all_pledged f ps p qs,
  tally-append f (pledged r) (all_pledged (ps ++ p ∷ qs)),
  tally-append f (pledged r) (all_pledged (ps ++ qs)),
)

-- The deadlines of the queue and of the leases taken back.
abbrev all_times : (ℕ → Bool) → Reclaimed → ℕ
all_times p r =
    due_times p r.queue + (tally p (entry_times r.requeue) + tally p (entry_times r.to_dlq))

all_times-reclaim_entry :
    (p : ℕ → Bool) (e : LeaseEntry) (r : Reclaimed)
    → all_times p (reclaim_entry e r) ≤ bit (p e.expires_at) + all_times p r
unfolding reclaim_entry
all_times-reclaim_entry p e r = elim (Option-cases (Map.lookup e.id r.queue.inflight)) [
  | inl gone ↦ rw (reclaim_entry, gone) (omega arith)
  | inr (m, there) ↦ elim (Bool-cases (str_eq m.lease_token e.token)) [
    | inr stale ↦ rw (reclaim_entry, there, stale) (omega arith)
    | inl fits ↦ elim (Bool-cases (is_exhausted r.queue m)) [
      | inl dead ↦
          rw (reclaim_entry, there, fits, dead) (omega (arith, entry_times-snoc p r.to_dlq m e))
      | inr alive ↦
          rw (reclaim_entry, there, fits, alive) (omega (arith, entry_times-snoc p r.requeue m e))
    ]
  ]
]

module _ (held : List Message) (p : ℕ → Bool) where
  all_times-reclaim :
      (fuel now : ℕ) (r : Reclaimed)
      → Holding held r
      → all_times p (reclaim fuel now r) ≤ all_times p r
  unfolding reclaim
  all_times-reclaim zero now r b = omega arith
  all_times-reclaim (suc fuel) now r b = elim (List-cases r.queue.leases) [
    | inl e ↦ omega (arith, ap (all_times p) (reclaim-empty fuel now r e))
    | inr (top, es, e) ↦ elim (Bool-cases (ltb now top.expires_at)) [
      | inl later ↦ omega (arith, ap (all_times p) (reclaim-later fuel now r top es e later))
      | inr due ↦
          let pos : 0 < length r.queue.leases = omega (arith, ap length e) in
          let popped = lease_pop-Popped r.queue.leases pos b.ordered.leases in
          let e' = (lease_pop r.queue.leases).0 in
          let r1 = stripped fuel now r in
          let next = all_times-reclaim fuel now (reclaim_entry e' r1) (
            reclaim_entry-Holding held e' r1
              (leases-Balanced r.queue (lease_pop r.queue.leases).1 popped.heap b)) in
          omega (
            arith,
            ap (all_times p) (reclaim-due fuel now r top es e due),
            next,
            all_times-reclaim_entry p e' r1,
            popped.same (λ (x : LeaseEntry). p x.expires_at),
          )
    ]
  ]

  pub all_times-maintain_reserve :
      (now : ℕ) (q : Queue) → Balanced held q → all_times p (maintain_reserve now q) ≤ due_times p q
  unfolding maintain_reserve
  all_times-maintain_reserve now q b =
      let q' = promote_due now q in
      let start : Reclaimed = record { queue = q'; requeue = []; to_dlq = [] } in
      let swept =
        all_times-reclaim (length q'.leases) now start (promote_due-Balanced held now q b) in
      omega (arith, swept, (promote_due-Heeds held now q b).dues p)

abbrev timed_times : (ℕ → Bool) → List Message × List LeaseEntry → ℕ
timed_times p (ds, ls) =
    tally (λ (m : Message). p m.visible_at) ds + tally (λ (e : LeaseEntry). p e.expires_at) ls

module _ (held : List Message) (p : ℕ → Bool) where
  due_times-restore_all :
      (r : List (Message × LeaseEntry)) (q : Queue)
      → Balanced (messages r ++ held) q
      → due_times p (restore_all r q) ≤ due_times p q + tally p (entry_times r)
  unfolding restore_all restore_leased_entry
  due_times-restore_all [] q b = omega arith
  due_times-restore_all ((m, e) ∷ r) q b = omega (
    arith,
    due_times-restore_all r (restore_leased_entry m e q) (restored m e (messages r ++ held) q b),
    tally-lease_push (λ x. p x.expires_at) q.leases e b.ordered.leases,
  )

  pub due_times-commit_requeue :
      (now : ℕ) (r : List (Message × LeaseEntry)) (answer : LogAnswer) (q : Queue)
      → Balanced (messages r ++ held) q
      → due_times p (commit_requeue now r answer q) ≤ due_times p q + tally p (entry_times r)
  unfolding commit_requeue
  due_times-commit_requeue now r (some e) q b = due_times-restore_all r q b
  due_times-commit_requeue now r none q b =
      omega (arith, ap (timed_times p) (timed-requeue_all now r q))

  pub due_times-commit_bury :
      (r : List (Message × LeaseEntry)) (answer : LogAnswer) (q : Queue)
      → Balanced (messages r ++ held) q
      → due_times p (commit_bury r answer q) ≤ due_times p q + tally p (entry_times r)
  unfolding commit_bury
  due_times-commit_bury r (some e) q b = due_times-restore_all r q b
  due_times-commit_bury r none q b = omega (arith, ap (timed_times p) (timed-bury_all r q))
