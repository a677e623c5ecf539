-- ===== src/Queue/Dedup.antt =====
-- The dedup entries of internal/queue/queue.go, and what the operations do to them.
pub mod Window
mod Tests
use stitch.Prelude.{
  ℕ, zero, suc, ◌+◌, ◌<◌, ◌≡◌, refl, sym, ap, ◌∙◌, Bool, true, false, not, ◌&&◌, String, none, some,
  List, [], ◌∷◌, ◌++◌, err, ok, ltb, leb, ◌==◌, str_eq, length, arith, Bool-cases, Option-cases,
  List-cases, Result-cases, inl, inr, if◌then◌else◌,
}
use stitch.Prelude.Int.{ℤ, pos_part}
use stitch.Prelude.Map
use stitch.Prelude.Map.{Map}
use stitch.Queue.Message.{Message}
use stitch.Queue.Order.{LeaseEntry, lease_pop, ready_push, ready_pop}
use stitch.Queue.Payload.{LeaseItem}
use stitch.Queue.Live.{
  DedupEntry, Queue, is_lifo, wake_if_sooner, put, promote, promote_due, take_leased,
  restore_leased, restore_leased_entry, move_to_dlq,
}
use stitch.Queue.Ops.{
  LogAnswer, pick, push_back, grant, lease_items, dequeue_commit, try_dequeue, ack, ack_commit,
  nack, nack_commit, requeued, is_exhausted, nack_visible_at,
}
use stitch.Queue.Maintain.{
  is_empty, Reclaimed, reclaim_entry, reclaim, maintain_reserve, maintain, restore_all, requeue_all,
  bury_all, commit_requeue, commit_bury,
}
use stitch.Queue.Invariant.Operations.{take_leased_cases}
use stitch.Queue.Invariant.Loops.{promoted, promote-empty, promote-later, promote-due}
use stitch.Queue.Invariant.Maintenance.{stripped, reclaim-empty, reclaim-later, reclaim-due}
use stitch.Queue.Leases.Due.{or_skipped}

dedup-wake_if_sooner : (deadline : ℕ) (q : Queue) → (wake_if_sooner deadline q).dedup ≡ q.dedup
unfolding wake_if_sooner
dedup-wake_if_sooner deadline q = elim (Bool-cases (not (q.armed == 0) && leb q.armed deadline)) [
  | inl sooner ↦ rw sooner refl
  | inr later ↦ rw later refl
]

pub dedup-put : (m : Message) (now : ℕ) (q : Queue) → (put m now q).dedup ≡ q.dedup
unfolding put
dedup-put m now q = elim (Bool-cases (ltb now m.visible_at)) [
  | inl later ↦ rw later (dedup-wake_if_sooner m.visible_at _)
  | inr due ↦ rw due refl
]

dedup-promote : (fuel now : ℕ) (q : Queue) → (promote fuel now q).dedup ≡ q.dedup
unfolding promote
dedup-promote zero now q = refl
dedup-promote (suc fuel) now q = elim (List-cases q.delayed) [
  | inl e ↦ ap (λ x. x.dedup) (promote-empty fuel now q e)
  | inr (m, ms, e) ↦ elim (Bool-cases (ltb now m.visible_at)) [
    | inl later ↦ ap (λ x. x.dedup) (promote-later fuel now q m ms e later)
    | inr due ↦
        ap (λ x. x.dedup) (promote-due fuel now q m ms e due) ∙ dedup-promote fuel now (promoted q)
  ]
]

pub dedup-promote_due : (now : ℕ) (q : Queue) → (promote_due now q).dedup ≡ q.dedup
unfolding promote_due
dedup-promote_due now q = dedup-promote (length q.delayed) now q

dedup-pick : (n : ℕ) (q : Queue) (ms : List Message) → (pick n q ms).0.dedup ≡ q.dedup
unfolding pick
dedup-pick zero q ms = refl
dedup-pick (suc n) q ms = elim (Option-cases (ready_pop (is_lifo q) q.ready)) [
  | inl nothing ↦ rw (pick, nothing) refl
  | inr ((m, rest), some_there) ↦
      rw (pick, some_there) (dedup-pick n (record q { ready = rest }) (ms ++ (m ∷ [])))
]

dedup-push_back : (ms : List Message) (q : Queue) → (push_back ms q).dedup ≡ q.dedup
unfolding push_back
dedup-push_back [] q = refl
dedup-push_back (m ∷ ms) q =
    dedup-push_back ms (record q { ready = ready_push (is_lifo q) q.ready m })

dedup-grant :
    (expires : ℕ) (ms : List Message) (items : List LeaseItem) (q : Queue)
    → (grant expires ms items q).0.dedup ≡ q.dedup
unfolding grant
dedup-grant expires [] items q = refl
dedup-grant expires (m ∷ ms) [] q = refl
dedup-grant expires (m ∷ ms) (it ∷ items) q = dedup-grant expires ms items _

dedup-dequeue_commit :
    (expires : ℕ) (ms : List Message) (items : List LeaseItem) (answer : LogAnswer) (q : Queue)
    → (dequeue_commit expires ms items answer q).1.dedup ≡ q.dedup
unfolding dequeue_commit
dedup-dequeue_commit expires ms items (some e) q = dedup-push_back ms q
dedup-dequeue_commit expires ms items none q =
    dedup-wake_if_sooner expires _ ∙ dedup-grant expires ms items q

pub dedup-try_dequeue :
    (now n : ℕ) (token : ℕ → String) (answer : LogAnswer) (q : Queue)
    → (try_dequeue now n token answer q).1.0.dedup ≡ q.dedup
unfolding try_dequeue
dedup-try_dequeue now n token answer q =
    let q1 = promote_due now q in
    let r = pick n q1 [] in
    let same = dedup-pick n q1 [] ∙ dedup-promote_due now q in
    elim (Bool-cases (length r.1 == 0)) [
      | inl nothing ↦ rw (try_dequeue, nothing) same
      | inr taken ↦ rw (try_dequeue, taken) (dedup-dequeue_commit _ r.1 _ answer r.0 ∙ same)
    ]

dedup-ack_commit :
    (id : String) (m : Message) (answer : LogAnswer) (q : Queue)
    → (ack_commit id m answer q).1.dedup ≡ q.dedup
unfolding ack_commit restore_leased
dedup-ack_commit id m (some e) q = refl
dedup-ack_commit id m none q = refl

pub dedup-ack :
    (id token : String) (answer : LogAnswer) (q : Queue)
    → (ack id token answer q).1.0.dedup ≡ q.dedup
unfolding ack
dedup-ack id token answer q = elim (take_leased_cases id token q) [
  | inl (e, bad) ↦ rw (ack, bad) refl
  | inr (m, there, good) ↦ rw (ack, good) (dedup-ack_commit id m answer _)
]

dedup-nack_commit :
    (m : Message) (to_dlq : Bool) (visible_at now : ℕ) (answer : LogAnswer) (q : Queue)
    → (nack_commit m to_dlq visible_at now answer q).1.dedup ≡ q.dedup
unfolding nack_commit restore_leased move_to_dlq
dedup-nack_commit m to_dlq visible_at now (some e) q = refl
dedup-nack_commit m true visible_at now none q = refl
dedup-nack_commit m false visible_at now none q = dedup-put (requeued m visible_at) now q

pub dedup-nack :
    (now : ℕ) (id token : String) (delay : ℤ) (answer : LogAnswer) (q : Queue)
    → (nack now id token delay answer q).1.0.dedup ≡ q.dedup
unfolding nack
dedup-nack now id token delay answer q = elim (take_leased_cases id token q) [
  | inl (e, bad) ↦ rw (nack, bad) refl
  | inr (m, there, good) ↦
      rw (nack, good)
        (dedup-nack_commit m (is_exhausted q m) (nack_visible_at now delay) now answer _)
]

dedup-restore_all :
    (r : List (Message × LeaseEntry)) (q : Queue) → (restore_all r q).dedup ≡ q.dedup
unfolding restore_all restore_leased_entry
dedup-restore_all [] q = refl
dedup-restore_all ((m, e) ∷ r) q = dedup-restore_all r (restore_leased_entry m e q)

dedup-requeue_all :
    (now : ℕ) (r : List (Message × LeaseEntry)) (q : Queue) → (requeue_all now r q).dedup ≡ q.dedup
unfolding requeue_all
dedup-requeue_all now [] q = refl
dedup-requeue_all now ((m, e) ∷ r) q = dedup-requeue_all now r _ ∙ dedup-put (requeued m now) now q

dedup-bury_all : (r : List (Message × LeaseEntry)) (q : Queue) → (bury_all r q).dedup ≡ q.dedup
unfolding bury_all move_to_dlq
dedup-bury_all [] q = refl
dedup-bury_all ((m, e) ∷ r) q = dedup-bury_all r _

dedup-commit_requeue :
    (now : ℕ) (r : List (Message × LeaseEntry)) (answer : LogAnswer) (q : Queue)
    → (commit_requeue now r answer q).dedup ≡ q.dedup
unfolding commit_requeue
dedup-commit_requeue now r (some e) q = dedup-restore_all r q
dedup-commit_requeue now r none q = dedup-requeue_all now r q

dedup-commit_bury :
    (r : List (Message × LeaseEntry)) (answer : LogAnswer) (q : Queue)
    → (commit_bury r answer q).dedup ≡ q.dedup
unfolding commit_bury
dedup-commit_bury r (some e) q = dedup-restore_all r q
dedup-commit_bury r none q = dedup-bury_all r q

dedup-reclaim_entry :
    (e : LeaseEntry) (r : Reclaimed) → (reclaim_entry e r).queue.dedup ≡ r.queue.dedup
unfolding reclaim_entry
dedup-reclaim_entry e r = elim (Option-cases (Map.lookup e.id r.queue.inflight)) [
  | inl gone ↦ rw (reclaim_entry, gone) refl
  | inr (m, there) ↦ elim (Bool-cases (str_eq m.lease_token e.token)) [
    | inr stale ↦ rw (reclaim_entry, there, stale) refl
    | inl fits ↦ elim (Bool-cases (is_exhausted r.queue m)) [
      | inl dead ↦ rw (reclaim_entry, there, fits, dead) refl
      | inr alive ↦ rw (reclaim_entry, there, fits, alive) refl
    ]
  ]
]

dedup-reclaim : (fuel now : ℕ) (r : Reclaimed) → (reclaim fuel now r).queue.dedup ≡ r.queue.dedup
unfolding reclaim
dedup-reclaim zero now r = refl
dedup-reclaim (suc fuel) now r = elim (List-cases r.queue.leases) [
  | inl e ↦ ap (λ x. x.queue.dedup) (reclaim-empty fuel now r e)
  | inr (top, es, e) ↦ elim (Bool-cases (ltb now top.expires_at)) [
    | inl later ↦ ap (λ x. x.queue.dedup) (reclaim-later fuel now r top es e later)
    | inr due ↦
        ap (λ x. x.queue.dedup) (reclaim-due fuel now r top es e due)
        ∙ dedup-reclaim fuel now _
        ∙ dedup-reclaim_entry (lease_pop r.queue.leases).0 (stripped fuel now r)
  ]
]

pub dedup-maintain :
    (now : ℕ) (answer1 answer2 : LogAnswer) (q : Queue)
    → (maintain now answer1 answer2 q).1.0.dedup ≡ q.dedup
unfolding maintain maintain_reserve
dedup-maintain now answer1 answer2 q =
    let q' = promote_due now q in
    let r = maintain_reserve now q in
    let P = λ (x : Queue). x.dedup ≡ q.dedup in
    let start : P r.queue =
      dedup-reclaim (length q'.leases) now (record { queue = q'; requeue = []; to_dlq = [] })
      ∙ dedup-promote_due now q in
    let first =
      or_skipped P r.requeue r.queue _ start
        (dedup-commit_requeue now r.requeue answer1 r.queue ∙ start) in
    or_skipped P r.to_dlq _ _ first (dedup-commit_bury r.to_dlq answer2 _ ∙ first)
