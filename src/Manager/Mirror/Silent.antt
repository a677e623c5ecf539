-- ===== src/Manager/Mirror/Silent.antt =====
-- The steps of internal/queue/queue.go that the log does not see, and replay of one trace after another.
use stitch.Prelude.{
  ℕ, zero, suc, ◌≡◌, refl, ap, ◌∙◌, none, some, List, [], ◌∷◌, ◌++◌, ok, ◌>>=◌, length, ltb, leb,
  not, ◌&&◌, ◌==◌, str_eq, Bool-cases, Option-cases, List-cases, Result-cases, inl, inr,
}
use stitch.Prelude.Map
use stitch.Prelude.Map.{Map}
use stitch.Queue.Message.{Message}
use stitch.Queue.Order.{LeaseEntry, lease_pop}
use stitch.Queue.Payload.{Payload}
use stitch.Queue.Live.{Queue, promote, promote_due, wake_if_sooner, restore_leased_entry}
use stitch.Queue.Ops.{Trace, push_back, is_exhausted}
use stitch.Queue.Maintain.{Reclaimed, reclaim_entry, reclaim, maintain_reserve, restore_all}
use stitch.Queue.Invariant.Loops.{promote-empty, promote-later, promote-due, promoted}
use stitch.Queue.Invariant.Maintenance.{stripped, reclaim-empty, reclaim-later, reclaim-due}
use stitch.Manager.{apply_to_queue}
use stitch.Manager.Mirror.{view, Mirrors, logged, fold_payloads, Reaches}
use stitch.Manager.Mirror.Commits.{Mirrors-view}

-- What does not change the view.
pub view-wake_if_sooner : (deadline : ℕ) (q : Queue) → view (wake_if_sooner deadline q) ≡ view q
unfolding wake_if_sooner
view-wake_if_sooner deadline q = elim (Bool-cases (not (q.armed == 0) && leb q.armed deadline)) [
  | inl sooner ↦ rw (wake_if_sooner, sooner) refl
  | inr later ↦ rw (wake_if_sooner, later) refl
]

view-promote : (fuel now : ℕ) (q : Queue) → view (promote fuel now q) ≡ view q
unfolding promote
view-promote zero now q = refl
view-promote (suc fuel) now q = elim (List-cases q.delayed) [
  | inl e ↦ ap view (promote-empty fuel now q e)
  | inr (m, ms, e) ↦ elim (Bool-cases (ltb now m.visible_at)) [
    | inl later ↦ ap view (promote-later fuel now q m ms e later)
    | inr due ↦ ap view (promote-due fuel now q m ms e due) ∙ view-promote fuel now (promoted q)
  ]
]

pub view-promote_due : (now : ℕ) (q : Queue) → view (promote_due now q) ≡ view q
unfolding promote_due
view-promote_due now q = view-promote (length q.delayed) now q

pub view-push_back : (picked : List Message) (q : Queue) → view (push_back picked q) ≡ view q
unfolding push_back
view-push_back [] q = refl
view-push_back (m ∷ ms) q = view-push_back ms _

pub view-restore_all :
    (xs : List (Message × LeaseEntry)) (q : Queue) → view (restore_all xs q) ≡ view q
unfolding restore_all restore_leased_entry
view-restore_all [] q = refl
view-restore_all ((m, e) ∷ xs) q = view-restore_all xs _

view-reclaim_entry :
    (e : LeaseEntry) (r : Reclaimed) → view (reclaim_entry e r).queue ≡ view r.queue
unfolding reclaim_entry
view-reclaim_entry e r = elim (Option-cases (Map.lookup e.id r.queue.inflight)) [
  | inl gone ↦ rw (reclaim_entry, gone) refl
  | inr (m, there) ↦ elim (Bool-cases (str_eq m.lease_token e.token)) [
    | inr stale ↦ rw (reclaim_entry, there, stale) refl
    | inl fits ↦ elim (Bool-cases (is_exhausted r.queue m)) [
      | inl dead ↦ rw (reclaim_entry, there, fits, dead) refl
      | inr alive ↦ rw (reclaim_entry, there, fits, alive) refl
    ]
  ]
]

view-reclaim : (fuel now : ℕ) (r : Reclaimed) → view (reclaim fuel now r).queue ≡ view r.queue
unfolding reclaim
view-reclaim zero now r = refl
view-reclaim (suc fuel) now r = elim (List-cases r.queue.leases) [
  | inl e ↦ ap (λ x. view x.queue) (reclaim-empty fuel now r e)
  | inr (top, es, e) ↦ elim (Bool-cases (ltb now top.expires_at)) [
    | inl later ↦ ap (λ x. view x.queue) (reclaim-later fuel now r top es e later)
    | inr due ↦
        let r1 = stripped fuel now r in
        let entry = (lease_pop r.queue.leases).0 in
        ap (λ x. view x.queue) (reclaim-due fuel now r top es e due)
        ∙ view-reclaim fuel now (reclaim_entry entry r1)
        ∙ view-reclaim_entry entry r1
  ]
]

pub view-maintain_reserve : (now : ℕ) (q : Queue) → view (maintain_reserve now q).queue ≡ view q
unfolding maintain_reserve
view-maintain_reserve now q =
    let q' = promote_due now q in
    view-reclaim (length q'.leases) now (record { queue = q'; requeue = []; to_dlq = [] })
    ∙ view-promote_due now q

pub logged-append : (a b : Trace) → logged (a ++ b) ≡ logged a ++ logged b
logged-append [] b = refl
logged-append ((p, none) ∷ a) b = ap (◌∷◌ p) (logged-append a b)
logged-append ((p, some e) ∷ a) b = logged-append a b

-- Replay of nothing, of one payload, and of two traces one after the other.
pub unlogged : {q q' r : Queue} → view q' ≡ view q → Mirrors q r → Reaches [] r q'
unlogged {r} e s = (r, refl, Mirrors-view e s)

pub Reaches-one :
    (p : Payload) {q' : Queue} (r : Queue)
    → (r' : Queue) × (apply_to_queue p r ≡ ok r') × Mirrors q' r'
    → Reaches (p ∷ []) r q'
Reaches-one p r (r', done, s) = (r', rw done refl, s)

fold_payloads-append :
    (a b : List Payload) (r : Queue)
    → fold_payloads (a ++ b) r ≡ (fold_payloads a r >>= fold_payloads b)
fold_payloads-append [] b r = refl
fold_payloads-append (p ∷ a) b r = elim (Result-cases (apply_to_queue p r)) [
  | inl (r', good) ↦ rw good (fold_payloads-append a b r')
  | inr (e, bad) ↦ rw bad refl
]

pub Reaches-append :
    (a b : List Payload) (r q q' : Queue)
    → Reaches a r q
    → ((r1 : Queue) → Mirrors q r1 → Reaches b r1 q')
    → Reaches (a ++ b) r q'
Reaches-append a b r q q' (r1, first, s1) next =
    let (r2, second, s2) = next r1 s1 in (r2, fold_payloads-append a b r ∙ rw first second, s2)
