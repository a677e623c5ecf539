-- ===== src/Queue/Maintain.antt =====
-- internal/queue/queue.go: Maintain, which takes expired leases back, in the steps between which it
-- lets go of the lock.
use stitch.Prelude.{
  ℕ, zero, suc, Bool, true, false, not, String, none, some, List, [], ◌∷◌, ◌++◌, ltb, str_eq,
  length, inc64, if◌then◌else◌,
}
use stitch.Prelude.Map
use stitch.Prelude.Map.{Map}
use stitch.Queue.Message.{Message}
use stitch.Queue.Order.{LeaseEntry, lease_pop, peek}
use stitch.Queue.Payload.{Payload, ExpireItem}
use stitch.Queue.Live.{Queue, put, promote_due, restore_leased_entry, move_to_dlq}
use stitch.Queue.Ops.{LogAnswer, Trace, is_exhausted, reason, requeued}

-- The leases that Maintain takes back: the queue, and the messages with their lease entries, those
-- to requeue and those for the dead-letter queue.
pub record Reclaimed : Type 0 where
  pub queue : Queue
  pub requeue : List (Message × LeaseEntry)
  pub to_dlq : List (Message × LeaseEntry)

-- One expired entry, popped off `leases`.
unfoldable pub reclaim_entry : LeaseEntry → Reclaimed → Reclaimed
reclaim_entry e r = elim (Map.lookup e.id r.queue.inflight) [
  | none ↦ r
  | some m ↦
      let q' = record r.queue { inflight = Map.delete e.id r.queue.inflight } in
      if not (str_eq m.lease_token e.token)
      then r
      else if is_exhausted r.queue m
      then record r { queue = q'; to_dlq = r.to_dlq ++ ((m, e) ∷ []) }
      else record r { queue = q'; requeue = r.requeue ++ ((m, e) ∷ []) }
]

-- The loop over the expired leases; each round takes an entry out of `leases`.
unfoldable pub reclaim : ℕ → ℕ → Reclaimed → Reclaimed
reclaim zero now r = r
reclaim (suc fuel) now r = elim (peek r.queue.leases) [
  | none ↦ r
  | some top ↦
      let (e, rest) = lease_pop r.queue.leases in
      let next =
        reclaim fuel now
          (reclaim_entry e (record r { queue = record r.queue { leases = rest } })) in
      if ltb now top.expires_at then r else next
]

unfoldable pub maintain_reserve : ℕ → Queue → Reclaimed
unfolding reclaim
maintain_reserve now q =
    let q' = promote_due now q in
    reclaim (length q'.leases) now (record { queue = q'; requeue = []; to_dlq = [] })

unfoldable pub expire_items : ℕ → List (Message × LeaseEntry) → List ExpireItem
expire_items now [] = []
expire_items now ((m, e) ∷ r) = (record { id = m.id; visible_at = now }) ∷ expire_items now r

abbrev pub ids_of : List (Message × LeaseEntry) → List String
ids_of [] = []
ids_of ((m, e) ∷ r) = m.id ∷ ids_of r

unfoldable pub restore_all : List (Message × LeaseEntry) → Queue → Queue
restore_all [] q = q
restore_all ((m, e) ∷ r) q = restore_all r (restore_leased_entry m e q)

unfoldable pub requeue_all : ℕ → List (Message × LeaseEntry) → Queue → Queue
requeue_all now [] q = q
requeue_all now ((m, e) ∷ r) q =
    let q1 = put (requeued m now) now q in
    requeue_all now r (record q1 { cnt = record q1.cnt { expired = inc64 q1.cnt.expired } })

unfoldable pub bury_all : List (Message × LeaseEntry) → Queue → Queue
bury_all [] q = q
bury_all ((m, e) ∷ r) q =
    let q1 = move_to_dlq m q in
    bury_all r (record q1 {
      cnt = record q1.cnt { expired = inc64 q1.cnt.expired; dlq_moved = inc64 q1.cnt.dlq_moved };
    })

-- The commits of the two appends of Maintain.
unfoldable pub commit_requeue : ℕ → List (Message × LeaseEntry) → LogAnswer → Queue → Queue
commit_requeue now r (some e) q = restore_all r q
commit_requeue now r none q = requeue_all now r q

unfoldable pub commit_bury : List (Message × LeaseEntry) → LogAnswer → Queue → Queue
commit_bury r (some e) q = restore_all r q
commit_bury r none q = bury_all r q

abbrev pub first_error : LogAnswer → LogAnswer → LogAnswer
first_error (some e) f = some e
first_error none f = f

abbrev pub is_empty {ℓ} : {A : Type ℓ} → List A → Bool
is_empty [] = true
is_empty (x ∷ xs) = false

-- Maintain, with the outcomes of its two appends.
unfoldable pub maintain : ℕ → LogAnswer → LogAnswer → Queue → LogAnswer × (Queue × Trace)
maintain now answer1 answer2 q =
    let r = maintain_reserve now q in
    let q1 = if is_empty r.requeue then r.queue else commit_requeue now r.requeue answer1 r.queue in
    let q2 = if is_empty r.to_dlq then q1 else commit_bury r.to_dlq answer2 q1 in
    let t1 : Trace =
      if is_empty r.requeue
      then []
      else (Payload.expire q.cfg.name (expire_items now r.requeue), answer1) ∷ [] in
    let t2 : Trace =
      if is_empty r.to_dlq
      then []
      else (Payload.dlq_move q.cfg.name (ids_of r.to_dlq) reason, answer2) ∷ [] in
    let e1 : LogAnswer = if is_empty r.requeue then none else answer1 in
    let e2 : LogAnswer = if is_empty r.to_dlq then none else answer2 in
    (first_error e1 e2, (q2, t1 ++ t2))
