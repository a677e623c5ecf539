-- ===== src/Queue/Invariant/Maintenance.antt =====
-- Maintain of internal/queue/queue.go, and the messages of a queue.
use mathlib.Core.Path.{subst}
use stitch.Prelude.{
  ℕ, zero, suc, ◌+◌, ◌<◌, ◌≡◌, refl, sym, ap, Bool, true, false, none, some, List, [], ◌∷◌, ◌++◌,
  arith, length, ltb, str_eq, Bool-cases, Option-cases, List-cases, inl, inr, if◌then◌else◌,
}
use stitch.Prelude.Map
use stitch.Prelude.Tally.{bit, tally, tally-append}
use stitch.Queue.Message.{Message}
use stitch.Queue.Order.{LeaseEntry, no_lease, lease_less, lease_push, lease_pop}
use stitch.Queue.Order.Laws.{lease_less-StrictOrder}
use stitch.Queue.Heap.Ops.{pop_correct}
use stitch.Queue.Live.{Queue, put, promote_due, restore_leased, restore_leased_entry, move_to_dlq}
use stitch.Queue.Ops.{LogAnswer, is_exhausted, requeued}
use stitch.Queue.Maintain.{
  is_empty, Reclaimed, reclaim_entry, reclaim, maintain_reserve, maintain, restore_all, requeue_all,
  bury_all, commit_requeue, commit_bury,
}
use stitch.Queue.Invariant.{LeaseHeap, Balanced}
use stitch.Queue.Invariant.Waiting.{lease_push-LeaseHeap}
use stitch.Queue.Invariant.Steps.{
  leased-Balanced, restore_leased-Balanced, dropped-Balanced, adjusted-Balanced, put_back-Balanced,
}
use stitch.Queue.Invariant.Loops.{promote_due-Balanced}

abbrev pub messages : List (Message × LeaseEntry) → List Message
messages [] = []
messages ((m, e) ∷ r) = m ∷ messages r

pub tally-messages :
    (p : Message → Bool) (r : List (Message × LeaseEntry)) (m : Message) (e : LeaseEntry)
    → tally p (messages (r ++ ((m, e) ∷ []))) ≡ tally p (messages r) + bit (p m)
tally-messages p [] m e = omega arith
tally-messages p ((k, f) ∷ r) m e = omega (arith, tally-messages p r m e)

pub lease_pop-LeaseHeap :
    (h : List LeaseEntry) → 0 < length h → LeaseHeap h → LeaseHeap (lease_pop h).1
unfolding lease_pop
lease_pop-LeaseHeap h pos o = (pop_correct lease_less no_lease lease_less-StrictOrder h pos o).heap

-- Only the number of the held messages with an ID counts.
pub held-Balanced :
    {held held' : List Message} {q : Queue}
    → ((p : Message → Bool) → tally p held ≡ tally p held')
    → Balanced held q
    → Balanced held' q
held-Balanced same b = record {
  ordered = b.ordered;
  keyed = b.keyed;
  stored = b.stored;
  count = λ p. omega (arith, b.count p, same p);
  once = b.once;
}

pub leases-Balanced :
    {held : List Message} (q : Queue) (h : List LeaseEntry)
    → LeaseHeap h
    → Balanced held q
    → Balanced held (record q { leases = h })
leases-Balanced q h o b = record {
  ordered = record { ready = b.ordered.ready; delayed = b.ordered.delayed; leases = o };
  keyed = b.keyed;
  stored = b.stored;
  count = b.count;
  once = b.once;
}

pub restored :
    (m : Message) (e : LeaseEntry) (held : List Message) (q : Queue)
    → Balanced (m ∷ held) q
    → Balanced held (restore_leased_entry m e q)
unfolding restore_leased_entry restore_leased
restored m e held q b =
    leases-Balanced (restore_leased m q) (lease_push q.leases e)
      (lease_push-LeaseHeap q.leases e b.ordered.leases) (restore_leased-Balanced held m q b)

module _ (held : List Message) where
  -- The queue without the leases taken back, which Maintain holds.
  abbrev pub Holding : Reclaimed → Type 0
  Holding r = Balanced (messages r.requeue ++ (messages r.to_dlq ++ held)) r.queue

  pub reclaim_entry-Holding :
      (e : LeaseEntry) (r : Reclaimed) → Holding r → Holding (reclaim_entry e r)
  unfolding reclaim_entry
  reclaim_entry-Holding e r b = elim (Option-cases (Map.lookup e.id r.queue.inflight)) [
    | inl gone ↦ rw (reclaim_entry, gone) b
    | inr (m, there) ↦
        let taken = (leased-Balanced _ e.id m r.queue there b).1 in
        elim (Bool-cases (str_eq m.lease_token e.token)) [
          | inr stale ↦ rw (reclaim_entry, there, stale) b
          | inl fits ↦ elim (Bool-cases (is_exhausted r.queue m)) [
            | inl dead ↦
                rw (reclaim_entry, there, fits, dead)
                  (held-Balanced
                    (λ p. omega (
                      arith,
                      tally-append p (messages r.requeue) (messages r.to_dlq ++ held),
                      tally-append p (messages r.requeue)
                          (messages (r.to_dlq ++ ((m, e) ∷ [])) ++ held),
                      tally-append p (messages r.to_dlq) held,
                      tally-append p (messages (r.to_dlq ++ ((m, e) ∷ []))) held,
                      tally-messages p r.to_dlq m e,
                    ))
                    taken)
            | inr alive ↦
                rw (reclaim_entry, there, fits, alive)
                  (held-Balanced
                    (λ p. omega (
                      arith,
                      tally-append p (messages r.requeue) (messages r.to_dlq ++ held),
                      tally-append p (messages (r.requeue ++ ((m, e) ∷ [])))
                          (messages r.to_dlq ++ held),
                      tally-messages p r.requeue m e,
                    ))
                    taken)
          ]
        ]
  ]

  restore_all-Balanced :
      (r : List (Message × LeaseEntry)) (q : Queue)
      → Balanced (messages r ++ held) q
      → Balanced held (restore_all r q)
  unfolding restore_all
  restore_all-Balanced [] q b = b
  restore_all-Balanced ((m, e) ∷ r) q b =
      restore_all-Balanced r (restore_leased_entry m e q) (restored m e (messages r ++ held) q b)

  requeue_all-Balanced :
      (now : ℕ) (r : List (Message × LeaseEntry)) (q : Queue)
      → Balanced (messages r ++ held) q
      → Balanced held (requeue_all now r q)
  unfolding requeue_all requeued
  requeue_all-Balanced now [] q b = b
  requeue_all-Balanced now ((m, e) ∷ r) q b =
      let q1 = put (requeued m now) now q in
      requeue_all-Balanced now r _ (
        adjusted-Balanced _ q1 q1.seq q1.dlq q1.dedup _ q1.armed q1.wake
          (put_back-Balanced (messages r ++ held) m (requeued m now) now q refl b))

  pub bury_all-Balanced :
      (r : List (Message × LeaseEntry)) (q : Queue)
      → Balanced (messages r ++ held) q
      → Balanced held (bury_all r q)
  unfolding bury_all move_to_dlq
  bury_all-Balanced [] q b = b
  bury_all-Balanced ((m, e) ∷ r) q b = bury_all-Balanced r _ (
      adjusted-Balanced _ (record q { msgs = Map.delete m.id q.msgs }) q.seq _ q.dedup _ q.armed
        q.wake (dropped-Balanced (messages r ++ held) m q b))

  pub commit_requeue-Balanced :
      (now : ℕ) (r : List (Message × LeaseEntry)) (answer : LogAnswer) (q : Queue)
      → Balanced (messages r ++ held) q
      → Balanced held (commit_requeue now r answer q)
  unfolding commit_requeue
  commit_requeue-Balanced now r (some e) q b = restore_all-Balanced r q b
  commit_requeue-Balanced now r none q b = requeue_all-Balanced now r q b

  pub commit_bury-Balanced :
      (r : List (Message × LeaseEntry)) (answer : LogAnswer) (q : Queue)
      → Balanced (messages r ++ held) q
      → Balanced held (commit_bury r answer q)
  unfolding commit_bury
  commit_bury-Balanced r (some e) q b = restore_all-Balanced r q b
  commit_bury-Balanced r none q b = bury_all-Balanced r q b

  -- A part that does nothing on an empty list may be left out then.
  pub unless_empty :
      (r : List (Message × LeaseEntry)) (q q' : Queue)
      → Balanced (messages r ++ held) q
      → Balanced held q'
      → Balanced held (if is_empty r then q else q')
  unless_empty [] q q' b b' = b
  unless_empty (x ∷ r) q q' b b' = b'

module _ (fuel now : ℕ) (r : Reclaimed) where
  -- One expired entry is popped and its lease taken back.
  abbrev pub stripped : Reclaimed
  stripped = record r { queue = record r.queue { leases = (lease_pop r.queue.leases).1 } }

  pub reclaim-empty : r.queue.leases ≡ [] → reclaim (suc fuel) now r ≡ r
  unfolding reclaim
  reclaim-empty e = rw e refl

  pub reclaim-later :
      (top : LeaseEntry) (es : List LeaseEntry)
      → r.queue.leases ≡ top ∷ es
      → ltb now top.expires_at ≡ true
      → reclaim (suc fuel) now r ≡ r
  unfolding reclaim
  reclaim-later top es e later = rw (e, later) refl

  pub reclaim-due :
      (top : LeaseEntry) (es : List LeaseEntry)
      → r.queue.leases ≡ top ∷ es
      → ltb now top.expires_at ≡ false
      → reclaim (suc fuel) now r
        ≡ reclaim fuel now (reclaim_entry (lease_pop r.queue.leases).0 stripped)
  unfolding reclaim
  reclaim-due top es e due = rw (e, due) refl

module _ (held : List Message) where
  reclaim-Holding :
      (fuel now : ℕ) (r : Reclaimed) → Holding held r → Holding held (reclaim fuel now r)
  unfolding reclaim
  reclaim-Holding zero now r b = b
  reclaim-Holding (suc fuel) now r b = elim (List-cases r.queue.leases) [
    | inl e ↦ subst (Holding held) (sym (reclaim-empty fuel now r e)) b
    | inr (top, es, e) ↦ elim (Bool-cases (ltb now top.expires_at)) [
      | inl later ↦ subst (Holding held) (sym (reclaim-later fuel now r top es e later)) b
      | inr due ↦
          let rest =
            lease_pop-LeaseHeap r.queue.leases (omega (arith, ap length e)) b.ordered.leases in
          subst (Holding held) (sym (reclaim-due fuel now r top es e due)) (
            reclaim-Holding fuel now _ (
              reclaim_entry-Holding held (lease_pop r.queue.leases).0 (stripped fuel now r)
                (leases-Balanced r.queue (lease_pop r.queue.leases).1 rest b)))
    ]
  ]

  pub maintain_reserve-Balanced :
      (now : ℕ) (q : Queue) → Balanced held q → Holding held (maintain_reserve now q)
  unfolding maintain_reserve
  maintain_reserve-Balanced now q b =
      let q' = promote_due now q in
      let start : Holding held (record { queue = q'; requeue = []; to_dlq = [] }) =
        promote_due-Balanced held now q b in
      reclaim-Holding (length q'.leases) now _ start

  -- Maintain keeps the queue balanced, whichever of its appends fail: what came due is ready, and
  -- each message whose lease expired waits again, is among the dead letters or dropped, or, where
  -- the append failed, is in flight as before.
  pub maintain-Balanced :
      (now : ℕ) (answer1 answer2 : LogAnswer) (q : Queue)
      → Balanced held q
      → Balanced held (maintain now answer1 answer2 q).1.0
  unfolding maintain
  maintain-Balanced now answer1 answer2 q b =
      let r = maintain_reserve now q in
      let b0 = maintain_reserve-Balanced now q b in
      let later = messages r.to_dlq ++ held in
      let b1 =
        unless_empty later r.requeue r.queue _ b0
          (commit_requeue-Balanced later now r.requeue answer1 r.queue b0) in
      unless_empty held r.to_dlq _ _ b1 (commit_bury-Balanced held r.to_dlq answer2 _ b1)
