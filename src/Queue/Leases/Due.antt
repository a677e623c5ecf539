-- ===== src/Queue/Leases/Due.antt =====
-- Maintain of internal/queue/queue.go, and the messages whose visible time or whose lease is past.
use mathlib.Core.Path.{subst}
use stitch.Prelude.{
  ℕ, ◌≤◌, ◌<◌, ◌≡◌, refl, sym, ap, ◌∙◌, Bool, true, false, none, List, [], ◌∷◌, ◌++◌, ltb, arith,
  Bool-cases, inl, inr, if◌then◌else◌,
}
use stitch.Prelude.Map
use stitch.Prelude.Tally.{bit, tally}
use stitch.Queue.Message.{Config, Message}
use stitch.Queue.Message.Same.{same_message, same_message_sound}
use stitch.Queue.Order.{LeaseEntry}
use stitch.Queue.Live.{Queue, new_queue, put, promote_due, move_to_dlq}
use stitch.Queue.Ops.{LogAnswer, Trace, requeued, next_deadline}
use stitch.Queue.Maintain.{
  is_empty, maintain_reserve, maintain, commit_requeue, commit_bury, requeue_all, bury_all,
}
use stitch.Queue.Invariant.{Balanced}
use stitch.Queue.Invariant.Due.{is_due, promote_due-not_due}
use stitch.Queue.Invariant.Maintenance.{
  messages, maintain_reserve-Balanced, commit_requeue-Balanced, unless_empty, maintain-Balanced,
}
use stitch.Queue.Invariant.Operations.{new_queue-Balanced}
use stitch.Manager.Mirror.History.{Move, History, Move-Balanced, History-Balanced}
use stitch.Queue.Leases.{watches, lent, Watched, lent-promote_due}
use stitch.Queue.Leases.Operations.{lent-enqueue, try_dequeue-Watched, ack-Watched, nack-Watched}
use stitch.Queue.Leases.Reclaim.{commit_requeue-Watched, commit_bury-Watched}
use stitch.Queue.Leases.Sweep.{maintain_reserve-Swept, is_past, timed, delayed-maintain_reserve}

ltb_self : (n : ℕ) → ltb n n ≡ false
ltb_self n = ground arith

-- A part that does nothing on an empty list may be left out then.
pub or_skipped :
    (P : Queue → Type 0) (r : List (Message × LeaseEntry)) (q q' : Queue)
    → P q
    → P q'
    → P (if is_empty r then q else q')
or_skipped P [] q q' h h' = h
or_skipped P (x ∷ r) q q' h h' = h'

module _ (now : ℕ) (q : Queue) (b : Balanced [] q) (w : Watched [] (lent q)) where
  pub maintain-Watched :
      (answer1 answer2 : LogAnswer) → Watched [] (lent (maintain now answer1 answer2 q).1.0)
  unfolding maintain
  maintain-Watched answer1 answer2 =
      let r = maintain_reserve now q in
      let s = maintain_reserve-Swept [] now q b w in
      let b0 = maintain_reserve-Balanced [] now q b in
      let later = messages r.to_dlq ++ [] in
      let b1 =
        unless_empty later r.requeue r.queue _ b0
          (commit_requeue-Balanced later now r.requeue answer1 r.queue b0) in
      let w1 =
        or_skipped (λ x. Watched [] (lent x)) r.requeue r.queue _ s.sound.1.watched
          (commit_requeue-Watched later now r.requeue answer1 r.queue b0 s.sound.1.requeue
            s.sound.1.watched) in
      or_skipped (λ x. Watched [] (lent x)) r.to_dlq _ _ w1
        (commit_bury-Watched [] r.to_dlq answer2 _ b1 s.sound.1.to_dlq w1)

pub Move-Watched :
    (q q' : Queue) (t : Trace)
    → Move q t q'
    → Balanced [] q
    → Watched [] (lent q)
    → Watched [] (lent q')
unfolding next_deadline
Move-Watched q q' t (Move.enqueued now later id body priority delay k answer _ fresh) b w =
    subst (Watched []) (sym (lent-enqueue now later id body priority delay k answer q)) w
Move-Watched q q' t (Move.dequeued now n token answer _) b w =
    try_dequeue-Watched now n token answer q b w
Move-Watched q q' t (Move.acked id token answer _) b w = ack-Watched id token answer q b w
Move-Watched q q' t (Move.nacked now id token delay answer _) b w =
    nack-Watched now id token delay answer q b w
Move-Watched q q' t (Move.maintained now answer1 answer2 _) b w =
    maintain-Watched now q b w answer1 answer2
Move-Watched q q' t (Move.inspected now _) b w = subst (Watched []) (sym (lent-promote_due now q)) w
Move-Watched q q' t (Move.armed _) b w = w

History-Watched :
    (q q' : Queue) (t : Trace)
    → History q t q'
    → Balanced [] q
    → Watched [] (lent q)
    → Watched [] (lent q')
History-Watched q q' t (History.stop _) b w = w
History-Watched q q' t (History.next _ q2 _ u v m h) b w =
    History-Watched q2 q' v h (Move-Balanced q q2 u m b) (Move-Watched q q2 u m b w)

module _ (cfg : Config) (q : Queue) (t : Trace) (h : History (new_queue cfg) t q) where
  pub since_new-Balanced : Balanced [] q
  since_new-Balanced = History-Balanced (new_queue cfg) q t h (new_queue-Balanced cfg)

  pub since_new-Watched : Watched [] (lent q)
  since_new-Watched =
      History-Watched (new_queue cfg) q t h (new_queue-Balanced cfg)
        (λ m c. absurd (omega (arith, c)))

-- Where the delayed messages stay.
pub timed-requeue_all :
    (now : ℕ) (r : List (Message × LeaseEntry)) (q : Queue) → timed (requeue_all now r q) ≡ timed q
unfolding requeue_all put requeued
timed-requeue_all now [] q = refl
timed-requeue_all now ((m, e) ∷ r) q = timed-requeue_all now r _ ∙ rw (ltb_self now) refl

pub timed-bury_all : (r : List (Message × LeaseEntry)) (q : Queue) → timed (bury_all r q) ≡ timed q
unfolding bury_all move_to_dlq
timed-bury_all [] q = refl
timed-bury_all ((m, e) ∷ r) q = timed-bury_all r _

-- The heaps that set the deadline, after a Maintain whose appends succeed.
timed-maintain :
    (now : ℕ) (q : Queue)
    → timed (maintain now none none q).1.0
      ≡ ((promote_due now q).delayed, (maintain_reserve now q).queue.leases)
unfolding maintain commit_requeue commit_bury
timed-maintain now q =
    let r = maintain_reserve now q in
    let P = λ (x : Queue). timed x ≡ ((promote_due now q).delayed, r.queue.leases) in
    let start : P r.queue = ap (λ d. (d, r.queue.leases)) (delayed-maintain_reserve now q) in
    let step1 = timed-requeue_all now r.requeue r.queue ∙ start in
    let first = or_skipped P r.requeue r.queue (requeue_all now r.requeue r.queue) start step1 in
    or_skipped P r.to_dlq _ _ first (timed-bury_all r.to_dlq _ ∙ first)

-- A message that a list holds passes what the list's entries that pass are counted by.
same_under :
    (m : Message) (p : Message → Bool) (xs : List Message)
    → p m ≡ true
    → tally (same_message m) xs ≤ tally p xs
same_under m p [] h = omega arith
same_under m p (x ∷ xs) h = elim (Bool-cases (same_message m x)) [
  | inl same ↦
      let e : p x ≡ true = subst (λ y. p y ≡ true) (same_message_sound m x same) h in
      omega (arith, same_under m p xs h, ap bit same, ap bit e)
  | inr other ↦ omega (arith, same_under m p xs h, ap bit other)
]

watches_under :
    (m : Message) (now : ℕ) (es : List LeaseEntry)
    → m.lease_expires ≤ now
    → tally (watches m) es ≤ tally (is_past now) es
unfolding watches
watches_under m now [] h = omega arith
watches_under m now (e ∷ es) h = elim (Bool-cases (watches m e)) [
  | inl fits ↦
      let e' : is_past now e ≡ true = ground (arith, fits) in
      omega (arith, watches_under m now es h, ap bit fits, ap bit e')
  | inr other ↦ omega (arith, watches_under m now es h, ap bit other)
]

-- After any operations on a new queue, one after the other, each new message under an ID that no
-- live message has, and with any answers of the log: a Maintain whose appends both succeed leaves
-- each live message ready whose visible time and whose lease are at or before its reading of the
-- clock, so no expired lease and no delay holds a message back once it has run.
pub due_ready :
    (cfg : Config) (q : Queue) (t : Trace) (now : ℕ) (m : Message)
    → History (new_queue cfg) t q
    → 0 < tally (same_message m) (Map.values (maintain now none none q).1.0.msgs)
    → m.visible_at ≤ now
    → m.lease_expires ≤ now
    → 0 < tally (same_message m) (maintain now none none q).1.0.ready
due_ready cfg q t now m h there visible expired =
    let q' = (maintain now none none q).1.0 in
    let b = since_new-Balanced cfg q t h in
    let w = since_new-Watched cfg q t h in
    let heaps = timed-maintain now q in
    let delayed_none : tally (is_due now) q'.delayed ≡ 0 =
      ap (λ x. tally (is_due now) x.0) heaps ∙ promote_due-not_due [] now q b in
    let leases_none : tally (is_past now) q'.leases ≡ 0 =
      ap (λ x. tally (is_past now) x.1) heaps ∙ (maintain_reserve-Swept [] now q b w).later in
    let no_delay = same_under m (is_due now) q'.delayed (ground arith) in
    let no_lease = watches_under m now q'.leases expired in
    let watched = maintain-Watched now q b w none none m in
    let count = (maintain-Balanced [] now none none q b).count (same_message m) in
    elim (Bool-cases (ltb 0 (tally (same_message m) (Map.values q'.inflight)))) [
      | inr idle ↦
          let unlent : tally (same_message m) (Map.values q'.inflight) ≡ 0 = ground (arith, idle) in
          omega (arith, count, no_delay, delayed_none, there, unlent)
      | inl lent ↦
          let some_lent : 0 < tally (same_message m) (Map.values q'.inflight) =
            ground (arith, lent) in
          absurd (omega (arith, no_lease, leases_none, watched (omega (arith, some_lent))))
    ]
