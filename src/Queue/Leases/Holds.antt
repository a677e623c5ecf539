-- ===== src/Queue/Leases/Holds.antt =====
-- A lease of internal/queue/queue.go while it lasts, under whole operations.
use mathlib.Core.Path.{subst}
use stitch.Prelude.{
  ℕ, zero, suc, ◌+◌, ◌^◌, ◌<◌, ◌≡◌, refl, sym, ap, ◌∙◌, Bool, true, false, not, ◌&&◌, String, some,
  [], ◌++◌, err, ltb, length, ◌==◌, arith, str_eq, eq_iff, Bool-cases, List-cases, inl, inr,
}
use stitch.Prelude.Int.{ℤ, pos_part}
use stitch.Prelude.Map
use stitch.Prelude.Tally.{tally}
use stitch.Queue.Message.{Config, Message, bad_lease_token}
use stitch.Queue.Order.{LeaseEntry, lease_less, lease_pop}
use stitch.Queue.Heap.Ops.{All}
use stitch.Queue.Live.{Queue, new_queue, promote_due, take_leased}
use stitch.Queue.Ops.{
  LogAnswer, Trace, pick, try_dequeue, ack, nack, is_exhausted, nack_visible_at, next_deadline,
}
use stitch.Queue.Maintain.{Reclaimed, reclaim_entry, reclaim, maintain_reserve, maintain}
use stitch.Queue.Delivery.{pick-Picked}
use stitch.Queue.Invariant.{Balanced, waiting, count_ids}
use stitch.Queue.Invariant.Steps.{leased-Balanced}
use stitch.Queue.Invariant.Loops.{promote_due-Balanced, pick-Balanced}
use stitch.Queue.Invariant.Operations.{take_leased_cases}
use stitch.Queue.Invariant.Maintenance.{
  messages, stripped, reclaim-empty, reclaim-later, reclaim-due, Holding, reclaim_entry-Holding,
  leases-Balanced, maintain_reserve-Balanced, commit_requeue-Balanced, unless_empty,
}
use stitch.Queue.Leases.{lent, Watched, lent-promote_due}
use stitch.Queue.Leases.Operations.{lent-enqueue}
use stitch.Queue.Leases.Reclaim.{lease_pop-Popped}
use stitch.Queue.Leases.Sweep.{maintain_reserve-Swept}
use stitch.Queue.Leases.Exclusive.{
  ends_early, Lasts, reclaim_entry-Lasts, commit_requeue-Lasts, commit_bury-Lasts, ack_commit-Lasts,
  nack_commit-Lasts, dequeue_commit-Lasts,
}
use stitch.Queue.Leases.Due.{or_skipped, Move-Watched, since_new-Balanced, since_new-Watched}
use stitch.Manager.Mirror.History.{Move, History, Move-Balanced}

module _ (m : Message) where
  reclaim-Lasts :
      (fuel now : ℕ) (r : Reclaimed)
      → now < m.lease_expires
      → Holding [] r
      → Lasts m (lent r.queue)
      → Lasts m (lent (reclaim fuel now r).queue)
  unfolding reclaim lease_less
  reclaim-Lasts zero now r soon b l = l
  reclaim-Lasts (suc fuel) now r soon b l = elim (List-cases r.queue.leases) [
    | inl e ↦ subst (λ x. Lasts m (lent x.queue)) (sym (reclaim-empty fuel now r e)) l
    | inr (top, es, e) ↦ elim (Bool-cases (ltb now top.expires_at)) [
      | inl later ↦
          subst (λ x. Lasts m (lent x.queue)) (sym (reclaim-later fuel now r top es e later)) l
      | inr due ↦
          let pos : 0 < length r.queue.leases = omega (arith, ap length e) in
          let popped = lease_pop-Popped r.queue.leases pos b.ordered.leases in
          let e' = (lease_pop r.queue.leases).0 in
          let r1 = stripped fuel now r in
          let least =
            (subst (All (λ (t : LeaseEntry). lease_less t e' ≡ false)) e popped.least).0 in
          let early : e'.expires_at < m.lease_expires = ground (arith, least, due, soon) in
          let split = popped.same (ends_early m) in
          let kept : ends_early m e' ≡ false = ground (arith, split, l.1) in
          let rest : tally (ends_early m) (lease_pop r.queue.leases).1 ≡ 0 =
            omega (arith, split, l.1) in
          subst (λ x. Lasts m (lent x.queue)) (sym (reclaim-due fuel now r top es e due))
            (reclaim-Lasts fuel now (reclaim_entry e' r1) soon
              (reclaim_entry-Holding [] e' r1
                (leases-Balanced r.queue (lease_pop r.queue.leases).1 popped.heap b))
              (reclaim_entry-Lasts m e' r1 early kept (l.0, rest)))
    ]
  ]

  maintain-Lasts :
      (now : ℕ) (answer1 answer2 : LogAnswer) (q : Queue)
      → now < m.lease_expires
      → Balanced [] q
      → Watched [] (lent q)
      → Lasts m (lent q)
      → Lasts m (lent (maintain now answer1 answer2 q).1.0)
  unfolding maintain maintain_reserve
  maintain-Lasts now answer1 answer2 q soon b w l =
      let q' = promote_due now q in
      let r = maintain_reserve now q in
      let s = maintain_reserve-Swept [] now q b w in
      let b0 = maintain_reserve-Balanced [] now q b in
      let later = messages r.to_dlq ++ [] in
      let l0 =
        reclaim-Lasts (length q'.leases) now (record { queue = q'; requeue = []; to_dlq = [] }) soon
          (promote_due-Balanced [] now q b) (subst (Lasts m) (sym (lent-promote_due now q)) l) in
      let b1 =
        unless_empty later r.requeue r.queue _ b0
          (commit_requeue-Balanced later now r.requeue answer1 r.queue b0) in
      let l1 =
        or_skipped (λ x. Lasts m (lent x)) r.requeue r.queue _ l0
          (commit_requeue-Lasts m later now r.requeue answer1 r.queue b0 s.sound.1.requeue l0) in
      or_skipped (λ x. Lasts m (lent x)) r.to_dlq _ _ l1
        (commit_bury-Lasts m [] r.to_dlq answer2 _ b1 s.sound.1.to_dlq l1)

  try_dequeue-Lasts :
      (now n : ℕ) (token : ℕ → String) (answer : LogAnswer) (q : Queue)
      → Balanced [] q
      → Lasts m (lent q)
      → Lasts m (lent (try_dequeue now n token answer q).1.0)
  unfolding try_dequeue
  try_dequeue-Lasts now n token answer q b l =
      let q1 = promote_due now q in
      let r = pick n q1 [] in
      let b1 = promote_due-Balanced [] now q b in
      let taken = pick-Balanced [] n q1 b1 in
      let same : lent r.0 ≡ lent q =
        ap lent (pick-Picked n q1 b1.ordered.ready).queue ∙ lent-promote_due now q in
      let l' : Lasts m (lent r.0) = subst (Lasts m) (sym same) l in
      elim (List-cases r.1) [
        | inl nothing ↦ rw nothing l'
        | inr (x, xs, e) ↦
            let some_taken : (length r.1 == 0) ≡ false = rw e (ground arith) in
            let done =
              dequeue_commit-Lasts m [] (now + pos_part q.cfg.visibility_timeout_ms) token r.1
                answer r.0 taken l' in
            rw (try_dequeue, some_taken) done
      ]

  -- Whether an Ack or Nack is one for this delivery.
  abbrev pub is_its : String → String → Bool
  is_its id token = str_eq id m.id && str_eq token m.lease_token

  -- One for another delivery of the message is refused.
  refused :
      (id token : String) (q : Queue)
      → str_eq id m.id ≡ true
      → is_its id token ≡ false
      → Lasts m (lent q)
      → take_leased id token q ≡ err bad_lease_token
  unfolding take_leased
  refused id token q same other l =
      let there : Map.lookup id q.inflight ≡ some m =
        ap (λ k. Map.lookup k q.inflight) ((eq_iff id m.id).0 same) ∙ l.0 in
      let wrong : str_eq m.lease_token token ≡ false =
        elim (Bool-cases (str_eq m.lease_token token)) [
          | inr wrong ↦ wrong
          | inl fits ↦
              let fits' : str_eq token m.lease_token ≡ true =
                (eq_iff token m.lease_token).1 (sym ((eq_iff m.lease_token token).0 fits)) in
              absurd (ground (arith, same, fits', other))
        ] in
      rw (take_leased, there, wrong) refl

  ack-Lasts :
      (id token : String) (answer : LogAnswer) (q : Queue)
      → is_its id token ≡ false
      → Balanced [] q
      → Lasts m (lent q)
      → Lasts m (lent (ack id token answer q).1.0)
  unfolding ack
  ack-Lasts id token answer q other b l = elim (Bool-cases (str_eq id m.id)) [
    | inl same ↦ rw (ack, refused id token q same other l) l
    | inr apart ↦ elim (take_leased_cases id token q) [
      | inl (e, bad) ↦ rw (ack, bad) l
      | inr (x, there, good) ↦
          rw (ack, good)
            (ack_commit-Lasts m [] id x answer (record q { inflight = Map.delete id q.inflight })
              (leased-Balanced [] id x q there b).1
              (Map.lookup-delete m.id id q.inflight apart ∙ l.0, l.1))
    ]
  ]

  nack-Lasts :
      (now : ℕ) (id token : String) (delay : ℤ) (answer : LogAnswer) (q : Queue)
      → is_its id token ≡ false
      → Balanced [] q
      → Lasts m (lent q)
      → Lasts m (lent (nack now id token delay answer q).1.0)
  unfolding nack
  nack-Lasts now id token delay answer q other b l = elim (Bool-cases (str_eq id m.id)) [
    | inl same ↦ rw (nack, refused id token q same other l) l
    | inr apart ↦ elim (take_leased_cases id token q) [
      | inl (e, bad) ↦ rw (nack, bad) l
      | inr (x, there, good) ↦
          rw (nack, good)
            (nack_commit-Lasts m [] x (is_exhausted q x) (nack_visible_at now delay) now answer
              (record q { inflight = Map.delete id q.inflight })
              (leased-Balanced [] id x q there b).1
              (Map.lookup-delete m.id id q.inflight apart ∙ l.0, l.1))
    ]
  ]

  -- Whether an operation leaves the delivery alone: it is no Ack or Nack for it, and no Maintain
  -- that reads a time when the lease is over.
  abbrev pub spares : {q q' : Queue} {t : Trace} → Move q t q' → Bool
  spares (Move.enqueued now later id body priority delay k answer q fresh) = true
  spares (Move.dequeued now n token answer q) = true
  spares (Move.acked id token answer q) = not (is_its id token)
  spares (Move.nacked now id token delay answer q) = not (is_its id token)
  spares (Move.maintained now answer1 answer2 q) = ltb now m.lease_expires
  spares (Move.inspected now q) = true
  spares (Move.armed q) = true

  abbrev pub AllSpare : {q q' : Queue} {t : Trace} → History q t q' → Type 0
  AllSpare (History.stop q) = Unit
  AllSpare (History.next q1 q2 q3 t u move rest) = (spares move ≡ true) × AllSpare rest

  Move-Lasts :
      (q q' : Queue) (t : Trace) (move : Move q t q')
      → spares move ≡ true
      → Balanced [] q
      → Watched [] (lent q)
      → Lasts m (lent q)
      → Lasts m (lent q')
  unfolding next_deadline
  Move-Lasts q q' t (Move.enqueued now later id body priority delay k answer _ fresh) s b w l =
      subst (Lasts m) (sym (lent-enqueue now later id body priority delay k answer q)) l
  Move-Lasts q q' t (Move.dequeued now n token answer _) s b w l =
      try_dequeue-Lasts now n token answer q b l
  Move-Lasts q q' t (Move.acked id token answer _) s b w l =
      ack-Lasts id token answer q (ground arith) b l
  Move-Lasts q q' t (Move.nacked now id token delay answer _) s b w l =
      nack-Lasts now id token delay answer q (ground arith) b l
  Move-Lasts q q' t (Move.maintained now answer1 answer2 _) s b w l =
      maintain-Lasts now answer1 answer2 q (ground arith) b w l
  Move-Lasts q q' t (Move.inspected now _) s b w l =
      subst (Lasts m) (sym (lent-promote_due now q)) l
  Move-Lasts q q' t (Move.armed _) s b w l = l

  History-Lasts :
      (q q' : Queue) (t : Trace) (h : History q t q')
      → AllSpare h
      → Balanced [] q
      → Watched [] (lent q)
      → Lasts m (lent q)
      → Lasts m (lent q') × Balanced [] q'
  History-Lasts q q' t (History.stop _) s b w l = (l, b)
  History-Lasts q q' t (History.next _ q2 _ u v move h) s b w l =
      History-Lasts q2 q' v h s.1 (Move-Balanced q q2 u move b) (Move-Watched q q2 u move b w)
        (Move-Lasts q q2 u move s.0 b w l)

-- The time when a lease that a Dequeue grants runs out is one of int64, as the source has it.
abbrev fits_int64 : {q q' : Queue} {t : Trace} → Move q t q' → Bool
fits_int64 (Move.enqueued now later id body priority delay k answer q fresh) = true
fits_int64 (Move.dequeued now n token answer q) =
    ltb (now + pos_part q.cfg.visibility_timeout_ms) (2 ^ 63)
fits_int64 (Move.acked id token answer q) = true
fits_int64 (Move.nacked now id token delay answer q) = true
fits_int64 (Move.maintained now answer1 answer2 q) = true
fits_int64 (Move.inspected now q) = true
fits_int64 (Move.armed q) = true

abbrev pub AllFit : {q q' : Queue} {t : Trace} → History q t q' → Type 0
AllFit (History.stop q) = Unit
AllFit (History.next q1 q2 q3 t u move rest) = (fits_int64 move ≡ true) × AllFit rest

-- A delivery on a queue that has had nothing but operations since it was new, one after the other,
-- each new message under an ID that no live message has, where no lease entry for the same message
-- and token runs out before the lease, and where no Dequeue, before or after, adds its time and the
-- visibility timeout to more than int64 holds: whatever operations follow, with any answers of the
-- log, as long as none is an Ack or Nack with its ID and its token and each Maintain reads a time
-- before the lease runs out, the message stays in flight, with the same token and attempts and
-- every other field, and waits in no heap, so no Dequeue hands it out again. An Ack or Nack that
-- names the message with another token is among these.
pub lease_lasts :
    (cfg : Config) (q q' : Queue) (t u : Trace) (m : Message) (h : History q u q')
    (before : History (new_queue cfg) t q)
    → AllFit before
    → AllFit h
    → Map.lookup m.id q.inflight ≡ some m
    → tally (ends_early m) q.leases ≡ 0
    → AllSpare m h
    → (Map.lookup m.id q'.inflight ≡ some m) × (waiting (Map.is m.id) q' ≡ 0)
lease_lasts cfg q q' t u m h before fit fit' there fresh spared =
    let (l, b) =
      History-Lasts m q q' u h spared (since_new-Balanced cfg q t before)
        (since_new-Watched cfg q t before) (there, fresh) in
    (
      l.0,
      omega
          (arith, count_ids (Map.is m.id) b, b.once m.id, Map.lookup_there m.id m q'.inflight l.0),
    )
