-- ===== src/Queue/Leases/Sweep.antt =====
-- The loop of Maintain over the expired leases, in internal/queue/queue.go, run to its end.
use mathlib.Core.Path.{subst}
use stitch.Prelude.{
  ℕ, zero, suc, ◌≤◌, ◌<◌, ◌≡◌, refl, sym, ap, ◌∙◌, Bool, true, false, List, [], ◌∷◌, ltb, leb,
  length, arith, str_eq, Bool-cases, Option-cases, List-cases, inl, inr,
}
use stitch.Prelude.Map
use stitch.Prelude.Tally.{tally}
use stitch.Queue.Message.{Message}
use stitch.Queue.Order.{LeaseEntry, no_lease, lease_less, lease_pop}
use stitch.Queue.Order.Laws.{lease_less-StrictOrder}
use stitch.Queue.Heap.Ops.{All-of_at, root_least}
use stitch.Queue.Delivery.{tally-All}
use stitch.Queue.Live.{Queue, promote_due}
use stitch.Queue.Ops.{is_exhausted}
use stitch.Queue.Maintain.{Reclaimed, reclaim_entry, reclaim, maintain_reserve}
use stitch.Queue.Invariant.{LeaseHeap, Balanced}
use stitch.Queue.Invariant.Loops.{promote_due-Balanced}
use stitch.Queue.Invariant.Maintenance.{
  Holding, stripped, reclaim-empty, reclaim-later, reclaim-due, reclaim_entry-Holding,
  leases-Balanced,
}
use stitch.Queue.Leases.{lent, Watched, lent-promote_due}
use stitch.Queue.Leases.Reclaim.{Caught, lease_pop-Popped, reclaim_entry-Caught}

-- The state of the loop over the expired leases.
abbrev pub Sound : List Message → Reclaimed → Type 0
Sound held r = Holding held r × Caught r

abbrev pub is_past : ℕ → LeaseEntry → Bool
is_past now e = leb e.expires_at now

-- The two heaps that set the deadline.
abbrev pub timed : Queue → List Message × List LeaseEntry
timed q = (q.delayed, q.leases)

timed-reclaim_entry :
    (e : LeaseEntry) (r : Reclaimed) → timed (reclaim_entry e r).queue ≡ timed r.queue
unfolding reclaim_entry
timed-reclaim_entry e r = elim (Option-cases (Map.lookup e.id r.queue.inflight)) [
  | inl gone ↦ rw (reclaim_entry, gone) refl
  | inr (m, there) ↦ elim (Bool-cases (str_eq m.lease_token e.token)) [
    | inr stale ↦ rw (reclaim_entry, there, stale) refl
    | inl fits ↦ elim (Bool-cases (is_exhausted r.queue m)) [
      | inl dead ↦ rw (reclaim_entry, there, fits, dead) refl
      | inr alive ↦ rw (reclaim_entry, there, fits, alive) refl
    ]
  ]
]

-- If the root of the heap is not past, no entry is.
root_not_past :
    (now : ℕ) (e : LeaseEntry) (es : List LeaseEntry)
    → LeaseHeap (e ∷ es)
    → ltb now e.expires_at ≡ true
    → tally (is_past now) (e ∷ es) ≡ 0
unfolding lease_less
root_not_past now e es h later = tally-All (is_past now) (e ∷ es) (
    All-of_at lease_less no_lease lease_less-StrictOrder (λ t. is_past now t ≡ false) (e ∷ es)
      (λ c lt.
        let after =
          root_least lease_less no_lease lease_less-StrictOrder (suc c) (e ∷ es) c (omega arith) lt
            h in
        ground (arith, after)))

delayed-reclaim :
    (fuel now : ℕ) (r : Reclaimed) → (reclaim fuel now r).queue.delayed ≡ r.queue.delayed
unfolding reclaim
delayed-reclaim zero now r = refl
delayed-reclaim (suc fuel) now r = elim (List-cases r.queue.leases) [
  | inl e ↦ ap (λ x. x.queue.delayed) (reclaim-empty fuel now r e)
  | inr (top, es, e) ↦ elim (Bool-cases (ltb now top.expires_at)) [
    | inl later ↦ ap (λ x. x.queue.delayed) (reclaim-later fuel now r top es e later)
    | inr due ↦
        ap (λ x. x.queue.delayed) (reclaim-due fuel now r top es e due)
        ∙ delayed-reclaim fuel now _
        ∙ ap (λ h. h.0) (timed-reclaim_entry (lease_pop r.queue.leases).0 (stripped fuel now r))
  ]
]

pub delayed-maintain_reserve :
    (now : ℕ) (q : Queue) → (maintain_reserve now q).queue.delayed ≡ (promote_due now q).delayed
unfolding maintain_reserve
delayed-maintain_reserve now q = delayed-reclaim _ now _

module _ (held : List Message) where
  Sound-step :
      (fuel now : ℕ) (r : Reclaimed)
      → 0 < length r.queue.leases
      → Sound held r
      → Sound held (reclaim_entry (lease_pop r.queue.leases).0 (stripped fuel now r))
  Sound-step fuel now r pos (b, c) =
      let popped = lease_pop-Popped r.queue.leases pos b.ordered.leases in
      (
        reclaim_entry-Holding held (lease_pop r.queue.leases).0 (stripped fuel now r)
            (leases-Balanced r.queue (lease_pop r.queue.leases).1 popped.heap b),
        reclaim_entry-Caught _ r b fuel now pos c,
      )

  -- What the loop leaves.
  pub record Swept (now : ℕ) (r : Reclaimed) : Type 0 where
    pub sound : Sound held r
    pub later : tally (is_past now) r.queue.leases ≡ 0

  reclaim-Swept :
      (fuel now : ℕ) (r : Reclaimed)
      → length r.queue.leases ≤ fuel
      → Sound held r
      → Swept now (reclaim fuel now r)
  unfolding reclaim
  reclaim-Swept zero now r f s = record {
    sound = s;
    later = elim (List-cases r.queue.leases) [
      | inl e ↦ ap (tally (is_past now)) e
      | inr (top, es, e) ↦ absurd (omega (arith, ap length e))
    ];
  }
  reclaim-Swept (suc fuel) now r f s = elim (List-cases r.queue.leases) [
    | inl e ↦
        subst (Swept now) (sym (reclaim-empty fuel now r e))
          (record { sound = s; later = ap (tally (is_past now)) e })
    | inr (top, es, e) ↦ elim (Bool-cases (ltb now top.expires_at)) [
      | inl later ↦
          let none_past = root_not_past now top es (subst LeaseHeap e s.0.ordered.leases) later in
          subst (Swept now) (sym (reclaim-later fuel now r top es e later))
            (record { sound = s; later = ap (tally (is_past now)) e ∙ none_past })
      | inr due ↦
          let pos : 0 < length r.queue.leases = omega (arith, ap length e) in
          let popped = lease_pop-Popped r.queue.leases pos s.0.ordered.leases in
          let e' = (lease_pop r.queue.leases).0 in
          let size = ap (λ h. length h.1) (timed-reclaim_entry e' (stripped fuel now r)) in
          subst (Swept now) (sym (reclaim-due fuel now r top es e due)) (
            reclaim-Swept fuel now _ (omega (arith, size, popped.shorter))
              (Sound-step fuel now r pos s))
    ]
  ]

  pub maintain_reserve-Swept :
      (now : ℕ) (q : Queue)
      → Balanced held q
      → Watched [] (lent q)
      → Swept now (maintain_reserve now q)
  unfolding maintain_reserve
  maintain_reserve-Swept now q b w =
      let q' = promote_due now q in
      reclaim-Swept (length q'.leases) now (record { queue = q'; requeue = []; to_dlq = [] })
        (omega arith)
        (
          promote_due-Balanced held now q b,
          record {
            watched = subst (Watched []) (sym (lent-promote_due now q)) w;
            requeue = tt;
            to_dlq = tt;
          },
        )
