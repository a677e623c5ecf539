-- ===== src/Queue/Waking/Deadline.antt =====
-- nextDeadline of internal/queue/queue.go on heaps in order.
use mathlib.Core.Path.{subst}
use stitch.Prelude.{
  ℕ, suc, ◌≤◌, ◌<◌, ◌≡◌, ap, ◌∙◌, Bool, false, ◌||◌, none, some, List, [], ◌∷◌, ltb, ◌==◌, arith,
  length, get_or, List-cases, inl, inr, if◌then◌else◌,
}
use stitch.Prelude.Tally.{tally}
use stitch.Queue.Message.{Message}
use stitch.Queue.Order.{LeaseEntry, no_message, no_lease, delayed_less, lease_less, peek}
use stitch.Queue.Order.Laws.{delayed_less-StrictOrder, lease_less-StrictOrder}
use stitch.Queue.Heap.Ops.{All-of_at, root_least}
use stitch.Queue.Delivery.{tally-All}
use stitch.Queue.Live.{Queue, is_lifo}
use stitch.Queue.Ops.{next_deadline}
use stitch.Queue.Invariant.{DelayedHeap, LeaseHeap, IsOrdered}
use stitch.Queue.Waking.Heeds.{due_times, missed}

-- A timer for a deadline no later than the root's has fired by every deadline of the heap.
delayed_caught :
    (lifo : Bool) (d : ℕ) (m : Message) (ms : List Message)
    → DelayedHeap lifo (m ∷ ms)
    → 0 < d
    → d ≤ m.visible_at
    → tally (λ (x : Message). missed d x.visible_at) (m ∷ ms) ≡ 0
unfolding delayed_less
delayed_caught lifo d m ms h pos early =
    tally-All (λ (x : Message). missed d x.visible_at) (m ∷ ms)
      (All-of_at (delayed_less lifo) no_message (delayed_less-StrictOrder lifo)
        (λ (x : Message). missed d x.visible_at ≡ false) (m ∷ ms)
        (λ c lt.
          let after =
            root_least (delayed_less lifo) no_message (delayed_less-StrictOrder lifo) (suc c)
              (m ∷ ms) c (omega arith) lt h in
          ground (arith, after)))

lease_caught :
    (d : ℕ) (e : LeaseEntry) (es : List LeaseEntry)
    → LeaseHeap (e ∷ es)
    → 0 < d
    → d ≤ e.expires_at
    → tally (λ (x : LeaseEntry). missed d x.expires_at) (e ∷ es) ≡ 0
unfolding lease_less
lease_caught d e es h pos early =
    tally-All (λ (x : LeaseEntry). missed d x.expires_at) (e ∷ es)
      (All-of_at lease_less no_lease lease_less-StrictOrder
        (λ (x : LeaseEntry). missed d x.expires_at ≡ false) (e ∷ es)
        (λ c lt.
          let after =
            root_least lease_less no_lease lease_less-StrictOrder (suc c) (e ∷ es) c (omega arith)
              lt h in
          ground (arith, after)))

-- A deadline no later than both roots, where there are roots.
caught_of :
    (q : Queue) (d : ℕ)
    → (0 < length q.delayed → (0 < d) × (d ≤ (get_or q.delayed 0 no_message).visible_at))
    → (0 < length q.leases → (0 < d) × (d ≤ (get_or q.leases 0 no_lease).expires_at))
    → IsOrdered q
    → due_times (missed d) q ≡ 0
caught_of q d hd hl o =
    let no_delayed : tally (λ (x : Message). missed d x.visible_at) q.delayed ≡ 0 =
      elim (List-cases q.delayed) [
        | inl e ↦ ap (tally (λ (x : Message). missed d x.visible_at)) e
        | inr (m, ms, e) ↦
            let (pos, early) = rw e at hd (omega arith) in
            ap (tally (λ (x : Message). missed d x.visible_at)) e
            ∙ delayed_caught (is_lifo q) d m ms (subst (DelayedHeap (is_lifo q)) e o.delayed) pos
                early
      ] in
    let no_lease_missed : tally (λ (x : LeaseEntry). missed d x.expires_at) q.leases ≡ 0 =
      elim (List-cases q.leases) [
        | inl e ↦ ap (tally (λ (x : LeaseEntry). missed d x.expires_at)) e
        | inr (l, ls, e) ↦
            let (pos, early) = rw e at hl (omega arith) in
            ap (tally (λ (x : LeaseEntry). missed d x.expires_at)) e
            ∙ lease_caught d l ls (subst LeaseHeap e o.leases) pos early
      ] in
    omega (arith, no_delayed, no_lease_missed)

-- nextDeadline as a function of the two heaps.
abbrev deadline_of : List Message → List LeaseEntry → ℕ
deadline_of ds ls =
    let next : ℕ = elim (peek ds) [ none ↦ 0 | some m ↦ m.visible_at ] in
    elim (peek ls) [
      | none ↦ next
      | some e ↦ if next == 0 || ltb e.expires_at next then e.expires_at else next
    ]

-- It is no later than the roots.
abbrev IsBound : List Message → List LeaseEntry → ℕ → Type 0
IsBound ds ls d =
    (0 < length ds → (0 < d) × (d ≤ (get_or ds 0 no_message).visible_at))
    × (0 < length ls → (0 < d) × (d ≤ (get_or ls 0 no_lease).expires_at))

deadline_of-IsBound :
    (ds : List Message) (ls : List LeaseEntry)
    → tally (λ (m : Message). m.visible_at == 0) ds ≡ 0
    → tally (λ (e : LeaseEntry). e.expires_at == 0) ls ≡ 0
    → IsBound ds ls (deadline_of ds ls)
deadline_of-IsBound [] [] hd hl = (λ n. absurd (omega arith), λ n. absurd (omega arith))
deadline_of-IsBound [] (l ∷ ls) hd hl =
    (λ n. absurd (omega arith), λ n. (ground arith, omega arith))
deadline_of-IsBound (m ∷ ms) [] hd hl =
    (λ n. (ground arith, omega arith), λ n. absurd (omega arith))
deadline_of-IsBound (m ∷ ms) (l ∷ ls) hd hl =
    (λ n. (ground arith, ground arith), λ n. (ground arith, ground arith))

-- A timer set for the next deadline has fired by each of the deadlines.
pub next_deadline-caught :
    (q : Queue)
    → IsOrdered q
    → due_times (λ t. t == 0) q ≡ 0
    → due_times (missed (next_deadline q).0) q ≡ 0
unfolding next_deadline
next_deadline-caught q o z =
    let bound = deadline_of-IsBound q.delayed q.leases (omega arith) (omega arith) in
    caught_of q (next_deadline q).0 bound.0 bound.1 o
