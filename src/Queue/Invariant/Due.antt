-- ===== src/Queue/Invariant/Due.antt =====
-- promoteDue of internal/queue/queue.go, and the messages whose time has come.
use mathlib.Core.Path.{subst}
use stitch.Prelude.{
  ℕ, zero, suc, ◌≤◌, ◌<◌, ◌≡◌, ap, ◌∙◌, Bool, true, false, List, ◌∷◌, arith, length, leb, ltb,
  Bool-cases, List-cases, inl, inr,
}
use stitch.Prelude.Tally.{tally}
use stitch.Queue.Message.{Message}
use stitch.Queue.Order.{no_message, delayed_less}
use stitch.Queue.Order.Laws.{delayed_less-StrictOrder}
use stitch.Queue.Heap.Ops.{All-of_at, root_least}
use stitch.Queue.Live.{Queue, is_lifo, promote, promote_due}
use stitch.Queue.Delivery.{tally-All}
use stitch.Queue.Invariant.{DelayedHeap, Balanced}
use stitch.Queue.Invariant.Loops.{
  delayed_pop-Popped, promoted, promote-empty, promote-later, promote-due, promoted-Balanced,
}

abbrev pub is_due : ℕ → Message → Bool
is_due now m = leb m.visible_at now

-- If the root of the heap is not due, nothing is.
pub root_not_due :
    (lifo : Bool) (now : ℕ) (m : Message) (ms : List Message)
    → DelayedHeap lifo (m ∷ ms)
    → ltb now m.visible_at ≡ true
    → tally (is_due now) (m ∷ ms) ≡ 0
unfolding delayed_less
root_not_due lifo now m ms h later = tally-All (is_due now) (m ∷ ms) (
    All-of_at (delayed_less lifo) no_message (delayed_less-StrictOrder lifo)
      (λ t. is_due now t ≡ false) (m ∷ ms)
      (λ c lt.
        let after =
          root_least (delayed_less lifo) no_message (delayed_less-StrictOrder lifo) (suc c) (m ∷ ms)
            c (omega arith) lt h in
        ground (arith, after)))

module _ (held : List Message) where
  promote-not_due :
      (fuel now : ℕ) (q : Queue)
      → length q.delayed ≤ fuel
      → Balanced held q
      → tally (is_due now) (promote fuel now q).delayed ≡ 0
  unfolding promote
  promote-not_due zero now q f b = elim (List-cases q.delayed) [
    | inl e ↦ ap (tally (is_due now)) e
    | inr (m, ms, e) ↦ absurd (omega (arith, ap length e))
  ]
  promote-not_due (suc fuel) now q f b = elim (List-cases q.delayed) [
    | inl e ↦
        ap (λ r. tally (is_due now) r.delayed) (promote-empty fuel now q e)
        ∙ ap (tally (is_due now)) e
    | inr (m, ms, e) ↦ elim (Bool-cases (ltb now m.visible_at)) [
      | inl later ↦
          ap (λ r. tally (is_due now) r.delayed) (promote-later fuel now q m ms e later)
          ∙ ap (tally (is_due now)) e
          ∙ root_not_due (is_lifo q) now m ms (subst (DelayedHeap (is_lifo q)) e b.ordered.delayed)
              later
      | inr due ↦
          let pos : 0 < length q.delayed = omega (arith, ap length e) in
          let popped = delayed_pop-Popped (is_lifo q) q.delayed pos b.ordered.delayed in
          ap (λ r. tally (is_due now) r.delayed) (promote-due fuel now q m ms e due)
          ∙ promote-not_due fuel now (promoted q) (omega (arith, popped.shorter))
              (promoted-Balanced held q pos b)
    ]
  ]

  -- After promoteDue on a balanced queue no delayed message is due, so whatever is due is ready: the
  -- rounds of its loop are as many as it takes.
  pub promote_due-not_due :
      (now : ℕ) (q : Queue) → Balanced held q → tally (is_due now) (promote_due now q).delayed ≡ 0
  unfolding promote_due
  promote_due-not_due now q b = promote-not_due (length q.delayed) now q (omega arith) b
