-- ===== src/Queue/Delivery.antt =====
-- The loop of tryDequeue over the ready heap, in internal/queue/queue.go.
use mathlib.Core.List.{append_assoc, append-nil}
use mathlib.Core.Path.{subst}
use stitch.Prelude.{
  List-cases, ℕ, zero, suc, ◌+◌, ◌≡◌, refl, Bool, false, List, [], ◌∷◌, ◌++◌, arith, length, leb,
  if◌then◌else◌, inl, inr,
}
use stitch.Prelude.Tally.{tally, tally-append, SameItems}
use stitch.Queue.Message.{Message}
use stitch.Queue.Order.{no_message, ready_less, ready_pop}
use stitch.Queue.Order.Laws.{ready_less-StrictOrder}
use stitch.Queue.Heap
use stitch.Queue.Heap.Ops.{All, Popped, pop_correct}
use stitch.Queue.Live.{Queue, is_lifo}
use stitch.Queue.Ops.{pick}
use stitch.Queue.Invariant.{ReadyHeap}

-- Each message of the first list is in delivery order: none behind it, and none of the second list,
-- is delivered before it.
abbrev pub InOrder : Bool → List Message → List Message → Type 0
InOrder lifo [] rest = Unit
InOrder lifo (m ∷ ms) rest =
    (tally (λ t. ready_less lifo t m) ms + tally (λ t. ready_less lifo t m) rest ≡ 0)
    × InOrder lifo ms rest

-- What the loop has done when it stops: `r` holds the queue and the messages taken.
pub record Picked (n : ℕ) (q : Queue) (r : Queue × List Message) : Type 0 where
  pub queue : r.0 ≡ record q { ready = r.0.ready }
  pub heap : ReadyHeap (is_lifo q) r.0.ready
  pub same : SameItems (r.1 ++ r.0.ready) q.ready
  pub order : InOrder (is_lifo q) r.1 r.0.ready
  pub size : length r.1 ≡ (if leb n (length q.ready) then n else length q.ready)

pub tally-All :
    {A : Type 0} (p : A → Bool) (xs : List A) → All (λ t. p t ≡ false) xs → tally p xs ≡ 0
tally-All p [] h = refl
tally-All p (x ∷ xs) h = rw h.0 (omega (arith, tally-All p xs h.1))

pick-acc :
    (n : ℕ) (q : Queue) (acc : List Message)
    → pick n q acc ≡ ((pick n q []).0, acc ++ (pick n q []).1)
unfolding pick ready_pop
pick-acc zero q acc = rw append-nil refl
pick-acc (suc n) q acc = elim (List-cases q.ready) [
  | inl e ↦ rw (e, append-nil) refl
  | inr (x, xs, e) ↦
      let r = Heap.pop (ready_less (is_lifo q)) no_message (x ∷ xs) in
      let q1 = record q { ready = r.1 } in
      rw (e, pick-acc n q1 (acc ++ (r.0 ∷ [])), pick-acc n q1 (r.0 ∷ []), append_assoc acc) refl
]

Picked-step :
    (n : ℕ) (q : Queue) (x : Message) (xs : List Message) (m : Message) (rest : List Message)
    → q.ready ≡ x ∷ xs
    → Popped
        (ready_less (is_lifo q))
        no_message
        (ready_less-StrictOrder (is_lifo q))
        (x ∷ xs)
        (m, rest)
    → (r : Queue × List Message) → Picked n (record q { ready = rest }) r
    → Picked (suc n) q (r.0, m ∷ r.1)
Picked-step n q x xs m rest e popped r ih =
    let none_before = λ (t : Message). ready_less (is_lifo q) t m in
    record {
      queue = ih.queue;
      heap = ih.heap;
      same = λ p. rw e (omega (arith, ih.same p, popped.same p));
      order = (
        omega (
          arith,
          tally-append none_before r.1 r.0.ready,
          ih.same none_before,
          popped.same none_before,
          tally-All none_before (x ∷ xs) popped.least,
        ),
        ih.order,
      );
      size = rw e (ground (arith, ih.size, popped.shorter));
    }

-- The loop that fills a Dequeue, on a ready heap: it takes as many messages as there are and as are
-- asked for, in delivery order and before all that stay; nothing else changes in the queue.
pub pick-Picked : (n : ℕ) (q : Queue) → ReadyHeap (is_lifo q) q.ready → Picked n q (pick n q [])
unfolding pick ready_pop
pick-Picked zero q h = record {
  queue = refl;
  heap = h;
  same = λ p. refl;
  order = tt;
  size = ground arith;
}
pick-Picked (suc n) q h = elim (List-cases q.ready) [
  | inl e ↦ rw e (record {
    queue = refl;
    heap = λ c p lt. absurd (omega arith);
    same = λ p. refl;
    order = tt;
    size = ground arith;
  })
  | inr (x, xs, e) ↦
      let less = ready_less (is_lifo q) in
      let r = Heap.pop less no_message (x ∷ xs) in
      let q1 = record q { ready = r.1 } in
      let popped =
        pop_correct less no_message (ready_less-StrictOrder (is_lifo q)) (x ∷ xs) (omega arith)
          (subst (ReadyHeap (is_lifo q)) e h) in
      let step =
        Picked-step n (record q { ready = x ∷ xs }) x xs r.0 r.1 refl popped (pick n q1 [])
          (pick-Picked n q1 popped.heap) in
      rw (e, pick-acc n q1 (r.0 ∷ [])) step
]
