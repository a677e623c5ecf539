-- ===== src/Manager/Finalize/Laws.antt =====
-- What finalize of internal/queue/manager.go does to the messages of a replayed queue.
use stitch.Prelude.{
  ℕ, ◌+◌, ◌≡◌, refl, ap, Bool, String, List, [], ◌∷◌, leb, arith, Bool-cases, inl, inr,
}
use stitch.Prelude.Map
use stitch.Prelude.Map.{Map}
use stitch.Prelude.Tally.{bit, tally}
use stitch.Queue.Message.{Message}
use stitch.Queue.Live.{Queue}
use stitch.Queue.Invariant.{by_id, IsOrdered, waiting}
use stitch.Queue.Invariant.Waiting.{Joins, joined, joined-Joins}
use stitch.Manager.Finalize.{
  insert_by_seq, sort_by_seq, was_leased, reset, place, place_all, finalize_queue,
}

tally-insert_by_seq :
    (p : Message → Bool) (m : Message) (xs : List Message)
    → tally p (insert_by_seq m xs) ≡ bit (p m) + tally p xs
unfolding insert_by_seq
tally-insert_by_seq p m [] = refl
tally-insert_by_seq p m (x ∷ xs) = elim (Bool-cases (leb m.seq x.seq)) [
  | inl here ↦ rw here
  | inr later ↦ rw later (omega (arith, tally-insert_by_seq p m xs))
]

pub tally-sort_by_seq :
    (p : Message → Bool) (xs : List Message) → tally p (sort_by_seq xs) ≡ tally p xs
unfolding sort_by_seq
tally-sort_by_seq p [] = refl
tally-sort_by_seq p (m ∷ ms) =
    omega (arith, tally-insert_by_seq p m (sort_by_seq ms), tally-sort_by_seq p ms)

pub id-reset : (leased : Map (Unit {0})) (m : Message) → (reset leased m).id ≡ m.id
unfolding reset
id-reset leased m = elim (Bool-cases (was_leased leased m)) [ inl e ↦ rw e | inr e ↦ rw e ]

pub place-joined :
    (now : ℕ) (leased : Map (Unit {0})) (m : Message) (q : Queue)
    → place now leased m q
      ≡ joined now (reset leased m) (record q { msgs = Map.update m.id (reset leased m) q.msgs })
unfolding place
place-joined now leased m q = refl

pub place-Joins :
    (now : ℕ) (leased : Map (Unit {0})) (m : Message) (q : Queue)
    → IsOrdered q
    → Joins (reset leased m) q (place now leased m q)
place-Joins now leased m q o =
    let q1 = record q { msgs = Map.update m.id (reset leased m) q.msgs } in
    let j =
      joined-Joins now (reset leased m) q1
        (record { ready = o.ready; delayed = o.delayed; leases = o.leases }) in
    let whole : Joins (reset leased m) q (place now leased m q) =
      rw (place-joined now leased m q) (record { ordered = j.ordered; counted = j.counted }) in
    whole

-- The messages came to wait, and nothing else did or ceased to.
abbrev pub Placed : List Message → Queue → Queue → Type 0
Placed ms q q' =
    IsOrdered q' × ((p : String → Bool) → waiting p q' ≡ tally (by_id p) ms + waiting p q)

place_all-Placed :
    (now : ℕ) (leased : Map (Unit {0})) (ms : List Message) (q : Queue)
    → IsOrdered q
    → Placed ms q (place_all now leased ms q)
unfolding place_all
place_all-Placed now leased [] q o = (o, λ p. omega arith)
place_all-Placed now leased (m ∷ ms) q o =
    let j = place-Joins now leased m q o in
    let rest = place_all-Placed now leased ms (place now leased m q) j.ordered in
    (
      rest.0,
      λ p. omega (arith, rest.1 p, j.counted (by_id p), ap (λ i. bit (p i)) (id-reset leased m)),
    )

-- finalize on a queue whose heaps are in order: they stay in order, and for every test of IDs the
-- waiting messages that pass grew by exactly the messages of the queue's table that pass, so every
-- replayed message, leased before the restart or not, waits once more than it did.
pub finalize_queue-waiting :
    (now : ℕ) (leased : Map (Unit {0})) (q : Queue)
    → IsOrdered q
    → Placed (Map.values q.msgs) q (finalize_queue now leased q)
unfolding finalize_queue
finalize_queue-waiting now leased q o =
    let all = place_all-Placed now leased (sort_by_seq (Map.values q.msgs)) q o in
    (
      record { ready = all.0.ready; delayed = all.0.delayed; leases = all.0.leases },
      λ p. omega (arith, all.1 p, tally-sort_by_seq (by_id p) (Map.values q.msgs)),
    )
