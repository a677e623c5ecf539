-- ===== src/Manager/Listing/Laws.antt =====
-- The listing of the queues of internal/queue/manager.go.
use stitch.Prelude.{
  ℕ, ◌+◌, ◌≡◌, refl, Bool, true, false, List, [], ◌∷◌, arith, Bool-cases, inl, inr,
}
use stitch.Prelude.Map
use stitch.Prelude.Tally.{bit, tally}
use stitch.Queue.Message.{codes}
use stitch.Queue.Live.{Queue}
use stitch.Manager.{Manager}
use stitch.Manager.Listing.{ltb_text, named_before, insert_by_name, sort_by_name, queues}

-- No queue stands before one whose name is less.
abbrev pub IsListed : List Queue → Type 0
IsListed [] = Unit
IsListed (q ∷ []) = Unit
IsListed (p ∷ q ∷ qs) = (named_before q p ≡ false) × IsListed (q ∷ qs)

ltb_text-asym : (xs ys : List ℕ) → ltb_text xs ys ≡ true → ltb_text ys xs ≡ false
unfolding ltb_text
ltb_text-asym xs [] e = absurd (ground (arith, e))
ltb_text-asym [] (y ∷ ys) e = refl
ltb_text-asym (x ∷ xs) (y ∷ ys) e = elim (Bool-cases (ltb_text xs ys)) [
  | inl less ↦ rw (ltb_text-asym xs ys less) (ground (arith, e))
  | inr other ↦ ground (arith, rw other at e)
]

tally-insert_by_name :
    (p : Queue → Bool) (q : Queue) (qs : List Queue)
    → tally p (insert_by_name q qs) ≡ bit (p q) + tally p qs
unfolding insert_by_name
tally-insert_by_name p q [] = refl
tally-insert_by_name p q (x ∷ xs) = elim (Bool-cases (named_before x q)) [
  | inl past ↦ rw past (omega (arith, tally-insert_by_name p q xs))
  | inr here ↦ rw here refl
]

tally-sort_by_name : (p : Queue → Bool) (qs : List Queue) → tally p (sort_by_name qs) ≡ tally p qs
unfolding sort_by_name
tally-sort_by_name p [] = refl
tally-sort_by_name p (q ∷ qs) =
    omega (arith, tally-insert_by_name p q (sort_by_name qs), tally-sort_by_name p qs)

insert_by_name-IsListed :
    (q : Queue) (qs : List Queue) → IsListed qs → IsListed (insert_by_name q qs)
unfolding insert_by_name
insert_by_name-IsListed q [] h = tt
insert_by_name-IsListed q (x ∷ []) h = elim (Bool-cases (named_before x q)) [
  | inl past ↦ rw past (ltb_text-asym (codes x.cfg.name) (codes q.cfg.name) past, tt)
  | inr here ↦ rw here (here, tt)
]
insert_by_name-IsListed q (x ∷ y ∷ ys) h = elim (Bool-cases (named_before x q)) [
  | inr here ↦ rw here (here, h)
  | inl past ↦
      let rest = insert_by_name-IsListed q (y ∷ ys) h.1 in
      elim (Bool-cases (named_before y q)) [
        | inl next ↦ rw (past, next) (h.0, rw next at rest)
        | inr stop ↦
            rw (past, stop)
              (ltb_text-asym (codes x.cfg.name) (codes q.cfg.name) past, rw stop at rest)
      ]
]

sort_by_name-IsListed : (qs : List Queue) → IsListed (sort_by_name qs)
unfolding sort_by_name
sort_by_name-IsListed [] = tt
sort_by_name-IsListed (q ∷ qs) =
    insert_by_name-IsListed q (sort_by_name qs) (sort_by_name-IsListed qs)

-- Queues lists the queues of the manager, each as often as the manager has it, in the order of
-- their names.
pub queues-IsListed :
    (m : Manager)
    → IsListed (queues m)
      × ((p : Queue → Bool) → tally p (queues m) ≡ tally p (Map.values m.queues))
unfolding queues
queues-IsListed m =
    (sort_by_name-IsListed (Map.values m.queues), λ p. tally-sort_by_name p (Map.values m.queues))
