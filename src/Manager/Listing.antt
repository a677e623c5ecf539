-- ===== src/Manager/Listing.antt =====
-- Queues of internal/queue/manager.go: the listing of the queues by name. Names are compared as Go
-- compares strings, byte by byte; the names of queues are ASCII. sort.Slice is an insertion sort:
-- the names of the queues of a manager are distinct, so every sort gives the same list.
pub mod Laws
use stitch.Prelude.{ℕ, Bool, true, false, List, [], ◌∷◌, ltb, ◌==◌, ◌&&◌, ◌||◌, if◌then◌else◌}
use stitch.Prelude.Map
use stitch.Queue.Message.{codes}
use stitch.Queue.Live.{Queue}
use stitch.Manager.{Manager}

-- `<` on strings
unfoldable pub ltb_text : List ℕ → List ℕ → Bool
ltb_text xs [] = false
ltb_text [] (y ∷ ys) = true
ltb_text (x ∷ xs) (y ∷ ys) = ltb x y || (x == y && ltb_text xs ys)

abbrev pub named_before : Queue → Queue → Bool
named_before a b = ltb_text (codes a.cfg.name) (codes b.cfg.name)

unfoldable pub insert_by_name : Queue → List Queue → List Queue
insert_by_name q [] = q ∷ []
insert_by_name q (x ∷ xs) =
    let rest = insert_by_name q xs in if named_before x q then x ∷ rest else q ∷ x ∷ xs

unfoldable pub sort_by_name : List Queue → List Queue
unfolding insert_by_name
sort_by_name [] = []
sort_by_name (q ∷ qs) = insert_by_name q (sort_by_name qs)

unfoldable pub queues : Manager → List Queue
unfolding sort_by_name
queues m = sort_by_name (Map.values m.queues)
