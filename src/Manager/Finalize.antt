-- ===== src/Manager/Finalize.antt =====
-- finalize of internal/queue/manager.go: the replayed maps become the heaps of the live path.
-- sort.Slice is an insertion sort: the sequence numbers of a queue's messages are distinct, so every
-- sort gives the same list.
pub mod Laws
pub mod Restart
use stitch.Prelude.{
  ℕ, Bool, true, false, String, Option, none, some, List, [], ◌∷◌, ltb, leb, if◌then◌else◌,
}
use stitch.Prelude.Map
use stitch.Prelude.Map.{Map}
use stitch.Queue.Message.{Message}
use stitch.Queue.Order.{ready_push, delayed_push}
use stitch.Queue.Live.{DedupEntry, Queue, is_lifo}
use stitch.Manager.{Manager, Replay, Leased}

unfoldable pub insert_by_seq : Message → List Message → List Message
insert_by_seq m [] = m ∷ []
insert_by_seq m (x ∷ xs) = if leb m.seq x.seq then m ∷ x ∷ xs else x ∷ insert_by_seq m xs

unfoldable pub sort_by_seq : List Message → List Message
sort_by_seq [] = []
sort_by_seq (m ∷ ms) = insert_by_seq m (sort_by_seq ms)

abbrev pub was_leased : Map (Unit {0}) → Message → Bool
was_leased leased m = elim (Map.lookup m.id leased) [ none ↦ false | some _ ↦ true ]

-- A message that was leased when the process died loses its token.
unfoldable pub reset : Map (Unit {0}) → Message → Message
reset leased m = if was_leased leased m then record m { lease_token = ""; lease_expires = 0 } else m

unfoldable pub place : ℕ → Map (Unit {0}) → Message → Queue → Queue
place now leased m q =
    let m' = reset leased m in
    let q1 = record q { msgs = Map.update m.id m' q.msgs } in
    if ltb now m'.visible_at
    then record q1 { delayed = delayed_push (is_lifo q) q.delayed m' }
    else record q1 { ready = ready_push (is_lifo q) q.ready m' }

-- The loop over the sorted messages.
unfoldable pub place_all : ℕ → Map (Unit {0}) → List Message → Queue → Queue
unfolding place
place_all now leased [] q = q
place_all now leased (m ∷ ms) q = place_all now leased ms (place now leased m q)

unfoldable pub fresh_dedup : ℕ → Map DedupEntry → Map DedupEntry
fresh_dedup now [] = []
fresh_dedup now ((k, e) ∷ d) =
    let rest = fresh_dedup now d in if leb e.expires_at now then rest else (k, e) ∷ rest

unfoldable pub finalize_queue : ℕ → Map (Unit {0}) → Queue → Queue
unfolding sort_by_seq
finalize_queue now leased q =
    let q' = place_all now leased (sort_by_seq (Map.values q.msgs)) q in
    record q' { dedup = fresh_dedup now q'.dedup }

unfoldable pub leased_of : String → Leased → Map (Unit {0})
leased_of name l = elim (Map.lookup name l) [ none ↦ [] | some set ↦ set ]

-- The loop over the queues, and the manager that Open returns.
unfoldable pub finalize_all : ℕ → Leased → Map Queue → Map Queue
finalize_all now l [] = []
finalize_all now l ((name, q) ∷ qs) =
    (name, finalize_queue now (leased_of name l) q) ∷ finalize_all now l qs

unfoldable pub finalize : ℕ → Replay → Manager
unfolding finalize_all
finalize now r = record { queues = finalize_all now r.leased r.queues; closed = false }
