-- ===== src/Queue/Invariant.antt =====
-- The heaps of a queue of internal/queue/queue.go, how many messages wait in them, and the balance
-- between its table, its heaps and its leases.
pub mod Waiting
pub mod Steps
pub mod Loops
pub mod Due
pub mod Operations
pub mod Maintenance
use stitch.Prelude.Map
use stitch.Prelude.Map.{Map}
use stitch.Prelude.{◌≤◌, ℕ, ◌+◌, ◌≡◌, refl, ap, arith, Bool, String, List, [], ◌∷◌}
use stitch.Prelude.Tally.{bit, tally}
use stitch.Queue.Message.{Message}
use stitch.Queue.Order.{LeaseEntry, no_message, no_lease, ready_less, delayed_less, lease_less}
use stitch.Queue.Order.Laws.{
  ready_less-StrictOrder, delayed_less-StrictOrder, lease_less-StrictOrder,
}
use stitch.Queue.Heap.Ops.{Heap}
use stitch.Queue.Live.{Queue, is_lifo}

-- A test of a message that looks at its ID alone.
abbrev pub by_id : (String → Bool) → Message → Bool
by_id p m = p m.id

abbrev pub ReadyHeap : Bool → List Message → Type 0
ReadyHeap lifo = Heap (ready_less lifo) no_message (ready_less-StrictOrder lifo)

abbrev pub DelayedHeap : Bool → List Message → Type 0
DelayedHeap lifo = Heap (delayed_less lifo) no_message (delayed_less-StrictOrder lifo)

abbrev pub LeaseHeap : List LeaseEntry → Type 0
LeaseHeap = Heap lease_less no_lease lease_less-StrictOrder

-- The heaps of a queue are in heap order.
pub record IsOrdered (q : Queue) : Type 0 where
  pub ready : ReadyHeap (is_lifo q) q.ready
  pub delayed : DelayedHeap (is_lifo q) q.delayed
  pub leases : LeaseHeap q.leases

-- How many messages of the two message heaps have an ID that passes.
abbrev pub waiting : (String → Bool) → Queue → ℕ
waiting p q = tally (by_id p) q.ready + tally (by_id p) q.delayed

-- Each message is stored under its ID.
abbrev pub IsKeyed : Map Message → Type 0
IsKeyed [] = Unit
IsKeyed ((k, m) ∷ t) = (m.id ≡ k) × IsKeyed t

-- No message is lost, twice there or out of date: the messages of the table are, each once and with
-- the same fields, those that wait in a heap, are in flight, or are among `held`, the messages that
-- running operations hold between their steps.
pub record Balanced (held : List Message) (q : Queue) : Type 0 where
  pub ordered : IsOrdered q
  pub keyed : IsKeyed q.inflight
  pub stored : IsKeyed q.msgs
  pub count :
      (p : Message → Bool)
      → tally p q.ready + tally p q.delayed + tally p (Map.values q.inflight) + tally p held
        ≡ tally p (Map.values q.msgs)
  pub once : (k : String) → tally (Map.is k) (Map.keys q.msgs) ≤ 1

pub tally-by_id :
    (p : String → Bool) (t : Map Message)
    → IsKeyed t
    → tally (by_id p) (Map.values t) ≡ tally p (Map.keys t)
tally-by_id p [] h = refl
tally-by_id p ((k, m) ∷ t) h = omega (arith, tally-by_id p t h.1, ap (λ i. bit (p i)) h.0)

-- The balance of the IDs.
pub count_ids :
    {held : List Message} {q : Queue} (p : String → Bool)
    → Balanced held q
    → waiting p q + tally p (Map.keys q.inflight) + tally (by_id p) held ≡ tally p (Map.keys q.msgs)
count_ids {q} p b =
    omega
      (arith, b.count (by_id p), tally-by_id p q.inflight b.keyed, tally-by_id p q.msgs b.stored)
