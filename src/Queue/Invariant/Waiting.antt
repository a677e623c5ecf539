-- ===== src/Queue/Invariant/Waiting.antt =====
-- What the heap operations of the queue do to the number of messages that wait.
use stitch.Prelude.{ℕ, ◌+◌, ◌≡◌, Bool, List, ltb, arith, Bool-cases, inl, inr, if◌then◌else◌}
use stitch.Prelude.Tally.{bit, tally}
use stitch.Queue.Message.{Message}
use stitch.Queue.Order.{
  LeaseEntry, no_message, no_lease, ready_less, delayed_less, lease_less, ready_push, delayed_push,
  lease_push,
}
use stitch.Queue.Order.Laws.{
  ready_less-StrictOrder, delayed_less-StrictOrder, lease_less-StrictOrder,
}
use stitch.Queue.Heap.Ops.{push_correct}
use stitch.Queue.Live.{Queue, is_lifo}
use stitch.Queue.Invariant.{ReadyHeap, DelayedHeap, LeaseHeap, IsOrdered}

module _ (lifo : Bool) (h : List Message) (m : Message) where
  pub ready_push-ReadyHeap : ReadyHeap lifo h → ReadyHeap lifo (ready_push lifo h m)
  unfolding ready_push
  ready_push-ReadyHeap o =
      (push_correct (ready_less lifo) no_message (ready_less-StrictOrder lifo) h m o).0

  pub tally-ready_push :
      (p : Message → Bool)
      → ReadyHeap lifo h
      → tally p (ready_push lifo h m) ≡ bit (p m) + tally p h
  unfolding ready_push
  tally-ready_push p o =
      (push_correct (ready_less lifo) no_message (ready_less-StrictOrder lifo) h m o).1 p

  pub delayed_push-DelayedHeap : DelayedHeap lifo h → DelayedHeap lifo (delayed_push lifo h m)
  unfolding delayed_push
  delayed_push-DelayedHeap o =
      (push_correct (delayed_less lifo) no_message (delayed_less-StrictOrder lifo) h m o).0

  pub tally-delayed_push :
      (p : Message → Bool)
      → DelayedHeap lifo h
      → tally p (delayed_push lifo h m) ≡ bit (p m) + tally p h
  unfolding delayed_push
  tally-delayed_push p o =
      (push_correct (delayed_less lifo) no_message (delayed_less-StrictOrder lifo) h m o).1 p

pub lease_push-LeaseHeap :
    (h : List LeaseEntry) (e : LeaseEntry) → LeaseHeap h → LeaseHeap (lease_push h e)
unfolding lease_push
lease_push-LeaseHeap h e o = (push_correct lease_less no_lease lease_less-StrictOrder h e o).0

-- From `q` to `q'` the message `m` came to wait, and nothing else did or ceased to.
pub record Joins (m : Message) (q q' : Queue) : Type 0 where
  pub ordered : IsOrdered q'
  pub counted :
      (p : Message → Bool)
      → tally p q'.ready + tally p q'.delayed ≡ bit (p m) + (tally p q.ready + tally p q.delayed)

-- `q` with the message in the heap that its time asks for.
abbrev pub joined : ℕ → Message → Queue → Queue
joined now m q =
    if ltb now m.visible_at
    then record q { delayed = delayed_push (is_lifo q) q.delayed m }
    else record q { ready = ready_push (is_lifo q) q.ready m }

pub joined-Joins : (now : ℕ) (m : Message) (q : Queue) → IsOrdered q → Joins m q (joined now m q)
joined-Joins now m q o = elim (Bool-cases (ltb now m.visible_at)) [
  | inl later ↦ rw later (record {
    ordered = record {
      ready = o.ready;
      delayed = delayed_push-DelayedHeap (is_lifo q) q.delayed m o.delayed;
      leases = o.leases;
    };
    counted = λ p. omega (arith, tally-delayed_push (is_lifo q) q.delayed m p o.delayed);
  })
  | inr due ↦ rw due (record {
    ordered = record {
      ready = ready_push-ReadyHeap (is_lifo q) q.ready m o.ready;
      delayed = o.delayed;
      leases = o.leases;
    };
    counted = λ p. omega (arith, tally-ready_push (is_lifo q) q.ready m p o.ready);
  })
]
