-- ===== src/Queue/Leases/Tests.antt =====
-- Leases at concrete inputs: a message is leased, its lease runs out, and Maintain puts it back.
use stitch.Prelude.{◌≡◌, ◌<◌, refl, inc64, inc64-lt, true, none, some, [], ◌∷◌, ◌++◌, arith}
use stitch.Prelude.Int.{pos}
use stitch.Prelude.Map
use stitch.Prelude.Tally.{tally}
use stitch.Queue.Heap
use stitch.Queue.Message.{Config, Message, fifo}
use stitch.Queue.Message.Same.{same_message}
use stitch.Queue.Order.{ready_pop, ready_push, ready_less, lease_push, lease_pop, lease_less, less}
use stitch.Queue.Live.{
  Queue, new_queue, dedup_hit, make_message, enqueue_reserve, enqueue_commit, put, wake_if_sooner,
  promote, promote_due,
}
use stitch.Queue.Ops.{
  ack, Trace, enqueue, pick, grant, dequeue_commit, try_dequeue, lease_items, requeued,
}
use stitch.Queue.Maintain.{
  reclaim_entry, reclaim, maintain_reserve, maintain, commit_requeue, requeue_all,
}
use stitch.Manager.Mirror.History.{Move, History}
use stitch.Queue.Invariant.{waiting}
use stitch.Queue.Leases.Due.{due_ready}
use stitch.Queue.Leases.Exclusive.{ends_early}
use stitch.Queue.Leases.Holds.{lease_lasts}

abbrev jobs : Config
jobs = record {
  name = "jobs";
  mode = fifo;
  priority = true;
  delay = true;
  visibility_timeout_ms = pos 1000;
  max_attempts = pos 3;
  dlq = true;
}

abbrev one_ready : Queue
one_ready = (enqueue 100 101 "a" (1 ∷ 2 ∷ []) (pos 3) (pos 0) "" none (new_queue jobs)).1.0

abbrev leased : Queue
leased = (try_dequeue 120 1 (λ i. "t") none one_ready).1.0

abbrev trace : Trace
trace =
    (enqueue 100 101 "a" (1 ∷ 2 ∷ []) (pos 3) (pos 0) "" none (new_queue jobs)).1.1
    ++ ((try_dequeue 120 1 (λ i. "t") none one_ready).1.1 ++ [])

history : History (new_queue jobs) trace leased
history =
    History.next _ _ _ _ _
      (Move.enqueued 100 101 "a" (1 ∷ 2 ∷ []) (pos 3) (pos 0) "" none (new_queue jobs) refl)
      (History.next _ _ _ _ _ (Move.dequeued 120 1 (λ i. "t") none one_ready) (History.stop leased))

-- The message as Maintain puts it back.
abbrev back : Message
back = record {
  id = "a";
  body = 1 ∷ 2 ∷ [];
  priority = pos 3;
  seq = 1;
  enqueued_at = 100;
  visible_at = 1500;
  attempts = 1;
  dedup_key = "";
  lease_token = "";
  lease_expires = 1120;
}

back_there : 0 < tally (same_message back) (Map.values (maintain 1500 none none leased).1.0.msgs)
unfolding maintain maintain_reserve promote_due promote reclaim reclaim_entry commit_requeue
    requeue_all requeued put enqueue enqueue_reserve enqueue_commit dedup_hit make_message
    wake_if_sooner try_dequeue pick dequeue_commit grant lease_items ready_pop ready_push ready_less
    lease_push lease_pop lease_less less Map.insert Map.lookup Map.delete Map.update Heap.push
    Heap.pop Heap.up Heap.down Heap.swap Heap.child same_message
back_there = rw (inc64-lt 0 (omega arith)) (omega arith)

due_ready_example : 0 < tally (same_message back) (maintain 1500 none none leased).1.0.ready
due_ready_example =
    due_ready jobs leased trace 1500 back history back_there (omega arith) (omega arith)

-- The message as it was delivered.
abbrev delivered : Message
delivered = record {
  id = "a";
  body = 1 ∷ 2 ∷ [];
  priority = pos 3;
  seq = inc64 0;
  enqueued_at = 100;
  visible_at = 100;
  attempts = 1;
  dedup_key = "";
  lease_token = "t";
  lease_expires = 1120;
}

-- A consumer with another token, and a Maintain before the lease runs out.
abbrev refused_ack : Queue
refused_ack = (ack "a" "stale" none leased).1.0

abbrev maintained : Queue
maintained = (maintain 1000 none none refused_ack).1.0

spared :
    History leased
      ((ack "a" "stale" none leased).1.1 ++ ((maintain 1000 none none refused_ack).1.1 ++ []))
      maintained
unfolding ack
spared =
    History.next _ _ _ _ _ (Move.acked "a" "stale" none leased) (
      History.next _ _ _ _ _ (Move.maintained 1000 none none refused_ack) (History.stop maintained))

delivered_there : Map.lookup "a" leased.inflight ≡ some delivered
unfolding promote_due promote put enqueue enqueue_reserve enqueue_commit dedup_hit make_message
    wake_if_sooner try_dequeue pick dequeue_commit grant lease_items ready_pop ready_push ready_less
    lease_push lease_less less Map.insert Map.lookup Map.update Heap.push Heap.pop Heap.up Heap.down
    Heap.swap Heap.child
delivered_there = refl

fresh : tally (ends_early delivered) leased.leases ≡ 0
unfolding promote_due promote put enqueue enqueue_reserve enqueue_commit dedup_hit make_message
    wake_if_sooner try_dequeue pick dequeue_commit grant lease_items ready_pop ready_push ready_less
    lease_push lease_less less Map.insert Map.lookup Map.update Heap.push Heap.pop Heap.up Heap.down
    Heap.swap Heap.child
fresh = refl

lease_lasts_example :
    (Map.lookup "a" maintained.inflight ≡ some delivered) × (waiting (Map.is "a") maintained ≡ 0)
unfolding ack spared history enqueue dedup_hit enqueue_commit put make_message enqueue_reserve
lease_lasts_example =
    lease_lasts jobs leased maintained trace _ delivered spared history (refl, (refl, tt))
      (refl, (refl, tt)) delivered_there fresh (refl, (refl, tt))
