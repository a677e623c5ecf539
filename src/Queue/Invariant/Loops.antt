-- ===== src/Queue/Invariant/Loops.antt =====
-- Lemmas on promoteDue and the loops of tryDequeue, in internal/queue/queue.go.
use stitch.Prelude.{
  ℕ, zero, suc, ◌+◌, ◌<◌, ◌≡◌, refl, sym, ap, Bool, true, false, String, List, [], ◌∷◌, ◌++◌, arith,
  length, ltb, Bool-cases, List-cases, inl, inr,
}
use mathlib.Core.Path.{subst}
use stitch.Prelude.Map
use stitch.Prelude.Map.{Map}
use stitch.Prelude.Tally.{tally, tally-append}
use stitch.Queue.Message.{Message}
use stitch.Queue.Payload.{LeaseItem}
use stitch.Queue.Order.{LeaseEntry, no_message, delayed_less, delayed_pop, ready_push, lease_push}
use stitch.Queue.Order.Laws.{delayed_less-StrictOrder}
use stitch.Queue.Heap.Ops.{Popped, pop_correct}
use stitch.Queue.Live.{Queue, is_lifo, promote, promote_due}
use stitch.Queue.Ops.{pick, push_back, grant, lease_items, leased_message}
use stitch.Queue.Delivery.{pick-Picked}
use stitch.Queue.Invariant.{DelayedHeap, Balanced}
use stitch.Queue.Invariant.Waiting.{ready_push-ReadyHeap, tally-ready_push, lease_push-LeaseHeap}
use stitch.Queue.Invariant.Steps.{IsKeyed-insert, IsKeyed-update, held_once, held_there}

pub delayed_pop-Popped :
    (lifo : Bool) (h : List Message)
    → 0 < length h
    → DelayedHeap lifo h
    → Popped (delayed_less lifo) no_message (delayed_less-StrictOrder lifo) h (delayed_pop lifo h)
unfolding delayed_pop
delayed_pop-Popped lifo h pos o =
    pop_correct (delayed_less lifo) no_message (delayed_less-StrictOrder lifo) h pos o

-- The queue after one round of promoteDue.
abbrev pub promoted : Queue → Queue
promoted q = record q {
  delayed = (delayed_pop (is_lifo q) q.delayed).1;
  ready = ready_push (is_lifo q) q.ready (delayed_pop (is_lifo q) q.delayed).0;
}

-- The item for one message, and the queue after one round of the loop that grants the leases.
abbrev pub lease_item : String → Message → LeaseItem
lease_item token m = record { id = m.id; token = token; attempts = m.attempts + 1 }

abbrev pub granted : ℕ → String → Message → Queue → Queue
granted expires token m q =
    let m' = leased_message (lease_item token m) expires m in
    record q {
      msgs = Map.update m.id m' q.msgs;
      inflight = Map.insert m.id m' q.inflight;
      leases = lease_push q.leases (record { id = m.id; token = token; expires_at = expires });
    }

module _ (fuel now : ℕ) (q : Queue) where
  pub promote-empty : q.delayed ≡ [] → promote (suc fuel) now q ≡ q
  unfolding promote
  promote-empty e = rw e refl

  pub promote-later :
      (m : Message) (ms : List Message)
      → q.delayed ≡ m ∷ ms
      → ltb now m.visible_at ≡ true
      → promote (suc fuel) now q ≡ q
  unfolding promote
  promote-later m ms e later = rw (e, later) refl

  pub promote-due :
      (m : Message) (ms : List Message)
      → q.delayed ≡ m ∷ ms
      → ltb now m.visible_at ≡ false
      → promote (suc fuel) now q ≡ promote fuel now (promoted q)
  unfolding promote
  promote-due m ms e due = rw (e, due) refl

module _ (held : List Message) where
  pub promoted-Balanced :
      (q : Queue) → 0 < length q.delayed → Balanced held q → Balanced held (promoted q)
  promoted-Balanced q pos b =
      let popped = delayed_pop-Popped (is_lifo q) q.delayed pos b.ordered.delayed in
      let due = (delayed_pop (is_lifo q) q.delayed).0 in
      record {
        ordered = record {
          ready = ready_push-ReadyHeap (is_lifo q) q.ready due b.ordered.ready;
          delayed = popped.heap;
          leases = b.ordered.leases;
        };
        keyed = b.keyed;
        stored = b.stored;
        count = λ p. omega (
          arith,
          b.count p,
          popped.same p,
          tally-ready_push (is_lifo q) q.ready due p b.ordered.ready,
        );
        once = b.once;
      }

  promote-Balanced :
      (fuel now : ℕ) (q : Queue) → Balanced held q → Balanced held (promote fuel now q)
  unfolding promote
  promote-Balanced zero now q b = b
  promote-Balanced (suc fuel) now q b = elim (List-cases q.delayed) [
    | inl e ↦ subst (Balanced held) (sym (promote-empty fuel now q e)) b
    | inr (m, ms, e) ↦ elim (Bool-cases (ltb now m.visible_at)) [
      | inl later ↦ subst (Balanced held) (sym (promote-later fuel now q m ms e later)) b
      | inr due ↦
          let rest =
            promote-Balanced fuel now (promoted q)
              (promoted-Balanced q (omega (arith, ap length e)) b) in
          subst (Balanced held) (sym (promote-due fuel now q m ms e due)) rest
    ]
  ]

  pub promote_due-Balanced :
      (now : ℕ) (q : Queue) → Balanced held q → Balanced held (promote_due now q)
  unfolding promote_due
  promote_due-Balanced now q b = promote-Balanced (length q.delayed) now q b

  pub pick-Balanced :
      (n : ℕ) (q : Queue) → Balanced held q → Balanced ((pick n q []).1 ++ held) (pick n q []).0
  pick-Balanced n q b =
      let r = pick n q [] in
      let picked = pick-Picked n q b.ordered.ready in
      subst (Balanced (r.1 ++ held)) (sym picked.queue) (record {
        ordered = record {
          ready = picked.heap;
          delayed = b.ordered.delayed;
          leases = b.ordered.leases;
        };
        keyed = b.keyed;
        stored = b.stored;
        count = λ p. omega (
          arith,
          b.count p,
          picked.same p,
          tally-append p r.1 held,
          tally-append p r.1 r.0.ready,
        );
        once = b.once;
      })

  pub push_back-Balanced :
      (picked : List Message) (q : Queue)
      → Balanced (picked ++ held) q
      → Balanced held (push_back picked q)
  unfolding push_back
  push_back-Balanced [] q b = b
  push_back-Balanced (m ∷ ms) q b =
      push_back-Balanced ms (record q { ready = ready_push (is_lifo q) q.ready m })
        (record {
          ordered = record {
            ready = ready_push-ReadyHeap (is_lifo q) q.ready m b.ordered.ready;
            delayed = b.ordered.delayed;
            leases = b.ordered.leases;
          };
          keyed = b.keyed;
          stored = b.stored;
          count = λ p.
              omega (arith, b.count p, tally-ready_push (is_lifo q) q.ready m p b.ordered.ready);
          once = b.once;
        })

  pub granted-Balanced :
      (expires : ℕ) (token : String) (m : Message) (q : Queue)
      → Balanced (m ∷ held) q
      → Balanced held (granted expires token m q)
  granted-Balanced expires token m q b =
      let m' = leased_message (lease_item token m) expires m in
      let entry : LeaseEntry = record { id = m.id; token = token; expires_at = expires } in
      let keys = Map.keys-update m.id m' q.msgs in
      record {
        ordered = record {
          ready = b.ordered.ready;
          delayed = b.ordered.delayed;
          leases = lease_push-LeaseHeap q.leases entry b.ordered.leases;
        };
        keyed = IsKeyed-insert m' q.inflight b.keyed;
        stored = IsKeyed-update m' q.msgs b.stored;
        count = λ p. omega (
          arith,
          b.count p,
          Map.values-update m.id p m m' q.msgs (held_there held m q b),
          Map.values-insert_new m.id p m' q.inflight (held_once held m q b).1,
        );
        once = λ k. omega (arith, b.once k, ap (tally (Map.is k)) keys);
      }

module _ (held : List Message) where
  pub grant-Balanced :
      (expires : ℕ) (token : ℕ → String) (i : ℕ) (picked : List Message) (q : Queue)
      → Balanced (picked ++ held) q
      → Balanced held (grant expires picked (lease_items token i picked) q).0
  unfolding grant lease_items
  grant-Balanced expires token i [] q b = b
  grant-Balanced expires token i (m ∷ ms) q b =
      grant-Balanced expires token (i + 1) ms (granted expires (token i) m q)
        (granted-Balanced (ms ++ held) expires (token i) m q b)
