-- ===== src/Manager/Finalize/Restart.antt =====
-- finalize of internal/queue/manager.go on the queue that replay of a live queue's log gave: the
-- queue after a restart.
use stitch.Prelude.{
  ℕ, ◌+◌, ◌≤◌, ◌≡◌, refl, ap, sym, ◌∙◌, Bool, String, List, [], ◌∷◌, ok, arith, ltb, Bool-cases,
  inl, inr,
}
use mathlib.Core.Path.{subst}
use stitch.Prelude.Map
use stitch.Prelude.Map.{Map}
use stitch.Prelude.Tally.{bit, tally}
use stitch.Queue.Message.{Config, Message}
use stitch.Queue.Live.{Queue, new_queue, is_lifo}
use stitch.Queue.Ops.{Trace}
use stitch.Queue.Invariant.{Balanced, IsKeyed, IsOrdered, ReadyHeap, DelayedHeap, LeaseHeap}
use stitch.Queue.Invariant.Steps.{adjusted-Balanced, joined-Balanced, held_there, IsKeyed-update}
use stitch.Queue.Invariant.Operations.{new_queue-Balanced}
use stitch.Manager.Finalize.{
  fresh_dedup, sort_by_seq, was_leased, reset, place, place_all, finalize_queue,
}
use stitch.Manager.Finalize.Laws.{tally-sort_by_seq, id-reset, place-joined, place-Joins}
use stitch.Manager.Mirror.{Mirrors, logged, fold_payloads}
use stitch.Manager.Mirror.History.{History, History-Balanced, replay_refines}

-- A message without its lease, which a restart ends.
abbrev pub unleased : Message → Message
unleased m = record m { lease_token = ""; lease_expires = 0 }

unleased-reset : (leased : Map (Unit {0})) (m : Message) → unleased (reset leased m) ≡ unleased m
unfolding reset
unleased-reset leased m = elim (Bool-cases (was_leased leased m)) [
  | inl e ↦ rw e refl
  | inr e ↦ rw e refl
]

-- What placing a message leaves as it is.
record Kept (q q' : Queue) : Type 0 where
  inflight : q'.inflight ≡ q.inflight
  leases : q'.leases ≡ q.leases
  dlq : q'.dlq ≡ q.dlq
  cfg : q'.cfg ≡ q.cfg

place-Kept :
    (now : ℕ) (leased : Map (Unit {0})) (m : Message) (q : Queue) → Kept q (place now leased m q)
unfolding place
place-Kept now leased m q = elim (Bool-cases (ltb now (reset leased m).visible_at)) [
  | inl later ↦ rw later (record { inflight = refl; leases = refl; dlq = refl; cfg = refl })
  | inr due ↦ rw due (record { inflight = refl; leases = refl; dlq = refl; cfg = refl })
]

place_all-Kept :
    (now : ℕ) (leased : Map (Unit {0})) (ms : List Message) (q : Queue)
    → Kept q (place_all now leased ms q)
unfolding place_all
place_all-Kept now leased [] q = record { inflight = refl; leases = refl; dlq = refl; cfg = refl }
place_all-Kept now leased (m ∷ ms) q =
    let one = place-Kept now leased m q in
    let rest = place_all-Kept now leased ms (place now leased m q) in
    record {
      inflight = rest.inflight ∙ one.inflight;
      leases = rest.leases ∙ one.leases;
      dlq = rest.dlq ∙ one.dlq;
      cfg = rest.cfg ∙ one.cfg;
    }

place-Balanced :
    (held : List Message) (now : ℕ) (leased : Map (Unit {0})) (m : Message) (q : Queue)
    → Balanced (m ∷ held) q
    → Balanced held (place now leased m q)
place-Balanced held now leased m q b =
    let m' = reset leased m in
    let same = id-reset leased m in
    let q1 = record q { msgs = Map.update m.id m' q.msgs } in
    rw (place-joined now leased m q) (
      joined-Balanced held m' now q1
        (record { ready = b.ordered.ready; delayed = b.ordered.delayed; leases = b.ordered.leases })
        b.keyed
        (subst (λ k. IsKeyed (Map.update k m' q.msgs)) same (IsKeyed-update m' q.msgs b.stored))
        (λ p.
          omega (arith, b.count p, Map.values-update m.id p m m' q.msgs (held_there held m q b)))
        (λ k. omega (arith, b.once k, ap (tally (Map.is k)) (Map.keys-update m.id m' q.msgs))))

place_all-Balanced :
    (now : ℕ) (leased : Map (Unit {0})) (ms : List Message) (q : Queue)
    → Balanced ms q
    → Balanced [] (place_all now leased ms q)
unfolding place_all
place_all-Balanced now leased [] q b = b
place_all-Balanced now leased (m ∷ ms) q b =
    place_all-Balanced now leased ms (place now leased m q) (place-Balanced ms now leased m q b)

-- The messages that came to wait, up to their leases.
place_all-counted :
    (p : Message → Bool) (now : ℕ) (leased : Map (Unit {0})) (ms : List Message) (q : Queue)
    → IsOrdered q
    → tally (λ m. p (unleased m)) (place_all now leased ms q).ready
        + tally (λ m. p (unleased m)) (place_all now leased ms q).delayed
      ≡ tally (λ m. p (unleased m)) ms
        + (tally (λ m. p (unleased m)) q.ready + tally (λ m. p (unleased m)) q.delayed)
unfolding place_all
place_all-counted p now leased [] q o = omega arith
place_all-counted p now leased (m ∷ ms) q o =
    let j = place-Joins now leased m q o in
    omega (
      arith,
      place_all-counted p now leased ms (place now leased m q) j.ordered,
      j.counted (λ k. p (unleased k)),
      ap (λ k. bit (p k)) (unleased-reset leased m),
    )

-- `q'` is the live queue `q` after a restart.
pub record Restarted (q q' : Queue) : Type 0 where
  pub balanced : Balanced [] q'
  pub idle : (q'.inflight ≡ []) × (q'.leases ≡ [])
  pub waits :
      (p : Message → Bool)
      → tally (λ m. p (unleased m)) q'.ready + tally (λ m. p (unleased m)) q'.delayed
        ≡ tally (λ m. p (unleased m)) (Map.values q.msgs)
  pub dead : q'.dlq ≡ q.dlq
  pub configured : q'.cfg ≡ q.cfg

module _ {q r : Queue} (s : Mirrors q r) where
  idle_ready : r.ready ≡ []
  idle_ready = ap (λ h. h.0) s.idle

  idle_delayed : r.delayed ≡ []
  idle_delayed = ap (λ h. h.1.0) s.idle

  idle_inflight : r.inflight ≡ []
  idle_inflight = ap (λ h. h.1.1.0) s.idle

  idle_leases : r.leases ≡ []
  idle_leases = ap (λ h. h.1.1.1) s.idle

  same_msgs : r.msgs ≡ q.msgs
  same_msgs = ap (λ v. v.msgs) s.seen

  -- A queue in replay holds each of its messages.
  replayed-Balanced : Balanced [] q → Balanced (sort_by_seq (Map.values r.msgs)) r
  replayed-Balanced b = record {
    ordered = record {
      ready = subst (ReadyHeap (is_lifo r)) (sym idle_ready) (λ c p lt. absurd (omega (arith, lt)));
      delayed =
          subst (DelayedHeap (is_lifo r)) (sym idle_delayed) (λ c p lt. absurd (omega (arith, lt)));
      leases = subst LeaseHeap (sym idle_leases) (λ c p lt. absurd (omega (arith, lt)));
    };
    keyed = subst IsKeyed (sym idle_inflight) tt;
    stored = subst IsKeyed (sym same_msgs) b.stored;
    count = λ p. omega (
      arith,
      ap (tally p) idle_ready,
      ap (tally p) idle_delayed,
      ap (λ t. tally p (Map.values t)) idle_inflight,
      tally-sort_by_seq p (Map.values r.msgs),
    );
    once = subst (λ t. (k : String) → tally (Map.is k) (Map.keys t) ≤ 1) (sym same_msgs) b.once;
  }

  pub finalize_queue-Restarted :
      (now : ℕ) (leased : Map (Unit {0}))
      → Balanced [] q
      → Restarted q (finalize_queue now leased r)
  unfolding finalize_queue
  finalize_queue-Restarted now leased b =
      let ms = sort_by_seq (Map.values r.msgs) in
      let b0 = replayed-Balanced b in
      let b1 = place_all-Balanced now leased ms r b0 in
      let kept = place_all-Kept now leased ms r in
      let q1 = place_all now leased ms r in
      record {
        balanced =
            adjusted-Balanced [] q1 q1.seq q1.dlq (fresh_dedup now q1.dedup) q1.cnt q1.armed q1.wake
              b1;
        idle = (kept.inflight ∙ idle_inflight, kept.leases ∙ idle_leases);
        waits = λ p. omega (
          arith,
          place_all-counted p now leased ms r b0.ordered,
          tally-sort_by_seq (λ m. p (unleased m)) (Map.values r.msgs),
          ap (λ t. tally (λ m. p (unleased m)) (Map.values t)) same_msgs,
          ap (tally (λ m. p (unleased m))) idle_ready,
          ap (tally (λ m. p (unleased m))) idle_delayed,
        );
        dead = kept.dlq ∙ ap (λ v. v.dlq) s.seen;
        configured = kept.cfg ∙ ap (λ v. v.cfg) s.seen;
      }

-- Whatever operations ran on a queue since it was created, one after the other, each new message
-- under an ID that no live message has, whichever of their appends failed, and whatever was leased:
-- replay of the confirmed payloads and then finalize give a queue in which every message that the
-- live queue held in a heap or in flight waits, once and with the same fields but for its lease, no
-- other message is there, no lease is out, the heaps are in order, and the dead letters and the
-- configuration are the same.
pub restart_lossless :
    (cfg : Config) (t : Trace) (q : Queue) (now : ℕ) (leased : Map (Unit {0}))
    → History (new_queue cfg) t q
    → (r : Queue) × (fold_payloads (logged t) (new_queue cfg) ≡ ok r)
      × Restarted q (finalize_queue now leased r)
restart_lossless cfg t q now leased h =
    let (r, replayed, s) = replay_refines cfg t q h in
    (
      r,
      replayed,
      finalize_queue-Restarted s now leased
          (History-Balanced (new_queue cfg) q t h (new_queue-Balanced cfg)),
    )
