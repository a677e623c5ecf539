-- ===== src/Queue/Waking/Notice.antt =====
-- The steps of the other goroutines of internal/queue/queue.go, seen by the maintenance loop.
use mathlib.Core.Path.{subst}
use stitch.Prelude.{
  ok_apart, ok_injective, ok, String, ℕ, ◌+◌, ◌≤◌, ◌<◌, ◌≡◌, refl, sym, ◌∙◌, Bool, true, false,
  none, some, List, [], ◌∷◌, ◌++◌, ◌==◌, arith, inl, inr,
}
use stitch.Prelude.Int.{pos_part}
use stitch.Prelude.Map
use stitch.Prelude.Tally.{tally, tally-append}
use stitch.Queue.Message.{Message}
use stitch.Queue.Live.{Queue, promote_due, take_leased, enqueue_reserve}
use stitch.Queue.Ops.{LogAnswer, pick, requeued}
use stitch.Queue.Invariant.Loops.{promote_due-Balanced}
use stitch.Queue.Invariant.Operations.{take_leased_cases}
use stitch.Queue.Interleaving.{Pending, World, Step}
use stitch.Queue.Interleaving.Safe.{Safe, held, release}
use stitch.Queue.Waking.{by_others}
use stitch.Queue.Waking.Heeds.{due_times, Heeds, Heeds-same, Heeds-before, put_times-later}
use stitch.Queue.Waking.Steps.{
  lease_times, promote_due-Heeds, pick-Heeds, enqueue_times, enqueue_commit-Heeds, dequeue_times,
  dequeue_commit-Heeds, ack_commit-Heeds, nack_times, nack_commit-Heeds,
}
use stitch.Queue.Waking.Pledges.{all_pledged, tally-all_pledged}

abbrev pub at_zero : ℕ → Bool
at_zero t = t == 0

-- The deadlines of the queue, and those that running operations hold, that are 0.
abbrev pub zeros : World → ℕ
zeros w = due_times at_zero w.queue + tally at_zero (all_pledged w.pending)

-- What a step of another goroutine does: its new deadlines are heeded, and none is 0.
pub record Noticed (u v : World) : Type 0 where
  pub ts : List ℕ
  pub heeds : Heeds ts u.queue v.queue
  pub no_more : zeros v ≤ zeros u

take_leased-Heeds :
    (id token : String) (m : Message) (q q1 : Queue)
    → take_leased id token q ≡ ok (m, q1)
    → Heeds [] q q1
take_leased-Heeds id token m q q1 e = elim (take_leased_cases id token q) [
  | inl (bad, refused) ↦ absurd (ok_apart (m, q1) bad (sym e ∙ refused))
  | inr (m0, there, good) ↦
      subst (λ r. Heeds [] q r.1)
        (ok_injective (m0, record q { inflight = Map.delete id q.inflight }) (m, q1) (sym good ∙ e))
        (Heeds-same q _ refl refl refl refl)
]

enqueue_times-zero :
    (answer : LogAnswer) (later : ℕ) (m : Message)
    → tally at_zero (enqueue_times answer later m) ≡ 0
enqueue_times-zero (some e) later m = refl
enqueue_times-zero none later m = put_times-later later m

nack_times-zero :
    (answer : LogAnswer) (to_dlq : Bool) (visible_at now : ℕ) (m : Message)
    → tally at_zero (nack_times answer to_dlq visible_at now m) ≡ 0
nack_times-zero (some e) to_dlq visible_at now m = refl
nack_times-zero none true visible_at now m = refl
nack_times-zero none false visible_at now m = put_times-later now (requeued m visible_at)

dequeue_times-pledged :
    (answer : LogAnswer) (expires : ℕ) (picked : List Message)
    → tally at_zero (dequeue_times answer expires picked)
      ≤ tally at_zero (lease_times expires picked)
dequeue_times-pledged (some e) expires picked = omega arith
dequeue_times-pledged none expires picked = omega arith

lease_times-zero :
    (expires : ℕ) (picked : List Message)
    → 0 < expires
    → tally at_zero (lease_times expires picked) ≡ 0
lease_times-zero expires [] h = refl
lease_times-zero expires (m ∷ ms) h = ground (arith, lease_times-zero expires ms h)

pub Step-Noticed : (u v : World) (s : Step u v) → by_others s ≡ true → Safe u → Noticed u v
unfolding enqueue_reserve
Step-Noticed u v (Step.enqueue_start now id body priority delay k q ps free) o s = record {
  ts = [];
  heeds = Heeds-same q _ refl refl refl refl;
  no_more = omega arith;
}
Step-Noticed u v (Step.enqueue_deduped now k e q ps hit) o s = record {
  ts = [];
  heeds = Heeds-same q _ refl refl refl refl;
  no_more = omega arith;
}
Step-Noticed u v (Step.enqueue_end m answer later q ps qs fresh) o s =
    let h = enqueue_commit-Heeds m answer later q s.balanced.ordered in
    record {
      ts = enqueue_times answer later m;
      heeds = h;
      no_more = omega (
        arith,
        h.dues at_zero,
        enqueue_times-zero answer later m,
        tally-all_pledged at_zero ps (Pending.enqueueing m) qs,
      );
    }
Step-Noticed u v (Step.dequeue_start now n token q ps) o s =
    let q' = promote_due now q in
    let b = promote_due-Balanced _ now q s.balanced in
    let h =
      Heeds-before q q' _ (promote_due-Heeds _ now q s.balanced)
        (pick-Heeds n q' b.ordered.ready) in
    record {
      ts = [];
      heeds = h;
      no_more =
          let expires = now + pos_part q.cfg.visibility_timeout_ms in
          omega (
            arith,
            h.dues at_zero,
            lease_times-zero expires (pick n q' []).1 (ground arith),
            tally-append at_zero (lease_times expires (pick n q' []).1) (all_pledged ps),
          );
    }
Step-Noticed u v (Step.dequeue_end expires token picked answer q ps qs) o s =
    let b = release ps (Pending.granting expires token picked) qs s.balanced in
    let h = dequeue_commit-Heeds (held (ps ++ qs)) expires token picked answer q b in
    record {
      ts = dequeue_times answer expires picked;
      heeds = h;
      no_more = omega (
        arith,
        h.dues at_zero,
        dequeue_times-pledged answer expires picked,
        tally-all_pledged at_zero ps (Pending.granting expires token picked) qs,
      );
    }
Step-Noticed u v (Step.ack_start id token m q q1 ps took) o s =
    let h = take_leased-Heeds id token m q q1 took in
    record { ts = []; heeds = h; no_more = omega (arith, h.dues at_zero) }
Step-Noticed u v (Step.ack_end id m answer q ps qs) o s =
    let h = ack_commit-Heeds id m answer q in
    record {
      ts = [];
      heeds = h;
      no_more =
          omega (arith, h.dues at_zero, tally-all_pledged at_zero ps (Pending.acking id m) qs);
    }
Step-Noticed u v (Step.nack_start now id token delay m q q1 ps took) o s =
    let h = take_leased-Heeds id token m q q1 took in
    record { ts = []; heeds = h; no_more = omega (arith, h.dues at_zero) }
Step-Noticed u v (Step.nack_end m to_dlq visible_at now answer q ps qs) o s =
    let h = nack_commit-Heeds m to_dlq visible_at now answer q s.balanced.ordered in
    record {
      ts = nack_times answer to_dlq visible_at now m;
      heeds = h;
      no_more = omega (
        arith,
        h.dues at_zero,
        nack_times-zero answer to_dlq visible_at now m,
        tally-all_pledged at_zero ps (Pending.nacking m to_dlq visible_at) qs,
      );
    }
Step-Noticed u v (Step.maintain_start now q ps) o s = absurd (ground (arith, o))
Step-Noticed u v (Step.maintain_middle now requeue to_dlq answer q ps qs) o s =
    absurd (ground (arith, o))
Step-Noticed u v (Step.maintain_end to_dlq answer q ps qs) o s = absurd (ground (arith, o))
Step-Noticed u v (Step.stats_taken now q ps) o s =
    let h = promote_due-Heeds _ now q s.balanced in
    record { ts = []; heeds = h; no_more = omega (arith, h.dues at_zero) }
Step-Noticed u v (Step.timer_armed q ps) o s = absurd (ground (arith, o))
