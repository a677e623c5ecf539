-- ===== src/Queue/Waking/Alert.antt =====
-- The maintenance goroutine of internal/queue/queue.go asleep, beside the other goroutines.
use stitch.Prelude.{
  ◌==◌, ℕ, ◌≡◌, refl, ◌∙◌, true, false, ◌⊎◌, none, some, [], ◌++◌, arith, inl, inr,
}
use mathlib.Core.Path.{subst}
use stitch.Prelude.Tally.{tally, tally-append}
use stitch.Queue.Live.{Queue}
use stitch.Queue.Ops.{LogAnswer, next_deadline}
use stitch.Queue.Maintain.{maintain_reserve}
use stitch.Queue.Invariant.{Balanced}
use stitch.Queue.Invariant.Steps.{adjusted-Balanced}
use stitch.Queue.Interleaving.{Pending, World, Step}
use stitch.Queue.Interleaving.Safe.{Safe, Step-Safe, release, release_both}
use stitch.Queue.Waking.{Phase, Site, after_maintain, Turn, Turns}
use stitch.Queue.Waking.Heeds.{due_times, missed}
use stitch.Queue.Waking.Deadline.{next_deadline-caught}
use stitch.Queue.Waking.Pledges.{
  all_pledged, tally-all_pledged, entry_times, all_times-maintain_reserve, due_times-commit_requeue,
  due_times-commit_bury,
}
use stitch.Queue.Waking.Notice.{at_zero, zeros, Noticed, Step-Noticed}

-- A sleeping goroutine has a token to wake it, or a timer that fires by each deadline.
abbrev pub Awake : Phase → Queue → Type 0
Awake (Phase.sleeping d) q = (q.armed ≡ d) × ((q.wake ≡ true) ⊎ (due_times (missed d) q ≡ 0))
Awake Phase.arming q = Unit
Awake Phase.ended q = Unit
Awake (Phase.reclaiming now e) q = Unit

record Alert (s : Site) : Type 0 where
  safe : Safe s.world
  timed : zeros s.world ≡ 0
  awake : Awake s.phase s.world.queue

Awake-after_maintain : (e : LogAnswer) (q : Queue) → Awake (after_maintain e) q
Awake-after_maintain none q = tt
Awake-after_maintain (some e) q = tt

Noticed-Awake :
    (phase : Phase) (u v : World) → Noticed u v → Awake phase u.queue → Awake phase v.queue
Noticed-Awake Phase.arming u v n a = tt
Noticed-Awake Phase.ended u v n a = tt
Noticed-Awake (Phase.reclaiming now e) u v n a = tt
Noticed-Awake (Phase.sleeping d) u v n (armed, inl token) =
    (n.heeds.armed ∙ armed, inl (n.heeds.kept token))
Noticed-Awake (Phase.sleeping d) u v n (armed, inr caught) =
    let none_missed : tally (missed u.queue.armed) n.ts ≡ 0 → due_times (missed d) v.queue ≡ 0 =
      λ h.
        omega (
          arith,
          caught,
          n.heeds.dues (missed d),
          subst (λ a. tally (missed a) n.ts ≡ 0) armed h,
        ) in
    (
      n.heeds.armed ∙ armed,
      elim n.heeds.nudged [ inl token ↦ inl token | inr on_time ↦ inr (none_missed on_time) ],
    )

Turn-Alert : (s t : Site) → Turn s t → Alert s → Alert t
unfolding next_deadline
Turn-Alert s t (Turn.others u v phase step o) a =
    let n = Step-Noticed u v step o a.safe in
    record {
      safe = Step-Safe u v step a.safe;
      timed = omega (arith, n.no_more, a.timed);
      awake = Noticed-Awake phase u v n a.awake;
    }
Turn-Alert s t (Turn.rearmed q ps) a =
    let no_zero : due_times at_zero q ≡ 0 = omega (arith, a.timed) in
    record {
      safe = Step-Safe _ _ (Step.timer_armed q ps) a.safe;
      timed = a.timed;
      awake = (refl, inr (next_deadline-caught q a.safe.balanced.ordered no_zero));
    }
Turn-Alert s t (Turn.nudged d q ps token) a = record {
  safe = record {
    balanced = adjusted-Balanced _ q q.seq q.dlq q.dedup q.cnt q.armed false a.safe.balanced;
    fitting = a.safe.fitting;
  };
  timed = a.timed;
  awake = tt;
}
Turn-Alert s t (Turn.closed d w) a = record { safe = a.safe; timed = a.timed; awake = tt }
Turn-Alert s t (Turn.fired d now q ps pos) a =
    let r = maintain_reserve now q in
    record {
      safe = Step-Safe _ _ (Step.maintain_start now q ps) a.safe;
      timed = omega (
        arith,
        a.timed,
        all_times-maintain_reserve _ at_zero now q a.safe.balanced,
        tally-append at_zero (entry_times r.requeue ++ entry_times r.to_dlq) (all_pledged ps),
        tally-append at_zero (entry_times r.requeue) (entry_times r.to_dlq),
      );
      awake = tt;
    }
Turn-Alert s t (Turn.requeued now e requeue to_dlq answer q ps qs) a = record {
  safe = Step-Safe _ _ (Step.maintain_middle now requeue to_dlq answer q ps qs) a.safe;
  timed = omega (
    arith,
    a.timed,
    due_times-commit_requeue _ at_zero now requeue answer q
        (release_both ps requeue to_dlq qs a.safe.balanced),
    tally-all_pledged at_zero ps (Pending.requeueing requeue to_dlq) qs,
    tally-all_pledged at_zero ps (Pending.burying to_dlq) qs,
    tally-append at_zero (entry_times requeue) (entry_times to_dlq),
  );
  awake = tt;
}
Turn-Alert s t (Turn.buried now e to_dlq answer q ps qs) a = record {
  safe = Step-Safe _ _ (Step.maintain_end to_dlq answer q ps qs) a.safe;
  timed = omega (
    arith,
    a.timed,
    due_times-commit_bury _ at_zero to_dlq answer q
        (release ps (Pending.burying to_dlq) qs a.safe.balanced),
    tally-all_pledged at_zero ps (Pending.burying to_dlq) qs,
  );
  awake = Awake-after_maintain _ _;
}

Turns-Alert : (s t : Site) → Turns s t → Alert s → Alert t
Turns-Alert s t (Turns.stop _) a = a
Turns-Alert s t (Turns.turn _ u _ first rest) a = Turns-Alert u t rest (Turn-Alert s u first a)

-- The maintenance goroutine beside any interleaving of the locked parts of any other operations,
-- from a balanced queue without a deadline at time 0, where no operation runs and the goroutine
-- starts; Dequeue reads times after 0, and a message that Enqueue puts in has the ID of no live
-- message. Whenever it sleeps, a token that wakes it lies in the channel, or a timer is set that
-- fires no later than each delayed message is visible and each lease entry expires; where there
-- is no timer, there is no delayed message and no lease entry.
pub no_lost_wakeup :
    (q : Queue) (d : ℕ) (w : World)
    → Balanced [] q
    → due_times (λ t. t == 0) q ≡ 0
    → Turns
        (record { world = record { queue = q; pending = [] }; phase = Phase.arming })
        (record { world = w; phase = Phase.sleeping d })
    → (w.queue.wake ≡ true) ⊎ (due_times (missed d) w.queue ≡ 0)
no_lost_wakeup q d w b z turns =
    let start : Alert
        (record { world = record { queue = q; pending = [] }; phase = Phase.arming }) =
      record {
        safe = record { balanced = b; fitting = tt };
        timed = omega (arith, z);
        awake = tt;
      } in
    (Turns-Alert _ _ turns start).awake.1
