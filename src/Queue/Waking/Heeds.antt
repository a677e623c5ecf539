-- ===== src/Queue/Waking/Heeds.antt =====
-- wakeIfSooner and insert of internal/queue/queue.go: what a step that gives a queue new deadlines
-- does to the channel `wake`, and how the deadlines of a queue change under its steps.
use mathlib.Core.Path.{subst}
use stitch.Prelude.{
  ℕ, ◌+◌, ◌≤◌, ◌≡◌, refl, ap, ◌∙◌, Bool, true, false, not, ◌&&◌, ◌||◌, ◌⊎◌, List, [], ◌∷◌, ltb, leb,
  ◌==◌, arith, Bool-cases, inl, inr, if◌then◌else◌,
}
use stitch.Prelude.Map
use stitch.Prelude.Tally.{bit, tally}
use stitch.Queue.Message.{Message}
use stitch.Queue.Order.{LeaseEntry, delayed_push}
use stitch.Queue.Live.{Queue, is_lifo, wake_if_sooner, put}
use stitch.Queue.Invariant.{IsOrdered}
use stitch.Queue.Invariant.Waiting.{tally-delayed_push}

-- How many deadlines of a queue pass a test.
abbrev pub due_times : (ℕ → Bool) → Queue → ℕ
due_times p q =
    tally (λ (m : Message). p m.visible_at) q.delayed
    + tally (λ (e : LeaseEntry). p e.expires_at) q.leases

-- A timer set for `d`, where 0 stands for no timer, has not fired at `t`.
abbrev pub missed : ℕ → ℕ → Bool
missed d t = (d == 0) || ltb t d

-- From `q` to `q'` at most the deadlines `ts` are new, and a token lies in `wake` unless a timer set
-- for `armed` fires by each of them.
pub record Heeds (ts : List ℕ) (q q' : Queue) : Type 0 where
  pub armed : q'.armed ≡ q.armed
  pub kept : q.wake ≡ true → q'.wake ≡ true
  pub dues : (p : ℕ → Bool) → due_times p q' ≤ due_times p q + tally p ts
  pub nudged : (q'.wake ≡ true) ⊎ (tally (missed q.armed) ts ≡ 0)

pub Heeds-same :
    (q q' : Queue)
    → q'.armed ≡ q.armed
    → q'.wake ≡ q.wake
    → q'.delayed ≡ q.delayed
    → q'.leases ≡ q.leases
    → Heeds [] q q'
Heeds-same q q' a w d l = record {
  armed = a;
  kept = λ h. w ∙ h;
  dues = λ p. omega (
    arith,
    ap (tally (λ (m : Message). p m.visible_at)) d,
    ap (tally (λ (e : LeaseEntry). p e.expires_at)) l,
  );
  nudged = inr refl;
}

-- A step without new deadlines before one with some, and after.
pub Heeds-before : {ts : List ℕ} (q q1 q2 : Queue) → Heeds [] q q1 → Heeds ts q1 q2 → Heeds ts q q2
Heeds-before {ts} q q1 q2 h k = record {
  armed = k.armed ∙ h.armed;
  kept = λ w. k.kept (h.kept w);
  dues = λ p. omega (arith, h.dues p, k.dues p);
  nudged = subst (λ a. (q2.wake ≡ true) ⊎ (tally (missed a) ts ≡ 0)) h.armed k.nudged;
}

pub Heeds-after : {ts : List ℕ} (q q1 q2 : Queue) → Heeds ts q q1 → Heeds [] q1 q2 → Heeds ts q q2
Heeds-after {ts} q q1 q2 h k = record {
  armed = k.armed ∙ h.armed;
  kept = λ w. k.kept (h.kept w);
  dues = λ p. omega (arith, h.dues p, k.dues p);
  nudged = elim h.nudged [ inl w ↦ inl (k.kept w) | inr on_time ↦ inr on_time ];
}

on_time : (d t : ℕ) → not (d == 0) && leb d t ≡ true → missed d t ≡ false
on_time d t h = ground (arith, h)

-- Deadlines that were added are heeded once wakeIfSooner is called with the first of them.
pub wake_if_sooner-Heeds :
    (t : ℕ) (ts : List ℕ) (q q1 : Queue)
    → q1.armed ≡ q.armed
    → q1.wake ≡ q.wake
    → ((p : ℕ → Bool) → due_times p q1 ≤ due_times p q + tally p ts)
    → ((a : ℕ) → missed a t ≡ false → tally (missed a) ts ≡ 0)
    → Heeds ts q (wake_if_sooner t q1)
unfolding wake_if_sooner
wake_if_sooner-Heeds t ts q q1 a w more after =
    elim (Bool-cases (not (q1.armed == 0) && leb q1.armed t)) [
      | inl sooner ↦ rw sooner (record {
        armed = a;
        kept = λ h. w ∙ h;
        dues = more;
        nudged =
            inr
              (subst (λ x. tally (missed x) ts ≡ 0) a (after q1.armed (on_time q1.armed t sooner)));
      })
      | inr later ↦
          rw later (record { armed = a; kept = λ h. refl; dues = more; nudged = inl refl })
    ]

-- The deadline that insert adds.
abbrev pub put_times : ℕ → Message → List ℕ
put_times now m = if ltb now m.visible_at then m.visible_at ∷ [] else []

pub put-Heeds :
    (m : Message) (now : ℕ) (q : Queue) → IsOrdered q → Heeds (put_times now m) q (put m now q)
unfolding put
put-Heeds m now q o = elim (Bool-cases (ltb now m.visible_at)) [
  | inr due ↦ rw due (Heeds-same q _ refl refl refl refl)
  | inl later ↦ rw later (
      wake_if_sooner-Heeds m.visible_at (m.visible_at ∷ []) q
        (record q {
          msgs = Map.insert m.id m q.msgs;
          delayed = delayed_push (is_lifo q) q.delayed m;
        })
        refl refl
        (λ p.
          omega (arith, tally-delayed_push (is_lifo q) q.delayed m (λ x. p x.visible_at) o.delayed))
        (λ a on. ap (λ b. bit b + 0) on))
]

-- Those who put a message in, or one back, give it a later time or none.
pub put_times-later : (now : ℕ) (m : Message) → tally (λ t. t == 0) (put_times now m) ≡ 0
put_times-later now m = elim (Bool-cases (ltb now m.visible_at)) [
  | inr due ↦ rw due refl
  | inl later ↦ rw later (ground (arith, later))
]
