-- ===== src/Queue/Waking/Steps.antt =====
-- The steps of the operations of internal/queue/queue.go, and the deadlines of the maintenance loop.
use mathlib.Core.Path.{subst}
use stitch.Prelude.{
  ℕ, zero, suc, ◌+◌, ◌≤◌, ◌<◌, ◌≡◌, refl, sym, ap, Bool, true, false, none, some, List, [], ◌∷◌,
  ◌++◌, ltb, str_eq, length, arith, Bool-cases, List-cases, inl, inr, String,
}
use stitch.Prelude.Tally.{bit, tally}
use stitch.Queue.Message.{Message}
use stitch.Queue.Order.{ready_push}
use stitch.Queue.Live.{
  Queue, is_lifo, put, promote, promote_due, enqueue_commit, move_to_dlq, restore_leased,
}
use stitch.Queue.Ops.{
  LogAnswer, pick, push_back, grant, lease_items, dequeue_commit, ack_commit, nack_commit, requeued,
}
use stitch.Queue.Delivery.{pick-Picked}
use stitch.Queue.Invariant.{ReadyHeap, IsOrdered, Balanced}
use stitch.Queue.Invariant.Loops.{
  delayed_pop-Popped, promoted, granted, granted-Balanced, promoted-Balanced, promote-empty,
  promote-later, promote-due,
}
use stitch.Queue.Leases.Operations.{tally-lease_push}
use stitch.Queue.Waking.Heeds.{
  due_times, missed, Heeds, Heeds-same, Heeds-before, Heeds-after, wake_if_sooner-Heeds, put_times,
  put-Heeds,
}

module _ (held : List Message) where
  promoted-Heeds : (q : Queue) → 0 < length q.delayed → Balanced held q → Heeds [] q (promoted q)
  promoted-Heeds q pos b =
      let popped = delayed_pop-Popped (is_lifo q) q.delayed pos b.ordered.delayed in
      record {
        armed = refl;
        kept = λ h. h;
        dues = λ p. omega (arith, popped.same (λ (m : Message). p m.visible_at));
        nudged = inr refl;
      }

  promote-Heeds : (fuel now : ℕ) (q : Queue) → Balanced held q → Heeds [] q (promote fuel now q)
  unfolding promote
  promote-Heeds zero now q b = Heeds-same q q refl refl refl refl
  promote-Heeds (suc fuel) now q b = elim (List-cases q.delayed) [
    | inl e ↦
        subst (Heeds [] q) (sym (promote-empty fuel now q e)) (Heeds-same q q refl refl refl refl)
    | inr (m, ms, e) ↦ elim (Bool-cases (ltb now m.visible_at)) [
      | inl later ↦
          subst (Heeds [] q) (sym (promote-later fuel now q m ms e later))
            (Heeds-same q q refl refl refl refl)
      | inr due ↦
          let pos : 0 < length q.delayed = omega (arith, ap length e) in
          subst (Heeds [] q) (sym (promote-due fuel now q m ms e due)) (
            Heeds-before q (promoted q) _ (promoted-Heeds q pos b)
              (promote-Heeds fuel now (promoted q) (promoted-Balanced held q pos b)))
    ]
  ]

  pub promote_due-Heeds : (now : ℕ) (q : Queue) → Balanced held q → Heeds [] q (promote_due now q)
  unfolding promote_due
  promote_due-Heeds now q b = promote-Heeds (length q.delayed) now q b

pub pick-Heeds : (n : ℕ) (q : Queue) → ReadyHeap (is_lifo q) q.ready → Heeds [] q (pick n q []).0
pick-Heeds n q o =
    subst (Heeds [] q) (sym (pick-Picked n q o).queue) (Heeds-same q _ refl refl refl refl)

push_back-Heeds : (ms : List Message) (q : Queue) → Heeds [] q (push_back ms q)
unfolding push_back
push_back-Heeds [] q = Heeds-same q q refl refl refl refl
push_back-Heeds (m ∷ ms) q =
    let q1 = record q { ready = ready_push (is_lifo q) q.ready m } in
    Heeds-before q q1 _ (Heeds-same q q1 refl refl refl refl) (push_back-Heeds ms q1)

-- The deadlines of the leases of one Dequeue.
abbrev pub lease_times : ℕ → List Message → List ℕ
lease_times expires [] = []
lease_times expires (m ∷ ms) = expires ∷ lease_times expires ms

-- The loop that grants the leases: it adds their deadlines, and does not touch the channel.
record Grants (ts : List ℕ) (q q' : Queue) : Type 0 where
  armed : q'.armed ≡ q.armed
  wake : q'.wake ≡ q.wake
  dues : (p : ℕ → Bool) → due_times p q' ≤ due_times p q + tally p ts

module _ (held : List Message) where
  grant-Grants :
      (expires : ℕ) (token : ℕ → String) (i : ℕ) (picked : List Message) (q : Queue)
      → Balanced (picked ++ held) q
      → Grants
          (lease_times expires picked)
          q
          (grant expires picked (lease_items token i picked) q).0
  unfolding grant lease_items
  grant-Grants expires token i [] q b = record {
    armed = refl;
    wake = refl;
    dues = λ p. omega arith;
  }
  grant-Grants expires token i (m ∷ ms) q b =
      let q1 = granted expires (token i) m q in
      let rest =
        grant-Grants expires token (i + 1) ms q1
          (granted-Balanced (ms ++ held) expires (token i) m q b) in
      record {
        armed = rest.armed;
        wake = rest.wake;
        dues = λ p. omega (
          arith,
          rest.dues p,
          tally-lease_push (λ x. p x.expires_at) q.leases
              (record { id = m.id; token = token i; expires_at = expires }) b.ordered.leases,
        );
      }

abbrev pub dequeue_times : LogAnswer → ℕ → List Message → List ℕ
dequeue_times (some e) expires picked = []
dequeue_times none expires picked = lease_times expires picked

lease_times-missed :
    (expires : ℕ) (picked : List Message) (a : ℕ)
    → missed a expires ≡ false
    → tally (missed a) (lease_times expires picked) ≡ 0
lease_times-missed expires [] a h = refl
lease_times-missed expires (m ∷ ms) a h = omega (arith, ap bit h, lease_times-missed expires ms a h)

pub dequeue_commit-Heeds :
    (held : List Message) (expires : ℕ) (token : ℕ → String) (picked : List Message)
    (answer : LogAnswer) (q : Queue)
    → Balanced (picked ++ held) q
    → Heeds
        (dequeue_times answer expires picked)
        q
        (dequeue_commit expires picked (lease_items token 0 picked) answer q).1
unfolding dequeue_commit
dequeue_commit-Heeds held expires token picked (some e) q b = push_back-Heeds picked q
dequeue_commit-Heeds held expires token picked none q b =
    let g = grant-Grants held expires token 0 picked q b in
    wake_if_sooner-Heeds expires (lease_times expires picked) q _ g.armed g.wake g.dues
      (lease_times-missed expires picked)

abbrev pub enqueue_times : LogAnswer → ℕ → Message → List ℕ
enqueue_times (some e) later m = []
enqueue_times none later m = put_times later m

pub enqueue_commit-Heeds :
    (m : Message) (answer : LogAnswer) (later : ℕ) (q : Queue)
    → IsOrdered q
    → Heeds (enqueue_times answer later m) q (enqueue_commit m answer later q).1
unfolding enqueue_commit
enqueue_commit-Heeds m (some e) later q o = elim (Bool-cases (str_eq m.dedup_key "")) [
  | inl plain ↦ rw plain (Heeds-same q q refl refl refl refl)
  | inr keyed ↦ rw keyed (Heeds-same q _ refl refl refl refl)
]
enqueue_commit-Heeds m none later q o =
    Heeds-after q (put m later q) _ (put-Heeds m later q o)
      (Heeds-same (put m later q) _ refl refl refl refl)

pub ack_commit-Heeds :
    (id : String) (m : Message) (answer : LogAnswer) (q : Queue)
    → Heeds [] q (ack_commit id m answer q).1
unfolding ack_commit restore_leased
ack_commit-Heeds id m (some e) q = Heeds-same q _ refl refl refl refl
ack_commit-Heeds id m none q = Heeds-same q _ refl refl refl refl

abbrev pub nack_times : LogAnswer → Bool → ℕ → ℕ → Message → List ℕ
nack_times (some e) to_dlq visible_at now m = []
nack_times none true visible_at now m = []
nack_times none false visible_at now m = put_times now (requeued m visible_at)

pub nack_commit-Heeds :
    (m : Message) (to_dlq : Bool) (visible_at now : ℕ) (answer : LogAnswer) (q : Queue)
    → IsOrdered q
    → Heeds
        (nack_times answer to_dlq visible_at now m)
        q
        (nack_commit m to_dlq visible_at now answer q).1
unfolding nack_commit move_to_dlq restore_leased
nack_commit-Heeds m to_dlq visible_at now (some e) q o = Heeds-same q _ refl refl refl refl
nack_commit-Heeds m true visible_at now none q o = Heeds-same q _ refl refl refl refl
nack_commit-Heeds m false visible_at now none q o =
    let q1 = put (requeued m visible_at) now q in
    Heeds-after q q1 _ (put-Heeds (requeued m visible_at) now q o)
      (Heeds-same q1 _ refl refl refl refl)
