-- ===== src/Queue/Kept/Maintain.antt =====
-- Maintain of internal/queue/queue.go, and the messages whose leases it takes back.
pub mod Sweep
pub mod Fate
pub mod Whole
use mathlib.Core.Path.{subst}
use stitch.Prelude.{
  ℕ, ◌+◌, ◌≡◌, refl, sym, ap, ◌∙◌, Bool, true, false, not, ◌&&◌, none, some, List, [], ◌∷◌, ◌++◌,
  arith, if◌then◌else◌,
}
use stitch.Prelude.Int.{pos, ltb_ℤ}
use stitch.Prelude.Map
use stitch.Prelude.Tally.{bit, tally, tally-append}
use stitch.Queue.Message.{Config, Message, QueueError}
use stitch.Queue.Order.{LeaseEntry}
use stitch.Queue.Live.{Queue, put, move_to_dlq, restore_leased_entry, restore_leased}
use stitch.Queue.Ops.{LogAnswer, requeued}
use stitch.Queue.Maintain.{
  is_empty, maintain_reserve, maintain, restore_all, requeue_all, bury_all, commit_requeue,
  commit_bury,
}
use stitch.Queue.Invariant.{Balanced}
use stitch.Queue.Invariant.Steps.{
  held_once, held_there, dropped-Balanced, adjusted-Balanced, put_back-Balanced,
}
use stitch.Queue.Invariant.Maintenance.{
  messages, restored, maintain_reserve-Balanced, commit_requeue-Balanced, unless_empty,
  maintain-Balanced,
}
use stitch.Queue.Leases.{lent, lent-put, lent-requeue_all, lent-bury_all}
use stitch.Manager.Mirror.{view}
use stitch.Manager.Mirror.Commits.{view-put}
use stitch.Manager.Mirror.Silent.{view-restore_all}
use stitch.Queue.Kept.{resting}

-- How many messages of the table, among the dead letters and in flight pass a test, which sees
-- neither the token nor the visible time in the first two.
abbrev pub stored : (Message → Bool) → Queue → ℕ
stored p q = tally (λ m. p (resting m)) (Map.values q.msgs)

abbrev pub buried : (Message → Bool) → Queue → ℕ
buried p q = tally (λ m. p (resting m)) q.dlq

abbrev pub flying : (Message → Bool) → Queue → ℕ
flying p q = tally p (Map.values q.inflight)

abbrev pub rested : (Message → Bool) → List (Message × LeaseEntry) → ℕ
rested p r = tally (λ m. p (resting m)) (messages r)

module _ (held : List Message) where
  flying-restore_all :
      (p : Message → Bool) (r : List (Message × LeaseEntry)) (q : Queue)
      → Balanced (messages r ++ held) q
      → flying p (restore_all r q) ≡ flying p q + tally p (messages r)
  unfolding restore_all restore_leased_entry restore_leased
  flying-restore_all p [] q b = omega arith
  flying-restore_all p ((m, e) ∷ r) q b = omega (
    arith,
    flying-restore_all p r (restore_leased_entry m e q) (restored m e (messages r ++ held) q b),
    Map.values-insert_new m.id p m q.inflight (held_once (messages r ++ held) m q b).1,
  )

  stored-put :
      (p : Message → Bool) (now : ℕ) (m : Message) (q : Queue)
      → Balanced (m ∷ held) q
      → stored p (put (requeued m now) now q) ≡ stored p q
  unfolding requeued
  stored-put p now m q b =
      let f = λ (k : Message). p (resting k) in
      let m' = requeued m now in
      ap (λ v. tally f (Map.values v.msgs)) (view-put m' now q)
      ∙ ap (λ t. tally f (Map.values t)) (Map.insert-update m.id m' q.msgs (held_once held m q b).0)
      ∙ omega (arith, Map.values-update m.id f m m' q.msgs (held_there held m q b))

module _ (held : List Message) where
  stored-requeue_all :
      (p : Message → Bool) (now : ℕ) (r : List (Message × LeaseEntry)) (q : Queue)
      → Balanced (messages r ++ held) q
      → stored p (requeue_all now r q) ≡ stored p q
  unfolding requeue_all requeued
  stored-requeue_all p now [] q b = refl
  stored-requeue_all p now ((m, e) ∷ r) q b =
      let q1 = put (requeued m now) now q in
      stored-requeue_all p now r _ (
        adjusted-Balanced _ q1 q1.seq q1.dlq q1.dedup _ q1.armed q1.wake
          (put_back-Balanced (messages r ++ held) m (requeued m now) now q refl b))
      ∙ stored-put (messages r ++ held) p now m q b

  stored-bury_all :
      (p : Message → Bool) (r : List (Message × LeaseEntry)) (q : Queue)
      → Balanced (messages r ++ held) q
      → stored p (bury_all r q) + rested p r ≡ stored p q
  unfolding bury_all move_to_dlq
  stored-bury_all p [] q b = omega arith
  stored-bury_all p ((m, e) ∷ r) q b = omega (
    arith,
    stored-bury_all p r _ (
        adjusted-Balanced _ (record q { msgs = Map.delete m.id q.msgs }) q.seq _ q.dedup _ q.armed
          q.wake (dropped-Balanced (messages r ++ held) m q b)),
    Map.values-delete m.id (λ k. p (resting k)) m q.msgs (held_there (messages r ++ held) m q b),
  )

dlq-requeue_all :
    (now : ℕ) (r : List (Message × LeaseEntry)) (q : Queue) → (requeue_all now r q).dlq ≡ q.dlq
unfolding requeue_all
dlq-requeue_all now [] q = refl
dlq-requeue_all now ((m, e) ∷ r) q =
    dlq-requeue_all now r _ ∙ ap (λ v. v.dlq) (view-put (requeued m now) now q)

cfg-requeue_all :
    (now : ℕ) (r : List (Message × LeaseEntry)) (q : Queue) → (requeue_all now r q).cfg ≡ q.cfg
unfolding requeue_all
cfg-requeue_all now [] q = refl
cfg-requeue_all now ((m, e) ∷ r) q =
    cfg-requeue_all now r _ ∙ ap (λ v. v.cfg) (view-put (requeued m now) now q)

buried-bury_all :
    (p : Message → Bool) (r : List (Message × LeaseEntry)) (q : Queue)
    → q.cfg.dlq ≡ true
    → buried p (bury_all r q) ≡ buried p q + rested p r
unfolding bury_all move_to_dlq
buried-bury_all p [] q on = omega arith
buried-bury_all p ((m, e) ∷ r) q on =
    let f = λ (k : Message). p (resting k) in
    let m' = record m { lease_token = "" } in
    let kept : tally f (if q.cfg.dlq then q.dlq ++ (m' ∷ []) else q.dlq) ≡ buried p q + bit (f m) =
      rw on (omega (arith, tally-append f q.dlq (m' ∷ []))) in
    buried-bury_all p r _ on ∙ ap (λ k. k + rested p r) kept ∙ omega arith
