-- ===== src/Queue/Kept/Maintain/Fate.antt =====
-- Maintain of internal/queue/queue.go from its first step to its last, and where each message is
-- then.
use stitch.Prelude.{
  ℕ, ◌+◌, ◌≡◌, refl, ap, ◌∙◌, Bool, true, false, none, some, List, [], ◌∷◌, ◌++◌, arith,
  if◌then◌else◌,
}
use stitch.Prelude.Tally.{tally}
use stitch.Queue.Message.{Message, QueueError}
use stitch.Queue.Order.{LeaseEntry}
use stitch.Queue.Live.{Queue, move_to_dlq}
use stitch.Queue.Ops.{LogAnswer}
use stitch.Queue.Maintain.{
  is_empty, restore_all, requeue_all, bury_all, commit_requeue, commit_bury,
}
use stitch.Queue.Invariant.{Balanced}
use stitch.Queue.Invariant.Maintenance.{messages}
use stitch.Queue.Leases.{lent-requeue_all, lent-bury_all}
use stitch.Manager.Mirror.Silent.{view-restore_all}
use stitch.Prelude.Map
use stitch.Queue.Kept.{resting}
use stitch.Queue.Kept.Maintain.{
  stored, buried, flying, rested, flying-restore_all, stored-requeue_all, stored-bury_all,
  dlq-requeue_all, cfg-requeue_all, buried-bury_all,
}

-- What an append that fails gives back, and what one that succeeds takes.
abbrev pub back : LogAnswer → List (Message × LeaseEntry) → List (Message × LeaseEntry)
back (some e) r = r
back none r = []

abbrev pub gone : LogAnswer → List (Message × LeaseEntry) → List (Message × LeaseEntry)
gone (some e) r = []
gone none r = r

pub skip_requeue :
    (now : ℕ) (r : List (Message × LeaseEntry)) (answer : LogAnswer) (q : Queue)
    → (if is_empty r then q else commit_requeue now r answer q) ≡ commit_requeue now r answer q
unfolding commit_requeue restore_all requeue_all
skip_requeue now [] none q = refl
skip_requeue now [] (some e) q = refl
skip_requeue now (x ∷ r) answer q = refl

pub skip_bury :
    (r : List (Message × LeaseEntry)) (answer : LogAnswer) (q : Queue)
    → (if is_empty r then q else commit_bury r answer q) ≡ commit_bury r answer q
unfolding commit_bury restore_all bury_all
skip_bury [] none q = refl
skip_bury [] (some e) q = refl
skip_bury (x ∷ r) answer q = refl

dlq-bury_all :
    (r : List (Message × LeaseEntry)) (q : Queue) → q.cfg.dlq ≡ false → (bury_all r q).dlq ≡ q.dlq
unfolding bury_all move_to_dlq
dlq-bury_all [] q off = refl
dlq-bury_all ((m, e) ∷ r) q off = dlq-bury_all r _ off ∙ rw off refl

module _ (held : List Message) (now : ℕ) (r : List (Message × LeaseEntry)) (q : Queue)
    (b : Balanced (messages r ++ held) q) where
  pub flying-commit_requeue :
      (p : Message → Bool) (answer : LogAnswer)
      → flying p (commit_requeue now r answer q) ≡ flying p q + tally p (messages (back answer r))
  unfolding commit_requeue
  flying-commit_requeue p (some e) = flying-restore_all held p r q b
  flying-commit_requeue p none =
      omega (arith, ap (λ l. tally p (Map.values l.0)) (lent-requeue_all now r q))

  pub stored-commit_requeue :
      (p : Message → Bool) (answer : LogAnswer)
      → stored p (commit_requeue now r answer q) ≡ stored p q
  unfolding commit_requeue
  stored-commit_requeue p (some e) =
      ap (λ v. tally (λ m. p (resting m)) (Map.values v.msgs)) (view-restore_all r q)
  stored-commit_requeue p none = stored-requeue_all held p now r q b

  pub flying-commit_bury :
      (p : Message → Bool) (answer : LogAnswer)
      → flying p (commit_bury r answer q) ≡ flying p q + tally p (messages (back answer r))
  unfolding commit_bury
  flying-commit_bury p (some e) = flying-restore_all held p r q b
  flying-commit_bury p none = omega (arith, ap (λ l. tally p (Map.values l.0)) (lent-bury_all r q))

  pub stored-commit_bury :
      (p : Message → Bool) (answer : LogAnswer)
      → stored p (commit_bury r answer q) + rested p (gone answer r) ≡ stored p q
  unfolding commit_bury
  stored-commit_bury p (some e) =
      omega (arith, ap (λ v. tally (λ m. p (resting m)) (Map.values v.msgs)) (view-restore_all r q))
  stored-commit_bury p none = stored-bury_all held p r q b

module _ (now : ℕ) (r : List (Message × LeaseEntry)) (q : Queue) where
  pub dlq-commit_requeue : (answer : LogAnswer) → (commit_requeue now r answer q).dlq ≡ q.dlq
  unfolding commit_requeue
  dlq-commit_requeue (some e) = ap (λ v. v.dlq) (view-restore_all r q)
  dlq-commit_requeue none = dlq-requeue_all now r q

  pub cfg-commit_requeue : (answer : LogAnswer) → (commit_requeue now r answer q).cfg ≡ q.cfg
  unfolding commit_requeue
  cfg-commit_requeue (some e) = ap (λ v. v.cfg) (view-restore_all r q)
  cfg-commit_requeue none = cfg-requeue_all now r q

  pub buried-commit_bury :
      (p : Message → Bool) (answer : LogAnswer)
      → q.cfg.dlq ≡ true
      → buried p (commit_bury r answer q) ≡ buried p q + rested p (gone answer r)
  unfolding commit_bury
  buried-commit_bury p (some e) on =
      omega (arith, ap (λ v. tally (λ m. p (resting m)) v.dlq) (view-restore_all r q))
  buried-commit_bury p none on = buried-bury_all p r q on

  pub dlq-commit_bury :
      (answer : LogAnswer) → q.cfg.dlq ≡ false → (commit_bury r answer q).dlq ≡ q.dlq
  unfolding commit_bury
  dlq-commit_bury (some e) off = ap (λ v. v.dlq) (view-restore_all r q)
  dlq-commit_bury none off = dlq-bury_all r q off

  pub dlq-failed_bury : (e : QueueError) → (commit_bury r (some e) q).dlq ≡ q.dlq
  unfolding commit_bury
  dlq-failed_bury e = ap (λ v. v.dlq) (view-restore_all r q)
