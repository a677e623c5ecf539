-- ===== src/Manager/Mirror/Maintenance.antt =====
-- Maintain of internal/queue/queue.go, and the replay of what it logged.
use mathlib.Core.Path.{subst}
use stitch.Prelude.{
  ℕ, refl, sym, String, none, some, List, [], ◌∷◌, ◌++◌, add64, length, if◌then◌else◌,
}
use stitch.Queue.Message.{Message}
use stitch.Queue.Order.{LeaseEntry}
use stitch.Queue.Payload.{Payload}
use stitch.Queue.Live.{Queue}
use stitch.Queue.Ops.{LogAnswer, Trace, reason}
use stitch.Queue.Maintain.{
  is_empty, maintain_reserve, expire_items, ids_of, commit_requeue, commit_bury, maintain,
}
use stitch.Queue.Invariant.{Balanced}
use stitch.Queue.Invariant.Maintenance.{
  messages, maintain_reserve-Balanced, commit_requeue-Balanced, unless_empty,
}
use stitch.Manager.{apply_to_queue, apply_expire}
use stitch.Manager.Mirror.{Mirrors, logged, Reaches}
use stitch.Manager.Mirror.Commits.{Mirrors-view, requeue_all-Mirrors, bury_all-Mirrors}
use stitch.Manager.Mirror.Silent.{
  view-restore_all, view-maintain_reserve, logged-append, unlogged, Reaches-one, Reaches-append,
}

module _ (held : List Message) where
  requeue-Reaches :
      (now : ℕ) (xs : List (Message × LeaseEntry)) (answer : LogAnswer) (n : String) (q r : Queue)
      → Balanced (messages xs ++ held) q
      → Mirrors q r
      → Reaches
          (logged
            (if is_empty xs then [] else (Payload.expire n (expire_items now xs), answer) ∷ []))
          r
          (if is_empty xs then q else commit_requeue now xs answer q)
  unfolding commit_requeue apply_to_queue apply_expire
  requeue-Reaches now [] answer n q r b s = unlogged refl s
  requeue-Reaches now (x ∷ xs) (some e) n q r b s = unlogged (view-restore_all (x ∷ xs) q) s
  requeue-Reaches now (x ∷ xs) none n q r b s =
      let (r', done, s') = requeue_all-Mirrors held now (x ∷ xs) q r b s in
      let items = expire_items now (x ∷ xs) in
      Reaches-one (Payload.expire n items) r (
        record r' { cnt = record r'.cnt { expired = add64 r'.cnt.expired (length items) } },
        rw (apply_expire, done) refl,
        record { seen = s'.seen; idle = s'.idle },
      )

  bury-Reaches :
      (xs : List (Message × LeaseEntry)) (answer : LogAnswer) (n : String) (q r : Queue)
      → Balanced (messages xs ++ held) q
      → Mirrors q r
      → Reaches
          (logged
            (if is_empty xs then [] else (Payload.dlq_move n (ids_of xs) reason, answer) ∷ []))
          r
          (if is_empty xs then q else commit_bury xs answer q)
  unfolding commit_bury apply_to_queue
  bury-Reaches [] answer n q r b s = unlogged refl s
  bury-Reaches (x ∷ xs) (some e) n q r b s = unlogged (view-restore_all (x ∷ xs) q) s
  bury-Reaches (x ∷ xs) none n q r b s =
      Reaches-one (Payload.dlq_move n (ids_of (x ∷ xs)) reason) r
        (bury_all-Mirrors held (x ∷ xs) q r b s)

module _ (held : List Message) where
  pub maintain-Reaches :
      (now : ℕ) (answer1 answer2 : LogAnswer) (q r : Queue)
      → Balanced held q
      → Mirrors q r
      → Reaches (logged (maintain now answer1 answer2 q).1.1) r (maintain now answer1 answer2 q).1.0
  unfolding maintain
  maintain-Reaches now answer1 answer2 q r b s =
      let x = maintain_reserve now q in
      let b0 = maintain_reserve-Balanced held now q b in
      let later = messages x.to_dlq ++ held in
      let b1 =
        unless_empty later x.requeue x.queue _ b0
          (commit_requeue-Balanced later now x.requeue answer1 x.queue b0) in
      let s0 = Mirrors-view (view-maintain_reserve now q) s in
      let t1 : Trace =
        if is_empty x.requeue
        then []
        else (Payload.expire q.cfg.name (expire_items now x.requeue), answer1) ∷ [] in
      let t2 : Trace =
        if is_empty x.to_dlq
        then []
        else (Payload.dlq_move q.cfg.name (ids_of x.to_dlq) reason, answer2) ∷ [] in
      subst (λ ps. Reaches ps r (maintain now answer1 answer2 q).1.0) (sym (logged-append t1 t2))
        (Reaches-append (logged t1) (logged t2) r _ _
          (requeue-Reaches later now x.requeue answer1 q.cfg.name x.queue r b0 s0)
          (λ r1 s1. bury-Reaches held x.to_dlq answer2 q.cfg.name _ r1 b1 s1))
