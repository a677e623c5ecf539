-- ===== src/Manager/Fleet/Lift.antt =====
-- Replay by internal/queue/manager.go of the payloads of one queue, and of a CreateQueue.
use mathlib.Core.Path.{subst}
use stitch.Prelude.{
  ◌≡◌, ◌⊎◌, refl, ap, sym, ◌∙◌, false, String, none, some, List, [], ◌∷◌, ◌++◌, ok, ◌>>=◌, arith,
  ok_apart, ok_injective, str_eq, Bool-cases, Option-cases, Result-cases, inl, inr,
}
use stitch.Prelude.Map
use stitch.Prelude.Map.{Map, some_injective}
use stitch.Queue.Message.{Config, normalize}
use stitch.Queue.Message.Normal.{normalize-IsNormal, normalize_normal}
use stitch.Queue.Payload.{Payload}
use stitch.Queue.Live.{Queue, new_queue}
use stitch.Queue.Ops.{LogAnswer}
use stitch.Manager.{
  Manager, Replay, create_queue, apply, apply_create, apply_to_replay, replay_queue, apply_to_queue,
  queue_name, track_leases, set_queue,
}
use stitch.Manager.Mirror.{logged, fold_payloads}
use stitch.Manager.Fleet.{fold_replay, is_create, AllOf}

-- apply, on a payload of an operation.
apply_operation : (p : Payload) (r : Replay) → is_create p ≡ false → apply p r ≡ apply_to_replay p r
unfolding apply
apply_operation (Payload.queue_create c) r e = absurd (ground (arith, e))
apply_operation (Payload.enqueue p) r e = refl
apply_operation (Payload.lease n expires items) r e = refl
apply_operation (Payload.ack n id) r e = refl
apply_operation (Payload.nack n id at) r e = refl
apply_operation (Payload.expire n items) r e = refl
apply_operation (Payload.dlq_move n ids reason) r e = refl

-- Replay of one queue's payloads changes this queue as it would alone, and no other.
pub record Lifted (name : String) (ps : List Payload) (r : Replay) (q' : Queue) : Type 0 where
  pub after : Replay
  pub replayed : fold_replay ps r ≡ ok after
  pub here : Map.lookup name after.queues ≡ some q'
  pub elsewhere :
      (n : String) → str_eq name n ≡ false → Map.lookup n after.queues ≡ Map.lookup n r.queues

apply_known :
    (p : Payload) (r : Replay) (q q' : Queue)
    → is_create p ≡ false
    → Map.lookup (queue_name p) r.queues ≡ some q
    → apply_to_queue p q ≡ ok q'
    → apply p r
      ≡ ok (record {
        queues = Map.insert (queue_name p) q' r.queues;
        leased = track_leases p r.leased;
      })
unfolding apply_to_replay replay_queue
apply_known p r q q' e there done =
    apply_operation p r e ∙ rw (apply_to_replay, replay_queue, there, done) refl

pub lift :
    (name : String) (ps : List Payload) (r : Replay) (q q' : Queue)
    → AllOf name ps
    → Map.lookup name r.queues ≡ some q
    → fold_payloads ps q ≡ ok q'
    → Lifted name ps r q'
lift name [] r q q' all there done = record {
  after = r;
  replayed = refl;
  here = there ∙ ap some (ok_injective q q' done);
  elsewhere = λ n e. refl;
}
lift name (p ∷ ps) r q q' all there done = elim (Result-cases (apply_to_queue p q)) [
  | inr (e, bad) ↦ absurd (ok_apart q' e (sym (rw bad at done)))
  | inl (q1, good) ↦
      let r1 : Replay = record {
        queues = Map.insert (queue_name p) q1 r.queues;
        leased = track_leases p r.leased;
      } in
      let named = all.0.0 in
      let found : Map.lookup (queue_name p) r.queues ≡ some q = rw named there in
      let first = apply_known p r q q1 all.0.1 found good in
      let kept : Map.lookup name r1.queues ≡ some q1 =
        subst (λ n. Map.lookup n r1.queues ≡ some q1) named
          (Map.lookup-insert (queue_name p) q1 r.queues) in
      let rest = lift name ps r1 q1 q' all.1 kept (rw good at done) in
      record {
        after = rest.after;
        replayed = rw first rest.replayed;
        here = rest.here;
        elsewhere = λ n e.
            rest.elsewhere n e ∙ Map.lookup-insert_other n (queue_name p) q1 r.queues (rw named e);
      }
]

-- CreateQueue changes nothing, or adds a new queue under a new name once its record is confirmed.
pub create_queue_cases :
    (cfg : Config) (answer : LogAnswer) (m : Manager)
    → ((logged (create_queue cfg answer m).1.1 ≡ []) × ((create_queue cfg answer m).1.0 ≡ m))
      ⊎ ((c : Config) × (normalize c ≡ ok c)
          × (Map.lookup c.name m.queues ≡ none)
          × (logged (create_queue cfg answer m).1.1 ≡ Payload.queue_create c ∷ [])
          × ((create_queue cfg answer m).1.0
              ≡ record m { queues = Map.insert c.name (new_queue c) m.queues }))
unfolding create_queue
create_queue_cases cfg answer m = elim (Result-cases (normalize cfg)) [
  | inr (e, bad) ↦ inl (rw (create_queue, bad) (refl, refl))
  | inl (c, good) ↦ elim (Bool-cases m.closed) [
    | inl closed ↦ inl (rw (create_queue, good, closed) (refl, refl))
    | inr running ↦ elim (Option-cases (Map.lookup c.name m.queues)) [
      | inr (q, there) ↦
          inl (simp (create_queue, good, running, there), simp (create_queue, good, running, there))
      | inl free ↦ elim (Option-cases answer) [
        | inr (e, failed) ↦ inl (
          simp (create_queue, good, running, free, failed),
          simp (create_queue, good, running, free, failed),
        )
        | inl confirmed ↦ inr (
          c,
          normalize_normal c (normalize-IsNormal cfg c good).0,
          free,
          simp (create_queue, good, running, free, confirmed),
          simp (create_queue, good, running, free, confirmed),
        )
      ]
    ]
  ]
]

pub create_replayed :
    (c : Config) (r : Replay)
    → normalize c ≡ ok c
    → Map.lookup c.name r.queues ≡ none
    → fold_replay (Payload.queue_create c ∷ []) r ≡ ok (set_queue c.name (new_queue c) r)
unfolding apply apply_create
create_replayed c r normal gone = rw (apply, apply_create, normal, gone) refl

pub fold_replay-append :
    (a b : List Payload) (r : Replay) → fold_replay (a ++ b) r ≡ (fold_replay a r >>= fold_replay b)
fold_replay-append [] b r = refl
fold_replay-append (p ∷ a) b r = elim (Result-cases (apply p r)) [
  | inl (r', good) ↦ rw good (fold_replay-append a b r')
  | inr (e, bad) ↦ rw bad refl
]
