-- ===== src/Manager/Fleet/Laws.antt =====
-- The replay of the log that the queues of a manager of internal/queue/manager.go share.
use mathlib.Core.Path.{subst}
use stitch.Prelude.{
  ℕ, ◌≡◌, refl, ap, sym, ◌∙◌, false, String, Option, none, some, List, [], ◌∷◌, ok, arith, str_eq,
  eq_iff, Bool-cases, inl, inr,
}
use stitch.Prelude.Map
use stitch.Prelude.Map.{Map, some_injective}
use stitch.Queue.Message.{Config}
use stitch.Queue.Payload.{Payload}
use stitch.Queue.Live.{Queue, new_queue}
use stitch.Queue.Ops.{Trace}
use stitch.Queue.Invariant.{Balanced}
use stitch.Queue.Invariant.Operations.{new_queue-Balanced}
use stitch.Manager.{Manager, Replay, Leased, set_queue}
use stitch.Manager.Finalize.{finalize, finalize_all, finalize_queue, leased_of}
use stitch.Manager.Finalize.Restart.{Restarted, finalize_queue-Restarted}
use stitch.Manager.Mirror.{Mirrors, logged}
use stitch.Manager.Mirror.Silent.{logged-append}
use stitch.Manager.Mirror.History.{Move-Balanced, Move-Reaches}
use stitch.Manager.Fleet.{Act, Life, new_manager, new_replay, fold_replay}
use stitch.Manager.Fleet.Names.{Move-AllOf}
use stitch.Manager.Fleet.Lift.{lift, create_queue_cases, create_replayed, fold_replay-append}

-- What the manager and the replay have under one name: nothing, or a queue and one that mirrors it.
abbrev Twins : Option Queue → Option Queue → Type 0
Twins none none = Unit
Twins none (some rq) = ⊥
Twins (some q) none = ⊥
Twins (some q) (some rq) = Balanced [] q × Mirrors q rq

abbrev FleetMirrors : Manager → Replay → Type 0
FleetMirrors m r = (n : String) → Twins (Map.lookup n m.queues) (Map.lookup n r.queues)

-- Replay of `ps` succeeds, and mirrors `m`.
abbrev FleetReaches : List Payload → Replay → Manager → Type 0
FleetReaches ps r m = (r' : Replay) × (fold_replay ps r ≡ ok r') × FleetMirrors m r'

-- The manager and the replay change under one name.
changed :
    (name : String) (q rq : Queue) (qs qs' rs rs' : Map Queue)
    → Map.lookup name qs' ≡ some q
    → Map.lookup name rs' ≡ some rq
    → Balanced [] q × Mirrors q rq
    → ((n : String) → str_eq name n ≡ false → Map.lookup n qs' ≡ Map.lookup n qs)
    → ((n : String) → str_eq name n ≡ false → Map.lookup n rs' ≡ Map.lookup n rs)
    → ((n : String) → Twins (Map.lookup n qs) (Map.lookup n rs))
    → (n : String) → Twins (Map.lookup n qs') (Map.lookup n rs')
changed name q rq qs qs' rs rs' here there twins others others' old n =
    elim (Bool-cases (str_eq name n)) [
      | inl same ↦
          subst (λ k. Twins (Map.lookup k qs') (Map.lookup k rs')) ((eq_iff name n).0 same)
            (rw (here, there) twins)
      | inr other ↦ rw (others n other, others' n other) (old n)
    ]

created-FleetMirrors :
    (c : Config) (m : Manager) (r : Replay)
    → FleetMirrors m r
    → FleetMirrors
        (record m { queues = Map.insert c.name (new_queue c) m.queues })
        (set_queue c.name (new_queue c) r)
created-FleetMirrors c m r s =
    changed c.name (new_queue c) (new_queue c) m.queues _ r.queues _
      (Map.lookup-insert c.name (new_queue c) m.queues)
      (Map.lookup-insert c.name (new_queue c) r.queues)
      (new_queue-Balanced c, record { seen = refl; idle = refl })
      (λ n e. Map.lookup-insert_other n c.name (new_queue c) m.queues e)
      (λ n e. Map.lookup-insert_other n c.name (new_queue c) r.queues e) s

-- What is absent from the manager is absent from the replay, and what is there is mirrored.
twin_absent : (o : Option Queue) → Twins none o → o ≡ none
twin_absent none t = refl
twin_absent (some q) t = absurd t

twin_present :
    (q : Queue) (o : Option Queue)
    → Twins (some q) o
    → (rq : Queue) × (o ≡ some rq) × Balanced [] q × Mirrors q rq
twin_present q none t = absurd t
twin_present q (some rq) t = (rq, refl, t.0, t.1)

Act-FleetReaches :
    (m m' : Manager) (t : Trace) (r : Replay)
    → Act m t m'
    → FleetMirrors m r
    → FleetReaches (logged t) r m'
Act-FleetReaches m m' t r (Act.created cfg answer _) s = elim (create_queue_cases cfg answer m) [
  | inl (nothing, same) ↦ (r, rw nothing refl, subst (λ k. FleetMirrors k r) (sym same) s)
  | inr (c, normal, free, logs, made) ↦
      let gone : Map.lookup c.name r.queues ≡ none =
        twin_absent _ (subst (λ o. Twins o (Map.lookup c.name r.queues)) free (s c.name)) in
      (
        set_queue c.name (new_queue c) r,
        ap (λ ps. fold_replay ps r) logs ∙ create_replayed c r normal gone,
        subst (λ k. FleetMirrors k (set_queue c.name (new_queue c) r)) (sym made)
            (created-FleetMirrors c m r s),
      )
]
Act-FleetReaches m m' t r (Act.moved q q' _ _ there move) s =
    let name = q.cfg.name in
    let (rq, found, b, mirrors) =
      twin_present q _ (subst (λ o. Twins o (Map.lookup name r.queues)) there (s name)) in
    let (rq', replayed, mirrors') = Move-Reaches q q' t rq move b mirrors in
    let lifted = lift name (logged t) r rq rq' (Move-AllOf q q' t move) found replayed in
    (
      lifted.after,
      lifted.replayed,
      changed name q' rq' m.queues (Map.update name q' m.queues) r.queues lifted.after.queues
          (Map.lookup-update name q' q m.queues there) lifted.here
          (Move-Balanced q q' t move b, mirrors')
          (λ n e. Map.lookup-update_other n name q' m.queues e) lifted.elsewhere s,
    )

Life-FleetReaches :
    (m m' : Manager) (t : Trace) (r : Replay)
    → Life m t m'
    → FleetMirrors m r
    → FleetReaches (logged t) r m'
Life-FleetReaches m m' t r (Life.stop _) s = (r, refl, s)
Life-FleetReaches m m' t r (Life.next _ m2 _ u v a rest) s =
    let (r1, first, s1) = Act-FleetReaches m m2 u r a s in
    let (r2, second, s2) = Life-FleetReaches m2 m' v r1 rest s1 in
    (
      r2,
      ap (λ ps. fold_replay ps r) (logged-append u v)
          ∙ fold_replay-append (logged u) (logged v) r
          ∙ rw first second,
      s2,
    )

lookup-finalize_all :
    (now : ℕ) (l : Leased) (n : String) (rq : Queue) (qs : Map Queue)
    → Map.lookup n qs ≡ some rq
    → Map.lookup n (finalize_all now l qs) ≡ some (finalize_queue now (leased_of n l) rq)
unfolding finalize_all Map.lookup
lookup-finalize_all now l n rq [] e = absurd (ground (arith, e))
lookup-finalize_all now l n rq ((k, q) ∷ qs) e = elim (Bool-cases (str_eq k n)) [
  | inl here ↦
      let same : q ≡ rq = some_injective q rq (rw here at e) in
      let named : k ≡ n = (eq_iff k n).0 here in
      rw here (
        ap (λ x. some (finalize_queue now (leased_of x l) q)) named
        ∙ ap (λ x. some (finalize_queue now (leased_of n l) x)) same)
  | inr past ↦ rw past (lookup-finalize_all now l n rq qs (rw past at e))
]

-- Whatever queues a manager created and whatever ran on them since it was new, one call after the
-- other, each new message under an ID that no live message of its queue has, and whichever appends
-- failed: replay of the payloads that the log confirmed, of all the queues in
-- the order of the log, succeeds, and finalize gives a manager that has, under the name of each
-- queue of the live one, that queue after a restart: every message that the live queue held in a
-- heap or in flight waits, once and with the same fields but for its lease, no lease is out, and
-- the dead letters and the configuration are the same.
pub fleet_restarts :
    (t : Trace) (m : Manager) (now : ℕ)
    → Life new_manager t m
    → (r : Replay) × (fold_replay (logged t) new_replay ≡ ok r)
      × ((n : String) (q : Queue)
          → Map.lookup n m.queues ≡ some q
          → (q' : Queue) × (Map.lookup n (finalize now r).queues ≡ some q') × Restarted q q')
unfolding finalize Map.lookup
fleet_restarts t m now life =
    let (r, replayed, s) = Life-FleetReaches new_manager m t new_replay life (λ n. tt) in
    (
      r,
      replayed,
      λ n q there.
          let (rq, found, b, mirrors) =
            twin_present q _ (subst (λ o. Twins o (Map.lookup n r.queues)) there (s n)) in
          (
            finalize_queue now (leased_of n r.leased) rq,
            lookup-finalize_all now r.leased n rq r.queues found,
            finalize_queue-Restarted mirrors now (leased_of n r.leased) b,
          ),
    )
