-- ===== src/Queue/Kept/Maintain/Whole.antt =====
-- A whole call of Maintain of internal/queue/queue.go, with what the log answers.
use mathlib.Core.Path.{subst}
use stitch.Prelude.{
  ℕ, ◌+◌, ◌≤◌, ◌≡◌, refl, sym, ap, ◌∙◌, Bool, true, false, ◌&&◌, none, some, List, [], ◌∷◌, ◌++◌,
  arith, Bool-cases, inl, inr,
}
use stitch.Prelude.Map
use stitch.Prelude.Tally.{bit, tally}
use stitch.Queue.Message.{Message, Config}
use stitch.Queue.Order.{LeaseEntry}
use stitch.Queue.Live.{Queue}
use stitch.Queue.Ops.{LogAnswer}
use stitch.Queue.Maintain.{Reclaimed, maintain_reserve, maintain, commit_requeue, commit_bury}
use stitch.Queue.Invariant.{Balanced}
use stitch.Queue.Invariant.Maintenance.{
  messages, maintain_reserve-Balanced, commit_requeue-Balanced, maintain-Balanced,
}
use stitch.Manager.Mirror.Silent.{view-maintain_reserve}
use stitch.Queue.Kept.{resting}
use stitch.Queue.Kept.Maintain.{stored, buried, flying, rested}
use stitch.Queue.Kept.Maintain.Sweep.{is_alive, is_spent, maintain_reserve-Split}
use stitch.Queue.Kept.Maintain.Fate.{
  back, gone, skip_requeue, skip_bury, flying-commit_requeue, stored-commit_requeue,
  flying-commit_bury, stored-commit_bury, dlq-commit_requeue, cfg-commit_requeue,
  buried-commit_bury, dlq-commit_bury, dlq-failed_bury,
}

abbrev pub both : (Message → Bool) → (Message → Bool) → Message → Bool
both f p m = f m && p m

-- With a dead-letter queue, every message is in the table or among the dead letters still; without
-- one, the dead letters are as they were.
abbrev pub Accounted : Bool → Queue → Queue → Type 0
Accounted true q q' = (p : Message → Bool) → stored p q' + buried p q' ≡ stored p q + buried p q
Accounted false q q' = q'.dlq ≡ q.dlq

-- The messages in flight that pass `f`: all of them, as they were, where the append failed, and
-- none that was not in flight where it succeeded.
abbrev pub Flown : (Message → Bool) → LogAnswer → Queue → Queue → Type 0
Flown f (some e) q q' = (p : Message → Bool) → flying (both f p) q' ≡ flying (both f p) q
Flown f none q q' = (p : Message → Bool) → flying (both f p) q' ≤ flying (both f p) q

-- The dead letters after an append of the move that failed.
abbrev pub Unburied : LogAnswer → Queue → Queue → Type 0
Unburied (some e) q q' = (q'.dlq ≡ q.dlq) × ((p : Message → Bool) → stored p q' ≡ stored p q)
Unburied none q q' = Unit

pub record Maintained (answer1 answer2 : LogAnswer) (q q' : Queue) : Type 0 where
  pub alive :
      (p : Message → Bool)
      → stored (both (is_alive q.cfg) p) q' ≡ stored (both (is_alive q.cfg) p) q
  pub accounted : Accounted q.cfg.dlq q q'
  pub requeued : Flown (is_alive q.cfg) answer1 q q'
  pub moved : Flown (is_spent q.cfg) answer2 q q'
  pub unburied : Unburied answer2 q q'

tally-both :
    (f p : Message → Bool) (ms : List Message) → tally f ms ≡ 0 → tally (λ m. f m && p m) ms ≡ 0
tally-both f p [] h = refl
tally-both f p (m ∷ ms) h = elim (Bool-cases (f m)) [
  | inl fits ↦ absurd (omega (arith, h, ap bit fits))
  | inr fails ↦ rw fails (omega (arith, tally-both f p ms (omega (arith, h, ap bit fails))))
]

-- What is given back or taken of a list without a message that passes has none either.
back_none :
    (f p : Message → Bool) (answer : LogAnswer) (r : List (Message × LeaseEntry))
    → tally f (messages r) ≡ 0
    → tally (both f p) (messages (back answer r)) ≡ 0
back_none f p (some e) r h = tally-both f p (messages r) h
back_none f p none r h = refl

gone_none :
    (c : Config) (p : Message → Bool) (answer : LogAnswer) (r : List (Message × LeaseEntry))
    → tally (is_alive c) (messages r) ≡ 0
    → rested (both (is_alive c) p) (gone answer r) ≡ 0
gone_none c p (some e) r h = refl
gone_none c p none r h = tally-both (is_alive c) (λ m. p (resting m)) (messages r) h

maintained : ℕ → LogAnswer → LogAnswer → Queue → Queue
maintained now answer1 answer2 q =
    let r = maintain_reserve now q in
    commit_bury r.to_dlq answer2 (commit_requeue now r.requeue answer1 r.queue)

maintain-maintained :
    (now : ℕ) (answer1 answer2 : LogAnswer) (q : Queue)
    → (maintain now answer1 answer2 q).1.0 ≡ maintained now answer1 answer2 q
unfolding maintain maintained
maintain-maintained now answer1 answer2 q =
    let r = maintain_reserve now q in
    skip_bury r.to_dlq answer2 _
    ∙ ap (commit_bury r.to_dlq answer2) (skip_requeue now r.requeue answer1 r.queue)

module _ (held : List Message) (now : ℕ) (answer1 : LogAnswer) (q : Queue)
    (b : Balanced held q) where
  abbrev taken : Reclaimed
  taken = maintain_reserve now q

  abbrev after_first : Queue
  after_first = commit_requeue now taken.requeue answer1 taken.queue

  balance : Balanced (messages taken.requeue ++ (messages taken.to_dlq ++ held)) taken.queue
  balance = maintain_reserve-Balanced held now q b

  balance_first : Balanced (messages taken.to_dlq ++ held) after_first
  balance_first = commit_requeue-Balanced _ now taken.requeue answer1 taken.queue balance

  stored-after : (p : Message → Bool) → stored p after_first ≡ stored p q
  stored-after p =
      stored-commit_requeue _ now taken.requeue taken.queue balance p answer1
      ∙ ap (λ v. tally (λ m. p (resting m)) (Map.values v.msgs)) (view-maintain_reserve now q)

  dlq-after : after_first.dlq ≡ q.dlq
  dlq-after =
      dlq-commit_requeue now taken.requeue taken.queue answer1
      ∙ ap (λ v. v.dlq) (view-maintain_reserve now q)

  cfg-after : after_first.cfg ≡ q.cfg
  cfg-after =
      cfg-commit_requeue now taken.requeue taken.queue answer1
      ∙ ap (λ v. v.cfg) (view-maintain_reserve now q)

  flying-whole :
      (p : Message → Bool) (answer2 : LogAnswer)
      → flying p (maintained now answer1 answer2 q)
        ≡ flying p taken.queue
          + tally p (messages (back answer1 taken.requeue))
          + tally p (messages (back answer2 taken.to_dlq))
  unfolding maintained
  flying-whole p answer2 = omega (
    arith,
    flying-commit_bury held now taken.to_dlq after_first balance_first p answer2,
    flying-commit_requeue _ now taken.requeue taken.queue balance p answer1,
  )

  accounted :
      (answer2 : LogAnswer) (on : Bool)
      → q.cfg.dlq ≡ on
      → Accounted on q (maintained now answer1 answer2 q)
  unfolding maintained
  accounted answer2 true e = λ p. omega (
    arith,
    stored-commit_bury held now taken.to_dlq after_first balance_first p answer2,
    buried-commit_bury now taken.to_dlq after_first p answer2 (ap (λ c. c.dlq) cfg-after ∙ e),
    stored-after p,
    ap (tally (λ m. p (resting m))) dlq-after,
  )
  accounted answer2 false e =
      dlq-commit_bury now taken.to_dlq after_first answer2 (ap (λ c. c.dlq) cfg-after ∙ e)
      ∙ dlq-after

  unburied : (answer2 : LogAnswer) → Unburied answer2 q (maintained now answer1 answer2 q)
  unfolding maintained
  unburied none = tt
  unburied (some e) = (
    dlq-failed_bury now taken.to_dlq after_first e ∙ dlq-after,
    λ p. omega (
      arith,
      stored-commit_bury held now taken.to_dlq after_first balance_first p (some e),
      stored-after p,
    ),
  )

  alive_stored :
      (answer2 : LogAnswer) (p : Message → Bool)
      → stored (both (is_alive q.cfg) p) (maintained now answer1 answer2 q)
        ≡ stored (both (is_alive q.cfg) p) q
  unfolding maintained
  alive_stored answer2 p =
      let f = both (is_alive q.cfg) p in
      let s = maintain_reserve-Split now q in
      omega (
        arith,
        stored-commit_bury held now taken.to_dlq after_first balance_first f answer2,
        gone_none q.cfg p answer2 taken.to_dlq s.spent,
        stored-after f,
      )

module _ (held : List Message) (now : ℕ) (q : Queue) (b : Balanced held q) where
  requeued_flown :
      (answer1 answer2 : LogAnswer)
      → Flown (is_alive q.cfg) answer1 q (maintained now answer1 answer2 q)
  requeued_flown (some e) answer2 = λ p.
      let f = both (is_alive q.cfg) p in
      let s = maintain_reserve-Split now q in
      omega (
        arith,
        flying-whole held now (some e) q b f answer2,
        back_none (is_alive q.cfg) p answer2 (maintain_reserve now q).to_dlq s.spent,
        back_none (is_alive q.cfg) p (some e) (maintain_reserve now q).to_dlq s.spent,
        s.flight f,
      )
  requeued_flown none answer2 = λ p.
      let f = both (is_alive q.cfg) p in
      let s = maintain_reserve-Split now q in
      omega (
        arith,
        flying-whole held now none q b f answer2,
        back_none (is_alive q.cfg) p answer2 (maintain_reserve now q).to_dlq s.spent,
        s.flight f,
      )

  moved_flown :
      (answer1 answer2 : LogAnswer)
      → Flown (is_spent q.cfg) answer2 q (maintained now answer1 answer2 q)
  moved_flown answer1 (some e) = λ p.
      let f = both (is_spent q.cfg) p in
      let s = maintain_reserve-Split now q in
      omega (
        arith,
        flying-whole held now answer1 q b f (some e),
        back_none (is_spent q.cfg) p answer1 (maintain_reserve now q).requeue s.alive,
        back_none (is_spent q.cfg) p (some e) (maintain_reserve now q).requeue s.alive,
        s.flight f,
      )
  moved_flown answer1 none = λ p.
      let f = both (is_spent q.cfg) p in
      let s = maintain_reserve-Split now q in
      omega (
        arith,
        flying-whole held now answer1 q b f none,
        back_none (is_spent q.cfg) p answer1 (maintain_reserve now q).requeue s.alive,
        s.flight f,
      )

-- A call of Maintain on a queue in balance, whatever its two appends come to, keeps the balance:
-- each message of the table waits in one heap, is in flight or is held, once, with the same fields.
-- Every message with attempts left is in the table still, with the same fields but for its token
-- and the time when it is visible; with a dead-letter queue, every message is in the table or among
-- the dead letters still, in the same way, and without one the dead letters are as they were. Where
-- the append of the expiries fails, exactly the messages with attempts left that were in flight are
-- in flight, unchanged; where the append of the move fails, exactly those without attempts left that
-- were, and the table and the dead letters have lost and gained none. Where an append succeeds, no
-- such message is in flight that was not.
pub maintain-Maintained :
    (held : List Message) (now : ℕ) (answer1 answer2 : LogAnswer) (q : Queue)
    → Balanced held q
    → Balanced held (maintain now answer1 answer2 q).1.0
      × Maintained answer1 answer2 q (maintain now answer1 answer2 q).1.0
maintain-Maintained held now answer1 answer2 q b = (
  maintain-Balanced held now answer1 answer2 q b,
  subst (Maintained answer1 answer2 q) (sym (maintain-maintained now answer1 answer2 q)) (record {
    alive = alive_stored held now answer1 q b answer2;
    accounted = accounted held now answer1 q b answer2 q.cfg.dlq refl;
    requeued = requeued_flown held now q b answer1 answer2;
    moved = moved_flown held now q b answer1 answer2;
    unburied = unburied held now answer1 q b answer2;
  }),
)
