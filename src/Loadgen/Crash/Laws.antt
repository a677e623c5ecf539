-- ===== src/Loadgen/Crash/Laws.antt =====
-- What the workers of cmd/loadgen/main.go record.
use stitch.Prelude.{
  ℕ, ◌+◌, ◌≤◌, ◌≡◌, refl, sym, if◌then◌else◌, Bool, true, false, String, List, [], ◌∷◌, ◌++◌, ◌∙◌,
  arith, length, length-append, Bool-cases, inl, inr,
}
use mathlib.Core.Path.{subst}
use stitch.Prelude.Tally.{tally, tally-append}
use stitch.Loadgen.Crash.{Post, Job, Load, add, ack_all, consume_answer, consume}

-- The IDs of the ack requests that a consumer sends for the messages of one answer, up to the first
-- that fails, and of those that the server confirms; whether it confirms all.
abbrev sent_acks : List (Job × Post (Unit {0})) → List String
sent_acks [] = []
sent_acks ((job, Post.gone) ∷ jobs) = job.id ∷ []
sent_acks ((job, Post.refused) ∷ jobs) = job.id ∷ []
sent_acks ((job, Post.answered _) ∷ jobs) = job.id ∷ sent_acks jobs

abbrev confirmed_acks : List (Job × Post (Unit {0})) → List String
confirmed_acks [] = []
confirmed_acks ((job, Post.gone) ∷ jobs) = []
confirmed_acks ((job, Post.refused) ∷ jobs) = []
confirmed_acks ((job, Post.answered _) ∷ jobs) = job.id ∷ confirmed_acks jobs

abbrev all_confirmed : List (Job × Post (Unit {0})) → Bool
all_confirmed [] = true
all_confirmed ((job, Post.gone) ∷ jobs) = false
all_confirmed ((job, Post.refused) ∷ jobs) = false
all_confirmed ((job, Post.answered _) ∷ jobs) = all_confirmed jobs

-- The same over all answers, up to the first that fails, is empty, or has a message whose ack fails.
abbrev pub sent : List (Post (List (Job × Post (Unit {0})))) → List String
sent [] = []
sent (Post.gone ∷ ps) = []
sent (Post.refused ∷ ps) = []
sent (Post.answered [] ∷ ps) = []
sent (Post.answered (j ∷ jobs) ∷ ps) =
    let rest = sent ps in sent_acks (j ∷ jobs) ++ (if all_confirmed (j ∷ jobs) then rest else [])

abbrev pub confirmed : List (Post (List (Job × Post (Unit {0})))) → List String
confirmed [] = []
confirmed (Post.gone ∷ ps) = []
confirmed (Post.refused ∷ ps) = []
confirmed (Post.answered [] ∷ ps) = []
confirmed (Post.answered (j ∷ jobs) ∷ ps) =
    let rest = confirmed ps in
    confirmed_acks (j ∷ jobs) ++ (if all_confirmed (j ∷ jobs) then rest else [])

-- From `l` to `l'` the IDs of `out` came to the pending ones and those of `done` to the acknowledged
-- ones, no ID more often than to the pending ones, and at most `left` IDs came to the pending ones
-- alone.
pub record Recorded (left : ℕ) (out done : List String) (l l' : Load) : Type 0 where
  pub pending : (p : String → Bool) → tally p l'.pending ≡ tally p l.pending + tally p out
  pub acked : (p : String → Bool) → tally p l'.acked ≡ tally p l.acked + tally p done
  pub before : (p : String → Bool) → tally p done ≤ tally p out
  pub ambiguous : length out ≤ length done + left

-- A worker that goes on has left no ID pending.
abbrev unfinished : Bool → ℕ
unfinished true = 0
unfinished false = 1

ack_all-Recorded :
    (jobs : List (Job × Post (Unit {0}))) (l : Load)
    → Recorded
        (unfinished (all_confirmed jobs))
        (sent_acks jobs)
        (confirmed_acks jobs)
        l
        (ack_all jobs l).1
unfolding ack_all
ack_all-Recorded [] l = record {
  pending = λ p. omega arith;
  acked = λ p. omega arith;
  before = λ p. omega arith;
  ambiguous = omega arith;
}
ack_all-Recorded ((job, Post.gone) ∷ jobs) l = record {
  pending = λ p. tally-append p l.pending (job.id ∷ []);
  acked = λ p. omega arith;
  before = λ p. omega arith;
  ambiguous = omega arith;
}
ack_all-Recorded ((job, Post.refused) ∷ jobs) l = record {
  pending = λ p. tally-append p l.pending (job.id ∷ []);
  acked = λ p. omega arith;
  before = λ p. omega arith;
  ambiguous = omega arith;
}
ack_all-Recorded ((job, Post.answered _) ∷ jobs) l =
    let l1 = record l { pending = add job.id l.pending; acked = add job.id l.acked } in
    let rest = ack_all-Recorded jobs l1 in
    record {
      pending = λ p. omega (arith, rest.pending p, tally-append p l.pending (job.id ∷ []));
      acked = λ p. omega (arith, rest.acked p, tally-append p l.acked (job.id ∷ []));
      before = λ p. omega (arith, rest.before p);
      ambiguous = omega (arith, rest.ambiguous);
    }

-- A consumer goes on if and only if every ack was confirmed, and the client is then as alive as it
-- was.
ack_all-goes_on :
    (jobs : List (Job × Post (Unit {0}))) (l : Load)
    → ((ack_all jobs l).0 ≡ all_confirmed jobs)
      × (all_confirmed jobs ≡ true → (ack_all jobs l).1.dead ≡ l.dead)
unfolding ack_all
ack_all-goes_on [] l = (refl, λ h. refl)
ack_all-goes_on ((job, Post.gone) ∷ jobs) l = (refl, λ h. absurd (ground (arith, h)))
ack_all-goes_on ((job, Post.refused) ∷ jobs) l = (refl, λ h. absurd (ground (arith, h)))
ack_all-goes_on ((job, Post.answered _) ∷ jobs) l = ack_all-goes_on jobs _

-- Nothing is sent, and nothing recorded.
idle-Recorded : (l : Load) → Recorded 1 [] [] l l
idle-Recorded l = record {
  pending = λ p. omega arith;
  acked = λ p. omega arith;
  before = λ p. omega arith;
  ambiguous = omega arith;
}

consume_answer-Recorded :
    (p : Post (List (Job × Post (Unit {0})))) (ps : List (Post (List (Job × Post (Unit {0})))))
    (rest : Load → Load) (l : Load)
    → l.dead ≡ false
    → ((l1 : Load) → l1.dead ≡ false → Recorded 1 (sent ps) (confirmed ps) l1 (rest l1))
    → Recorded 1 (sent (p ∷ ps)) (confirmed (p ∷ ps)) l (consume_answer p rest l)
unfolding consume_answer
consume_answer-Recorded Post.gone ps rest l alive h = record {
  pending = λ p. omega arith;
  acked = λ p. omega arith;
  before = λ p. omega arith;
  ambiguous = omega arith;
}
consume_answer-Recorded Post.refused ps rest l alive h = idle-Recorded l
consume_answer-Recorded (Post.answered []) ps rest l alive h = idle-Recorded l
consume_answer-Recorded (Post.answered (j ∷ jobs)) ps rest l alive h =
    let x = ack_all (j ∷ jobs) l in
    let first = ack_all-Recorded (j ∷ jobs) l in
    let (same, dead) = ack_all-goes_on (j ∷ jobs) l in
    let out = sent_acks (j ∷ jobs) in
    let done = confirmed_acks (j ∷ jobs) in
    elim (Bool-cases (all_confirmed (j ∷ jobs))) [
      | inl on ↦
          let more = h x.1 (dead on ∙ alive) in
          let none_left : unfinished (all_confirmed (j ∷ jobs)) ≡ 0 = rw on refl in
          rw (consume_answer, same, on)
            (record {
              pending =
                  λ p. omega (arith, first.pending p, more.pending p, tally-append p out (sent ps));
              acked = λ p.
                  omega (arith, first.acked p, more.acked p, tally-append p done (confirmed ps));
              before = λ p. omega (
                arith,
                first.before p,
                more.before p,
                tally-append p out (sent ps),
                tally-append p done (confirmed ps),
              );
              ambiguous = omega (
                arith,
                first.ambiguous,
                more.ambiguous,
                none_left,
                length-append out (sent ps),
                length-append done (confirmed ps),
              );
            })
      | inr off ↦
          let one_left : unfinished (all_confirmed (j ∷ jobs)) ≡ 1 = rw off refl in
          rw (consume_answer, same, off)
            (record {
              pending = λ p. omega (arith, first.pending p, tally-append p out []);
              acked = λ p. omega (arith, first.acked p, tally-append p done []);
              before =
                  λ p. omega (arith, first.before p, tally-append p out [], tally-append p done []);
              ambiguous =
                  omega
                    (arith, first.ambiguous, one_left, length-append out [], length-append done []);
            })
    ]

-- Whatever the server answers, and wherever it dies, a consumer of a client that is alive adds to
-- the pending IDs exactly those of the acks that it sends, the last one included, which may never be
-- answered, and to the acknowledged ones exactly those that the server confirms; so no ID is
-- acknowledged more often than it was pending, and at most one that it added is pending alone.
pub consume-Recorded :
    (answers : List (Post (List (Job × Post (Unit {0}))))) (l : Load)
    → l.dead ≡ false
    → Recorded 1 (sent answers) (confirmed answers) l (consume answers l)
unfolding consume
consume-Recorded [] l alive = idle-Recorded l
consume-Recorded (p ∷ ps) l alive =
    subst
      (λ b.
        Recorded 1 (sent (p ∷ ps)) (confirmed (p ∷ ps)) l
          (if b then l else consume_answer p (consume ps) l))
      (sym alive) (consume_answer-Recorded p ps (consume ps) l alive (consume-Recorded ps))
