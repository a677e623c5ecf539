-- ===== src/Queue/Kept/Dequeue.antt =====
-- tryDequeue of internal/queue/queue.go, and the messages that it hands out.
use stitch.Prelude.{
  ℕ, ◌+◌, ◌≡◌, refl, ap, ◌∙◌, Bool, false, String, none, some, List, [], ◌∷◌, ◌++◌, arith, length,
  ◌==◌, List-cases, inl, inr,
}
use stitch.Prelude.Int.{pos_part}
use stitch.Prelude.Map
use stitch.Prelude.Tally.{tally}
use stitch.Queue.Message.{Message}
use stitch.Queue.Live.{Queue, promote_due}
use stitch.Queue.Ops.{
  LogAnswer, pick, push_back, grant, lease_items, leased_message, dequeue_commit, try_dequeue,
}
use stitch.Queue.Delivery.{pick-Picked}
use stitch.Queue.Invariant.{Balanced}
use stitch.Queue.Invariant.Steps.{held_once, held_there}
use stitch.Queue.Invariant.Loops.{
  promote_due-Balanced, pick-Balanced, lease_item, granted, granted-Balanced,
}
use stitch.Queue.Invariant.Operations.{try_dequeue-Balanced}
use stitch.Queue.Leases.{lent-wake_if_sooner, lent-promote_due}
use stitch.Manager.Mirror.{view}
use stitch.Manager.Mirror.Silent.{view-wake_if_sooner, view-promote_due, view-push_back}
use stitch.Queue.Kept.{handed_all, handed, unleased}

-- From `q` to `q'` exactly the messages of `out` came into flight, each message is in the table as
-- it was but for its lease, and no dead letter came or went.
pub record Handed (out : List Message) (q q' : Queue) : Type 0 where
  pub flight :
      (p : Message → Bool)
      → tally p (Map.values q'.inflight) ≡ tally p (Map.values q.inflight) + tally p out
  pub contents :
      (p : Message → Bool)
      → tally (λ m. p (unleased m)) (Map.values q'.msgs)
        ≡ tally (λ m. p (unleased m)) (Map.values q.msgs)
  pub dead : q'.dlq ≡ q.dlq

Handed-same : (q q' : Queue) → q'.inflight ≡ q.inflight → view q' ≡ view q → Handed [] q q'
Handed-same q q' flight same = record {
  flight = λ p. omega (arith, ap (λ t. tally p (Map.values t)) flight);
  contents = λ p. ap (λ v. tally (λ m. p (unleased m)) (Map.values v.msgs)) same;
  dead = ap (λ v. v.dlq) same;
}

Handed-then :
    (out : List Message) (q q1 q2 : Queue) → Handed [] q q1 → Handed out q1 q2 → Handed out q q2
Handed-then out q q1 q2 a b = record {
  flight = λ p. omega (arith, a.flight p, b.flight p);
  contents = λ p. b.contents p ∙ a.contents p;
  dead = b.dead ∙ a.dead;
}

inflight-push_back :
    (picked : List Message) (q : Queue) → (push_back picked q).inflight ≡ q.inflight
unfolding push_back
inflight-push_back [] q = refl
inflight-push_back (m ∷ ms) q = inflight-push_back ms _

module _ (held : List Message) where
  grant-Handed :
      (expires : ℕ) (token : ℕ → String) (i : ℕ) (picked : List Message) (q : Queue)
      → Balanced (picked ++ held) q
      → Handed
          (handed_all (grant expires picked (lease_items token i picked) q).1)
          q
          (grant expires picked (lease_items token i picked) q).0
  unfolding grant lease_items
  grant-Handed expires token i [] q b = Handed-same q q refl refl
  grant-Handed expires token i (m ∷ ms) q b =
      let m' = leased_message (lease_item (token i) m) expires m in
      let rest =
        grant-Handed expires token (i + 1) ms (granted expires (token i) m q)
          (granted-Balanced (ms ++ held) expires (token i) m q b) in
      record {
        flight = λ p. omega (
          arith,
          rest.flight p,
          Map.values-insert_new m.id p m' q.inflight (held_once (ms ++ held) m q b).1,
        );
        contents = λ p. omega (
          arith,
          rest.contents p,
          Map.values-update m.id (λ k. p (unleased k)) m m' q.msgs (held_there (ms ++ held) m q b),
        );
        dead = rest.dead;
      }

  dequeue_commit-Handed :
      (expires : ℕ) (token : ℕ → String) (picked : List Message) (answer : LogAnswer) (q : Queue)
      → Balanced (picked ++ held) q
      → Handed
          (handed (dequeue_commit expires picked (lease_items token 0 picked) answer q).0)
          q
          (dequeue_commit expires picked (lease_items token 0 picked) answer q).1
  unfolding dequeue_commit
  dequeue_commit-Handed expires token picked (some e) q b =
      Handed-same q _ (inflight-push_back picked q) (view-push_back picked q)
  dequeue_commit-Handed expires token picked none q b =
      let g = grant expires picked (lease_items token 0 picked) q in
      let done = grant-Handed expires token 0 picked q b in
      record {
        flight =
            λ p. ap (λ l. tally p (Map.values l.0)) (lent-wake_if_sooner expires _) ∙ done.flight p;
        contents = λ p.
            ap (λ v. tally (λ m. p (unleased m)) (Map.values v.msgs))
              (view-wake_if_sooner expires _)
            ∙ done.contents p;
        dead = ap (λ v. v.dlq) (view-wake_if_sooner expires _) ∙ done.dead;
      }

  -- A call of tryDequeue, on a queue in balance, whatever the log answers, keeps the balance: each
  -- message of the table waits in one heap, is in flight or is held, once, with the same fields.
  -- The messages in flight are those from before and exactly those that the call hands out, none
  -- where it fails or hands out nothing; the table has every message that it had, and no other,
  -- with the same fields but for its lease, and the dead letters are the same.
  pub try_dequeue-Handed :
      (now n : ℕ) (token : ℕ → String) (answer : LogAnswer) (q : Queue)
      → Balanced held q
      → Balanced held (try_dequeue now n token answer q).1.0
        × Handed
            (handed (try_dequeue now n token answer q).0)
            q
            (try_dequeue now n token answer q).1.0
  unfolding try_dequeue
  try_dequeue-Handed now n token answer q b =
      let q1 = promote_due now q in
      let r = pick n q1 [] in
      let b1 = promote_due-Balanced held now q b in
      let taken = pick-Balanced held n q1 b1 in
      let same = (pick-Picked n q1 b1.ordered.ready).queue in
      let start : Handed [] q r.0 =
        Handed-same q r.0 (ap (λ x. x.inflight) same ∙ ap (λ l. l.0) (lent-promote_due now q))
          (ap view same ∙ view-promote_due now q) in
      (
        try_dequeue-Balanced held now n token answer q b,
        elim (List-cases r.1) [
          | inl nothing ↦ rw nothing start
          | inr (m, ms, e) ↦
              let some_taken : (length r.1 == 0) ≡ false = rw e (ground arith) in
              let done =
                dequeue_commit-Handed (now + pos_part q.cfg.visibility_timeout_ms) token r.1 answer
                  r.0 taken in
              rw (try_dequeue, some_taken) (Handed-then _ q r.0 _ start done)
        ],
      )
