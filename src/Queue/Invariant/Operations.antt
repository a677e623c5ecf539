-- ===== src/Queue/Invariant/Operations.antt =====
-- Enqueue, tryDequeue, Ack, Nack and Stats of internal/queue/queue.go, and the messages of a queue.
use mathlib.Core.Path.{subst}
use stitch.Prelude.{
  ok_apart, ok_injective, sym, ◌∙◌, ◌⊎◌, ℕ, ◌+◌, ◌≡◌, refl, Bool, true, false, String, none, some,
  List, [], ◌∷◌, ◌++◌, ok, err, arith, length, Bool-cases, Option-cases, List-cases, inl, inr, ◌==◌,
  str_eq,
}
use stitch.Prelude.Int.{ℤ, pos_part}
use stitch.Prelude.Map
use stitch.Prelude.Map.{Map}
use stitch.Prelude.Tally.{tally}
use stitch.Queue.Message.{Config, Message, QueueError, not_leased, bad_lease_token}
use stitch.Queue.Live.{
  new_queue, Queue, dedup_hit, make_message, enqueue_reserve, enqueue_commit, put, promote_due,
  take_leased, move_to_dlq,
}
use stitch.Queue.Ops.{
  stats, LogAnswer, enqueue, pick, lease_items, grant, dequeue_commit, try_dequeue, ack, ack_commit,
  nack, nack_commit, requeued, is_exhausted, nack_visible_at,
}
use stitch.Queue.Invariant.{Balanced}
use stitch.Queue.Invariant.Steps.{
  leased-Balanced, restore_leased-Balanced, dropped-Balanced, adjusted-Balanced,
  wake_if_sooner-Balanced, put_back-Balanced, put_new-Balanced,
}
use stitch.Queue.Invariant.Loops.{
  promote_due-Balanced, pick-Balanced, push_back-Balanced, grant-Balanced,
}

-- takeLeased refuses, or takes the message that is in flight under the ID.
pub take_leased_cases :
    (id token : String) (q : Queue)
    → ((e : QueueError) × (take_leased id token q ≡ err e))
      ⊎ ((m : Message) × (Map.lookup id q.inflight ≡ some m)
          × (take_leased id token q ≡ ok (m, record q { inflight = Map.delete id q.inflight })))
unfolding take_leased
take_leased_cases id token q = elim (Option-cases (Map.lookup id q.inflight)) [
  | inl missing ↦ inl (not_leased, rw (take_leased, missing) refl)
  | inr (m, there) ↦ elim (Bool-cases (str_eq m.lease_token token)) [
    | inl fits ↦ inr (m, there, rw (take_leased, there, fits) refl)
    | inr other ↦ inl (bad_lease_token, rw (take_leased, there, other) refl)
  ]
]

module _ (held : List Message) where
  pub taken-Balanced :
      (id token : String) (q : Queue) (m : Message) (q1 : Queue)
      → take_leased id token q ≡ ok (m, q1)
      → Balanced held q
      → (m.id ≡ id) × Balanced (m ∷ held) q1
  taken-Balanced id token q m q1 e b = elim (take_leased_cases id token q) [
    | inl (bad, refused) ↦ absurd (ok_apart (m, q1) bad (sym e ∙ refused))
    | inr (m0, there, good) ↦
        subst (λ r. (r.0.id ≡ id) × Balanced (r.0 ∷ held) r.1)
          (ok_injective (m0, record q { inflight = Map.delete id q.inflight }) (m, q1)
            (sym good ∙ e))
          (leased-Balanced held id m0 q there b)
  ]

  pub ack_commit-Balanced :
      (id : String) (m : Message) (answer : LogAnswer) (q : Queue)
      → m.id ≡ id
      → Balanced (m ∷ held) q
      → Balanced held (ack_commit id m answer q).1
  unfolding ack_commit
  ack_commit-Balanced id m (some e) q same b = restore_leased-Balanced held m q b
  ack_commit-Balanced id m none q same b =
      let q1 = record q { msgs = Map.delete id q.msgs } in
      adjusted-Balanced held q1 q.seq q.dlq q.dedup _ q.armed q.wake
        (rw⁻¹ same (dropped-Balanced held m q b))

  pub nack_commit-Balanced :
      (m : Message) (to_dlq : Bool) (visible_at now : ℕ) (answer : LogAnswer) (q : Queue)
      → Balanced (m ∷ held) q
      → Balanced held (nack_commit m to_dlq visible_at now answer q).1
  unfolding nack_commit move_to_dlq requeued
  nack_commit-Balanced m to_dlq visible_at now (some e) q b = restore_leased-Balanced held m q b
  nack_commit-Balanced m true visible_at now none q b =
      let q1 = record q { msgs = Map.delete m.id q.msgs } in
      adjusted-Balanced held q1 q.seq _ q.dedup _ q.armed q.wake (dropped-Balanced held m q b)
  nack_commit-Balanced m false visible_at now none q b =
      let q1 = put (requeued m visible_at) now q in
      adjusted-Balanced held q1 q1.seq q1.dlq q1.dedup _ q1.armed q1.wake
        (put_back-Balanced held m (requeued m visible_at) now q refl b)

  -- Ack keeps the queue balanced, whether it refuses, the append fails, or it succeeds.
  pub ack-Balanced :
      (id token : String) (answer : LogAnswer) (q : Queue)
      → Balanced held q
      → Balanced held (ack id token answer q).1.0
  unfolding ack
  ack-Balanced id token answer q b = elim (take_leased_cases id token q) [
    | inl (e, bad) ↦ rw (ack, bad) b
    | inr (m, there, good) ↦
        let (same, taken) = leased-Balanced held id m q there b in
        rw (ack, good)
          (ack_commit-Balanced id m answer (record q { inflight = Map.delete id q.inflight }) same
            taken)
  ]

  -- Nack keeps the queue balanced: refused, with a failed append, with the message back in a heap,
  -- or moved to the dead letters or dropped.
  pub nack-Balanced :
      (now : ℕ) (id token : String) (delay : ℤ) (answer : LogAnswer) (q : Queue)
      → Balanced held q
      → Balanced held (nack now id token delay answer q).1.0
  unfolding nack
  nack-Balanced now id token delay answer q b = elim (take_leased_cases id token q) [
    | inl (e, bad) ↦ rw (nack, bad) b
    | inr (m, there, good) ↦
        let (same, taken) = leased-Balanced held id m q there b in
        rw (nack, good)
          (nack_commit-Balanced m (is_exhausted q m) (nack_visible_at now delay) now answer
            (record q { inflight = Map.delete id q.inflight }) taken)
  ]

  pub dequeue_commit-Balanced :
      (expires : ℕ) (token : ℕ → String) (picked : List Message) (answer : LogAnswer) (q : Queue)
      → Balanced (picked ++ held) q
      → Balanced held (dequeue_commit expires picked (lease_items token 0 picked) answer q).1
  unfolding dequeue_commit
  dequeue_commit-Balanced expires token picked (some e) q b = push_back-Balanced held picked q b
  dequeue_commit-Balanced expires token picked none q b =
      let q' = (grant expires picked (lease_items token 0 picked) q).0 in
      wake_if_sooner-Balanced held expires _ (
        adjusted-Balanced held q' q'.seq q'.dlq q'.dedup _ q'.armed q'.wake
          (grant-Balanced held expires token 0 picked q b))

  -- tryDequeue keeps the queue balanced: with nothing ready, with a failed append, after which the
  -- messages are back in the ready heap, or with the messages in flight.
  pub try_dequeue-Balanced :
      (now n : ℕ) (token : ℕ → String) (answer : LogAnswer) (q : Queue)
      → Balanced held q
      → Balanced held (try_dequeue now n token answer q).1.0
  unfolding try_dequeue
  try_dequeue-Balanced now n token answer q b =
      let q1 = promote_due now q in
      let r = pick n q1 [] in
      let taken = pick-Balanced held n q1 (promote_due-Balanced held now q b) in
      elim (List-cases r.1) [
        | inl nothing ↦ rw nothing (rw nothing at taken)
        | inr (m, ms, e) ↦
            let some_taken : (length r.1 == 0) ≡ false = rw e (ground arith) in
            let done =
              dequeue_commit-Balanced (now + pos_part q.cfg.visibility_timeout_ms) token r.1 answer
                r.0 taken in
            rw (try_dequeue, some_taken) done
      ]

  pub enqueue_commit-Balanced :
      (m : Message) (answer : LogAnswer) (later : ℕ) (q : Queue)
      → tally (Map.is m.id) (Map.keys q.msgs) ≡ 0
      → Balanced held q
      → Balanced held (enqueue_commit m answer later q).1
  unfolding enqueue_commit
  enqueue_commit-Balanced m (some e) later q fresh b = elim (Bool-cases (str_eq m.dedup_key "")) [
    | inl keyless ↦ rw keyless b
    | inr with_key ↦ rw with_key (adjusted-Balanced held q q.seq q.dlq _ q.cnt q.armed q.wake b)
  ]
  enqueue_commit-Balanced m none later q fresh b =
      let q1 = put m later q in
      adjusted-Balanced held q1 q1.seq q1.dlq _ _ q1.armed q1.wake
        (put_new-Balanced held m later q fresh b)

  -- Enqueue under an ID that no live message has keeps the queue balanced: with a key that is
  -- taken, with a failed append, or with the message in a heap.
  pub enqueue-Balanced :
      (now later : ℕ) (id : String) (body : List ℕ) (priority delay : ℤ) (dedup_key : String)
      (answer : LogAnswer) (q : Queue)
      → tally (Map.is id) (Map.keys q.msgs) ≡ 0
      → Balanced held q
      → Balanced held (enqueue now later id body priority delay dedup_key answer q).1.0
  unfolding enqueue enqueue_reserve make_message
  enqueue-Balanced now later id body priority delay dedup_key answer q fresh b =
      elim (Option-cases (dedup_hit dedup_key now q)) [
        | inl free ↦
            let m = make_message now id body priority delay dedup_key q in
            rw (enqueue, free)
              (enqueue_commit-Balanced m answer later (enqueue_reserve m q) fresh
                (adjusted-Balanced held q m.seq q.dlq _ q.cnt q.armed q.wake b))
        | inr (e, taken) ↦
            rw (enqueue, taken) (adjusted-Balanced held q q.seq q.dlq q.dedup _ q.armed q.wake b)
      ]

pub new_queue-Balanced : (cfg : Config) → Balanced [] (new_queue cfg)
new_queue-Balanced cfg = record {
  ordered = record {
    ready = λ c p lt. absurd (omega (arith, lt));
    delayed = λ c p lt. absurd (omega (arith, lt));
    leases = λ c p lt. absurd (omega (arith, lt));
  };
  keyed = tt;
  stored = tt;
  count = λ p. refl;
  once = λ k. omega arith;
}

tally-all {ℓ} : {A : Type ℓ} (xs : List A) → tally (λ x. true) xs ≡ length xs
tally-all [] = refl
tally-all (x ∷ xs) = omega (arith, tally-all xs)

length-values {ℓ} : {V : Type ℓ} (t : Map V) → length (Map.values t) ≡ length t
length-values [] = refl
length-values ((k, v) ∷ t) = omega (arith, length-values t)

-- The numbers that Stats reports of a balanced queue on which no operation runs add up: the ready,
-- the delayed, the leased and the dead messages are the total.
pub stats-total :
    (now : ℕ) (q : Queue)
    → Balanced [] q
    → (stats now q).0.depth
        + (stats now q).0.delayed
        + (stats now q).0.in_flight
        + (stats now q).0.dlq
      ≡ (stats now q).0.total
unfolding stats
stats-total now q b =
    let q' = promote_due now q in
    let all = (promote_due-Balanced [] now q b).count (λ m. true) in
    omega (
      arith,
      all,
      tally-all q'.ready,
      tally-all q'.delayed,
      tally-all (Map.values q'.inflight),
      tally-all (Map.values q'.msgs),
      length-values q'.inflight,
      length-values q'.msgs,
    )
