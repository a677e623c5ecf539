-- ===== src/Manager/Mirror/Operations.antt =====
-- Enqueue, tryDequeue, Ack and Nack of internal/queue/queue.go, and the replay of what they logged.
use mathlib.Core.Path.{subst}
use stitch.Prelude.{
  ℕ, ◌+◌, ◌≡◌, refl, sym, ap, ◌∙◌, Bool, true, false, String, none, some, List, [], ◌∷◌, ◌++◌,
  arith, inc64, add64, length, ◌==◌, str_eq, Bool-cases, Option-cases, List-cases, inl, inr,
  if◌then◌else◌,
}
use stitch.Prelude.Int.{ℤ, pos_part}
use stitch.Prelude.Map
use stitch.Prelude.Map.{Map}
use stitch.Queue.Message.{Message}
use stitch.Queue.Payload.{Payload, EnqueuePayload}
use stitch.Queue.Live.{
  Queue, promote_due, move_to_dlq, restore_leased, dedup_hit, make_message, enqueue_payload,
  enqueue_reserve, enqueue_commit,
}
use stitch.Queue.Ops.{
  LogAnswer, pick, grant, lease_items, dequeue_commit, try_dequeue, ack, ack_commit, nack,
  nack_commit, is_exhausted, nack_visible_at, reason, enqueue,
}
use stitch.Queue.Delivery.{pick-Picked}
use stitch.Queue.Invariant.{Balanced}
use stitch.Queue.Invariant.Steps.{leased-Balanced}
use stitch.Queue.Invariant.Loops.{promote_due-Balanced, pick-Balanced}
use stitch.Queue.Invariant.Operations.{take_leased_cases}
use stitch.Manager.{message_of, apply_to_queue, apply_enqueue, apply_lease}
use stitch.Manager.Mirror.{View, view, Mirrors, logged, Reaches}
use stitch.Manager.Mirror.Commits.{
  Mirrors-view, view-put, grant-Mirrors, ack-Mirrors, nack-Mirrors, bury_one-Mirrors,
}
use stitch.Manager.Mirror.Silent.{
  view-wake_if_sooner, view-promote_due, view-push_back, unlogged, Reaches-one,
}

length-lease_items :
    (token : ℕ → String) (i : ℕ) (picked : List Message)
    → length (lease_items token i picked) ≡ length picked
unfolding lease_items
length-lease_items token i [] = refl
length-lease_items token i (m ∷ ms) = omega (arith, length-lease_items token (i + 1) ms)

-- Enqueue's commit of a message as it was made.
enqueue_commit-Reaches :
    (m : Message) (answer : LogAnswer) (later : ℕ) (q r : Queue)
    → Mirrors q r
    → m.attempts ≡ 0
    → m.lease_token ≡ ""
    → m.lease_expires ≡ 0
    → Reaches
        (logged ((enqueue_payload m q, answer) ∷ []))
        r
        (enqueue_commit m answer later (enqueue_reserve m q)).1
unfolding enqueue_commit enqueue_reserve enqueue_payload apply_to_queue apply_enqueue
enqueue_commit-Reaches m (some e) later q r s a t x = elim (Bool-cases (str_eq m.dedup_key "")) [
  | inl keyless ↦ rw keyless (unlogged refl s)
  | inr with_key ↦ rw with_key (unlogged refl s)
]
enqueue_commit-Reaches m none later q r s a t x =
    let made : record m { attempts = 0; lease_token = ""; lease_expires = 0 } ≡ m =
      λ i. record m { attempts = sym a i; lease_token = sym t i; lease_expires = sym x i } in
    let q0 = enqueue_reserve m q in
    let p : EnqueuePayload = record {
      queue = q.cfg.name;
      id = m.id;
      body = m.body;
      priority = m.priority;
      seq = m.seq;
      enqueued_at = m.enqueued_at;
      visible_at = m.visible_at;
      dedup_key = m.dedup_key;
    } in
    Reaches-one (Payload.enqueue p) r (
      apply_enqueue p r,
      refl,
      record {
        seen =
            ap {A = View}
              (λ v. record v {
                msgs = Map.insert m.id (message_of p) v.msgs;
                enqueued = inc64 v.enqueued;
              })
              s.seen
            ∙ ap {A = Message}
                (λ k. record (view q) {
                  msgs = Map.insert m.id k q.msgs;
                  enqueued = inc64 q.cnt.enqueued;
                })
                made
            ∙ ap {A = View} (λ v. record v { enqueued = inc64 v.enqueued })
                (sym (view-put m later q0));
        idle = s.idle;
      },
    )

module _ (held : List Message) where
  ack_commit-Reaches :
      (m : Message) (answer : LogAnswer) (n : String) (q r : Queue)
      → Balanced (m ∷ held) q
      → Mirrors q r
      → Reaches (logged ((Payload.ack n m.id, answer) ∷ [])) r (ack_commit m.id m answer q).1
  unfolding ack_commit restore_leased apply_to_queue
  ack_commit-Reaches m (some e) n q r b s = unlogged refl s
  ack_commit-Reaches m none n q r b s =
      Reaches-one (Payload.ack n m.id) r (ack-Mirrors held m q r b s)

  -- What Ack logged, replayed on a queue that showed the same, shows what Ack left.
  pub ack-Reaches :
      (id token : String) (answer : LogAnswer) (q r : Queue)
      → Balanced held q
      → Mirrors q r
      → Reaches (logged (ack id token answer q).1.1) r (ack id token answer q).1.0
  unfolding ack
  ack-Reaches id token answer q r b s = elim (take_leased_cases id token q) [
    | inl (e, bad) ↦ rw (ack, bad) (unlogged refl s)
    | inr (m, there, good) ↦
        let (same, taken) = leased-Balanced held id m q there b in
        let q1 = record q { inflight = Map.delete id q.inflight } in
        rw (ack, good)
          (subst
            (λ k.
              Reaches (logged ((Payload.ack q.cfg.name k, answer) ∷ [])) r
                (ack_commit k m answer q1).1)
            same (ack_commit-Reaches m answer q.cfg.name q1 r taken (Mirrors-view refl s)))
  ]

  nack_commit-Reaches :
      (m : Message) (to_dlq : Bool) (at now : ℕ) (answer : LogAnswer) (n : String) (q r : Queue)
      → Balanced (m ∷ held) q
      → Mirrors q r
      → Reaches
          (logged (
            (
              if to_dlq then Payload.dlq_move n (m.id ∷ []) reason else Payload.nack n m.id at,
              answer,
            )
            ∷ []))
          r
          (nack_commit m to_dlq at now answer q).1
  unfolding nack_commit restore_leased apply_to_queue move_to_dlq
  nack_commit-Reaches m to_dlq at now (some e) n q r b s = unlogged refl s
  nack_commit-Reaches m true at now none n q r b s =
      Reaches-one (Payload.dlq_move n (m.id ∷ []) reason) r (bury_one-Mirrors held m q r b s)
  nack_commit-Reaches m false at now none n q r b s =
      Reaches-one (Payload.nack n m.id at) r (nack-Mirrors held m at now q r b s)

  pub nack-Reaches :
      (now : ℕ) (id token : String) (delay : ℤ) (answer : LogAnswer) (q r : Queue)
      → Balanced held q
      → Mirrors q r
      → Reaches
          (logged (nack now id token delay answer q).1.1)
          r
          (nack now id token delay answer q).1.0
  unfolding nack
  nack-Reaches now id token delay answer q r b s = elim (take_leased_cases id token q) [
    | inl (e, bad) ↦ rw (nack, bad) (unlogged refl s)
    | inr (m, there, good) ↦
        let (same, taken) = leased-Balanced held id m q there b in
        let q1 = record q { inflight = Map.delete id q.inflight } in
        let dead = is_exhausted q m in
        let at = nack_visible_at now delay in
        rw (nack, good)
          (subst
            (λ k.
              Reaches
                (logged (
                  (
                    if dead
                        then Payload.dlq_move q.cfg.name (k ∷ []) reason
                        else Payload.nack q.cfg.name k at,
                    answer,
                  )
                  ∷ []))
                r (nack_commit m dead at now answer q1).1)
            same
            (nack_commit-Reaches m dead at now answer q.cfg.name q1 r taken (Mirrors-view refl s)))
  ]

  dequeue_commit-Reaches :
      (expires : ℕ) (token : ℕ → String) (picked : List Message) (answer : LogAnswer) (n : String)
      (q r : Queue)
      → Balanced (picked ++ held) q
      → Mirrors q r
      → Reaches
          (logged ((Payload.lease n expires (lease_items token 0 picked), answer) ∷ []))
          r
          (dequeue_commit expires picked (lease_items token 0 picked) answer q).1
  unfolding dequeue_commit apply_to_queue apply_lease
  dequeue_commit-Reaches expires token picked (some e) n q r b s =
      unlogged (view-push_back picked q) s
  dequeue_commit-Reaches expires token picked none n q r b s =
      let items = lease_items token 0 picked in
      let q' = (grant expires picked items q).0 in
      let (r', done, s') = grant-Mirrors held expires token 0 picked q r b s in
      Reaches-one (Payload.lease n expires items) r (
        record r' { cnt = record r'.cnt { dequeued = add64 r'.cnt.dequeued (length items) } },
        rw (apply_lease, done) refl,
        Mirrors-view
            {q = record q' {
              cnt = record q'.cnt { dequeued = add64 q'.cnt.dequeued (length items) };
            }}
            (view-wake_if_sooner expires (record q' {
              cnt = record q'.cnt { dequeued = add64 q'.cnt.dequeued (length picked) };
            })
              ∙ ap {A = ℕ} (λ k. record (view q') { dequeued = add64 q'.cnt.dequeued k })
                  (sym (length-lease_items token 0 picked)))
            (record {
              seen =
                  ap {A = View} (λ v. record v { dequeued = add64 v.dequeued (length items) })
                    s'.seen;
              idle = s'.idle;
            }),
      )

  pub try_dequeue-Reaches :
      (now n : ℕ) (token : ℕ → String) (answer : LogAnswer) (q r : Queue)
      → Balanced held q
      → Mirrors q r
      → Reaches
          (logged (try_dequeue now n token answer q).1.1)
          r
          (try_dequeue now n token answer q).1.0
  unfolding try_dequeue
  try_dequeue-Reaches now n token answer q r b s =
      let q1 = promote_due now q in
      let b1 = promote_due-Balanced held now q b in
      let x = pick n q1 [] in
      let taken = pick-Balanced held n q1 b1 in
      let same : view x.0 ≡ view q =
        ap view (pick-Picked n q1 b1.ordered.ready).queue ∙ view-promote_due now q in
      let s1 : Mirrors x.0 r = Mirrors-view same s in
      let expires = now + pos_part q.cfg.visibility_timeout_ms in
      elim (List-cases x.1) [
        | inl nothing ↦
            let empty : (length x.1 == 0) ≡ true = rw nothing refl in
            rw (try_dequeue, empty) (unlogged same s)
        | inr (m, ms, e) ↦
            let some_taken : (length x.1 == 0) ≡ false = rw e (ground arith) in
            rw (try_dequeue, some_taken)
              (dequeue_commit-Reaches expires token x.1 answer q.cfg.name x.0 r taken s1)
      ]

  pub enqueue-Reaches :
      (now later : ℕ) (id : String) (body : List ℕ) (priority delay : ℤ) (dedup_key : String)
      (answer : LogAnswer) (q r : Queue)
      → Mirrors q r
      → Reaches
          (logged (enqueue now later id body priority delay dedup_key answer q).1.1)
          r
          (enqueue now later id body priority delay dedup_key answer q).1.0
  unfolding enqueue enqueue_payload make_message
  enqueue-Reaches now later id body priority delay dedup_key answer q r s =
      elim (Option-cases (dedup_hit dedup_key now q)) [
        | inr (e, hit) ↦ rw (enqueue, hit) (unlogged refl s)
        | inl free ↦
            let m = make_message now id body priority delay dedup_key q in
            rw (enqueue, free) (enqueue_commit-Reaches m answer later q r s refl refl refl)
      ]
