-- ===== src/Api/Answers.antt =====
-- The writing handlers of internal/api/api.go: their answers, and what the log confirmed.
use mathlib.Core.Path.{subst}
use stitch.Prelude.{
  sym, ℕ, ◌≡◌, refl, Bool, true, false, not, ◌&&◌, String, Option, none, some, List, [], ◌∷◌,
  Result, ok, err, arith, ◌==◌, ◌+◌, inc64, Bool-cases, Option-cases, inl, inr, str_eq,
  if◌then◌else◌,
}
use stitch.Prelude.Int.{ℤ, pos, ltb_ℤ}
use stitch.Prelude.Map
use stitch.Prelude.Map.{Map}
use stitch.Queue.Message.{
  Message, QueueError, queue_not_found, not_leased, queue_exists, bad_lease_token,
  invalid_queue_cfg, manager_closed, append_failed,
}
use stitch.Queue.Live.{
  Queue, DedupEntry, enqueue_commit, enqueue_reserve, make_message, enqueue_payload, milliseconds,
  dedup_hit, await_dedup, restore_leased,
}
use stitch.Queue.Payload.{Payload}
use stitch.Queue.Ops.{
  LogAnswer, Trace, enqueue, ack, ack_commit, nack, nack_commit, is_exhausted, nack_visible_at,
  reason,
}
use stitch.Queue.Invariant.Operations.{take_leased_cases}
use stitch.Manager.{Manager}
use stitch.Manager.Mirror.{logged}
use stitch.Api.{Body, Response, fail, fail_status}
use stitch.Api.Handlers.{Handled, enqueue_answer, settle_answer}

abbrev pub is_ok {ℓ} : {A : Type ℓ} → Result QueueError A → Bool
is_ok (ok a) = true
is_ok (err e) = false

abbrev pub only_if : Bool → List Payload → List Payload
only_if b ps = if b then ps else []

-- An operation reports success if and only if the log confirmed these payloads, and nothing was
-- confirmed and the table of messages left alone otherwise.
pub record Settles {ℓ} {A : Type ℓ} (ps : List Payload) (q : Queue)
    (x : Result QueueError A × (Queue × Trace)) : Type 0 where
  pub confirmed : logged x.1.1 ≡ only_if (is_ok x.0) ps
  pub refused : is_ok x.0 ≡ false → x.1.0.msgs ≡ q.msgs

-- The record of an Ack and of a Nack that succeed, for a message in flight: a Nack of a message
-- whose attempts are used up moves it to the dead letters, another one says when the message is
-- visible again.
abbrev pub ack_records : String → Queue → List Payload
ack_records id q = elim (Map.lookup id q.inflight) [
  | none ↦ []
  | some m ↦ Payload.ack q.cfg.name id ∷ []
]

abbrev pub nack_records : ℕ → String → ℤ → Queue → List Payload
nack_records now id delay q = elim (Map.lookup id q.inflight) [
  | none ↦ []
  | some m ↦
      (if not (ltb_ℤ (pos m.attempts) q.cfg.max_attempts)
        then Payload.dlq_move q.cfg.name (id ∷ []) "max_attempts"
        else Payload.nack q.cfg.name id
            (if ltb_ℤ (pos 0) delay then now + milliseconds delay else now))
      ∷ []
]

ack_commit-Settles :
    (id : String) (m : Message) (answer : LogAnswer) (p : Payload) (q q1 : Queue)
    → q1.msgs ≡ q.msgs
    → Settles
        (p ∷ [])
        q
        ((ack_commit id m answer q1).0, ((ack_commit id m answer q1).1, (p, answer) ∷ []))
unfolding ack_commit restore_leased
ack_commit-Settles id m (some e) p q q1 same = record { confirmed = refl; refused = λ h. same }
ack_commit-Settles id m none p q q1 same = record {
  confirmed = refl;
  refused = λ h. absurd (ground (arith, h));
}

pub ack-Settles :
    (id token : String) (answer : LogAnswer) (q : Queue)
    → Settles (ack_records id q) q (ack id token answer q)
unfolding ack
ack-Settles id token answer q = elim (take_leased_cases id token q) [
  | inl (e, bad) ↦ rw (ack, bad) (record { confirmed = refl; refused = λ h. refl })
  | inr (m, there, good) ↦
      let ps : ack_records id q ≡ Payload.ack q.cfg.name id ∷ [] = rw (ack_records, there) refl in
      subst (λ x. Settles x q (ack id token answer q)) (sym ps)
        (rw (ack, good) (ack_commit-Settles id m answer _ q _ refl))
]

nack_commit-Settles :
    (m : Message) (to_dlq : Bool) (at now : ℕ) (answer : LogAnswer) (p : Payload) (q q1 : Queue)
    → q1.msgs ≡ q.msgs
    → Settles (p ∷ []) q (
      (nack_commit m to_dlq at now answer q1).0,
      ((nack_commit m to_dlq at now answer q1).1, (p, answer) ∷ []),
    )
unfolding nack_commit restore_leased
nack_commit-Settles m to_dlq at now (some e) p q q1 same = record {
  confirmed = refl;
  refused = λ h. same;
}
nack_commit-Settles m true at now none p q q1 same = record {
  confirmed = refl;
  refused = λ h. absurd (ground (arith, h));
}
nack_commit-Settles m false at now none p q q1 same = record {
  confirmed = refl;
  refused = λ h. absurd (ground (arith, h));
}

pub nack-Settles :
    (now : ℕ) (id token : String) (delay : ℤ) (answer : LogAnswer) (q : Queue)
    → Settles (nack_records now id delay q) q (nack now id token delay answer q)
unfolding nack
nack-Settles now id token delay answer q = elim (take_leased_cases id token q) [
  | inl (e, bad) ↦ rw (nack, bad) (record { confirmed = refl; refused = λ h. refl })
  | inr (m, there, good) ↦
      let p =
        if is_exhausted q m
        then Payload.dlq_move q.cfg.name (id ∷ []) reason
        else Payload.nack q.cfg.name id (nack_visible_at now delay) in
      let ps : nack_records now id delay q ≡ p ∷ [] = rw (nack_records, there) refl in
      subst (λ x. Settles x q (nack now id token delay answer q)) (sym ps)
        (rw (nack, good)
          (nack_commit-Settles m (is_exhausted q m) (nack_visible_at now delay) now answer p q _
            refl))
]

-- The result is a new message.
abbrev pub is_new : Result QueueError (Message × Bool) → Bool
is_new (ok (m, deduped)) = not deduped
is_new (err e) = false

-- The record of an Enqueue that makes a message.
abbrev pub enqueue_records : ℕ → String → List ℕ → ℤ → ℤ → String → Queue → List Payload
enqueue_records now id body priority delay k q =
    Payload.enqueue (record {
      queue = q.cfg.name;
      id = id;
      body = body;
      priority = if q.cfg.priority then priority else pos 0;
      seq = inc64 q.seq;
      enqueued_at = now;
      visible_at = if q.cfg.delay && ltb_ℤ (pos 0) delay then now + milliseconds delay else now;
      dedup_key = k;
    })
    ∷ []

pub record Enqueues (ps : List Payload) (q : Queue)
    (x : Result QueueError (Message × Bool) × (Queue × Trace)) : Type 0 where
  pub confirmed : logged x.1.1 ≡ only_if (is_new x.0) ps
  pub refused : is_new x.0 ≡ false → x.1.0.msgs ≡ q.msgs

enqueue_commit-Enqueues :
    (m : Message) (answer : LogAnswer) (later : ℕ) (p : Payload) (q q1 : Queue)
    → q1.msgs ≡ q.msgs
    → Enqueues (p ∷ []) q (
      (enqueue_commit m answer later q1).0,
      ((enqueue_commit m answer later q1).1, (p, answer) ∷ []),
    )
unfolding enqueue_commit
enqueue_commit-Enqueues m (some e) later p q q1 same = record {
  confirmed = refl;
  refused = λ h. elim (Bool-cases (str_eq m.dedup_key "")) [
    | inl keyless ↦ rw keyless same
    | inr keyed ↦ rw keyed same
  ];
}
enqueue_commit-Enqueues m none later p q q1 same = record {
  confirmed = refl;
  refused = λ h. absurd (ground (arith, h));
}

is_new-await_dedup : (e : DedupEntry) → is_new (await_dedup e) ≡ false
unfolding await_dedup
is_new-await_dedup e = elim (Option-cases e.err) [
  | inl fine ↦ rw (await_dedup, fine) refl
  | inr (x, bad) ↦ rw (await_dedup, bad) refl
]

pub enqueue-Enqueues :
    (now later : ℕ) (id : String) (body : List ℕ) (priority delay : ℤ) (k : String)
    (answer : LogAnswer) (q : Queue)
    → Enqueues
        (enqueue_records now id body priority delay k q)
        q
        (enqueue now later id body priority delay k answer q)
unfolding enqueue enqueue_reserve make_message enqueue_payload
enqueue-Enqueues now later id body priority delay k answer q =
    elim (Option-cases (dedup_hit k now q)) [
      | inr (e, hit) ↦
          rw (enqueue, hit)
            (record { confirmed = rw (is_new-await_dedup e) refl; refused = λ h. refl })
      | inl free ↦
          let m = make_message now id body priority delay k q in
          rw (enqueue, free) (enqueue_commit-Enqueues m answer later _ q _ refl)
    ]

-- The table of messages of a queue.
abbrev pub msgs_of : Option Queue → Option (Map Message)
msgs_of none = none
msgs_of (some q) = some q.msgs

abbrev pub table : String → Manager → Option (Map Message)
table name m = msgs_of (Map.lookup name m.queues)

-- What a request that can be decoded asks of a queue that is there.
abbrev pub on_queue : (Queue → List Payload) → Option Queue → List Payload
on_queue f none = []
on_queue f (some q) = f q

abbrev pub requested :
    {A : Type 0} → (A → Queue → List Payload) → Result String A → Option Queue → List Payload
requested f (ok req) q = on_queue (f req) q
requested f (err e) q = []

-- A handler answers with success if and only if the log confirmed these payloads; otherwise the log
-- confirmed nothing, and the table of messages of its queue is left alone.
pub record Honest (success : Response → Bool) (ps : List Payload) (name : String) (m : Manager)
    (x : Handled) : Type 0 where
  pub confirmed : logged x.1.1 ≡ only_if (success x.0) ps
  pub refused : success x.0 ≡ false → table name x.1.0 ≡ table name m

-- 204, and 201 with a message that is not a duplicate
abbrev pub is_settled : Response → Bool
is_settled r = r.status == 204

abbrev new_message : Body → Bool
new_message (Body.enqueued r) = not r.deduped
new_message _ = false

abbrev pub is_created : Response → Bool
is_created r = r.status == 201 && new_message r.body

pub fail_settled : (e : QueueError) → is_settled (fail e) ≡ false
unfolding fail fail_status
fail_settled queue_not_found = refl
fail_settled not_leased = refl
fail_settled queue_exists = refl
fail_settled bad_lease_token = refl
fail_settled (invalid_queue_cfg f) = refl
fail_settled manager_closed = refl
fail_settled (append_failed e) = refl

pub fail_created : (e : QueueError) → is_created (fail e) ≡ false
unfolding fail fail_status
fail_created queue_not_found = refl
fail_created not_leased = refl
fail_created queue_exists = refl
fail_created bad_lease_token = refl
fail_created (invalid_queue_cfg f) = refl
fail_created manager_closed = refl
fail_created (append_failed e) = refl

pub settle_answer_lem : (r : Result QueueError (Unit {0})) → is_settled (settle_answer r) ≡ is_ok r
unfolding settle_answer
settle_answer_lem (ok x) = refl
settle_answer_lem (err e) = fail_settled e

pub enqueue_answer_lem :
    (r : Result QueueError (Message × Bool)) → is_created (enqueue_answer r) ≡ is_new r
unfolding enqueue_answer
enqueue_answer_lem (ok (m, true)) = refl
enqueue_answer_lem (ok (m, false)) = refl
enqueue_answer_lem (err e) = fail_created e
