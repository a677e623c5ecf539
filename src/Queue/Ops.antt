-- ===== src/Queue/Ops.antt =====
-- internal/queue/queue.go: the operations on one queue, composed of the steps of Queue/Live.antt.
-- `LogAnswer` is the outcome of one append. An operation returns its result, the queue after it, and
-- the payloads that it handed to the log, each with the outcome. A dedup entry that Enqueue meets is
-- one whose append has ended: callers that wait for a running append are in Queue/Interleaving.antt.
use stitch.Prelude.{
  ℕ, zero, suc, ◌+◌, Bool, true, false, not, ◌||◌, String, Option, none, some, List, [], ◌∷◌, ◌++◌,
  Result, ok, err, ltb, ◌==◌, length, inc64, add64, if◌then◌else◌,
}
use stitch.Prelude.Int.{ℤ, pos, pos_part, sub_ℕ, ltb_ℤ}
use stitch.Prelude.Map
use stitch.Prelude.Map.{Map}
use stitch.Queue.Message.{Message, Delivery, Stats, QueueError}
use stitch.Queue.Order.{ready_push, ready_pop, lease_push, peek}
use stitch.Queue.Payload.{Payload, LeaseItem}
use stitch.Queue.Live.{
  Queue, is_lifo, milliseconds, wake_if_sooner, put, promote_due, take_leased, restore_leased,
  move_to_dlq, dedup_hit, await_dedup, make_message, enqueue_payload, enqueue_reserve,
  enqueue_commit,
}

abbrev pub LogAnswer : Type 0
LogAnswer = Option QueueError

abbrev pub Trace : Type 0
Trace = List (Payload × LogAnswer)

-- Enqueue; `now` and `later` are the two readings of the clock.
unfoldable pub enqueue :
    ℕ
    → ℕ
    → String
    → List ℕ
    → ℤ
    → ℤ
    → String
    → LogAnswer
    → Queue
    → Result QueueError (Message × Bool) × (Queue × Trace)
enqueue now later id body priority delay dedup_key answer q = elim (dedup_hit dedup_key now q) [
  | some e ↦
      (await_dedup e, (record q { cnt = record q.cnt { deduped = inc64 q.cnt.deduped } }, []))
  | none ↦
      let m = make_message now id body priority delay dedup_key q in
      let (result, q') = enqueue_commit m answer later (enqueue_reserve m q) in
      (result, (q', (enqueue_payload m q, answer) ∷ []))
]

-- The loop that pops at most `n` messages.
unfoldable pub pick : ℕ → Queue → List Message → Queue × List Message
pick zero q picked = (q, picked)
pick (suc n) q picked = elim (ready_pop (is_lifo q) q.ready) [
  | none ↦ (q, picked)
  | some (m, rest) ↦ pick n (record q { ready = rest }) (picked ++ (m ∷ []))
]

-- The items of a lease record; `token i` is the i-th random token.
unfoldable pub lease_items : (ℕ → String) → ℕ → List Message → List LeaseItem
lease_items token i [] = []
lease_items token i (m ∷ ms) =
    (record { id = m.id; token = token i; attempts = m.attempts + 1 })
    ∷ lease_items token (i + 1) ms

unfoldable pub push_back : List Message → Queue → Queue
push_back [] q = q
push_back (m ∷ ms) q = push_back ms (record q { ready = ready_push (is_lifo q) q.ready m })

abbrev pub leased_message : LeaseItem → ℕ → Message → Message
leased_message it expires m = record m {
  attempts = it.attempts;
  lease_token = it.token;
  lease_expires = expires;
}

-- The loop that grants the leases.
unfoldable pub grant : ℕ → List Message → List LeaseItem → Queue → Queue × List Delivery
grant expires [] items q = (q, [])
grant expires (m ∷ ms) [] q = (q, [])
grant expires (m ∷ ms) (it ∷ items) q =
    let m' = leased_message it expires m in
    let (q', out) = grant expires ms items (record q {
      msgs = Map.update m.id m' q.msgs;
      inflight = Map.insert m.id m' q.inflight;
      leases = lease_push q.leases (record { id = m.id; token = it.token; expires_at = expires });
    }) in
    (q', (record { message = m'; lease_token = it.token; expires_at = expires }) ∷ out)

unfoldable pub dequeue_commit :
    ℕ
    → List Message
    → List LeaseItem
    → LogAnswer
    → Queue
    → Result QueueError (List Delivery) × Queue
dequeue_commit expires picked items (some e) q = (err e, push_back picked q)
dequeue_commit expires picked items none q =
    let (q', out) = grant expires picked items q in
    (
      ok out,
      wake_if_sooner expires
          (record q' { cnt = record q'.cnt { dequeued = add64 q'.cnt.dequeued (length picked) } }),
    )

unfoldable pub try_dequeue :
    ℕ → ℕ → (ℕ → String) → LogAnswer → Queue → Result QueueError (List Delivery) × (Queue × Trace)
unfolding pick
try_dequeue now n token answer q =
    let (q', picked) = pick n (promote_due now q) [] in
    let expires = now + pos_part q.cfg.visibility_timeout_ms in
    let items = lease_items token 0 picked in
    let (result, q'') = dequeue_commit expires picked items answer q' in
    if length picked == 0
    then (ok [], (q', []))
    else (result, (q'', (Payload.lease q.cfg.name expires items, answer) ∷ []))

unfoldable pub ack_commit :
    String → Message → LogAnswer → Queue → Result QueueError (Unit {0}) × Queue
ack_commit id m (some e) q = (err e, restore_leased m q)
ack_commit id m none q = (
  ok tt,
  record q { msgs = Map.delete id q.msgs; cnt = record q.cnt { acked = inc64 q.cnt.acked } },
)

unfoldable pub ack :
    String → String → LogAnswer → Queue → Result QueueError (Unit {0}) × (Queue × Trace)
ack id token answer q = elim (take_leased id token q) [
  | err e ↦ (err e, (q, []))
  | ok (m, q1) ↦
      let (result, q2) = ack_commit id m answer q1 in
      (result, (q2, (Payload.ack q.cfg.name id, answer) ∷ []))
]

-- `m.Attempts >= q.cfg.MaxAttempts`
abbrev pub is_exhausted : Queue → Message → Bool
is_exhausted q m = not (ltb_ℤ (pos m.attempts) q.cfg.max_attempts)

abbrev pub reason : String
reason = "max_attempts"

-- When a message that Nack puts back is visible again.
abbrev pub nack_visible_at : ℕ → ℤ → ℕ
nack_visible_at now delay = if ltb_ℤ (pos 0) delay then now + milliseconds delay else now

unfoldable pub requeued : Message → ℕ → Message
requeued m visible_at = record m { lease_token = ""; visible_at = visible_at }

unfoldable pub nack_commit :
    Message → Bool → ℕ → ℕ → LogAnswer → Queue → Result QueueError (Unit {0}) × Queue
nack_commit m to_dlq visible_at now (some e) q = (err e, restore_leased m q)
nack_commit m true visible_at now none q =
    let q1 = move_to_dlq m q in
    (ok tt, record q1 { cnt = record q1.cnt { dlq_moved = inc64 q1.cnt.dlq_moved } })
nack_commit m false visible_at now none q =
    let q1 = put (requeued m visible_at) now q in
    (ok tt, record q1 { cnt = record q1.cnt { nacked = inc64 q1.cnt.nacked } })

unfoldable pub nack :
    ℕ → String → String → ℤ → LogAnswer → Queue → Result QueueError (Unit {0}) × (Queue × Trace)
nack now id token delay answer q = elim (take_leased id token q) [
  | err e ↦ (err e, (q, []))
  | ok (m, q1) ↦
      let to_dlq = is_exhausted q m in
      let visible_at = nack_visible_at now delay in
      let payload =
        if to_dlq
        then Payload.dlq_move q.cfg.name (id ∷ []) reason
        else Payload.nack q.cfg.name id visible_at in
      let (result, q2) = nack_commit m to_dlq visible_at now answer q1 in
      (result, (q2, (payload, answer) ∷ []))
]

-- The scan for the oldest live message; 0 stands for none so far.
unfoldable pub oldest_of : ℕ → List Message → ℕ
oldest_of oldest [] = oldest
oldest_of oldest (m ∷ ms) =
    oldest_of (if oldest == 0 || ltb m.enqueued_at oldest then m.enqueued_at else oldest) ms

-- Stats; it promotes what is due.
unfoldable pub stats : ℕ → Queue → Stats × Queue
unfolding oldest_of
stats now q =
    let q' = promote_due now q in
    let oldest = oldest_of 0 (Map.values q'.msgs) in
    (
      record {
        name = q'.cfg.name;
        config = q'.cfg;
        depth = length q'.ready;
        delayed = length q'.delayed;
        in_flight = length q'.inflight;
        dlq = length q'.dlq;
        total = length q'.msgs + length q'.dlq;
        oldest_age_ms = if oldest == 0 then pos 0 else sub_ℕ now oldest;
        counters = q'.cnt;
      },
      q',
    )

abbrev message_ids : List Message → List String
message_ids [] = []
message_ids (m ∷ ms) = m.id ∷ message_ids ms

-- IDs
unfoldable pub live_ids : Queue → List String
live_ids q = Map.keys q.msgs ++ message_ids q.dlq

-- nextDeadline: 0 if nothing is waiting
unfoldable pub next_deadline : Queue → ℕ × Queue
next_deadline q =
    let next : ℕ = elim (peek q.delayed) [ none ↦ 0 | some m ↦ m.visible_at ] in
    let next' : ℕ = elim (peek q.leases) [
      | none ↦ next
      | some e ↦ if next == 0 || ltb e.expires_at next then e.expires_at else next
    ] in
    (next', record q { armed = next' })
