-- ===== src/Queue/Live.antt =====
-- internal/queue/queue.go: one queue. Each operation is split where the source lets go of the lock:
-- a reserving step under the lock, the append, of which only the outcome is an argument (`none`
-- once the fsync has returned), and a committing step under the lock. Clock readings and random
-- IDs are arguments. A `*Message` that several structures share is a value: a write through the
-- pointer that `msgs` holds is `Map.update`; no heap and no other map holds it at such a write, and
-- a dedup entry holds a copy.
-- A channel that is closed is the field `ready`; `wake` says whether the channel holds a token.
use stitch.Prelude.{
  ℕ, zero, suc, ◌+◌, ◌/◌, Bool, true, false, not, ◌&&◌, String, Option, none, some, List, [], ◌∷◌,
  ◌++◌, Result, ok, err, ltb, leb, ◌==◌, str_eq, length, inc64, if◌then◌else◌,
}
use stitch.Prelude.Int.{ℤ, pos, pos_part, ltb_ℤ}
use stitch.Prelude.Map
use stitch.Prelude.Map.{Map}
use stitch.Queue.Message.{
  Config, Message, Counters, QueueError, not_leased, bad_lease_token, lifo, dedup_ttl,
}
use stitch.Queue.Order.{LeaseEntry, ready_push, delayed_push, delayed_pop, lease_push, peek}
use stitch.Queue.Payload.{Payload}

pub record DedupEntry : Type 0 where
  pub msg : Message
  pub expires_at : ℕ
  pub ready : Bool
  pub err : Option QueueError

pub record Queue : Type 0 where
  pub cfg : Config
  pub seq : ℕ
  pub msgs : Map Message
  pub ready : List Message
  pub delayed : List Message
  pub inflight : Map Message
  pub leases : List LeaseEntry
  pub dlq : List Message
  pub dedup : Map DedupEntry
  pub cnt : Counters
  pub armed : ℕ
  pub wake : Bool

abbrev pub no_counts : Counters
no_counts = record {
  enqueued = 0;
  dequeued = 0;
  acked = 0;
  nacked = 0;
  expired = 0;
  dlq_moved = 0;
  deduped = 0;
}

abbrev pub new_queue : Config → Queue
new_queue cfg = record {
  cfg = cfg;
  seq = 0;
  msgs = [];
  ready = [];
  delayed = [];
  inflight = [];
  leases = [];
  dlq = [];
  dedup = [];
  cnt = no_counts;
  armed = 0;
  wake = false;
}

-- The `lifo` flag of both heaps.
abbrev pub is_lifo : Queue → Bool
is_lifo q = str_eq q.cfg.mode lifo

-- `d.Milliseconds()` of a positive duration in nanoseconds
abbrev pub milliseconds : ℤ → ℕ
milliseconds d = pos_part d / 1000000

unfoldable pub wake_if_sooner : ℕ → Queue → Queue
wake_if_sooner deadline q =
    if not (q.armed == 0) && leb q.armed deadline then q else record q { wake = true }

unfoldable pub put : Message → ℕ → Queue → Queue
put m now q =
    let q1 = record q { msgs = Map.insert m.id m q.msgs } in
    if ltb now m.visible_at
    then wake_if_sooner m.visible_at (record q1 { delayed = delayed_push (is_lifo q) q.delayed m })
    else record q1 { ready = ready_push (is_lifo q) q.ready m }

-- The loop of promoteDue; each round takes a message out of `delayed`.
unfoldable pub promote : ℕ → ℕ → Queue → Queue
promote zero now q = q
promote (suc fuel) now q = elim (peek q.delayed) [
  | none ↦ q
  | some m ↦
      let (due, rest) = delayed_pop (is_lifo q) q.delayed in
      let next =
        promote fuel now
          (record q { delayed = rest; ready = ready_push (is_lifo q) q.ready due }) in
      if ltb now m.visible_at then q else next
]

unfoldable pub promote_due : ℕ → Queue → Queue
promote_due now q = promote (length q.delayed) now q

unfoldable pub take_leased : String → String → Queue → Result QueueError (Message × Queue)
take_leased id token q = elim (Map.lookup id q.inflight) [
  | none ↦ err not_leased
  | some m ↦
      if not (str_eq m.lease_token token)
      then err bad_lease_token
      else ok (m, record q { inflight = Map.delete id q.inflight })
]

unfoldable pub restore_leased : Message → Queue → Queue
restore_leased m q = record q { inflight = Map.insert m.id m q.inflight }

unfoldable pub restore_leased_entry : Message → LeaseEntry → Queue → Queue
restore_leased_entry m e q = record q {
  inflight = Map.insert m.id m q.inflight;
  leases = lease_push q.leases e;
}

unfoldable pub move_to_dlq : Message → Queue → Queue
move_to_dlq m q = record q {
  msgs = Map.delete m.id q.msgs;
  dlq = if q.cfg.dlq then q.dlq ++ ((record m { lease_token = "" }) ∷ []) else q.dlq;
}

-- q.dedup[dedupKey], if the entry still holds
unfoldable pub dedup_hit : String → ℕ → Queue → Option DedupEntry
dedup_hit k now q = if str_eq k "" then none else elim (Map.lookup k q.dedup) [
  | none ↦ none
  | some e ↦ if ltb now e.expires_at then some e else none
]

-- What a caller whose key was taken returns when the entry's channel is closed.
unfoldable pub await_dedup : DedupEntry → Result QueueError (Message × Bool)
await_dedup e = elim e.err [ some x ↦ err x | none ↦ ok (e.msg, true) ]

-- The message that Enqueue makes.
unfoldable pub make_message : ℕ → String → List ℕ → ℤ → ℤ → String → Queue → Message
make_message now id body priority delay dedup_key q = record {
  id = id;
  body = body;
  priority = if q.cfg.priority then priority else pos 0;
  seq = inc64 q.seq;
  enqueued_at = now;
  visible_at = if q.cfg.delay && ltb_ℤ (pos 0) delay then now + milliseconds delay else now;
  attempts = 0;
  dedup_key = dedup_key;
  lease_token = "";
  lease_expires = 0;
}

unfoldable pub enqueue_payload : Message → Queue → Payload
enqueue_payload m q = Payload.enqueue (record {
  queue = q.cfg.name;
  id = m.id;
  body = m.body;
  priority = m.priority;
  seq = m.seq;
  enqueued_at = m.enqueued_at;
  visible_at = m.visible_at;
  dedup_key = m.dedup_key;
})

-- The key is claimed before the append.
unfoldable pub enqueue_reserve : Message → Queue → Queue
enqueue_reserve m q = record q {
  seq = m.seq;
  dedup =
      if str_eq m.dedup_key ""
      then q.dedup
      else Map.insert m.dedup_key
          (record { msg = m; expires_at = m.enqueued_at + dedup_ttl; ready = false; err = none })
          q.dedup;
}

-- close(entry.ready), seen through the map if it still holds the entry of this message.
abbrev pub publish : Message → Map DedupEntry → Map DedupEntry
publish m d = if str_eq m.dedup_key "" then d else elim (Map.lookup m.dedup_key d) [
  | none ↦ d
  | some e ↦
      if str_eq e.msg.id m.id then Map.update m.dedup_key (record e { ready = true }) d else d
]

unfoldable pub enqueue_commit :
    Message → Option QueueError → ℕ → Queue → Result QueueError (Message × Bool) × Queue
enqueue_commit m (some e) now q = (
  err e,
  if str_eq m.dedup_key "" then q else record q { dedup = Map.delete m.dedup_key q.dedup },
)
enqueue_commit m none now q =
    let q1 = put m now q in
    (
      ok (m, false),
      record q1 {
        cnt = record q1.cnt { enqueued = inc64 q1.cnt.enqueued };
        dedup = publish m q1.dedup;
      },
    )
