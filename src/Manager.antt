-- ===== src/Manager.antt =====
-- internal/queue/manager.go: the queues of a manager, and the replay that rebuilds them from the log.
-- `json` stands for encoding/json: what json.Unmarshal makes of the payload of a record type.
pub mod Finalize
pub mod Mirror
pub mod Listing
pub mod Fleet
pub mod Open
pub mod Close
use stitch.Prelude.{
  ℕ, zero, suc, ◌+◌, Bool, true, false, String, Option, none, some, List, [], ◌∷◌, ◌++◌, Result, ok,
  err, ◌>>=◌, ltb, leb, ◌==◌, str_eq, length, inc64, add64, if◌then◌else◌,
}
use stitch.Prelude.Map
use stitch.Prelude.Map.{Map}
use stitch.Wal.Record.{Record, record_enqueue, record_queue_create, valid}
use stitch.Queue.Message.{
  Config, Message, QueueError, queue_exists, queue_not_found, manager_closed, normalize, dedup_ttl,
}
use stitch.Queue.Order.{ready_push, delayed_push}
use stitch.Queue.Payload
use stitch.Queue.Payload.{Payload, EnqueuePayload, LeaseItem, ExpireItem}
use stitch.Queue.Live.{DedupEntry, Queue, new_queue, is_lifo}
use stitch.Queue.Ops.{LogAnswer, Trace, stats}

abbrev pub Queues : Type 0
Queues = Map Queue

pub record Manager : Type 0 where
  pub queues : Queues
  pub closed : Bool

-- replayState: for each queue, the set of IDs that were leased.
abbrev pub Leased : Type 0
Leased = Map (Map (Unit {0}))

pub record Replay : Type 0 where
  pub queues : Queues
  pub leased : Leased

pub data ReplayFault : Type 0 where
  bad_json bad_config created_twice unknown_queue unknown_message unexpected_type : ReplayFault

-- CreateQueue; `answer` is the outcome of its append.
unfoldable pub create_queue :
    Config → LogAnswer → Manager → Result QueueError Queue × (Manager × Trace)
create_queue cfg answer m = elim (normalize cfg) [
  | err e ↦ (err e, (m, []))
  | ok c ↦ if m.closed then (err manager_closed, (m, [])) else elim (Map.lookup c.name m.queues) [
    | some q ↦ (err queue_exists, (m, []))
    | none ↦
        let trace : Trace = (Payload.queue_create c, answer) ∷ [] in
        elim answer [
          | some e ↦ (err e, (m, trace))
          | none ↦ (
            ok (new_queue c),
            (record m { queues = Map.insert c.name (new_queue c) m.queues }, trace),
          )
        ]
  ]
]

unfoldable pub find_queue : String → Manager → Result QueueError Queue
find_queue name m = elim (Map.lookup name m.queues) [ none ↦ err queue_not_found | some q ↦ ok q ]

-- rs.lease, rs.unlease
unfoldable pub mark_leased : String → String → Leased → Leased
mark_leased q id l = elim (Map.lookup q l) [
  | none ↦ Map.insert q (Map.insert id tt []) l
  | some set ↦ Map.insert q (Map.insert id tt set) l
]

unfoldable pub unmark_leased : String → String → Leased → Leased
unmark_leased q id l = elim (Map.lookup q l) [
  | none ↦ l
  | some set ↦ Map.insert q (Map.delete id set) l
]

unfoldable pub replay_queue : String → Replay → Result ReplayFault Queue
replay_queue name r = elim (Map.lookup name r.queues) [ none ↦ err unknown_queue | some q ↦ ok q ]

abbrev pub set_queue : String → Queue → Replay → Replay
set_queue name q r = record r { queues = Map.insert name q r.queues }

unfoldable pub live_message : String → Queue → Result ReplayFault Message
live_message id q = elim (Map.lookup id q.msgs) [ none ↦ err unknown_message | some m ↦ ok m ]

-- The message and the dedup entry that an ENQUEUE record stands for.
abbrev pub message_of : EnqueuePayload → Message
message_of p = record {
  id = p.id;
  body = p.body;
  priority = p.priority;
  seq = p.seq;
  enqueued_at = p.enqueued_at;
  visible_at = p.visible_at;
  attempts = 0;
  dedup_key = p.dedup_key;
  lease_token = "";
  lease_expires = 0;
}

abbrev pub entry_of : EnqueuePayload → DedupEntry
entry_of p = record {
  msg = message_of p;
  expires_at = p.enqueued_at + dedup_ttl;
  ready = true;
  err = none;
}

unfoldable pub apply_enqueue : EnqueuePayload → Queue → Queue
apply_enqueue p q = record q {
  msgs = Map.insert p.id (message_of p) q.msgs;
  seq = if ltb q.seq p.seq then p.seq else q.seq;
  dedup = if str_eq p.dedup_key "" then q.dedup else Map.insert p.dedup_key (entry_of p) q.dedup;
  cnt = record q.cnt { enqueued = inc64 q.cnt.enqueued };
}

-- The loop over the items of a LEASE record, on the queue's messages.
unfoldable pub apply_lease_items : ℕ → List LeaseItem → Queue → Result ReplayFault Queue
apply_lease_items expires [] q = ok q
apply_lease_items expires (it ∷ items) q = do
  m ← live_message it.id q
  let m' = record m { attempts = it.attempts; lease_token = it.token; lease_expires = expires }
  apply_lease_items expires items (record q { msgs = Map.update it.id m' q.msgs })

unfoldable pub apply_lease : ℕ → List LeaseItem → Queue → Result ReplayFault Queue
unfolding apply_lease_items
apply_lease expires items q = do
  q' ← apply_lease_items expires items q
  ok (record q' { cnt = record q'.cnt { dequeued = add64 q'.cnt.dequeued (length items) } })

unfoldable pub apply_ack : String → Queue → Result ReplayFault Queue
apply_ack id q = do
  m ← live_message id q
  ok (record q { msgs = Map.delete id q.msgs; cnt = record q.cnt { acked = inc64 q.cnt.acked } })

abbrev pub released : ℕ → Message → Message
released visible_at m = record m { visible_at = visible_at; lease_token = "" }

unfoldable pub apply_nack : String → ℕ → Queue → Result ReplayFault Queue
apply_nack id visible_at q = do
  m ← live_message id q
  ok (record q {
    msgs = Map.update id (released visible_at m) q.msgs;
    cnt = record q.cnt { nacked = inc64 q.cnt.nacked };
  })

unfoldable pub apply_expire_items : List ExpireItem → Queue → Result ReplayFault Queue
apply_expire_items [] q = ok q
apply_expire_items (it ∷ items) q = do
  m ← live_message it.id q
  apply_expire_items items (record q { msgs = Map.update it.id (released it.visible_at m) q.msgs })

unfoldable pub apply_expire : List ExpireItem → Queue → Result ReplayFault Queue
unfolding apply_expire_items
apply_expire items q = do
  q' ← apply_expire_items items q
  ok (record q' { cnt = record q'.cnt { expired = add64 q'.cnt.expired (length items) } })

unfoldable pub apply_dlq : List String → Queue → Result ReplayFault Queue
apply_dlq [] q = ok q
apply_dlq (id ∷ ids) q = do
  m ← live_message id q
  apply_dlq ids (record q {
    msgs = Map.delete id q.msgs;
    dlq = if q.cfg.dlq then q.dlq ++ ((record m { lease_token = "" }) ∷ []) else q.dlq;
    cnt = record q.cnt { dlq_moved = inc64 q.cnt.dlq_moved };
  })

-- What a payload other than QUEUE_CREATE does to its queue.
unfoldable pub apply_to_queue : Payload → Queue → Result ReplayFault Queue
unfolding apply_enqueue apply_lease apply_ack apply_nack apply_expire apply_dlq
apply_to_queue (Payload.queue_create c) q = ok q
apply_to_queue (Payload.enqueue p) q = ok (apply_enqueue p q)
apply_to_queue (Payload.lease n expires items) q = apply_lease expires items q
apply_to_queue (Payload.ack n id) q = apply_ack id q
apply_to_queue (Payload.nack n id visible_at) q = apply_nack id visible_at q
apply_to_queue (Payload.expire n items) q = apply_expire items q
apply_to_queue (Payload.dlq_move n ids r) q = apply_dlq ids q

mark_all : String → List LeaseItem → Leased → Leased
mark_all q [] l = l
mark_all q (it ∷ items) l = mark_all q items (mark_leased q it.id l)

unmark_all : String → List ExpireItem → Leased → Leased
unmark_all q [] l = l
unmark_all q (it ∷ items) l = unmark_all q items (unmark_leased q it.id l)

unmark_ids : String → List String → Leased → Leased
unmark_ids q [] l = l
unmark_ids q (id ∷ ids) l = unmark_ids q ids (unmark_leased q id l)

-- What it does to the leased sets.
unfoldable pub track_leases : Payload → Leased → Leased
unfolding mark_all unmark_all unmark_ids
track_leases (Payload.queue_create c) l = l
track_leases (Payload.enqueue p) l = l
track_leases (Payload.lease n expires items) l = mark_all n items l
track_leases (Payload.ack n id) l = unmark_leased n id l
track_leases (Payload.nack n id visible_at) l = unmark_leased n id l
track_leases (Payload.expire n items) l = unmark_all n items l
track_leases (Payload.dlq_move n ids r) l = unmark_ids n ids l

unfoldable pub queue_name : Payload → String
queue_name (Payload.queue_create c) = c.name
queue_name (Payload.enqueue p) = p.queue
queue_name (Payload.lease n expires items) = n
queue_name (Payload.ack n id) = n
queue_name (Payload.nack n id visible_at) = n
queue_name (Payload.expire n items) = n
queue_name (Payload.dlq_move n ids r) = n

apply_to_replay : Payload → Replay → Result ReplayFault Replay
apply_to_replay p r = do
  q ← replay_queue (queue_name p) r
  q' ← apply_to_queue p q
  ok (record r { queues = Map.insert (queue_name p) q' r.queues; leased = track_leases p r.leased })

apply_create : Config → Replay → Result ReplayFault Replay
apply_create cfg r = elim (normalize cfg) [
  | err e ↦ err bad_config
  | ok c ↦ elim (Map.lookup c.name r.queues) [
    | some q ↦ err created_twice
    | none ↦ ok (set_queue c.name (new_queue c) r)
  ]
]

-- Manager.apply, once the payload is unmarshalled.
unfoldable pub apply : Payload → Replay → Result ReplayFault Replay
unfolding apply_to_replay apply_create
apply (Payload.queue_create c) r = apply_create c r
apply (Payload.enqueue p) r = apply_to_replay (Payload.enqueue p) r
apply p r = apply_to_replay p r

-- Manager.apply on a record of the log.
unfoldable pub apply_record :
    (ℕ → List ℕ → Option Payload) → Record → Replay → Result ReplayFault Replay
apply_record json rec r =
    if valid rec.type
    then elim (json rec.type rec.payload) [ none ↦ err bad_json | some p ↦ apply p r ]
    else err unexpected_type
