-- ===== src/Queue/Payload.antt =====
-- internal/queue/record.go: the payloads of the log records. Their JSON form is encoding/json's, and
-- is a parameter of the replay of bytes.
use stitch.Prelude.{ℕ, String, List}
use stitch.Prelude.Int.{ℤ}
use stitch.Wal.Record.{
  record_enqueue, record_lease, record_ack, record_nack, record_lease_expire, record_dlq_move,
  record_queue_create,
}
use stitch.Queue.Message.{Config}

pub record EnqueuePayload : Type 0 where
  pub queue : String
  pub id : String
  pub body : List ℕ
  pub priority : ℤ
  pub seq : ℕ
  pub enqueued_at : ℕ
  pub visible_at : ℕ
  pub dedup_key : String

pub record LeaseItem : Type 0 where
  pub id : String
  pub token : String
  pub attempts : ℕ

pub record ExpireItem : Type 0 where
  pub id : String
  pub visible_at : ℕ

-- One constructor for each payload type, its fields in the order of the source.
pub data Payload : Type 0 where
  queue_create : Config → Payload
  enqueue : EnqueuePayload → Payload
  lease : String → ℕ → List LeaseItem → Payload
  ack : String → String → Payload
  nack : String → String → ℕ → Payload
  expire : String → List ExpireItem → Payload
  dlq_move : String → List String → String → Payload

-- The record type that each payload is appended under.
unfoldable pub type_of : Payload → ℕ
type_of (queue_create c) = record_queue_create
type_of (enqueue p) = record_enqueue
type_of (lease q e items) = record_lease
type_of (ack q id) = record_ack
type_of (nack q id v) = record_nack
type_of (expire q items) = record_lease_expire
type_of (dlq_move q ids r) = record_dlq_move
