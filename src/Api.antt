-- ===== src/Api.antt =====
-- internal/api/api.go: the HTTP handlers over the manager. A request carries its path values, its
-- query and its body; a response is a status and what is encoded as JSON. `json` stands for
-- encoding/json over http.MaxBytesReader: what a decoder that refuses unknown fields makes of a body
-- that may have at most the given number of bytes, or its error's text. Clock readings, random IDs
-- and the outcomes of appends are arguments, as in Queue/Ops.antt; a handler returns its response,
-- the manager after it, and what it handed to the log. The connection's writer, the log lines and
-- the two plain pages are left out.
pub mod Params
pub mod Handlers
pub mod Metrics
pub mod Answers
pub mod Honest
pub mod Bounds
pub mod Samples
mod Tests
use stitch.Prelude.{ℕ, Bool, true, false, String, Option, none, some, List, Result, ok, err}
use stitch.Prelude.Int.{ℤ}
use stitch.Queue.Message.{
  Config, Stats, QueueError, queue_exists, queue_not_found, not_leased, bad_lease_token,
  manager_closed, invalid_queue_cfg, append_failed,
}

-- maxBodyBytes, maxDequeueN, and maxDequeueWait in milliseconds
abbrev pub max_body_bytes : ℕ
max_body_bytes = 1048576

abbrev pub max_dequeue_n : ℕ
max_dequeue_n = 1000

abbrev pub max_dequeue_wait : ℕ
max_dequeue_wait = 60000

pub record EnqueueRequest : Type 0 where
  pub body : List ℕ
  pub priority : ℤ
  pub delay_ms : ℤ
  pub dedup_key : String

pub record EnqueueResponse : Type 0 where
  pub id : String
  pub seq : ℕ
  pub visible_at : ℕ
  pub deduped : Bool

pub record MessageJson : Type 0 where
  pub id : String
  pub body : List ℕ
  pub priority : ℤ
  pub seq : ℕ
  pub attempts : ℕ
  pub enqueued_at : ℕ
  pub lease_token : String
  pub lease_expires_at : ℕ

pub record AckRequest : Type 0 where
  pub lease_token : String

pub record NackRequest : Type 0 where
  pub lease_token : String
  pub requeue_delay_ms : ℤ

-- Why a query parameter was refused.
pub data ParamFault : Type 0 where
  not_an_integer : ParamFault
  too_small : ℤ → ParamFault

-- What a response's body encodes. The three error bodies are `{"error": ...}` with their texts.
pub data Body : Type 0 where
  no_content : Body
  invalid_body : String → Body
  bad_param : String → ParamFault → Body
  failure : QueueError → Body
  config : Config → Body
  stats : Stats → Body
  stats_list : List Stats → Body
  enqueued : EnqueueResponse → Body
  messages : List MessageJson → Body

pub record Response : Type 0 where
  pub status : ℕ
  pub body : Body

-- fail: the status of an error
unfoldable pub fail_status : QueueError → ℕ
fail_status queue_not_found = 404
fail_status not_leased = 404
fail_status queue_exists = 409
fail_status bad_lease_token = 409
fail_status (invalid_queue_cfg f) = 400
fail_status manager_closed = 503
fail_status (append_failed e) = 500

unfoldable pub fail : QueueError → Response
unfolding fail_status
fail e = record { status = fail_status e; body = Body.failure e }

abbrev pub bad_request : String → ParamFault → Response
bad_request name f = record { status = 400; body = Body.bad_param name f }

-- decode: a request, or the response that it sent
unfoldable pub decode {ℓ} :
    {A : Type ℓ} → (ℕ → List ℕ → Result String A) → List ℕ → Result Response A
decode json body = elim (json max_body_bytes body) [
  | ok a ↦ ok a
  | err e ↦ err (record { status = 400; body = Body.invalid_body e })
]
