-- ===== src/Manager/Mirror.antt =====
-- What replay (internal/queue/manager.go) rebuilds of a live queue (internal/queue/queue.go), as an
-- abstract view that both have, and the payloads of a trace that the log confirmed.
pub mod Commits
pub mod Silent
pub mod Operations
pub mod Maintenance
pub mod History
pub mod Dedup
pub mod Passes
pub mod Window
mod Tests
use stitch.Prelude.{ℕ, ◌≡◌, none, some, List, [], ◌∷◌, Result, ok, ◌>>=◌}
use stitch.Prelude.Map.{Map}
use stitch.Queue.Message.{Config, Message}
use stitch.Queue.Order.{LeaseEntry}
use stitch.Queue.Payload.{Payload}
use stitch.Queue.Live.{Queue}
use stitch.Queue.Ops.{Trace}
use stitch.Manager.{ReplayFault, apply_to_queue}

-- The part of a queue that its log determines.
pub record View : Type 0 where
  pub cfg : Config
  pub msgs : Map Message
  pub dlq : List Message
  pub enqueued : ℕ
  pub dequeued : ℕ
  pub acked : ℕ
  pub nacked : ℕ
  pub dlq_moved : ℕ

abbrev pub view : Queue → View
view q = record {
  cfg = q.cfg;
  msgs = q.msgs;
  dlq = q.dlq;
  enqueued = q.cnt.enqueued;
  dequeued = q.cnt.dequeued;
  acked = q.cnt.acked;
  nacked = q.cnt.nacked;
  dlq_moved = q.cnt.dlq_moved;
}

-- The structures that replay leaves to finalize.
abbrev pub heaps : Queue → List Message × (List Message × (Map Message × List LeaseEntry))
heaps q = (q.ready, (q.delayed, (q.inflight, q.leases)))

-- `r` is a queue in replay that shows what the live queue `q` shows.
pub record Mirrors (q r : Queue) : Type 0 where
  pub seen : view r ≡ view q
  pub idle : heaps r ≡ ([], ([], ([], [])))

-- The payloads that the log confirmed, and their replay.
abbrev pub logged : Trace → List Payload
logged [] = []
logged ((p, none) ∷ t) = p ∷ logged t
logged ((p, some e) ∷ t) = logged t

abbrev pub fold_payloads : List Payload → Queue → Result ReplayFault Queue
fold_payloads [] r = ok r
fold_payloads (p ∷ ps) r = apply_to_queue p r >>= fold_payloads ps

-- Replay of `ps` from `r` succeeds, and shows what `q` shows.
abbrev pub Reaches : List Payload → Queue → Queue → Type 0
Reaches ps r q = (r' : Queue) × (fold_payloads ps r ≡ ok r') × Mirrors q r'
