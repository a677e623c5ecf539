-- ===== src/Manager/Fleet.antt =====
-- The life of a manager of internal/queue/manager.go with any number of queues, which write to one
-- log, and the replay of that log.
pub mod Names
pub mod Lift
pub mod Prefix
pub mod Laws
mod Tests
use stitch.Prelude.{ℕ, ◌≡◌, Bool, true, false, String, some, List, [], ◌∷◌, ◌++◌, Result, ok, ◌>>=◌}
use stitch.Prelude.Map
use stitch.Queue.Message.{Config}
use stitch.Queue.Payload.{Payload}
use stitch.Queue.Live.{Queue}
use stitch.Queue.Ops.{LogAnswer, Trace}
use stitch.Manager.{Manager, Replay, ReplayFault, create_queue, apply, queue_name}
use stitch.Manager.Mirror.History.{Move}

-- One call: CreateQueue, or an operation on a queue, which the manager has under its name.
pub data Act : Manager → Trace → Manager → Type 0 where
  created :
      (cfg : Config) (answer : LogAnswer) (m : Manager)
      → Act m (create_queue cfg answer m).1.1 (create_queue cfg answer m).1.0
  moved :
      (q q' : Queue) (t : Trace) (m : Manager)
      → Map.lookup q.cfg.name m.queues ≡ some q
      → Move q t q'
      → Act m t (record m { queues = Map.update q.cfg.name q' m.queues })

-- Calls one after the other.
pub data Life : Manager → Trace → Manager → Type 0 where
  stop : (m : Manager) → Life m [] m
  next : (m1 m2 m3 : Manager) (t u : Trace) → Act m1 t m2 → Life m2 u m3 → Life m1 (t ++ u) m3

abbrev pub new_manager : Manager
new_manager = record { queues = []; closed = false }

abbrev pub new_replay : Replay
new_replay = record { queues = []; leased = [] }

-- Replay of the payloads of a log.
abbrev pub fold_replay : List Payload → Replay → Result ReplayFault Replay
fold_replay [] r = ok r
fold_replay (p ∷ ps) r = apply p r >>= fold_replay ps

abbrev pub is_create : Payload → Bool
is_create (Payload.queue_create c) = true
is_create p = false

-- Payloads of operations on the queue of that name.
abbrev pub AllOf : String → List Payload → Type 0
AllOf name [] = Unit
AllOf name (p ∷ ps) = ((queue_name p ≡ name) × (is_create p ≡ false)) × AllOf name ps
