-- ===== src/Queue/Kept.antt =====
-- tryDequeue and Maintain of internal/queue/queue.go, and where each message is before and after
-- them: in the table, in flight, in a heap, or among the dead letters.
pub mod Dequeue
pub mod Maintain
mod Tests
use stitch.Prelude.{ℕ, ◌≡◌, Bool, false, none, some, List, [], ◌∷◌, Result, ok, err}
use stitch.Queue.Message.{Message, Delivery, QueueError}

-- The messages that a Dequeue hands out.
abbrev pub handed_all : List Delivery → List Message
handed_all [] = []
handed_all (d ∷ ds) = d.message ∷ handed_all ds

abbrev pub handed : Result QueueError (List Delivery) → List Message
handed (ok ds) = handed_all ds
handed (err e) = []

-- A message without its lease, and without the time when it is visible either.
abbrev pub unleased : Message → Message
unleased m = record m { attempts = 0; lease_token = ""; lease_expires = 0 }

abbrev pub resting : Message → Message
resting m = record m { lease_token = ""; visible_at = 0 }
