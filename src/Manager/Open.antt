-- ===== src/Manager/Open.antt =====
-- Open of internal/queue/manager.go: wal.Open with apply, and then finalize. The queues' goroutines
-- and the log lines are left out. `json` is json.Unmarshal of Manager.antt, `marshal` json.Marshal,
-- and `now` the reading of the clock in finalize.
pub mod Laws
pub mod Crash
mod Tests
use stitch.Prelude.{ℕ, ◌≡◌, String, Option, some, List, [], ◌∷◌, Result, ok, err}
use stitch.Queue.Payload.{Payload, type_of}
use stitch.Wal.Record.{Record}
use stitch.Wal.Recovery.{Disk, RecoveryInfo, Replayed}
use stitch.Wal.Log.{Options, Log}
use stitch.Wal.Open.{OpenFaults, OpenError, open_log}
use stitch.Manager.{Manager, Replay, ReplayFault, apply_record}
use stitch.Manager.Finalize.{finalize}
use stitch.Manager.Fleet.{new_replay}

-- What Open returns: the manager, its log, and what recovery did.
pub record Started : Type 0 where
  pub manager : Manager
  pub log : Log
  pub info : RecoveryInfo

-- What follows wal.Open.
abbrev pub start :
    ℕ
    → Result (OpenError ReplayFault) (Log × Replayed Replay)
    → Result (OpenError ReplayFault) Started
start now (err e) = err e
start now (ok (l, out)) = ok (record { manager = finalize now out.state; log = l; info = out.info })

unfoldable pub open_manager :
    (ℕ → List ℕ → Option Payload)
    → OpenFaults
    → Options
    → ℕ
    → Disk
    → Result (OpenError ReplayFault) Started
open_manager json faults opts now disk =
    start now (open_log (apply_record json) faults opts disk new_replay).0

-- appendJSON: the record of a payload
abbrev pub record_of : (Payload → List ℕ) → Payload → Record
record_of marshal p = record { type = type_of p; payload = marshal p }

abbrev pub records : (Payload → List ℕ) → List Payload → List Record
records marshal [] = []
records marshal (p ∷ ps) = record_of marshal p ∷ records marshal ps
