-- ===== src/Queued.antt =====
-- cmd/queued/main.go: from the flags to the exit of the process. What serving makes of the manager and
-- its log is an argument, and so is how it ends: ListenAndServe returns, or a signal comes and
-- Shutdown answers. A call of Fatalf is an exit with its reason. The lines of the logger and the
-- settings of the HTTP server are left out.
pub mod Laws
mod Tests
use stitch.Prelude.{
  ℕ, Bool, true, false, String, Option, none, some, List, [], Result, ok, err, str_eq,
  if◌then◌else◌,
}
use stitch.Prelude.Int.{ℤ, pos}
use stitch.Queue.Payload.{Payload}
use stitch.Wal.Recovery.{IoError, Disk}
use stitch.Wal.Log.{
  sync_always, sync_group, default_segment_size, Options, LogError, Log, WriteFaults, Reply,
}
use stitch.Wal.Open.{OpenFaults, OpenError, open_log}
use stitch.Manager.{Manager, ReplayFault, apply_record}
use stitch.Manager.Fleet.{new_replay}
use stitch.Manager.Open.{Started, open_manager}
use stitch.Manager.Close.{close_manager}

pub record Flags : Type 0 where
  pub addr : String
  pub dir : String
  pub fsync : String
  pub segment_size : ℤ
  pub unsafe_demo : Bool

abbrev pub default_flags : Flags
default_flags = record {
  addr = ":8080";
  dir = "data/wal";
  fsync = "group";
  segment_size = default_segment_size;
  unsafe_demo = false;
}

-- The switch on the fsync flag.
unfoldable pub sync_of : String → Option String
sync_of fsync =
    if str_eq fsync sync_always
    then some sync_always
    else if str_eq fsync sync_group
    then some sync_group
    else none

-- The options of the log, by way of those of the manager.
abbrev pub options_of : Flags → String → Options
options_of flags sync = record {
  dir = flags.dir;
  sync = sync;
  segment_size = flags.segment_size;
  batch_max = pos 0;
}

-- An error of ListenAndServe: http.ErrServerClosed, or another.
pub data ServeError : Type 0 where
  server_closed : ServeError
  listen_failed : String → ServeError

-- The case that the select took, with the error of ListenAndServe or of Shutdown.
pub data Ending : Type 0 where
  served : Option ServeError → Ending
  signalled : Option String → Ending

pub data Exit : Type 0 where
  bad_fsync : String → Exit
  recovery_failed : OpenError ReplayFault → Exit
  serve_failed : String → Exit
  close_failed : LogError → Exit
  stopped : Exit

-- The error that ends the process before Close.
unfoldable pub serve_fault : Ending → Option String
serve_fault (served none) = none
serve_fault (served (some server_closed)) = none
serve_fault (served (some (listen_failed e))) = some e
serve_fault (signalled answer) = none

abbrev pub exit_of : Option LogError → Exit
exit_of none = stopped
exit_of (some e) = close_failed e

-- What follows the opening: the end of serving, and Close. The result has the disk that the process
-- leaves, and the replies to the appends that Close drained.
unfoldable pub serve :
    Ending → (ℕ → WriteFaults) → Option IoError → Manager × Log → Exit × (Disk × List Reply)
serve ending faults close_fault (m, l) = elim (serve_fault ending) [
  | some e ↦ (serve_failed e, (l.disk, []))
  | none ↦
      let (answer, closed) = close_manager faults close_fault m l in
      (exit_of answer, (closed.log.disk, closed.replies))
]

unfoldable pub queued :
    (ℕ → List ℕ → Option Payload)
    → Flags
    → OpenFaults
    → ℕ
    → (Started → Manager × Log)
    → Ending
    → (ℕ → WriteFaults)
    → Option IoError
    → Disk
    → Exit × (Disk × List Reply)
queued json flags open_faults now serving ending faults close_fault disk =
    elim (sync_of flags.fsync) [
      | none ↦ (bad_fsync flags.fsync, (disk, []))
      | some sync ↦
          let opts = options_of flags sync in
          elim (open_manager json open_faults opts now disk) [
            | err e ↦ (
              recovery_failed e,
              ((open_log (apply_record json) open_faults opts disk new_replay).1, []),
            )
            | ok s ↦ serve ending faults close_fault (serving s)
          ]
    ]
