-- ===== src/Wal/Open.antt =====
-- Open of internal/wal/wal.go: recovery, and then a log that goes on behind the last good record. The
-- disk lists its segments in the order of listSegments. The new Log has the writer waiting, and no
-- request in its channel.
pub mod Laws
use stitch.Prelude.{
  ℕ, ◌+◌, Bool, true, false, Option, none, some, List, [], ◌∷◌, Result, ok, err, ◌==◌, str_eq,
  if◌then◌else◌,
}
use stitch.Wal.Record.{Record}
use stitch.Wal.Recovery.{IoError, Disk, Faults, ReplayError, Replayed, replay}
use stitch.Wal.Log.{Options, with_defaults, Log, WriteFaults, create_segment}
use stitch.Wal.Log.Stored.{indexes}

-- The answers of the system calls of Open: MkdirAll, those of replay, those of createSegment, and
-- OpenFile of the last segment.
pub record OpenFaults : Type 0 where
  pub mkdir : Option IoError
  pub replay : Faults
  pub segment : WriteFaults
  pub open_file : Option IoError

pub data OpenError {ℓ} (E : Type ℓ) : Type ℓ where
  dir_required : OpenError E
  mkdir_failed create_failed open_failed : IoError → OpenError E
  replay_failed : ReplayError E → OpenError E

-- The Log of Open over a disk.
abbrev pub log_at : Options → ℕ → ℕ → Disk → Log
log_at opts index size disk = record {
  opts = opts;
  stats = record { appends = 0; batches = 0; bytes = 0 };
  closed = false;
  reqs = [];
  index = index;
  size = size;
  fatal = none;
  disk = disk;
}

module _ {ℓ} {E S : Type ℓ} where
  -- The file that the log goes on in: segment 0 of an empty log is created, any other is opened.
  unfoldable pub open_last :
      OpenFaults → Options → Replayed S → Disk → Result (OpenError E) (Log × Replayed S) × Disk
  open_last faults opts out disk =
      let (failed, disk') = create_segment faults.segment disk 0 in
      let created : Result (OpenError E) (Log × Replayed S) × Disk = elim failed [
        | some e ↦ (err (create_failed e), disk')
        | none ↦ (ok (log_at opts out.last_index out.last_size disk', out), disk')
      ] in
      let opened : Result (OpenError E) (Log × Replayed S) × Disk = elim faults.open_file [
        | some e ↦ (err (open_failed e), disk)
        | none ↦ (ok (log_at opts out.last_index out.last_size disk, out), disk)
      ] in
      if out.info.segments == 0 then created else opened

  abbrev pub after_replay :
      OpenFaults
      → Options
      → Result (ReplayError E) (Replayed S) × Disk
      → Result (OpenError E) (Log × Replayed S) × Disk
  after_replay faults opts (err e, disk) = (err (replay_failed e), disk)
  after_replay faults opts (ok out, disk) = open_last faults opts out disk

  unfoldable pub open_log :
      (Record → S → Result E S)
      → OpenFaults
      → Options
      → Disk
      → S
      → Result (OpenError E) (Log × Replayed S) × Disk
  unfolding open_last
  open_log apply faults given disk st =
      let opts = with_defaults given in
      let recovered = replay apply faults.replay disk (indexes disk) st in
      if str_eq opts.dir "" then (err dir_required, disk) else elim faults.mkdir [
        | some e ↦ (err (mkdir_failed e), disk)
        | none ↦ after_replay faults opts recovered
      ]
