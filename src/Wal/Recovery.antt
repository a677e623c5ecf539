-- ===== src/Wal/Recovery.antt =====
-- internal/wal/recovery.go: replay of the segments of a log directory.
-- A disk is an association list from segment indexes to bytes; `Faults` says which system calls
-- fail. `replay` takes the indexes that listSegments returns; its error carries what the source
-- puts into the message. The fuel of `scan` is the number of bytes, of which each frame takes one
-- at least.
pub mod Prefix
pub mod Replay
pub mod Refusal
use stitch.Prelude.{
  ℕ, zero, suc, ◌+◌, ◌-◌, Bool, true, false, Option, none, some, List, [], ◌∷◌, Result, ok, err,
  ◌==◌, length, take, drop, if◌then◌else◌,
}
use stitch.Wal.Record.{Record, decode_record}

-- An error of the operating system, by its number.
pub record IoError : Type 0 where
  pub code : ℕ

abbrev pub Disk : Type 0
Disk = List (ℕ × List ℕ)

-- The answers of os.ReadFile, os.OpenFile or Truncate, and Sync.
pub record Faults : Type 0 where
  pub read : ℕ → Option IoError
  pub truncate : ℕ → Option IoError
  pub sync : ℕ → Option IoError

pub record RecoveryInfo : Type 0 where
  pub segments : ℕ
  pub records : ℕ
  pub truncated : Bool
  pub truncated_at : ℕ

-- What the inner loop of `replay` ends with: the state and the count of records, at the end of the
-- data, at a frame that does not decode, or at a record that `apply` refuses.
pub data Scan {ℓ} (E S : Type ℓ) : Type ℓ where
  done : S → ℕ → Scan E S
  torn : S → ℕ → ℕ → Scan E S
  refused : E → ℕ → Scan E S
  out_of_fuel : Scan E S

pub data ReplayError {ℓ} (E : Type ℓ) : Type ℓ where
  read_failed truncate_failed : IoError → ReplayError E
  corrupt : ℕ → ℕ → ReplayError E
  apply_failed : E → ℕ → ℕ → ReplayError E
  no_fuel : ReplayError E

pub record Replayed {ℓ} (S : Type ℓ) : Type ℓ where
  pub state : S
  pub info : RecoveryInfo
  pub last_index : ℕ
  pub last_size : ℕ

abbrev pub read_segment : Disk → ℕ → List ℕ
read_segment [] i = []
read_segment ((j, b) ∷ d) i = if j == i then b else read_segment d i

abbrev pub write_segment : Disk → ℕ → List ℕ → Disk
write_segment [] i b = []
write_segment ((j, c) ∷ d) i b = if j == i then (j, b) ∷ d else (j, c) ∷ write_segment d i b

-- The cut stays when only the fsync after it fails.
unfoldable pub truncate_segment : Faults → Disk → ℕ → ℕ → Option IoError × Disk
truncate_segment faults disk idx size = elim (faults.truncate idx) [
  | some e ↦ (some e, disk)
  | none ↦ (faults.sync idx, write_segment disk idx (take size (read_segment disk idx)))
]

module _ {ℓ} {E S : Type ℓ} (apply : Record → S → Result E S) where
  -- The loop over `data[off:]`.
  unfoldable pub scan : ℕ → List ℕ → ℕ → S → ℕ → Scan E S
  scan fuel [] off st n = done st n
  scan zero (b ∷ buf) off st n = out_of_fuel
  scan (suc fuel) (b ∷ buf) off st n = elim (decode_record (b ∷ buf)) [
    | err _ ↦ torn st n off
    | ok (rec, size) ↦ elim (apply rec st) [
      | err e ↦ refused e off
      | ok st' ↦ scan fuel (drop size (b ∷ buf)) (off + size) st' (n + 1)
    ]
  ]

  -- A frame that does not decode: the tail of the last segment is cut, any other is corrupt.
  unfoldable pub torn_tail :
      Faults → Disk → Bool → ℕ → RecoveryInfo → S → ℕ → Result (ReplayError E) (Replayed S) × Disk
  torn_tail faults disk false idx info st off = (err (corrupt idx off), disk)
  torn_tail faults disk true idx info st off =
      let (failed, disk') = truncate_segment faults disk idx off in
      elim failed [
        | some e ↦ (err (truncate_failed e), disk')
        | none ↦ (
          ok (record {
            state = st;
            info = record info { truncated = true; truncated_at = off };
            last_index = idx;
            last_size = off;
          }),
          disk',
        )
      ]

  -- What follows the inner loop over one segment of `size` bytes.
  unfoldable pub after_scan :
      Faults
      → Disk
      → ℕ
      → List ℕ
      → RecoveryInfo
      → ℕ
      → (Replayed S → Result (ReplayError E) (Replayed S) × Disk)
      → Scan E S
      → Result (ReplayError E) (Replayed S) × Disk
  after_scan faults disk idx rest info size next (torn st n off) =
      torn_tail faults disk (length rest == 0) idx (record info { records = n }) st off
  after_scan faults disk idx rest info size next (refused e off) =
      (err (apply_failed e idx off), disk)
  after_scan faults disk idx rest info size next out_of_fuel = (err no_fuel, disk)
  after_scan faults disk idx rest info size next (done st n) = next (record {
    state = st;
    info = record info { records = n };
    last_index = idx;
    last_size = size;
  })

  -- The loop over the segments.
  unfoldable pub replay_loop :
      Faults → Disk → List ℕ → Replayed S → Result (ReplayError E) (Replayed S) × Disk
  replay_loop faults disk [] acc = (ok acc, disk)
  replay_loop faults disk (idx ∷ rest) acc = elim (faults.read idx) [
    | some e ↦ (err (read_failed e), disk)
    | none ↦
        let buf = read_segment disk idx in
        after_scan faults disk idx rest acc.info (length buf)
          (λ acc'. replay_loop faults disk rest acc')
          (scan (length buf) buf 0 acc.state acc.info.records)
  ]

  unfoldable pub replay : Faults → Disk → List ℕ → S → Result (ReplayError E) (Replayed S) × Disk
  unfolding replay_loop
  replay faults disk indexes st = replay_loop faults disk indexes (record {
    state = st;
    info = record { segments = length indexes; records = 0; truncated = false; truncated_at = 0 };
    last_index = 0;
    last_size = 0;
  })
