-- ===== src/Wal/Open/Laws.antt =====
-- The log that Open of internal/wal/wal.go returns.
use mathlib.Core.List.{append-nil}
use mathlib.Core.Path.{subst}
use stitch.Prelude.{
  ℕ, ◌+◌, ◌-◌, ◌≤◌, ◌≡◌, refl, ap, sym, ◌∙◌, true, false, none, List, [], ◌∷◌, ◌++◌, Result, ok,
  arith, length, take, take_all, length-take_le, ltb, ◌==◌, str_eq, Bool-cases, inl, inr,
  if◌then◌else◌,
}
use stitch.Wal.Record.{Record}
use stitch.Wal.Recovery.{Disk, read_segment, write_segment, Replayed, replay}
use stitch.Wal.Recovery.Prefix.{
  AllWritable, frame_size, segment_of, size_of, survivors, fold_log, length-segment_of,
}
use stitch.Wal.Recovery.Replay.{indexes_of, no_faults, recovered, replay-recovers, take-survivors}
use stitch.Wal.Log.{Options, with_defaults, Log, create_segment}
use stitch.Wal.Log.Stored.{
  has, indexes, Recoverable, Sealed, Sealed-write, Sealed-Intact, read-write_same, has-write,
  indexes-write, size_of-append, whole_last, regroup_log,
}
use stitch.Wal.Log.Commit.{Durable}
use stitch.Wal.Open.{OpenFaults, OpenError, log_at, open_last, open_log}

AllWritable-survivors : (k : ℕ) (rs : List Record) → AllWritable rs → AllWritable (survivors k rs)
unfolding survivors
AllWritable-survivors k [] w = tt
AllWritable-survivors k (r ∷ rs) w = elim (Bool-cases (ltb k (frame_size r))) [
  | inl short ↦ rw short tt
  | inr whole ↦ rw whole (w.0, AllWritable-survivors (k - frame_size r) rs w.1)
]

module _ {disk : Disk} {acked unsure : List Record} (r : Recoverable disk acked unsure) where
  -- How much of the last segment was written, of which records, and the records that are whole.
  abbrev pub written_size : ℕ
  written_size = size_of r.cur + r.cut

  abbrev pub whole_records : List Record
  whole_records = survivors written_size (r.cur ++ unsure)

  -- The disk after replay.
  abbrev pub disk_after : Disk
  disk_after =
      if size_of whole_records == written_size
      then disk
      else write_segment disk r.last (segment_of whole_records)

  -- A store of the whole records alone, with the same last segment.
  abbrev pub Reopened : Disk → Type 0
  Reopened disk' =
      (s : Recoverable disk' (acked ++ survivors r.cut unsure) []) × (s.last ≡ r.last)
      × (s.cur ≡ whole_records)

  -- A disk on which the last segment holds the whole records, and all else is as it was.
  cut_to :
      (disk' : Disk)
      → Sealed disk' r.last r.segs
      → has disk' r.last ≡ true
      → indexes disk' ≡ indexes disk
      → read_segment disk' r.last ≡ segment_of whole_records
      → Reopened disk'
  cut_to disk' sealed present same bytes = (
    record {
      segs = r.segs;
      last = r.last;
      cur = whole_records;
      cut = 0;
      sealed = sealed;
      present = present;
      order = same ∙ r.order;
      writable =
          subst AllWritable (sym (append-nil whole_records))
            (AllWritable-survivors written_size (r.cur ++ unsure) r.writable);
      within = omega arith;
      bytes = bytes ∙ sym (append-nil (segment_of whole_records));
      all = regroup_log r;
    },
    refl,
    refl,
  )

  whole_bytes :
      size_of whole_records ≡ written_size → read_segment disk r.last ≡ segment_of whole_records
  whole_bytes same =
      let bytes = segment_of (r.cur ++ unsure) in
      let enough : written_size ≤ length bytes =
        omega (arith, length-segment_of (r.cur ++ unsure), size_of-append r.cur unsure, r.within) in
      let twice =
        take_all written_size (take written_size bytes)
          (omega (arith, length-take_le written_size bytes enough)) in
      whole_last r
      ∙ sym twice
      ∙ ap (λ n. take n (take written_size bytes)) (sym same)
      ∙ take-survivors written_size (r.cur ++ unsure)

  -- The store after replay.
  pub reopened : Reopened disk_after
  reopened = elim (Bool-cases (size_of whole_records == written_size)) [
    | inl whole ↦
        rw whole (cut_to disk r.sealed r.present refl (whole_bytes (ground (arith, whole))))
    | inr torn ↦
        let b = segment_of whole_records in
        rw torn (
          cut_to (write_segment disk r.last b) (Sealed-write disk r.last b r.segs r.sealed)
            (has-write disk r.last r.last b ∙ r.present) (indexes-write disk r.last b)
            (read-write_same disk r.last b r.present))
  ]

-- Every system call succeeds.
abbrev pub working : OpenFaults
working = record {
  mkdir = none;
  replay = no_faults;
  segment = record { close = none; create = none; sync_dir = none; write = none; sync = none };
  open_file = none;
}

not_empty : (xs : List ℕ) (x : ℕ) → (length (xs ++ (x ∷ [])) == 0) ≡ false
not_empty [] x = refl
not_empty (y ∷ ys) x = ground arith

-- What Open promises: the state is the fold, and the log is ready to go on from these records.
abbrev pub Opened {ℓ} :
    {E S : Type ℓ} → List Record → S → Result (OpenError E) (Log × Replayed S) × Disk → Type ℓ
Opened {E} {S} recs st1 x =
    (l : Log) × (out : Replayed S) × (x ≡ (ok (l, out), l.disk))
    × (out.state ≡ st1)
    × Durable l recs

-- Open, where no system call fails, on the disk that a log leaves behind, torn or not: it succeeds,
-- the state is the fold over the confirmed records and those further ones that are whole on the
-- disk, and the log goes on from exactly these: with them as the confirmed records, it has what the
-- writer keeps between commits, and the place where it appends is the end of the last of them.
pub open_log-Durable {ℓ} :
    {E S : Type ℓ} (apply : Record → S → Result E S) (opts : Options) (disk : Disk)
    (acked unsure : List Record) (st st1 : S) (r : Recoverable disk acked unsure)
    → str_eq opts.dir "" ≡ false
    → fold_log apply (acked ++ survivors r.cut unsure) st ≡ ok st1
    → Opened (acked ++ survivors r.cut unsure) st1 (open_log apply working opts disk st)
unfolding open_log open_last with_defaults
open_log-Durable {E} {S} apply opts disk acked unsure st st1 r dir folded =
    let recs = acked ++ survivors r.cut unsure in
    let kept = whole_records r in
    let out = recovered apply (size_of kept == written_size r) r.segs r.last kept st1 in
    let l = log_at (with_defaults opts) r.last (size_of kept) (disk_after r) in
    let (s, here, cur) = reopened r in
    let answer : replay apply no_faults disk (indexes disk) st ≡ (ok out, disk_after r) =
      subst (λ xs. replay apply no_faults disk xs st ≡ (ok out, disk_after r)) (sym r.order)
        (replay-recovers apply r.segs disk r.last (written_size r) (r.cur ++ unsure) st st1
          (Sealed-Intact disk r.last r.segs r.sealed) r.writable
          (omega (arith, size_of-append r.cur unsure, r.within)) (whole_last r)
          (rw (regroup_log r) at folded)) in
    (
      l,
      out,
      rw (dir, answer, not_empty (indexes_of r.segs) r.last) refl,
      refl,
      record { unsure = []; store = s; alive = λ _. (s, here, ap size_of cur) },
    )

-- Open of a directory without segments: the log begins with an empty segment 0.
pub open_log-new {ℓ} :
    {E S : Type ℓ} (apply : Record → S → Result E S) (opts : Options) (st : S)
    → str_eq opts.dir "" ≡ false
    → Opened [] st (open_log apply working opts [] st)
unfolding open_log open_last with_defaults replay create_segment
open_log-new apply opts st dir =
    let disk : Disk = (0, []) ∷ [] in
    let store : Recoverable disk [] [] = record {
      segs = [];
      last = 0;
      cur = [];
      cut = 0;
      sealed = tt;
      present = refl;
      order = refl;
      writable = tt;
      within = omega arith;
      bytes = refl;
      all = refl;
    } in
    (
      log_at (with_defaults opts) 0 0 disk,
      record {
        state = st;
        info = record { segments = 0; records = 0; truncated = false; truncated_at = 0 };
        last_index = 0;
        last_size = 0;
      },
      rw dir refl,
      refl,
      record { unsure = []; store = store; alive = λ _. (store, refl, refl) },
    )
