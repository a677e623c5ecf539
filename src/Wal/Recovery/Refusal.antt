-- ===== src/Wal/Recovery/Refusal.antt =====
-- Replay of a log whose sealed segment is damaged (internal/wal/recovery.go).
use mathlib.Core.List.{append_assoc}
use native.Mathlib.Nat.{zero-add}
use stitch.Prelude.{
  ℕ, ◌≤◌, ◌≡◌, ◌∙◌, false, List, [], ◌∷◌, ◌++◌, Result, ok, err, ◌==◌, length, take, arith,
  Result-cases, inl, inr, length-take_le,
}
use stitch.Wal.Record.{Record}
use stitch.Wal.Recovery.{
  Disk, Replayed, read_segment, corrupt, torn_tail, after_scan, replay_loop, replay,
}
use stitch.Wal.Recovery.Prefix.{
  AllWritable, fold_log, segment_of, size_of, survivors, scan-take, length-segment_of,
}
use stitch.Wal.Recovery.Replay.{
  no_faults, Intact, indexes_of, records_of, fold_log-append, replay_loop-intact,
}

module _ {ℓ} {E S : Type ℓ} (apply : Record → S → Result E S) where
  replay_loop-damaged :
      (disk : Disk) (i k j : ℕ) (more : List ℕ) (rs : List Record) (acc : Replayed S) (st1 : S)
      → AllWritable rs
      → k ≤ size_of rs
      → (size_of (survivors k rs) == k) ≡ false
      → read_segment disk i ≡ take k (segment_of rs)
      → fold_log apply (survivors k rs) acc.state ≡ ok st1
      → replay_loop apply no_faults disk (i ∷ j ∷ more) acc
        ≡ (err (corrupt i (size_of (survivors k rs))), disk)
  unfolding replay_loop after_scan torn_tail
  replay_loop-damaged disk i k j more rs acc st1 w le cut held e =
      let size = length-take_le k (segment_of rs) (omega (arith, length-segment_of rs)) in
      let run = scan-take apply rs k k 0 acc.info.records acc.state st1 w le (omega arith) e in
      let later : (length (j ∷ more) == 0) ≡ false = ground arith in
      rw (held, size, run, cut, later, zero-add)

  replay_loop-refuses :
      (segs : List (ℕ × List Record)) (disk : Disk) (i k j : ℕ) (more : List ℕ) (rs : List Record)
      (acc : Replayed S) (st1 : S)
      → Intact disk segs
      → AllWritable rs
      → k ≤ size_of rs
      → (size_of (survivors k rs) == k) ≡ false
      → read_segment disk i ≡ take k (segment_of rs)
      → fold_log apply (records_of segs ++ survivors k rs) acc.state ≡ ok st1
      → replay_loop apply no_faults disk (indexes_of segs ++ i ∷ j ∷ more) acc
        ≡ (err (corrupt i (size_of (survivors k rs))), disk)
  replay_loop-refuses [] disk i k j more rs acc st1 h w le cut held e =
      replay_loop-damaged disk i k j more rs acc st1 w le cut held e
  replay_loop-refuses ((s, js) ∷ segs) disk i k j more rs acc st1 h w le cut held e =
      let left = records_of segs ++ survivors k rs in
      let folded =
        rw
          (
            append_assoc js (records_of segs) (survivors k rs),
            fold_log-append apply js left acc.state,
          )
          at e in
      elim (Result-cases (fold_log apply js acc.state)) [
        | inr (x, bad) ↦ absurd (let folded' = rw bad at folded in cc)
        | inl (st, good) ↦
            replay_loop-intact apply disk s (indexes_of segs ++ i ∷ j ∷ more) js acc st h.0 h.1 good
            ∙ replay_loop-refuses segs disk i k j more rs _ st1 h.2 w le cut held
                (rw good at folded)
      ]

  -- A segment that is cut inside a frame, behind intact segments and before another one, with no
  -- system call failing: replay ends with an error that names the segment and the offset of the
  -- damage, and leaves the disk as it was.
  pub replay-refuses :
      (segs : List (ℕ × List Record)) (disk : Disk) (i k j : ℕ) (more : List ℕ) (rs : List Record)
      (st st1 : S)
      → Intact disk segs
      → AllWritable rs
      → k ≤ size_of rs
      → (size_of (survivors k rs) == k) ≡ false
      → read_segment disk i ≡ take k (segment_of rs)
      → fold_log apply (records_of segs ++ survivors k rs) st ≡ ok st1
      → replay apply no_faults disk (indexes_of segs ++ i ∷ j ∷ more) st
        ≡ (err (corrupt i (size_of (survivors k rs))), disk)
  unfolding replay
  replay-refuses segs disk i k j more rs st st1 h w le cut held e =
      replay_loop-refuses segs disk i k j more rs _ st1 h w le cut held e
