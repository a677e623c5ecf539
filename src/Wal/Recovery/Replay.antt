-- ===== src/Wal/Recovery/Replay.antt =====
-- Replay of a whole log directory: intact segments, then one that a crash may have cut.
use stitch.Prelude.{
  ℕ, ◌+◌, ◌-◌, ◌≤◌, ◌≡◌, refl, ap, ◌∙◌, Bool, true, not, none, List, [], ◌∷◌, ◌++◌, Result,
  Result-cases, inl, inr, ok, ◌>>=◌, ◌==◌, arith, length, length-append, take, Bool-cases, take_all,
  length-take_le, take_append_ge, dec_lt, if◌then◌else◌,
}
use native.Mathlib.Nat.{zero-add, add-zero, add_assoc}
use mathlib.Core.List.{append_assoc}
use stitch.Wal.Record.{Record}
use stitch.Wal.Recovery.{
  Disk, Faults, RecoveryInfo, Replayed, done, scan, torn_tail, after_scan, read_segment,
  write_segment, truncate_segment, replay_loop, replay,
}
use stitch.Wal.Recovery.Prefix.{
  AllWritable, segment_of, size_of, survivors, fold_log, length-segment_of, length-frame_of,
  frame_of, frame_size, survivors-short, survivors-whole, scan-take,
}

abbrev pub no_faults : Faults
no_faults = record { read = λ _. none; truncate = λ _. none; sync = λ _. none }

-- Segments that the disk holds whole.
abbrev pub Intact : Disk → List (ℕ × List Record) → Type 0
Intact disk [] = Unit {0}
Intact disk ((i, rs) ∷ segs) =
    AllWritable rs × (read_segment disk i ≡ segment_of rs) × Intact disk segs

abbrev pub indexes_of : List (ℕ × List Record) → List ℕ
indexes_of [] = []
indexes_of ((i, rs) ∷ segs) = i ∷ indexes_of segs

abbrev pub records_of : List (ℕ × List Record) → List Record
records_of [] = []
records_of ((i, rs) ∷ segs) = rs ++ records_of segs

-- A cut at the end of the data keeps every record.
pub survivors_all : (rs : List Record) → survivors (size_of rs) rs ≡ rs
unfolding survivors
survivors_all [] = refl
survivors_all (r ∷ rs) =
    let same : frame_size r + size_of rs - frame_size r ≡ size_of rs = omega arith in
    survivors-whole (frame_size r + size_of rs) r rs (omega arith)
    ∙ ap (λ k. r ∷ survivors k rs) same
    ∙ ap (◌∷◌ r) (survivors_all rs)

pub survivors-le : (k : ℕ) (rs : List Record) → size_of (survivors k rs) ≤ k
unfolding survivors
survivors-le k [] = omega arith
survivors-le k (r ∷ rs) = ground (arith, survivors-le (k - frame_size r) rs)

-- What is left after the cut are the frames of the survivors.
pub take-survivors :
    (k : ℕ) (rs : List Record)
    → take (size_of (survivors k rs)) (take k (segment_of rs)) ≡ segment_of (survivors k rs)
unfolding survivors
take-survivors k [] = refl
take-survivors k (r ∷ rs) = elim (dec_lt k (frame_size r)) [
  | yes short ↦ rw (survivors-short k r rs short)
  | no whole ↦
      let m = k - frame_size r in
      let s = survivors m rs in
      let size = length-frame_of r in
      let kept = take_append_ge k (frame_of r) (segment_of rs) (omega (arith, size)) in
      let inner =
        take_append_ge (frame_size r + size_of s) (frame_of r) (take m (segment_of rs))
          (omega (arith, size)) in
      let left : frame_size r + size_of s - frame_size r ≡ size_of s = omega arith in
      rw (survivors-whole k r rs (omega arith), kept, size, inner, size, left, take-survivors m rs)
]

module _ {ℓ} {E S : Type ℓ} (apply : Record → S → Result E S) where
  pub fold_log-append :
      (a b : List Record) (st : S)
      → fold_log apply (a ++ b) st ≡ (fold_log apply a st >>= fold_log apply b)
  fold_log-append [] b st = refl
  fold_log-append (r ∷ a) b st = elim (Result-cases (apply r st)) [
    | inl (st1, e) ↦ rw e (fold_log-append a b st1)
    | inr (x, e) ↦ rw e
  ]

  scan-segment :
      (rs : List Record) (st st1 : S) (n : ℕ)
      → AllWritable rs
      → fold_log apply rs st ≡ ok st1
      → scan apply (length (segment_of rs)) (segment_of rs) 0 st n ≡ done st1 (n + length rs)
  scan-segment rs st st1 n w e =
      let size = length-segment_of rs in
      let all = survivors_all rs in
      let whole = take_all (size_of rs) (segment_of rs) (omega (arith, size)) in
      let run =
        scan-take apply rs (size_of rs) (length (segment_of rs)) 0 n st st1 w (omega arith)
          (omega (arith, size)) (rw all e) in
      rw (all, whole) at run ∙ ground arith

  -- One intact segment: its records are applied and counted, and the next segment follows.
  pub replay_loop-intact :
      (disk : Disk) (i : ℕ) (rest : List ℕ) (rs : List Record) (acc : Replayed S) (st1 : S)
      → AllWritable rs
      → read_segment disk i ≡ segment_of rs
      → fold_log apply rs acc.state ≡ ok st1
      → replay_loop apply no_faults disk (i ∷ rest) acc
        ≡ replay_loop apply no_faults disk rest (record {
          state = st1;
          info = record acc.info { records = acc.info.records + length rs };
          last_index = i;
          last_size = size_of rs;
        })
  unfolding replay_loop after_scan
  replay_loop-intact disk i rest rs acc st1 w held e =
      rw (held, scan-segment rs acc.state st1 acc.info.records w e, length-segment_of)

  -- What replay returns for a last segment whose surviving records are `rs`.
  abbrev pub after_tail : Bool → ℕ → List Record → RecoveryInfo → ℕ → S → Replayed S
  after_tail whole i rs info n st = record {
    state = st;
    info = record info {
      records = n + length rs;
      truncated = if whole then info.truncated else true;
      truncated_at = if whole then info.truncated_at else size_of rs;
    };
    last_index = i;
    last_size = size_of rs;
  }

  -- The last segment, cut after `k` bytes: the whole frames are applied, the disk keeps just them.
  replay_loop-tail :
      (disk : Disk) (i k : ℕ) (rs : List Record) (acc : Replayed S) (st1 : S)
      → AllWritable rs
      → k ≤ size_of rs
      → read_segment disk i ≡ take k (segment_of rs)
      → fold_log apply (survivors k rs) acc.state ≡ ok st1
      → replay_loop apply no_faults disk (i ∷ []) acc ≡ (
        ok (
            after_tail
              (size_of (survivors k rs) == k)
              i
              (survivors k rs)
              acc.info
              acc.info.records
              st1),
        if size_of (survivors k rs) == k
            then disk
            else write_segment disk i (segment_of (survivors k rs)),
      )
  unfolding replay_loop after_scan torn_tail truncate_segment
  replay_loop-tail disk i k rs acc st1 w le held e =
      let size = length-take_le k (segment_of rs) (omega (arith, length-segment_of rs)) in
      let run = scan-take apply rs k k 0 acc.info.records acc.state st1 w le (omega arith) e in
      rw (held, size, run)
        (elim (Bool-cases (size_of (survivors k rs) == k)) [
          | inl whole ↦ rw whole (ground arith)
          | inr cut ↦ rw (cut, zero-add, held, take-survivors)
        ])

  -- What replay returns for intact segments `segs` and a last one, `i`, with the records `rs` left.
  abbrev pub recovered : Bool → List (ℕ × List Record) → ℕ → List Record → S → Replayed S
  recovered whole segs i rs st = record {
    state = st;
    info = record {
      segments = length (indexes_of segs ++ i ∷ []);
      records = length (records_of segs) + length rs;
      truncated = not whole;
      truncated_at = if whole then 0 else size_of rs;
    };
    last_index = i;
    last_size = size_of rs;
  }

  replay_loop-segments :
      (segs : List (ℕ × List Record)) (disk : Disk) (i k : ℕ) (rs : List Record) (acc : Replayed S)
      (st1 : S)
      → Intact disk segs
      → AllWritable rs
      → k ≤ size_of rs
      → read_segment disk i ≡ take k (segment_of rs)
      → fold_log apply (records_of segs ++ survivors k rs) acc.state ≡ ok st1
      → replay_loop apply no_faults disk (indexes_of segs ++ i ∷ []) acc ≡ (
        ok (
            after_tail
              (size_of (survivors k rs) == k)
              i
              (survivors k rs)
              acc.info
              (acc.info.records + length (records_of segs))
              st1),
        if size_of (survivors k rs) == k
            then disk
            else write_segment disk i (segment_of (survivors k rs)),
      )
  replay_loop-segments [] disk i k rs acc st1 h w le held e =
      replay_loop-tail disk i k rs acc st1 w le held e ∙ rw add-zero
  replay_loop-segments ((j, js) ∷ segs) disk i k rs acc st1 h w le held e =
      let left = records_of segs ++ survivors k rs in
      let folded =
        rw (append_assoc js (records_of segs) (survivors k rs), fold_log-append js left acc.state)
          at e in
      elim (Result-cases (fold_log apply js acc.state)) [
        | inr (x, bad) ↦ absurd (let folded' = rw bad at folded in cc)
        | inl (st, good) ↦
            let after : Replayed S = record {
              state = st;
              info = record acc.info { records = acc.info.records + length js };
              last_index = j;
              last_size = size_of js;
            } in
            replay_loop-intact disk j (indexes_of segs ++ i ∷ []) js acc st h.0 h.1 good
            ∙ replay_loop-segments segs disk i k rs after st1 h.2 w le held (rw good at folded)
            ∙ simp (length-append js (records_of segs), add_assoc)
      ]

  -- Replay of intact segments and a last one cut after `k` bytes, with no system call failing:
  -- the state is the fold over the records of the segments and the whole frames of the last, these
  -- are counted, the tail counts as truncated exactly if the cut is not between frames, and then
  -- the disk keeps the frames that were read, else all that it held.
  pub replay-recovers :
      (segs : List (ℕ × List Record)) (disk : Disk) (i k : ℕ) (rs : List Record) (st st1 : S)
      → Intact disk segs
      → AllWritable rs
      → k ≤ size_of rs
      → read_segment disk i ≡ take k (segment_of rs)
      → fold_log apply (records_of segs ++ survivors k rs) st ≡ ok st1
      → replay apply no_faults disk (indexes_of segs ++ i ∷ []) st ≡ (
        ok (recovered (size_of (survivors k rs) == k) segs i (survivors k rs) st1),
        if size_of (survivors k rs) == k
            then disk
            else write_segment disk i (segment_of (survivors k rs)),
      )
  unfolding replay
  replay-recovers segs disk i k rs st st1 h w le held e =
      replay_loop-segments segs disk i k rs _ st1 h w le held e
      ∙ elim (Bool-cases (size_of (survivors k rs) == k)) [
        | inl whole ↦ rw (whole, zero-add)
        | inr cut ↦ rw (cut, zero-add)
      ]
