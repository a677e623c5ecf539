-- ===== src/Wal/Recovery/Prefix.antt =====
-- Reading back a segment: intact, or cut anywhere by a crash.
use stitch.Prelude.{
  ℕ, zero, suc, ◌+◌, ◌-◌, ◌≤◌, ◌<◌, ◌≡◌, refl, ap, ◌∙◌, true, false, List, [], ◌∷◌, ◌++◌, Result,
  Result-cases, inl, inr, ok, err, Bool, ◌==◌, take_append_le, take_append_ge, ◌>>=◌, arith, ltb,
  length, length-append, length-take_le, take, drop, dec_lt, drop-append, if◌then◌else◌,
}
use stitch.Wal.Record.{
  Record, valid, header_size, max_record_size, torn_record, append_record, decode_record,
}
use stitch.Wal.Record.RoundTrip.{length-frame, decode_record-append_record}
use stitch.Wal.Record.Torn.{decode_record-take}
use stitch.Wal.Recovery.{Scan, done, torn, scan}

-- The records that Append lets through.
abbrev pub IsWritable : Record → Type 0
IsWritable r = (valid r.type ≡ true) × (length r.payload ≤ max_record_size)

abbrev pub AllWritable : List Record → Type 0
AllWritable [] = Unit {0}
AllWritable (r ∷ rs) = IsWritable r × AllWritable rs

abbrev pub frame_of : Record → List ℕ
frame_of r = append_record [] r.type r.payload

abbrev pub frame_size : Record → ℕ
frame_size r = header_size + length r.payload

-- A segment's bytes.
abbrev pub segment_of : List Record → List ℕ
segment_of [] = []
segment_of (r ∷ rs) = frame_of r ++ segment_of rs

-- The records whose frames lie whole in the first `k` bytes.
unfoldable pub survivors : ℕ → List Record → List Record
survivors k [] = []
survivors k (r ∷ rs) =
    let rest = survivors (k - frame_size r) rs in if ltb k (frame_size r) then [] else r ∷ rest

abbrev pub size_of : List Record → ℕ
size_of [] = 0
size_of (r ∷ rs) = frame_size r + size_of rs

pub survivors-short :
    (k : ℕ) (r : Record) (rs : List Record) → k < frame_size r → survivors k (r ∷ rs) ≡ []
unfolding survivors
survivors-short k r rs h = ground arith

pub survivors-whole :
    (k : ℕ) (r : Record) (rs : List Record)
    → frame_size r ≤ k
    → survivors k (r ∷ rs) ≡ r ∷ survivors (k - frame_size r) rs
unfolding survivors
survivors-whole k r rs h = ground arith

pub length-frame_of : (r : Record) → length (frame_of r) ≡ frame_size r
length-frame_of r = omega (
  arith,
  length-frame r.type r.payload [],
  length-append (frame_of r) [],
  length-append r.payload [],
)

pub length-segment_of : (rs : List Record) → length (segment_of rs) ≡ size_of rs
length-segment_of [] = refl
length-segment_of (r ∷ rs) =
    omega
      (arith, length-append (frame_of r) (segment_of rs), length-frame_of r, length-segment_of rs)

module _ {ℓ} {E S : Type ℓ} (apply : Record → S → Result E S) where
  -- The fold over the log that the state is said to be.
  abbrev pub fold_log : List Record → S → Result E S
  fold_log [] st = ok st
  fold_log (r ∷ rs) st = apply r st >>= fold_log rs

  scan-torn :
      (fuel : ℕ) (buf : List ℕ) (off : ℕ) (st : S) (n : ℕ)
      → 0 < fuel
      → 0 < length buf
      → decode_record buf ≡ err torn_record
      → scan apply fuel buf off st n ≡ torn st n off
  unfolding scan
  scan-torn fuel [] off st n f h e = absurd (omega arith)
  scan-torn zero (b ∷ buf) off st n f h e = absurd (omega arith)
  scan-torn (suc fuel) (b ∷ buf) off st n f h e = rw (e, scan)

  scan-ok :
      (fuel : ℕ) (buf : List ℕ) (off : ℕ) (st st' : S) (n size : ℕ) (r : Record)
      → 0 < length buf
      → decode_record buf ≡ ok (r, size)
      → apply r st ≡ ok st'
      → scan apply (suc fuel) buf off st n
        ≡ scan apply fuel (drop size buf) (off + size) st' (n + 1)
  unfolding scan
  scan-ok fuel [] off st st' n size r h e a = absurd (omega arith)
  scan-ok fuel (b ∷ buf) off st st' n size r h e a = rw (e, scan) (rw (a, scan))

  scan-nil : (fuel off : ℕ) (st : S) (n : ℕ) → scan apply fuel [] off st n ≡ done st n
  unfolding scan
  scan-nil zero off st n = refl
  scan-nil (suc fuel) off st n = refl

  -- How the loop ends: at the end of the data, or at a frame that is cut.
  abbrev pub ending : Bool → S → ℕ → ℕ → Scan E S
  ending true st n off = done st n
  ending false st n off = torn st n off

  scan-frame :
      (fuel : ℕ) (r : Record) (rest : List ℕ) (off : ℕ) (st st' : S) (n : ℕ)
      → IsWritable r
      → apply r st ≡ ok st'
      → scan apply (suc fuel) (frame_of r ++ rest) off st n
        ≡ scan apply fuel rest (off + frame_size r) st' (n + 1)
  scan-frame fuel r rest off st st' n w a =
      let dropped : drop (frame_size r) (frame_of r ++ rest) ≡ rest =
        rw (← length-frame_of r) (drop-append (frame_of r) rest) in
      scan-ok fuel (frame_of r ++ rest) off st st' n (frame_size r) r
        (omega (arith, length-append (frame_of r) rest, length-frame_of r))
        (decode_record-append_record r.type r.payload rest w.0 w.1) a
      ∙ ap (λ buf. scan apply fuel buf (off + frame_size r) st' (n + 1)) dropped

  scan-take_whole :
      (r : Record) (rs : List Record) (k fuel off n : ℕ) (st st' : S)
      → AllWritable (r ∷ rs)
      → frame_size r ≤ suc k
      → suc k ≤ suc fuel
      → fold_log (r ∷ survivors (suc k - frame_size r) rs) st ≡ ok st'
      → ((st1 : S)
          → fold_log (survivors (suc k - frame_size r) rs) st1 ≡ ok st'
          → scan apply fuel
              (take (suc k - frame_size r) (segment_of rs))
              (off + frame_size r)
              st1
              (n + 1)
            ≡ ending
                (size_of (survivors (suc k - frame_size r) rs) == suc k - frame_size r)
                st'
                (n + 1 + length (survivors (suc k - frame_size r) rs))
                (off + frame_size r + size_of (survivors (suc k - frame_size r) rs)))
      → scan apply (suc fuel) (take (suc k) (segment_of (r ∷ rs))) off st n
        ≡ ending
            (size_of (r ∷ survivors (suc k - frame_size r) rs) == suc k)
            st'
            (n + length (r ∷ survivors (suc k - frame_size r) rs))
            (off + size_of (r ∷ survivors (suc k - frame_size r) rs))
  scan-take_whole r rs k fuel off n st st' w whole f e ih = elim (Result-cases (apply r st)) [
    | inr (x, bad) ↦ absurd (let e' = rw bad at e in cc)
    | inl (st1, a) ↦
        let kept =
          take_append_ge (suc k) (frame_of r) (segment_of rs) (omega (arith, length-frame_of r)) in
        rw
          (
            kept,
            length-frame_of r,
            scan-frame fuel r (take (suc k - frame_size r) (segment_of rs)) off st st1 n w.0 a,
            ih st1 (rw a at e),
          )
          (ground arith)
  ]

  -- A segment cut after `k` bytes: the records whose frames are whole are applied in order, and
  -- the loop reports the end of the last of them, torn unless the cut falls between frames.
  pub scan-take :
      (rs : List Record) (k fuel off n : ℕ) (st st' : S)
      → AllWritable rs
      → k ≤ size_of rs
      → k ≤ fuel
      → fold_log (survivors k rs) st ≡ ok st'
      → scan apply fuel (take k (segment_of rs)) off st n
        ≡ ending
            (size_of (survivors k rs) == k)
            st'
            (n + length (survivors k rs))
            (off + size_of (survivors k rs))
  unfolding survivors
  scan-take [] zero fuel off n st st' w h f e = ground (arith, scan-nil fuel off st n)
  scan-take [] (suc k) fuel off n st st' w h f e = absurd (omega arith)
  scan-take (r ∷ rs) zero fuel off n st st' w h f e = ground (arith, scan-nil fuel off st n)
  scan-take (r ∷ rs) (suc k) zero off n st st' w h f e = absurd (omega arith)
  scan-take (r ∷ rs) (suc k) (suc fuel) off n st st' w h f e =
      elim (dec_lt (suc k) (frame_size r)) [
        | yes short ↦
            let buf = take (suc k) (frame_of r) in
            let cut =
              take_append_le (suc k) (frame_of r) (segment_of rs)
                (omega (arith, length-frame_of r)) in
            let size = length-take_le (suc k) (frame_of r) (omega (arith, length-frame_of r)) in
            let stop =
              scan-torn (suc fuel) buf off st n (omega arith) (omega (arith, size))
                (decode_record-take r.type r.payload (suc k) w.0.1 short) in
            let none_left = survivors-short (suc k) r rs short in
            rw (cut, stop, none_left) (let e' = rw none_left at e in ground arith)
        | no whole ↦
            let all = survivors-whole (suc k) r rs (omega arith) in
            rw all (
              scan-take_whole r rs k fuel off n st st' w (omega arith) f (rw all at e) (λ st1 g.
                scan-take rs (suc k - frame_size r) fuel (off + frame_size r) (n + 1) st1 st' w.1
                  (omega arith) (omega arith) g))
      ]
