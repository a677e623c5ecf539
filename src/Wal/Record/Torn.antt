-- ===== src/Wal/Record/Torn.antt =====
-- A frame of internal/wal/record.go that a crash cut short.
use stitch.Prelude.{
  ℕ, zero, suc, ◌+◌, ◌-◌, ◌≤◌, ◌<◌, ◌≡◌, refl, ap, true, false, List, [], ◌∷◌, err, arith, ltb, ◌∙◌,
  length, length-append, length-take_le, take, drop, dec_lt,
}
use mathlib.Core.List.{append-nil}
use stitch.Wal.Record.{
  record_magic, header_size, max_record_size, torn_record, get_u32, slice, append_record,
  decode_record,
}
use stitch.Wal.Record.RoundTrip.{length-frame, length_part, magic_part}

module _ {ℓ} {A : Type ℓ} where
  take-take : (n k : ℕ) (xs : List A) → n ≤ k → take n (take k xs) ≡ take n xs
  take-take zero k xs h = refl
  take-take (suc n) zero xs h = absurd (omega arith)
  take-take (suc n) (suc k) [] h = refl
  take-take (suc n) (suc k) (x ∷ xs) h = ap (◌∷◌ x) (take-take n k xs (omega arith))

  take-drop-take :
      (m lo k : ℕ) (xs : List A) → lo + m ≤ k → take m (drop lo (take k xs)) ≡ take m (drop lo xs)
  take-drop-take m zero k xs h = take-take m k xs (omega arith)
  take-drop-take m (suc lo) zero xs h = absurd (omega arith)
  take-drop-take m (suc lo) (suc k) [] h = refl
  take-drop-take m (suc lo) (suc k) (x ∷ xs) h = take-drop-take m lo k xs (omega arith)

slice-take :
    (lo hi k : ℕ) (buf : List ℕ) → lo ≤ hi → hi ≤ k → slice lo hi (take k buf) ≡ slice lo hi buf
unfolding slice
slice-take lo hi k buf le h = take-drop-take (hi - lo) lo k buf (omega arith)

module _ (t : ℕ) (p : List ℕ) (k : ℕ) where
  abbrev cut : List ℕ
  cut = take k (append_record [] t p)

  length-whole : length (append_record [] t p) ≡ header_size + length p
  length-whole =
      omega
        (arith, length-frame t p [], length-append (append_record [] t p) [], length-append p [])

  cut_magic : header_size ≤ k → get_u32 (slice 0 4 cut) ≡ record_magic
  cut_magic h =
      ap get_u32 (slice-take 0 4 k (append_record [] t p) (omega arith) (omega arith))
      ∙ (rw append-nil at (magic_part t p []))

  cut_length : header_size ≤ k → length p ≤ max_record_size → get_u32 (slice 4 8 cut) ≡ length p
  cut_length h small =
      ap get_u32 (slice-take 4 8 k (append_record [] t p) (omega arith) (omega arith))
      ∙ (rw append-nil at (length_part t p [] small))

  -- Every proper prefix of a frame is reported as torn.
  pub decode_record-take :
      length p ≤ max_record_size → k < header_size + length p → decode_record cut ≡ err torn_record
  unfolding decode_record
  decode_record-take h lt =
      let size : length cut ≡ k =
        length-take_le k (append_record [] t p) (omega (arith, length-whole)) in
      elim (dec_lt k header_size) [
        | yes short ↦ let early : ltb (length cut) header_size ≡ true = ground arith in rw early
        | no long ↦
            let inside : ltb (length cut) (header_size + length p) ≡ true = ground arith in
            let large : ltb (length cut) header_size ≡ false = ground arith in
            let below : ltb max_record_size (length p) ≡ false = ground arith in
            rw (large, cut_magic (omega arith), cut_length (omega arith) h, below, inside)
      ]
