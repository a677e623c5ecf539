-- ===== src/Wal/Record/RoundTrip.antt =====
-- The frames of internal/wal/record.go, written and read back.
use stitch.Prelude.{
  ℕ, ◌+◌, ◌-◌, ◌^◌, ◌≤◌, ◌<◌, ◌≡◌, refl, true, List, [], ◌++◌, ok, arith, length, length-append,
  take-append, get_or, take, ltb, false, ◌==◌,
}
use mathlib.Core.List.{append_assoc}
use stitch.Wal.Crc.{crc_update-lt}
use stitch.Wal.Record.{
  valid, header_size, max_record_size, checksum, put_u32, get_u32, slice, record_magic, header,
  append_record, decode_record,
}

get_u32-put_u32 : (v : ℕ) → v < 2 ^ 32 → get_u32 (put_u32 v) ≡ v
unfolding get_u32 put_u32
get_u32-put_u32 v h = omega arith

checksum-lt : (t : ℕ) (p : List ℕ) → checksum t p < 2 ^ 32
unfolding checksum
checksum-lt t p = crc_update-lt _ p

take-payload :
    (n : ℕ) (p rest : List ℕ) → n ≡ length p → take (header_size + n - header_size) (p ++ rest) ≡ p
take-payload n p rest e =
    let same : header_size + n - header_size ≡ length p = omega arith in
    rw same (take-append p rest)

-- Packing a frame behind other bytes leaves those alone.
pub append_record_lem :
    (dst : List ℕ) (t : ℕ) (p : List ℕ) → append_record dst t p ≡ dst ++ append_record [] t p
unfolding append_record
append_record_lem dst t p = append_assoc dst (header t p) p

-- A buffer whose parts fit together decodes to the record that they make.
pub decode_record_parts :
    (buf : List ℕ) (n t : ℕ) (p : List ℕ)
    → get_u32 (slice 0 4 buf) ≡ record_magic
    → get_u32 (slice 4 8 buf) ≡ n
    → n ≤ max_record_size
    → header_size + n ≤ length buf
    → get_or buf 12 0 ≡ t
    → valid t ≡ true
    → slice header_size (header_size + n) buf ≡ p
    → get_u32 (slice 8 12 buf) ≡ checksum t p
    → decode_record buf ≡ ok (record { type = t; payload = p }, header_size + n)
unfolding decode_record
decode_record_parts buf n t p m l small fits ty v pl c =
    let long : ltb (length buf) header_size ≡ false = ground arith in
    let below : ltb max_record_size n ≡ false = ground arith in
    let inside : ltb (length buf) (header_size + n) ≡ false = ground arith in
    let same : (checksum t p == checksum t p) ≡ true = ground arith in
    rw (long, m, l, below, inside, ty, v, pl, c, same)

module _ (t : ℕ) (p rest : List ℕ) where
  abbrev pub frame : List ℕ
  frame = append_record [] t p ++ rest

  pub length-frame : length frame ≡ header_size + length (p ++ rest)
  unfolding append_record put_u32
  length-frame = omega arith

  pub magic_part : get_u32 (slice 0 4 frame) ≡ record_magic
  unfolding append_record get_u32 slice put_u32
  magic_part = refl

  pub length_part : length p ≤ max_record_size → get_u32 (slice 4 8 frame) ≡ length p
  unfolding append_record get_u32 slice put_u32
  length_part h = omega arith

  checksum_part : get_u32 (slice 8 12 frame) ≡ checksum t p
  unfolding append_record get_u32 slice put_u32
  checksum_part = omega (arith, checksum-lt t p)

  payload_part : slice header_size (header_size + length p) frame ≡ p
  unfolding append_record slice put_u32
  payload_part = take-payload (length p) p rest refl

  type_part : get_or frame 12 0 ≡ t
  unfolding append_record put_u32
  type_part = refl

  -- Decoding a frame that any bytes follow gives back the record, and the frame's length.
  pub decode_record-append_record :
      valid t ≡ true
      → length p ≤ max_record_size
      → decode_record (append_record [] t p ++ rest)
        ≡ ok (record { type = t; payload = p }, header_size + length p)
  decode_record-append_record v h =
      decode_record_parts frame (length p) t p magic_part (length_part h) h
        (omega (arith, length-frame, length-append p rest)) type_part v payload_part checksum_part
