-- ===== src/Wal/Record.antt =====
-- internal/wal/record.go: record types, the frame layout, encoding and decoding.
-- A byte slice is a list of numbers; the tests `valid` and the bounds are those of the source.
pub mod RoundTrip
pub mod Torn
use stitch.Prelude.{
  ℕ, zero, suc, ◌+◌, ◌-◌, ◌*◌, ◌/◌, ◌%◌, ◌^◌, Bool, not, ◌&&◌, ◌||◌, List, [], ◌∷◌, ◌++◌, Result,
  ok, err, ltb, leb, ◌==◌, length, get_or, take, drop, if◌then◌else◌,
}
use stitch.Wal.Crc.{crc_update}

abbrev pub record_enqueue : ℕ
record_enqueue = 1

abbrev pub record_lease : ℕ
record_lease = 2

abbrev pub record_ack : ℕ
record_ack = 3

abbrev pub record_nack : ℕ
record_nack = 4

abbrev pub record_lease_expire : ℕ
record_lease_expire = 5

abbrev pub record_dlq_move : ℕ
record_dlq_move = 6

abbrev pub record_queue_create : ℕ
record_queue_create = 7

-- RecordType.valid
abbrev pub valid : ℕ → Bool
valid t = leb record_enqueue t && leb t record_queue_create

pub record Record : Type 0 where
  pub type : ℕ
  pub payload : List ℕ

abbrev pub record_magic : ℕ
record_magic = 0x5157414c

abbrev pub header_size : ℕ
header_size = 13

-- 16 << 20
abbrev pub max_record_size : ℕ
max_record_size = 16777216

pub data FrameError : Type 0 where
  torn_record : FrameError

unfoldable pub checksum : ℕ → List ℕ → ℕ
checksum typ payload = crc_update (crc_update 0 (typ ∷ [])) payload

unfoldable pub encoded_size : List ℕ → ℕ
encoded_size payload = header_size + length payload

-- binary.BigEndian.PutUint32, as the four bytes that it writes
put_u32 : ℕ → List ℕ
put_u32 v = (v / 2 ^ 24 % 256) ∷ (v / 2 ^ 16 % 256) ∷ (v / 2 ^ 8 % 256) ∷ (v % 256) ∷ []

-- binary.BigEndian.Uint32 of a slice of four bytes
unfoldable pub get_u32 : List ℕ → ℕ
get_u32 b = get_or b 0 0 * 2 ^ 24 + get_or b 1 0 * 2 ^ 16 + get_or b 2 0 * 2 ^ 8 + get_or b 3 0

-- `buf[lo:hi]`
unfoldable pub slice : ℕ → ℕ → List ℕ → List ℕ
slice lo hi buf = take (hi - lo) (drop lo buf)

header : ℕ → List ℕ → List ℕ
unfolding put_u32
header typ payload =
    put_u32 record_magic
    ++ (put_u32 (length payload % 2 ^ 32) ++ (put_u32 (checksum typ payload) ++ (typ ∷ [])))

unfoldable pub append_record : List ℕ → ℕ → List ℕ → List ℕ
unfolding header
append_record dst typ payload = (dst ++ header typ payload) ++ payload

unfoldable pub decode_record : List ℕ → Result FrameError (Record × ℕ)
decode_record buf =
    if ltb (length buf) header_size
    then err torn_record
    else if not (get_u32 (slice 0 4 buf) == record_magic)
    then err torn_record
    else let len = get_u32 (slice 4 8 buf) in
      if ltb max_record_size len || ltb (length buf) (header_size + len)
      then err torn_record
      else let typ = get_or buf 12 0 in
        let payload = slice header_size (header_size + len) buf in
        if not (valid typ)
        then err torn_record
        else if not (get_u32 (slice 8 12 buf) == checksum typ payload)
        then err torn_record
        else ok (record { type = typ; payload = payload }, header_size + len)
