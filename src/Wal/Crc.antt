-- ===== src/Wal/Crc.antt =====
-- hash/crc32 as internal/wal/record.go uses it: the Castagnoli table and `crc32.Update`.
use Prim.Native.Nat.{bit_xor}
use stitch.Prelude.{
  ℕ, zero, suc, ◌-◌, ◌/◌, ◌%◌, ◌^◌, ◌<◌, ◌≡◌, refl, List, [], ◌∷◌, arith, ◌==◌, if◌then◌else◌,
}

-- One of the eight shifts that compute a table entry, with the reversed polynomial.
crc_shift : ℕ → ℕ
crc_shift c = if c % 2 == 0 then c / 2 else bit_xor (c / 2) 0x82f63b78

table_entry : ℕ → ℕ → ℕ
table_entry zero c = c
table_entry (suc k) c = table_entry k (crc_shift c)

crc_bytes : ℕ → List ℕ → ℕ
unfolding table_entry crc_shift
crc_bytes c [] = c
crc_bytes c (v ∷ p) = crc_bytes (bit_xor (table_entry 8 (bit_xor (c % 256) v)) (c / 256)) p

-- `^x` on a uint32
abbrev complement : ℕ → ℕ
complement x = 2 ^ 32 - 1 - x

-- crc32.Update
unfoldable pub crc_update : ℕ → List ℕ → ℕ
unfolding crc_bytes
crc_update crc p = complement (crc_bytes (complement crc) p)

pub crc_update-lt : (crc : ℕ) (p : List ℕ) → crc_update crc p < 2 ^ 32
unfolding crc_update
crc_update-lt crc p = omega arith

-- The check value of CRC-32C: the checksum of the text 123456789.
check_value :
    crc_update 0 (b'1' ∷ b'2' ∷ b'3' ∷ b'4' ∷ b'5' ∷ b'6' ∷ b'7' ∷ b'8' ∷ b'9' ∷ []) ≡ 0xe3069283
unfolding crc_update
check_value = refl
