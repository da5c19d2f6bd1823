-- ===== src/Crc32.antt =====
-- src/crc32.cpp, include/lmcore/crc32.h: `CRC32`, the checksum by a table, at once or piece by piece.
pub mod Table
mod Tests
use lmcore.Prelude.{
  ℕ, zero, suc, ◌/◌, ◌%◌, if◌then◌else◌, ◌==◌, List, [], ◌∷◌, Bytes, get_or, bit_and, bit_xor,
  ◌>>>◌,
}

-- A round of the inner loop of `InitTable`.
pub shift_bit : ℕ → ℕ
shift_bit crc = if bit_and crc 1 == 1 then bit_xor (crc >>> 1) 0xEDB88320 else crc >>> 1

abbrev pub shift_bits : ℕ → ℕ → ℕ
shift_bits zero crc = crc
shift_bits (suc n) crc = shift_bits n (shift_bit crc)

-- `table_` from the entry `i` on.
pub table_from : ℕ → ℕ → List ℕ
table_from zero i = []
table_from (suc n) i = shift_bits 8 i ∷ table_from n (suc i)

-- `InitTable`, which fills the table once.
pub table : List ℕ
table = table_from 256 0

-- A round of the loop of `UpdateInternal`.
pub update_byte : ℕ → ℕ → ℕ
update_byte crc b = bit_xor (get_or table (bit_and (bit_xor crc b) 0xff) 0) (crc >>> 8)

pub update : ℕ → Bytes → ℕ
update crc [] = crc
update crc (b ∷ bs) = update (update_byte crc b) bs

pub calculate : Bytes → ℕ
calculate bytes = bit_xor (update 0xFFFFFFFF bytes) 0xFFFFFFFF

-- `Context`: its `crc_`.
abbrev pub new_context : ℕ
new_context = 0xFFFFFFFF

pub context_update : ℕ → List Bytes → ℕ
context_update crc [] = crc
context_update crc (piece ∷ rest) = context_update (update crc piece) rest

pub final : ℕ → ℕ
final crc = bit_xor crc 0xFFFFFFFF
