-- ===== src/Crc32/Tests.antt =====
-- The check value of the CRC-32 of Ethernet.
use lmcore.Prelude.{◌≡◌, refl, arith, [], ◌∷◌, codes, bit_xor}
use lmcore.Crc32.{
  shift_bit, shift_bits, table_from, table, update_byte, update, calculate, new_context,
  context_update, final,
}
use lmcore.Crc32.Table.{update_byte_lem, concat, final-context_update}

check_value : calculate (codes "123456789") ≡ 0xCBF43926
unfolding calculate update update_byte table table_from shift_bit
check_value = refl

update_byte_lem_example : update_byte 0xFFFFFFFF 0x31 ≡ shift_bits 8 (bit_xor 0xFFFFFFFF 0x31)
update_byte_lem_example = update_byte_lem 0xFFFFFFFF 0x31 (omega arith)

final-context_update_example :
    final (context_update new_context (codes "1234" ∷ codes "56789" ∷ []))
    ≡ calculate (concat (codes "1234" ∷ codes "56789" ∷ []))
final-context_update_example = final-context_update (codes "1234" ∷ codes "56789" ∷ [])
