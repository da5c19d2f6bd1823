-- ===== src/ByteOrder/Tests.antt =====
-- Byte order on the values of tests/unit/test_byte_order.cpp.
use lmcore.Prelude.{◌≡◌, refl, arith, true, [], ◌∷◌, some}
use lmcore.ByteOrder.{
  swap16, swap32, swap64, host_to_network16, host_to_network32, host_to_network64,
  network_to_host16, network_to_host32, network_to_host64, read_be24, read_be32, read_be64,
  write_be24, write_be32, write_be64,
}
use lmcore.ByteOrder.Swap.{swap-swap, network_round_trip}
use lmcore.ByteOrder.Buffer.{
  ReadsBack, read_be32-write_be32, read_be24-write_be24, read_be64-write_be64, memory32,
  network_memory,
}

swap32_runs : swap32 0x12345678 ≡ 0x78563412
unfolding swap32
swap32_runs = refl

swap64_runs : swap64 0x123456789abcdef0 ≡ 0xf0debc9a78563412
unfolding swap64
swap64_runs = refl

swap-swap_example :
    (swap16 (swap16 0x1234) ≡ 0x1234)
    × (swap32 (swap32 0x12345678) ≡ 0x12345678)
    × (swap64 (swap64 0x12345678) ≡ 0x12345678)
swap-swap_example = swap-swap 0x1234 0x12345678 0x12345678 (omega arith) (omega arith) (omega arith)

network_round_trip_example :
    (network_to_host16 true (host_to_network16 true 0x1234) ≡ 0x1234)
    × (network_to_host32 true (host_to_network32 true 0x12345678) ≡ 0x12345678)
    × (network_to_host64 true (host_to_network64 true 0x12345678) ≡ 0x12345678)
network_round_trip_example =
    network_round_trip true 0x1234 0x12345678 0x12345678 (omega arith) (omega arith) (omega arith)

read_be32-write_be32_example :
    ReadsBack read_be32 4 0x12345678
      (9 ∷ 9 ∷ 9 ∷ 9 ∷ 9 ∷ [])
      (write_be32 (9 ∷ 9 ∷ 9 ∷ 9 ∷ 9 ∷ []) 0x12345678)
read_be32-write_be32_example =
    read_be32-write_be32 (9 ∷ 9 ∷ 9 ∷ 9 ∷ 9 ∷ []) 0x12345678 (omega arith) (omega arith)

read_be24-write_be24_example :
    ReadsBack read_be24 3 0x345678 (9 ∷ 9 ∷ 9 ∷ []) (write_be24 (9 ∷ 9 ∷ 9 ∷ []) 0x12345678)
read_be24-write_be24_example = read_be24-write_be24 (9 ∷ 9 ∷ 9 ∷ []) 0x12345678 (omega arith)

read_be64-write_be64_example :
    ReadsBack read_be64 8 0x12345678
      (1 ∷ 2 ∷ 3 ∷ 4 ∷ 5 ∷ 6 ∷ 7 ∷ 8 ∷ [])
      (write_be64 (1 ∷ 2 ∷ 3 ∷ 4 ∷ 5 ∷ 6 ∷ 7 ∷ 8 ∷ []) 0x12345678)
read_be64-write_be64_example = read_be64-write_be64 1 2 3 4 5 6 7 8 [] 0x12345678 (omega arith)

network_memory_example :
    some (memory32 (host_to_network32 true 0x12345678)) ≡ write_be32 (0 ∷ 0 ∷ 0 ∷ 0 ∷ []) 0x12345678
network_memory_example = network_memory 0x12345678 (omega arith)
