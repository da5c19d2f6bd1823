-- ===== src/ByteOrder.antt =====
-- include/lmcore/byte_order.h: `ByteOrder`, conversions between host and network byte order and
-- big-endian access to buffers. `none` is an access outside the buffer.
pub mod Swap
pub mod Buffer
mod Tests
use lmcore.Prelude.{
  ℕ, ◌/◌, ◌*◌, ◌^◌, Bool, if◌then◌else◌, List, [], ◌∷◌, Option, none, some, Bytes, u8, u16, u32,
  u64, ◌<<<◌, ◌>>>◌, bit_and, bit_or,
}

-- `x & 0xFF`
abbrev pub low_byte : ℕ → ℕ
low_byte x = bit_and x 0xff

pub swap16 : ℕ → ℕ
swap16 v = u16 (bit_or (low_byte v <<< 8) (low_byte (v >>> 8)))

pub swap32 : ℕ → ℕ
swap32 v =
    bit_or
      (bit_or (bit_or (u32 (low_byte v <<< 24)) (u32 (low_byte (v >>> 8) <<< 16)))
        (u32 (low_byte (v >>> 16) <<< 8)))
      (low_byte (v >>> 24))

pub swap64 : ℕ → ℕ
swap64 v =
    bit_or
      (bit_or
        (bit_or
          (bit_or
            (bit_or
              (bit_or (bit_or (u64 (low_byte v <<< 56)) (u64 (low_byte (v >>> 8) <<< 48)))
                (u64 (low_byte (v >>> 16) <<< 40)))
              (u64 (low_byte (v >>> 24) <<< 32)))
            (u64 (low_byte (v >>> 32) <<< 24)))
          (u64 (low_byte (v >>> 40) <<< 16)))
        (u64 (low_byte (v >>> 48) <<< 8)))
      (low_byte (v >>> 56))

-- `little` is LMCORE_LITTLE_ENDIAN. The code writes the same expression once more for each.
module _ (little : Bool) where
  pub host_to_network16 : ℕ → ℕ
  host_to_network16 v = if little then swap16 v else v

  pub host_to_network32 : ℕ → ℕ
  host_to_network32 v = if little then swap32 v else v

  pub host_to_network64 : ℕ → ℕ
  host_to_network64 v = if little then swap64 v else v

  pub network_to_host16 : ℕ → ℕ
  network_to_host16 v = if little then swap16 v else v

  pub network_to_host32 : ℕ → ℕ
  network_to_host32 v = if little then swap32 v else v

  pub network_to_host64 : ℕ → ℕ
  network_to_host64 v = if little then swap64 v else v

pub read_be16 : Bytes → Option ℕ
read_be16 (a ∷ b ∷ r) = some (u16 (bit_or (a <<< 8) b))
read_be16 _ = none

pub read_be24 : Bytes → Option ℕ
read_be24 (a ∷ b ∷ c ∷ r) = some (bit_or (bit_or (u32 (a <<< 16)) (u32 (b <<< 8))) c)
read_be24 _ = none

pub read_be32 : Bytes → Option ℕ
read_be32 (a ∷ b ∷ c ∷ d ∷ r) =
    some (bit_or (bit_or (bit_or (u32 (a <<< 24)) (u32 (b <<< 16))) (u32 (c <<< 8))) d)
read_be32 _ = none

pub read_be64 : Bytes → Option ℕ
read_be64 (a ∷ b ∷ c ∷ d ∷ e ∷ f ∷ g ∷ h ∷ r) = some (
    bit_or
      (bit_or
        (bit_or
          (bit_or
            (bit_or (bit_or (bit_or (u64 (a <<< 56)) (u64 (b <<< 48))) (u64 (c <<< 40)))
              (u64 (d <<< 32)))
            (u64 (e <<< 24)))
          (u64 (f <<< 16)))
        (u64 (g <<< 8)))
      h)
read_be64 _ = none

-- The first bytes of the buffer are overwritten.
pub write_be16 : Bytes → ℕ → Option Bytes
write_be16 (_ ∷ _ ∷ r) v = some (low_byte (v >>> 8) ∷ low_byte v ∷ r)
write_be16 _ v = none

pub write_be24 : Bytes → ℕ → Option Bytes
write_be24 (_ ∷ _ ∷ _ ∷ r) v = some (low_byte (v >>> 16) ∷ low_byte (v >>> 8) ∷ low_byte v ∷ r)
write_be24 _ v = none

pub write_be32 : Bytes → ℕ → Option Bytes
write_be32 (_ ∷ _ ∷ _ ∷ _ ∷ r) v =
    some (low_byte (v >>> 24) ∷ low_byte (v >>> 16) ∷ low_byte (v >>> 8) ∷ low_byte v ∷ r)
write_be32 _ v = none

pub write_be64 : Bytes → ℕ → Option Bytes
write_be64 (_ ∷ _ ∷ _ ∷ _ ∷ _ ∷ _ ∷ _ ∷ _ ∷ r) v = some (
    low_byte (v >>> 56)
    ∷ low_byte (v >>> 48)
    ∷ low_byte (v >>> 40)
    ∷ low_byte (v >>> 32)
    ∷ low_byte (v >>> 24)
    ∷ low_byte (v >>> 16)
    ∷ low_byte (v >>> 8)
    ∷ low_byte v
    ∷ r)
write_be64 _ v = none
