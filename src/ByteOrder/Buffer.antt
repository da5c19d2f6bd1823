-- ===== src/ByteOrder/Buffer.antt =====
-- Big-endian reads and writes.
use lmcore.Prelude.{
  ℕ, ◌+◌, ◌*◌, ◌/◌, ◌%◌, ◌^◌, ◌<◌, ◌≤◌, ◌≡◌, refl, ap, ◌∙◌, arith, true, [], ◌∷◌, Option, none,
  some, Bytes, u16, All, IsByte, length, drop,
}
use lmcore.ByteOrder.{
  low_byte, read_be16, read_be24, read_be32, read_be64, write_be16, write_be24, write_be32,
  write_be64, host_to_network32,
}
use lmcore.ByteOrder.Swap.{
  low_byte-eq, swap32-eq, join_byte, join_bytes32, join_bytes64, of_bytes32, of_bytes64,
}

-- The write stays inside the buffer, and a read of the buffer gives the value back.
abbrev pub ReadsBack : (Bytes → Option ℕ) → ℕ → ℕ → Bytes → Option Bytes → Type 0
ReadsBack read k v p none = ⊥
ReadsBack read k v p (some q) = (read q ≡ some v) × (length q ≡ length p) × (drop k q ≡ drop k p)

low_byte-lt : (x : ℕ) → low_byte x < 256
low_byte-lt x = omega (arith, low_byte-eq x)

read_be32-eq :
    (a b c d : ℕ) (r : Bytes)
    → a < 256
    → b < 256
    → c < 256
    → d < 256
    → read_be32 (a ∷ b ∷ c ∷ d ∷ r) ≡ some (of_bytes32 a b c d)
unfolding read_be32
read_be32-eq a b c d r ha hb hc hd = ap some (join_bytes32 a b c d ha hb hc hd)

-- What `WriteBE16` writes `ReadBE16` reads back; the rest of the buffer is unchanged.
pub read_be16-write_be16 :
    (p : Bytes) (v : ℕ) → 2 ≤ length p → v < 2 ^ 16 → ReadsBack read_be16 2 v p (write_be16 p v)
unfolding write_be16 read_be16
read_be16-write_be16 [] v h k = absurd (omega arith)
read_be16-write_be16 (a ∷ []) v h k = absurd (omega arith)
read_be16-write_be16 (a ∷ b ∷ r) v h k = (
  ap (λ x. some (u16 x))
        (join_byte 0 (low_byte (v / 256)) (low_byte v) _ _ (low_byte-lt v) (omega arith)
          (omega arith))
      ∙ ap some (omega (arith, low_byte-eq v, low_byte-eq (v / 256))),
  refl,
  refl,
)

-- What `WriteBE32` writes `ReadBE32` reads back; the rest of the buffer is unchanged.
pub read_be32-write_be32 :
    (p : Bytes) (v : ℕ) → 4 ≤ length p → v < 2 ^ 32 → ReadsBack read_be32 4 v p (write_be32 p v)
unfolding write_be32
read_be32-write_be32 [] v h k = absurd (omega arith)
read_be32-write_be32 (a ∷ []) v h k = absurd (omega arith)
read_be32-write_be32 (a ∷ b ∷ []) v h k = absurd (omega arith)
read_be32-write_be32 (a ∷ b ∷ c ∷ []) v h k = absurd (omega arith)
read_be32-write_be32 (a ∷ b ∷ c ∷ d ∷ r) v h k = (
  read_be32-eq (low_byte (v / 2 ^ 24)) (low_byte (v / 2 ^ 16)) (low_byte (v / 2 ^ 8)) (low_byte v) r
        (low_byte-lt _) (low_byte-lt _) (low_byte-lt _) (low_byte-lt _)
      ∙ ap some (
          omega (
            arith,
            low_byte-eq v,
            low_byte-eq (v / 2 ^ 8),
            low_byte-eq (v / 2 ^ 16),
            low_byte-eq (v / 2 ^ 24),
          )),
  refl,
  refl,
)

-- What `WriteBE24` writes `ReadBE24` reads back, of the low 24 bits; the rest is unchanged.
pub read_be24-write_be24 :
    (p : Bytes) (v : ℕ) → 3 ≤ length p → ReadsBack read_be24 3 (v % 2 ^ 24) p (write_be24 p v)
unfolding write_be24 read_be24
read_be24-write_be24 [] v h = absurd (omega arith)
read_be24-write_be24 (a ∷ []) v h = absurd (omega arith)
read_be24-write_be24 (a ∷ b ∷ []) v h = absurd (omega arith)
read_be24-write_be24 (a ∷ b ∷ c ∷ r) v h = (
  ap some (
      join_byte 0 (low_byte (v / 2 ^ 16) * 256 + low_byte (v / 2 ^ 8)) (low_byte v) _ _
        (low_byte-lt v)
        (join_byte 8 (low_byte (v / 2 ^ 16)) (low_byte (v / 2 ^ 8)) _ _ (low_byte-lt (v / 2 ^ 8))
          (omega (arith, low_byte-lt (v / 2 ^ 16))) (omega (arith, low_byte-lt (v / 2 ^ 8))))
        (omega arith)
      ∙ omega (arith, low_byte-eq v, low_byte-eq (v / 2 ^ 8), low_byte-eq (v / 2 ^ 16))),
  refl,
  refl,
)

read_be64-eq :
    (a b c d e f g h : ℕ) (r : Bytes)
    → All IsByte (a ∷ b ∷ c ∷ d ∷ e ∷ f ∷ g ∷ h ∷ [])
    → read_be64 (a ∷ b ∷ c ∷ d ∷ e ∷ f ∷ g ∷ h ∷ r) ≡ some (of_bytes64 a b c d e f g h)
unfolding read_be64
read_be64-eq a b c d e f g h r (ha, (hb, (hc, (hd, (he, (hf, (hg, (hh, _)))))))) =
    ap some (join_bytes64 a b c d e f g h ha hb hc hd he hf hg hh)

written64 :
    (v : ℕ)
    → v < 2 ^ 64
    → of_bytes64
        (low_byte (v / 2 ^ 56))
        (low_byte (v / 2 ^ 48))
        (low_byte (v / 2 ^ 40))
        (low_byte (v / 2 ^ 32))
        (low_byte (v / 2 ^ 24))
        (low_byte (v / 2 ^ 16))
        (low_byte (v / 2 ^ 8))
        (low_byte v)
      ≡ v
written64 v h = omega (
  arith,
  low_byte-eq v,
  low_byte-eq (v / 2 ^ 8),
  low_byte-eq (v / 2 ^ 16),
  low_byte-eq (v / 2 ^ 24),
  low_byte-eq (v / 2 ^ 32),
  low_byte-eq (v / 2 ^ 40),
  low_byte-eq (v / 2 ^ 48),
  low_byte-eq (v / 2 ^ 56),
)

-- What `WriteBE64` writes at the front of a buffer `ReadBE64` reads back; the rest is unchanged.
pub read_be64-write_be64 :
    (a b c d e f g h : ℕ) (r : Bytes) (v : ℕ)
    → v < 2 ^ 64
    → let p = a ∷ b ∷ c ∷ d ∷ e ∷ f ∷ g ∷ h ∷ r in ReadsBack read_be64 8 v p (write_be64 p v)
unfolding write_be64
read_be64-write_be64 a b c d e f g h r v k = (
  read_be64-eq (low_byte (v / 2 ^ 56)) (low_byte (v / 2 ^ 48)) (low_byte (v / 2 ^ 40))
        (low_byte (v / 2 ^ 32)) (low_byte (v / 2 ^ 24)) (low_byte (v / 2 ^ 16))
        (low_byte (v / 2 ^ 8)) (low_byte v) r
        (
          low_byte-lt _,
          (
            low_byte-lt _,
            (
              low_byte-lt _,
              (
                low_byte-lt _,
                (low_byte-lt _, (low_byte-lt _, (low_byte-lt _, (low_byte-lt _, tt)))),
              ),
            ),
          ),
        )
      ∙ ap some (written64 v k),
  refl,
  refl,
)

-- The bytes of a 32-bit value in the memory of a little-endian host.
abbrev pub memory32 : ℕ → Bytes
memory32 v = v % 256 ∷ v / 2 ^ 8 % 256 ∷ v / 2 ^ 16 % 256 ∷ v / 2 ^ 24 % 256 ∷ []

-- On a little-endian host the value in network order lies in memory as `WriteBE32` writes it.
pub network_memory :
    (v : ℕ)
    → v < 2 ^ 32
    → some (memory32 (host_to_network32 true v)) ≡ write_be32 (0 ∷ 0 ∷ 0 ∷ 0 ∷ []) v
unfolding write_be32 host_to_network32
network_memory v h = ap some (
    ground (
      arith,
      swap32-eq v h,
      low_byte-eq v,
      low_byte-eq (v / 2 ^ 8),
      low_byte-eq (v / 2 ^ 16),
      low_byte-eq (v / 2 ^ 24),
    ))
