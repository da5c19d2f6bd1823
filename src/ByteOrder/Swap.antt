-- ===== src/ByteOrder/Swap.antt =====
-- The swaps in arithmetic, and that swapping twice gives the value back.
use lmcore.Prelude.{
  ℕ, ◌+◌, ◌*◌, ◌/◌, ◌%◌, ◌^◌, ◌<◌, ◌≡◌, refl, ap, ap₂, ◌∙◌, arith, Bool, true, false, u16, u32, u64,
  ◌<<<◌, bit_or, bit_and-low, bit_or-disjoint,
}
use native.Mathlib.Numerals.{towards_suc}
use native.Mathlib.Nat.{one-le-pow}
use lmcore.ByteOrder.{
  low_byte, swap16, swap32, swap64, host_to_network16, host_to_network32, host_to_network64,
  network_to_host16, network_to_host32, network_to_host64,
}

pub low_byte-eq : (x : ℕ) → low_byte x ≡ x % 256
low_byte-eq x = bit_and-low 8 x

pow_eight : (k : ℕ) → 2 ^ (k + 8) ≡ 256 * 2 ^ k
pow_eight k = simp towards_suc (omega arith)

scaled : (c p : ℕ) → c < 256 → 0 < p → c * p < 256 * p
scaled c p h pos = grind arith

-- A byte joins the bytes above it.
pub join_byte :
    (k q c x y : ℕ)
    → c < 256
    → x ≡ q * 2 ^ (k + 8)
    → y ≡ c * 2 ^ k
    → bit_or x y ≡ (q * 256 + c) * 2 ^ k
join_byte k q c x y h ex ey =
    ap₂ bit_or ex ey
    ∙ bit_or-disjoint (k + 8) q (c * 2 ^ k)
        (omega (arith, pow_eight k, scaled c (2 ^ k) h (one-le-pow k 2 (omega arith))))
    ∙ omega (arith, ap (λ (t : ℕ). q * t) (pow_eight k))

-- Four and eight bytes, the most significant first, as one number.
abbrev pub of_bytes32 : ℕ → ℕ → ℕ → ℕ → ℕ
of_bytes32 a b c d = ((a * 256 + b) * 256 + c) * 256 + d

pub join_bytes32 :
    (a b c d : ℕ)
    → a < 256
    → b < 256
    → c < 256
    → d < 256
    → bit_or (bit_or (bit_or (u32 (a <<< 24)) (u32 (b <<< 16))) (u32 (c <<< 8))) d
      ≡ of_bytes32 a b c d
join_bytes32 a b c d ha hb hc hd =
    join_byte 0 ((a * 256 + b) * 256 + c) d _ d hd
      (join_byte 8 (a * 256 + b) c _ _ hc (join_byte 16 a b _ _ hb (omega arith) (omega arith))
        (omega arith))
      (omega arith)
    ∙ omega arith

abbrev pub of_bytes64 : ℕ → ℕ → ℕ → ℕ → ℕ → ℕ → ℕ → ℕ → ℕ
of_bytes64 a b c d e f g h = of_bytes32 a b c d * 2 ^ 32 + of_bytes32 e f g h

pub join_bytes64 :
    (a b c d e f g h : ℕ)
    → a < 256
    → b < 256
    → c < 256
    → d < 256
    → e < 256
    → f < 256
    → g < 256
    → h < 256
    → bit_or
        (bit_or
          (bit_or
            (bit_or
              (bit_or
                (bit_or (bit_or (u64 (a <<< 56)) (u64 (b <<< 48))) (u64 (c <<< 40)))
                (u64 (d <<< 32)))
              (u64 (e <<< 24)))
            (u64 (f <<< 16)))
          (u64 (g <<< 8)))
        h
      ≡ of_bytes64 a b c d e f g h
join_bytes64 a b c d e f g h ha hb hc hd he hf hg hh =
    join_byte 0 ((((of_bytes32 a b c d) * 256 + e) * 256 + f) * 256 + g) h _ h hh
      (join_byte 8 (((of_bytes32 a b c d) * 256 + e) * 256 + f) g _ _ hg
        (join_byte 16 ((of_bytes32 a b c d) * 256 + e) f _ _ hf
          (join_byte 24 (of_bytes32 a b c d) e _ _ he
            (join_byte 32 ((a * 256 + b) * 256 + c) d _ _ hd
              (join_byte 40 (a * 256 + b) c _ _ hc
                (join_byte 48 a b _ _ hb (omega arith) (omega arith)) (omega arith))
              (omega arith))
            (omega arith))
          (omega arith))
        (omega arith))
      (omega arith)
    ∙ omega arith

swap16-eq : (v : ℕ) → v < 2 ^ 16 → swap16 v ≡ v % 256 * 256 + v / 256
unfolding swap16
swap16-eq v h =
    ap u16 (
      join_byte 0 (v % 256) (v / 256) _ _ (omega arith) (omega (arith, low_byte-eq v))
        (omega (arith, low_byte-eq (v / 256))))
    ∙ omega arith

pub swap32-eq :
    (v : ℕ)
    → v < 2 ^ 32
    → swap32 v ≡ of_bytes32 (v % 256) (v / 2 ^ 8 % 256) (v / 2 ^ 16 % 256) (v / 2 ^ 24)
unfolding swap32
swap32-eq v h =
    rw (low_byte-eq v, low_byte-eq (v / 2 ^ 8), low_byte-eq (v / 2 ^ 16), low_byte-eq (v / 2 ^ 24))
      (join_bytes32 (v % 256) (v / 2 ^ 8 % 256) (v / 2 ^ 16 % 256) (v / 2 ^ 24 % 256) (omega arith)
          (omega arith) (omega arith) (omega arith)
        ∙ omega arith)

swap64-eq :
    (v : ℕ)
    → v < 2 ^ 64
    → swap64 v
      ≡ of_bytes64
          (v % 256)
          (v / 2 ^ 8 % 256)
          (v / 2 ^ 16 % 256)
          (v / 2 ^ 24 % 256)
          (v / 2 ^ 32 % 256)
          (v / 2 ^ 40 % 256)
          (v / 2 ^ 48 % 256)
          (v / 2 ^ 56)
unfolding swap64
swap64-eq v h =
    rw
      (
        low_byte-eq v,
        low_byte-eq (v / 2 ^ 8),
        low_byte-eq (v / 2 ^ 16),
        low_byte-eq (v / 2 ^ 24),
        low_byte-eq (v / 2 ^ 32),
        low_byte-eq (v / 2 ^ 40),
        low_byte-eq (v / 2 ^ 48),
        low_byte-eq (v / 2 ^ 56),
      )
      (join_bytes64 (v % 256) (v / 2 ^ 8 % 256) (v / 2 ^ 16 % 256) (v / 2 ^ 24 % 256)
          (v / 2 ^ 32 % 256) (v / 2 ^ 40 % 256) (v / 2 ^ 48 % 256) (v / 2 ^ 56 % 256) (omega arith)
          (omega arith) (omega arith) (omega arith) (omega arith) (omega arith) (omega arith)
          (omega arith)
        ∙ omega arith)

swap16-lt : (v : ℕ) → v < 2 ^ 16 → swap16 v < 2 ^ 16
swap16-lt v h = omega (arith, swap16-eq v h)

swap32-lt : (v : ℕ) → v < 2 ^ 32 → swap32 v < 2 ^ 32
swap32-lt v h = omega (arith, swap32-eq v h)

swap64-lt : (v : ℕ) → v < 2 ^ 64 → swap64 v < 2 ^ 64
swap64-lt v h = omega (arith, swap64-eq v h)

-- `Swap16`, `Swap32` and `Swap64` undo themselves on every value of their width.
pub swap-swap :
    (u v w : ℕ)
    → u < 2 ^ 16
    → v < 2 ^ 32
    → w < 2 ^ 64
    → (swap16 (swap16 u) ≡ u) × (swap32 (swap32 v) ≡ v) × (swap64 (swap64 w) ≡ w)
swap-swap u v w hu hv hw = (
  omega (arith, swap16-eq u hu, swap16-eq (swap16 u) (swap16-lt u hu)),
  omega (arith, swap32-eq v hv, swap32-eq (swap32 v) (swap32-lt v hv)),
  omega (arith, swap64-eq w hw, swap64-eq (swap64 w) (swap64-lt w hw)),
)

-- On hosts of either byte order, what was converted to network order converts back.
pub network_round_trip :
    (little : Bool) (u v w : ℕ)
    → u < 2 ^ 16
    → v < 2 ^ 32
    → w < 2 ^ 64
    → (network_to_host16 little (host_to_network16 little u) ≡ u)
      × (network_to_host32 little (host_to_network32 little v) ≡ v)
      × (network_to_host64 little (host_to_network64 little w) ≡ w)
unfolding host_to_network16 host_to_network32 host_to_network64 network_to_host16 network_to_host32
    network_to_host64
network_round_trip true u v w hu hv hw = swap-swap u v w hu hv hw
network_round_trip false u v w hu hv hw = (refl, refl, refl)
