-- ===== src/Uuid/Version.antt =====
-- The version and the variant in the numbers and in the text.
use lmcore.Prelude.{
  ℕ, ◌+◌, ◌*◌, ◌/◌, ◌%◌, ◌^◌, ◌<◌, ◌≡◌, refl, sym, ap, ap₂, ◌∙◌, arith, true, false, get_or,
  bit_and, bit_or, bit_and-low, bit_and_split, bit_or_split, bit_or_zero, bit_and_zero,
}
use lmcore.Hex.{hex_char}
use lmcore.Uuid.{put_hex, format, generate, with_version, with_variant}

version_digit : (high : ℕ) → with_version high / 2 ^ 12 % 16 ≡ 4
unfolding with_version
version_digit high =
    let q = high / 2 ^ 16 in
    let t = high / 2 ^ 12 % 16 in
    let u = high % 2 ^ 12 in
    let x = bit_and q 0xFFFFFFFFFFFF in
    let fields : q * 2 ^ 16 + (t * 2 ^ 12 + u) ≡ high = omega arith in
    let masked : bit_and high 0xFFFFFFFFFFFF0FFF ≡ x * 2 ^ 16 + u =
      ap (λ k. bit_and k 0xFFFFFFFFFFFF0FFF) (sym fields)
      ∙ bit_and_split 16 q (t * 2 ^ 12 + u) 0xFFFFFFFFFFFF 0xFFF (omega arith) (omega arith)
      ∙ ap (λ k. x * 2 ^ 16 + k)
          (bit_and_split 12 t u 0 0xFFF (omega arith) (omega arith)
            ∙ omega (arith, bit_and_zero t, bit_and-low 12 u)) in
    let set : bit_or (x * 2 ^ 16 + u) 0x4000 ≡ x * 2 ^ 16 + (4 * 2 ^ 12 + u) =
      bit_or_split 16 x u 0 0x4000 (omega arith) (omega arith)
      ∙ ap₂ (λ a b. a * 2 ^ 16 + b) (bit_or_zero x)
          (ap (λ k. bit_or k 0x4000) (let z : u ≡ 0 * 2 ^ 12 + u = omega arith in z)
            ∙ bit_or_split 12 0 u 4 0 (omega arith) (omega arith)
            ∙ ap (λ k. 4 * 2 ^ 12 + k) (bit_or_zero u)) in
    ap (λ k. k / 2 ^ 12 % 16) (ap (λ k. bit_or k 0x4000) masked ∙ set) ∙ omega arith

variant_digit : (low : ℕ) → low < 2 ^ 64 → with_variant low / 2 ^ 60 % 16 ≡ 8 + low / 2 ^ 60 % 4
unfolding with_variant
variant_digit low h =
    let t = low / 2 ^ 62 in
    let u = low % 2 ^ 62 in
    let fields : t * 2 ^ 62 + u ≡ low = omega arith in
    let masked : bit_and low 0x3FFFFFFFFFFFFFFF ≡ u = bit_and-low 62 low in
    let set : bit_or u 0x8000000000000000 ≡ 2 * 2 ^ 62 + u =
      ap (λ k. bit_or k 0x8000000000000000) (let z : u ≡ 0 * 2 ^ 62 + u = omega arith in z)
      ∙ bit_or_split 62 0 u 2 0 (omega arith) (omega arith)
      ∙ ap (λ k. 2 * 2 ^ 62 + k) (bit_or_zero u) in
    ap (λ k. k / 2 ^ 60 % 16) (ap (λ k. bit_or k 0x8000000000000000) masked ∙ set) ∙ omega arith

four : hex_char false 4 ≡ b'4'
unfolding hex_char
four = refl

-- The text has the digit 4 of the version at its place, and a digit from 8 to b for the variant.
pub version_lem :
    (high low : ℕ)
    → low < 2 ^ 64
    → (get_or (generate true high low) 14 0 ≡ b'4')
      × (get_or (generate true high low) 19 0 ≡ hex_char false (8 + low / 2 ^ 60 % 4))
unfolding generate format put_hex
version_lem high low h = (
  ap (hex_char false) {y = 4}
        (omega (arith, bit_and-low 16 (with_version high), version_digit high))
      ∙ four,
  ap (hex_char false)
      (omega (arith, bit_and-low 16 (with_variant low / 2 ^ 48), variant_digit low h)),
)
