-- ===== src/Hex/Digits.antt =====
-- The digits one by one.
use lmcore.Prelude.{
  ℕ, ◌*◌, ◌/◌, ◌%◌, ◌<◌, ◌≡◌, refl, ap, ap₂, ◌∙◌, arith, Bool, true, false, ◌&&◌, ◌==◌, Option,
  none, some, passes, passes_at, Option-cases, inl, inr, u8, bit_and, bit_or, bit_and-low,
  bit_or-disjoint,
}
use lmcore.Hex.{is_xdigit, hex_char, char_to_nibble, pair_byte}

-- A digit is one, and stands for its value.
abbrev is_nibble : Option ℕ → ℕ → Bool
is_nibble none n = false
is_nibble (some k) n = k == n

is_nibble_iff : (o : Option ℕ) (n : ℕ) → is_nibble o n ≡ true → o ≡ some n
is_nibble_iff none n h = cc
is_nibble_iff (some k) n h = ap some (ground arith)

digit_table :
    (u : Bool)
    → passes (λ n. is_xdigit (hex_char u n) && is_nibble (char_to_nibble (hex_char u n)) n) 16
      ≡ true
unfolding passes is_xdigit hex_char char_to_nibble
digit_table true = refl
digit_table false = refl

pub digit_lem :
    (u : Bool) (n : ℕ)
    → n < 16
    → (is_xdigit (hex_char u n) ≡ true) × (char_to_nibble (hex_char u n) ≡ some n)
digit_lem u n h =
    let both = passes_at _ 16 n h (digit_table u) in
    (ground arith, is_nibble_iff (char_to_nibble (hex_char u n)) n (ground arith))

pub pair_byte_lem :
    (b : ℕ) → b < 256 → pair_byte (some (bit_and (b / 16) 0x0f)) (some (bit_and b 0x0f)) ≡ some b
pair_byte_lem b h = ap some (
    ap u8 (
      ap₂ (λ x y. bit_or (x * 16) y) (bit_and-low 4 (b / 16)) (bit_and-low 4 b)
      ∙ bit_or-disjoint 4 (b / 16 % 16) (b % 16) (omega arith))
    ∙ omega arith)

pub nibble-lt : (b : ℕ) → (bit_and (b / 16) 0x0f < 16) × (bit_and b 0x0f < 16)
nibble-lt b = (omega (arith, bit_and-low 4 (b / 16)), omega (arith, bit_and-low 4 b))

-- Every hexadecimal digit has a value.
has_nibble : (c : ℕ) → is_xdigit c ≡ true → char_to_nibble c ≡ none → ⊥
unfolding is_xdigit char_to_nibble
has_nibble c h e = ground arith

pub nibble_of_xdigit : (c : ℕ) → is_xdigit c ≡ true → (n : ℕ) × (char_to_nibble c ≡ some n)
nibble_of_xdigit c h = elim (Option-cases (char_to_nibble c)) [
  | inl e ↦ absurd (has_nibble c h e)
  | inr w ↦ w
]
