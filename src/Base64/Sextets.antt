-- ===== src/Base64/Sextets.antt =====
-- The arithmetic of the groups, and the table of characters.
use lmcore.Prelude.{
  ℕ, ◌+◌, ◌*◌, ◌/◌, ◌%◌, ◌<◌, ◌≡◌, refl, arith, true, false, ◌&&◌, not, ◌==◌, passes, passes_at,
  bit_and, bit_and-low,
}
use lmcore.Base64.{
  is_base64_char, char_at, value_of, sextet0, sextet1, sextet2, sextet3, octet0, octet1, octet2,
}

char_table :
    passes
      (λ n. (value_of (char_at n) == n) && (is_base64_char (char_at n) && not (char_at n == b'=')))
      64
    ≡ true
unfolding passes value_of char_at is_base64_char
char_table = refl

-- Each of the 64 characters is accepted, and is found at its index.
pub char_at_lem :
    (n : ℕ)
    → n < 64
    → (value_of (char_at n) ≡ n)
      × (is_base64_char (char_at n) ≡ true)
      × ((char_at n == b'=') ≡ false)
char_at_lem n h =
    let all = passes_at _ 64 n h char_table in (ground arith, ground arith, ground arith)

high_table :
    passes
      (λ b.
        (bit_and b 0xfc / 4 == b / 4)
        && ((bit_and b 0xf0 / 16 == b / 16) && (bit_and b 0xc0 / 64 == b / 64)))
      256
    ≡ true
unfolding passes
high_table = refl

pub high_bits :
    (b : ℕ)
    → b < 256
    → (bit_and b 0xfc / 4 ≡ b / 4) × (bit_and b 0xf0 / 16 ≡ b / 16) × (bit_and b 0xc0 / 64 ≡ b / 64)
high_bits b h =
    let all = passes_at _ 256 b h high_table in (ground arith, ground arith, ground arith)

middle_table :
    passes (λ x. (bit_and x 0x30 / 16 == x / 16) && (bit_and x 0x3c / 4 == x / 4)) 64 ≡ true
unfolding passes
middle_table = refl

pub middle_bits : (x : ℕ) → x < 64 → (bit_and x 0x30 / 16 ≡ x / 16) × (bit_and x 0x3c / 4 ≡ x / 4)
middle_bits x h = let all = passes_at _ 64 x h middle_table in (ground arith, ground arith)

-- The sextets in arithmetic, and their range.
pub sextet_lem :
    (a b : ℕ)
    → a < 256
    → b < 256
    → (sextet0 a ≡ a / 4)
      × (sextet1 a b ≡ a % 4 * 16 + b / 16)
      × (sextet2 a b ≡ a % 16 * 4 + b / 64)
      × (sextet3 a ≡ a % 64)
sextet_lem a b ha hb = (
  (high_bits a ha).0,
  omega (arith, bit_and-low 2 a, high_bits b hb),
  omega (arith, bit_and-low 4 a, high_bits b hb),
  bit_and-low 6 a,
)

pub octet_lem :
    (x y : ℕ)
    → x < 64
    → y < 64
    → (octet0 x y ≡ x * 4 + y / 16)
      × (octet1 x y ≡ x % 16 * 16 + y / 4)
      × (octet2 x y ≡ x % 4 * 64 + y)
octet_lem x y hx hy = (
  omega (arith, middle_bits y hy),
  omega (arith, bit_and-low 4 x, middle_bits y hy),
  omega (arith, bit_and-low 2 x),
)
