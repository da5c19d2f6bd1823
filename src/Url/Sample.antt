-- ===== src/Url/Sample.antt =====
-- Functions that satisfy the laws of `IsStd`.
use lmcore.Prelude.{
  ℕ, ◌+◌, ◌*◌, ◌/◌, ◌%◌, ◌^◌, ◌-◌, ◌<◌, ◌≡◌, refl, ap, ap₂, ◌∙◌, arith, true, [], ◌∷◌, Option, none,
  some, All, Bytes,
}
use lmcore.Hex.{hex_char, char_to_nibble}
use lmcore.Hex.Digits.{digit_lem}
use lmcore.Url.{Std, is_digit}
use lmcore.Url.Codec.{IsStd}
use lmcore.Url.Match.{match_whole}

-- Five digits.
digit : ℕ → ℕ
digit n = 48 + n % 10

print_five : ℕ → Bytes
print_five n =
    digit (n / 10000) ∷ digit (n / 1000) ∷ digit (n / 100) ∷ digit (n / 10) ∷ digit n ∷ []

read_five : Bytes → Option ℕ
read_five (a ∷ b ∷ c ∷ d ∷ e ∷ []) =
    some ((a - 48) * 10000 + (b - 48) * 1000 + (c - 48) * 100 + (d - 48) * 10 + (e - 48))
read_five _ = none

read_five-print_five : (n : ℕ) → n < 2 ^ 16 → read_five (print_five n) ≡ some n
unfolding read_five print_five digit
read_five-print_five n h = ap some (omega arith)

decimal_lem : (n : ℕ) → is_digit (digit n) ≡ true
unfolding digit
decimal_lem n = ground arith

prints_digits : (n : ℕ) → All (λ c. is_digit c ≡ true) (print_five n)
unfolding print_five
prints_digits n = (
  decimal_lem (n / 10000),
  (decimal_lem (n / 1000), (decimal_lem (n / 100), (decimal_lem (n / 10), (decimal_lem n, tt)))),
)

abbrev pair_value : Option ℕ → Option ℕ → Option ℕ
pair_value (some h) (some l) = some (h * 16 + l)
pair_value _ _ = none

read_hex : Bytes → Option ℕ
read_hex (a ∷ b ∷ []) = pair_value (char_to_nibble a) (char_to_nibble b)
read_hex _ = none

read_hex_lem :
    (c : ℕ) → c < 256 → read_hex (hex_char true (c / 16) ∷ hex_char true (c % 16) ∷ []) ≡ some c
unfolding read_hex
read_hex_lem c h =
    ap₂ pair_value (digit_lem true (c / 16) (omega arith)).1
      (digit_lem true (c % 16) (omega arith)).1
    ∙ ap some (omega arith)

pub sample : Std
sample = record {
  regex_match = match_whole;
  stoi = read_five;
  stoi_hex = read_hex;
  print = print_five;
}

pub sample-IsStd : IsStd sample
unfolding sample
sample-IsStd = record {
  matches = λ text. refl;
  reads_port = read_five-print_five;
  prints_digits = prints_digits;
  reads_hex = read_hex_lem;
}
