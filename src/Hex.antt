-- ===== src/Hex.antt =====
-- src/hex.cpp: `Hex`, bytes as hexadecimal text and back. A `char` is its unsigned value.
pub mod Digits
pub mod RoundTrip
mod Tests
use mathlib.Core.Option
use lmcore.Prelude.{
  ℕ, zero, suc, ◌+◌, ◌-◌, ◌%◌, Bool, true, false, ◌&&◌, ◌||◌, not, if◌then◌else◌, leb, ltb, ◌==◌,
  List, [], ◌∷◌, ◌++◌, Option, none, some, Bytes, codes, get_or, length, u8, ◌<<<◌, ◌>>>◌, bit_and,
  bit_or,
}

abbrev pub hex_chars_upper : Bytes
hex_chars_upper = codes "0123456789ABCDEF"

abbrev pub hex_chars_lower : Bytes
hex_chars_lower = codes "0123456789abcdef"

-- `std::isxdigit`
unfoldable pub is_xdigit : ℕ → Bool
is_xdigit c =
    (leb b'0' c && leb c b'9') || ((leb b'a' c && leb c b'f') || (leb b'A' c && leb c b'F'))

-- `hex_chars[n]`, for an index below 16.
unfoldable pub hex_char : Bool → ℕ → ℕ
hex_char uppercase n = get_or (if uppercase then hex_chars_upper else hex_chars_lower) n 0

module _ (uppercase : Bool) (separator : ℕ) where
  -- The two digits of a byte.
  abbrev pub digits : ℕ → Bytes
  digits b = hex_char uppercase (bit_and (b >>> 4) 0x0f) ∷ hex_char uppercase (bit_and b 0x0f) ∷ []

  -- The rounds of the loop after the first, each with its separator.
  pub encode_more : Bytes → Bytes
  encode_more [] = []
  encode_more (b ∷ bs) =
      let rest = encode_more bs in
      (if separator == 0 then [] else separator ∷ []) ++ (digits b ++ rest)

  pub encode_all : Bytes → Bytes
  unfolding encode_more
  encode_all [] = []
  encode_all (b ∷ bs) = digits b ++ encode_more bs

  -- A null pointer gives the empty text.
  pub encode : Option Bytes → Bytes
  unfolding encode_all
  encode none = []
  encode (some bs) = encode_all bs

-- `clean_hex`: the hexadecimal digits of the text.
pub clean : Bytes → Bytes
clean [] = []
clean (c ∷ cs) = let rest = clean cs in if is_xdigit c then c ∷ rest else rest

-- `none` for the code's -1.
pub char_to_nibble : ℕ → Option ℕ
char_to_nibble c =
    if leb b'0' c && leb c b'9'
    then some (c - b'0')
    else if leb b'a' c && leb c b'f'
    then some (c - b'a' + 10)
    else if leb b'A' c && leb c b'F'
    then some (c - b'A' + 10)
    else none

abbrev pub pair_byte : Option ℕ → Option ℕ → Option ℕ
pair_byte (some h) (some l) = some (u8 (bit_or (h <<< 4) l))
pair_byte _ _ = none

-- The result and `output`, which is cleared on failure.
abbrev pub push_pair : Option ℕ → Bool × Bytes → Bool × Bytes
push_pair none r = (false, [])
push_pair (some b) (false, out) = (false, [])
push_pair (some b) (true, out) = (true, b ∷ out)

-- The loop over pairs of digits, for an even number of them.
pub decode_pairs : Bytes → Bool × Bytes
decode_pairs [] = (true, [])
decode_pairs (h ∷ []) = (false, [])
decode_pairs (h ∷ l ∷ r) =
    push_pair (pair_byte (char_to_nibble h) (char_to_nibble l)) (decode_pairs r)

pub decode : Bytes → Bool × Bytes
decode hex =
    let digits = clean hex in
    if length hex == 0
    then (true, [])
    else if length digits % 2 == 0
    then decode_pairs digits
    else (false, [])

pub is_separator : ℕ → Bool
is_separator c = c == b' ' || (c == b':' || (c == b'-' || (c == b',' || c == 9)))

-- The loop of `IsValidHex`: the number of digits, or `none` at an invalid character.
pub count_digits : Bool → Bytes → Option ℕ
count_digits allow [] = some 0
count_digits allow (c ∷ cs) =
    let rest = count_digits allow cs in
    if is_xdigit c then Option.map suc rest else if allow && is_separator c then rest else none

abbrev pub even_digits : Option ℕ → Bool
even_digits none = false
even_digits (some n) = ltb 0 n && (n % 2 == 0)

pub is_valid_hex : Bytes → Bool → Bool
unfolding count_digits
is_valid_hex hex allow = if length hex == 0 then false else even_digits (count_digits allow hex)
