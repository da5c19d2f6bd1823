-- ===== src/Base64.antt =====
-- src/base64.cpp: `Base64`, bytes as base64 text and back.
pub mod Sextets
pub mod RoundTrip
mod Tests
use lmcore.Prelude.{
  ℕ, zero, suc, ◌+◌, ◌%◌, Bool, true, false, ◌&&◌, ◌||◌, if◌then◌else◌, leb, ◌==◌, List, [], ◌∷◌,
  ◌++◌, Bytes, codes, get_or, u8, ◌<<<◌, ◌>>>◌, bit_and,
}

abbrev pub base64_chars : Bytes
base64_chars = codes "ABCDEFGHIJKLMNOPQRSTUVWXYZabcdefghijklmnopqrstuvwxyz0123456789+/"

-- `isalnum(c) || c == '+' || c == '/'`
pub is_base64_char : ℕ → Bool
is_base64_char c =
    (leb b'0' c && leb c b'9')
    || ((leb b'A' c && leb c b'Z') || ((leb b'a' c && leb c b'z') || (c == b'+' || c == b'/')))

-- `kBase64Chars[n]`, for an index below 64.
pub char_at : ℕ → ℕ
char_at n = get_or base64_chars n 0

-- `char_array_4` of three bytes.
abbrev pub sextet0 : ℕ → ℕ
sextet0 a = bit_and a 0xfc >>> 2

abbrev pub sextet1 : ℕ → ℕ → ℕ
sextet1 a b = u8 ((bit_and a 0x03 <<< 4) + (bit_and b 0xf0 >>> 4))

abbrev pub sextet2 : ℕ → ℕ → ℕ
sextet2 b c = u8 ((bit_and b 0x0f <<< 2) + (bit_and c 0xc0 >>> 6))

abbrev pub sextet3 : ℕ → ℕ
sextet3 c = bit_and c 0x3f

-- One round of the loop for each three bytes, and what follows it for one or two that are left.
pub encode : Bytes → Bytes
encode [] = []
encode (a ∷ []) = char_at (sextet0 a) ∷ char_at (sextet1 a 0) ∷ b'=' ∷ b'=' ∷ []
encode (a ∷ b ∷ []) =
    char_at (sextet0 a) ∷ char_at (sextet1 a b) ∷ char_at (sextet2 b 0) ∷ b'=' ∷ []
encode (a ∷ b ∷ c ∷ r) =
    char_at (sextet0 a)
    ∷ char_at (sextet1 a b)
    ∷ char_at (sextet2 b c)
    ∷ char_at (sextet3 c)
    ∷ encode r

-- `std::string(kBase64Chars).find(c)` from the index `i` on, as a `uint8_t`.
pub find_from : Bytes → ℕ → ℕ → ℕ
find_from [] c i = 255
find_from (x ∷ xs) c i = let rest = find_from xs c (suc i) in if x == c then i else rest

pub value_of : ℕ → ℕ
unfolding find_from
value_of c = find_from base64_chars c 0

-- `char_array_3` of four values.
abbrev pub octet0 : ℕ → ℕ → ℕ
octet0 w x = u8 ((w <<< 2) + (bit_and x 0x30 >>> 4))

abbrev pub octet1 : ℕ → ℕ → ℕ
octet1 x y = u8 ((bit_and x 0x0f <<< 4) + (bit_and y 0x3c >>> 2))

abbrev pub octet2 : ℕ → ℕ → ℕ
octet2 y z = u8 ((bit_and y 0x03 <<< 6) + z)

-- The text up to the first character that the loop stops at; `=` is one.
pub accepted : Bytes → Bytes
accepted [] = []
accepted (c ∷ cs) =
    let rest = accepted cs in if c == b'=' then [] else if is_base64_char c then c ∷ rest else []

-- One round for each four characters, and what follows for those that are left.
pub decode_groups : Bytes → Bytes
decode_groups [] = []
decode_groups (w ∷ []) = []
decode_groups (w ∷ x ∷ []) = octet0 (value_of w) (value_of x) ∷ []
decode_groups (w ∷ x ∷ y ∷ []) =
    octet0 (value_of w) (value_of x) ∷ octet1 (value_of x) (value_of y) ∷ []
decode_groups (w ∷ x ∷ y ∷ z ∷ r) =
    octet0 (value_of w) (value_of x)
    ∷ octet1 (value_of x) (value_of y)
    ∷ octet2 (value_of y) (value_of z)
    ∷ decode_groups r

-- The result and `output`.
pub decode : Bytes → Bool × Bytes
decode encoded = (true, decode_groups (accepted encoded))
