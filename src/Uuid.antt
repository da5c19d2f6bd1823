-- ===== src/Uuid.antt =====
-- src/uuid.cpp: `UUID`, random identifiers of version 4 and their text.
-- The two 64-bit numbers that the generator of the standard library draws are arguments.
pub mod Text
pub mod Version
mod Tests
use lmcore.Prelude.{
  ℕ, zero, suc, ◌+◌, ◌/◌, ◌%◌, Bool, true, false, ◌&&◌, ◌||◌, if◌then◌else◌, ◌==◌, List, [], ◌∷◌,
  ◌++◌, Bytes, get_or, length, map, take, drop, bit_and, bit_or, ◌>>>◌, u32,
}
use lmcore.Hex.{is_xdigit, hex_char}
use lmcore.StringUtils.{lower_char, upper_char}

-- `oss << std::hex << std::setfill('0') << std::setw(width)`, for a number of at most that width.
pub put_hex : ℕ → ℕ → Bytes
put_hex zero v = []
put_hex (suc width) v = put_hex width (v / 16) ++ (hex_char false (v % 16) ∷ [])

-- `high` and `low` with the version and the variant set.
pub with_version : ℕ → ℕ
with_version high = bit_or (bit_and high 0xFFFFFFFFFFFF0FFF) 0x4000

pub with_variant : ℕ → ℕ
with_variant low = bit_or (bit_and low 0x3FFFFFFFFFFFFFFF) 0x8000000000000000

-- The text of two numbers.
pub format : Bool → ℕ → ℕ → Bytes
format with_dashes high low =
    if with_dashes
    then put_hex 8 (bit_and (high >>> 32) 0xFFFFFFFF)
      ++ (b'-'
          ∷ (put_hex 4 (bit_and (high >>> 16) 0xFFFF)
              ++ (b'-'
                  ∷ (put_hex 4 (bit_and high 0xFFFF)
                      ++ (b'-'
                          ∷ (put_hex 4 (bit_and (low >>> 48) 0xFFFF)
                              ++ (b'-' ∷ put_hex 12 (bit_and low 0xFFFFFFFFFFFF))))))))
    else put_hex 16 high ++ put_hex 16 low

pub generate : Bool → ℕ → ℕ → Bytes
generate with_dashes high low = format with_dashes (with_version high) (with_variant low)

pub generate_short : ℕ → Bytes
generate_short random = put_hex 8 (u32 random)

abbrev pub is_dash_place : ℕ → Bool
is_dash_place i = i == 8 || (i == 13 || (i == 18 || i == 23))

-- The loop of `Validate` over the text with dashes, from the index `i` on.
pub digits_but_dashes : Bytes → ℕ → Bool
digits_but_dashes [] i = true
digits_but_dashes (c ∷ cs) i =
    let rest = digits_but_dashes cs (i + 1) in
    if is_dash_place i then rest else if is_xdigit c then rest else false

-- The loop over the text without.
pub all_digits : Bytes → Bool
all_digits [] = true
all_digits (c ∷ cs) = let rest = all_digits cs in if is_xdigit c then rest else false

pub validate : Bytes → Bool
validate uuid =
    if length uuid == 36
    then if get_or uuid 8 0 == b'-'
        && (get_or uuid 13 0 == b'-' && (get_or uuid 18 0 == b'-' && get_or uuid 23 0 == b'-'))
      then digits_but_dashes uuid 0
      else false
    else if length uuid == 32
    then all_digits uuid
    else false

pub to_upper : Bytes → Bytes
to_upper uuid = map upper_char uuid

pub to_lower : Bytes → Bytes
to_lower uuid = map lower_char uuid

pub add_dashes : Bytes → Bytes
add_dashes uuid =
    if length uuid == 32
    then take 8 uuid
      ++ (b'-'
          ∷ (take 4 (drop 8 uuid)
              ++ (b'-'
                  ∷ (take 4 (drop 12 uuid)
                      ++ (b'-' ∷ (take 4 (drop 16 uuid) ++ (b'-' ∷ take 12 (drop 20 uuid))))))))
    else uuid

pub remove_dashes : Bytes → Bytes
remove_dashes [] = []
remove_dashes (c ∷ cs) = let rest = remove_dashes cs in if c == b'-' then rest else c ∷ rest
