-- ===== src/Md5.antt =====
-- src/md5.cpp: `MD5`, RFC 1321: the transformation of a block, and the context that is given a text
-- piece by piece. Of `CalculateFile` the reading of the file is left out: its `Update` calls are those
-- of a text in pieces.
pub mod Count
pub mod Blocks
pub mod Rfc
pub mod Update
pub mod Final
mod Tests
use lmcore.Prelude.{
  ℕ, zero, suc, ◌+◌, ◌-◌, ◌*◌, ◌%◌, ◌^◌, Bool, false, if◌then◌else◌, ltb, leb, List, [], ◌∷◌, ◌++◌,
  Bytes, length, take, drop, get_or, replicate, u8, u32, u64, ◌<<<◌, ◌>>>◌, bit_and, bit_or,
  bit_xor,
}
use lmcore.Hex.{hex_char}

-- `~x` of a `uint32_t`.
abbrev pub complement : ℕ → ℕ
complement x = 0xFFFFFFFF - x

pub f_mix : ℕ → ℕ → ℕ → ℕ
f_mix x y z = bit_or (bit_and x y) (bit_and (complement x) z)

pub g_mix : ℕ → ℕ → ℕ → ℕ
g_mix x y z = bit_or (bit_and x z) (bit_and y (complement z))

pub h_mix : ℕ → ℕ → ℕ → ℕ
h_mix x y z = bit_xor (bit_xor x y) z

pub i_mix : ℕ → ℕ → ℕ → ℕ
i_mix x y z = bit_xor y (bit_or x (complement z))

pub rotate_left : ℕ → ℕ → ℕ
rotate_left x n = bit_or (u32 (x <<< n)) (x >>> (32 - n))

-- Four words: `ctx.state`, and the variables of `Transform`.
pub record Quad : Type 0 where
  pub a : ℕ
  pub b : ℕ
  pub c : ℕ
  pub d : ℕ

-- What a call of `FF`, `GG`, `HH` or `II` is given beside the variables: the index of its word of
-- the block, `s` and `ac`.
abbrev pub Row : Type 0
Row = ℕ × ℕ × ℕ

-- A call with its variables in the roles of `a`, `b`, `c`, `d`, and the roles that they have in the
-- next: each call of the code has the variables one place further round.
pub round : (ℕ → ℕ → ℕ → ℕ) → List ℕ → Quad → Row → Quad
round mix x q (k, s, ac) = record {
  a = q.d;
  b = u32 (rotate_left (u32 (q.a + (mix q.b q.c q.d + get_or x k 0 + ac))) s + q.b);
  c = q.b;
  d = q.c;
}

pub rounds : (ℕ → ℕ → ℕ → ℕ) → List ℕ → Quad → List Row → Quad
rounds mix x q [] = q
rounds mix x q (r ∷ rs) = rounds mix x (round mix x q r) rs

abbrev pub ff_rows : List Row
ff_rows =
    (0, 7, 0xd76aa478)
    ∷ (1, 12, 0xe8c7b756)
    ∷ (2, 17, 0x242070db)
    ∷ (3, 22, 0xc1bdceee)
    ∷ (4, 7, 0xf57c0faf)
    ∷ (5, 12, 0x4787c62a)
    ∷ (6, 17, 0xa8304613)
    ∷ (7, 22, 0xfd469501)
    ∷ (8, 7, 0x698098d8)
    ∷ (9, 12, 0x8b44f7af)
    ∷ (10, 17, 0xffff5bb1)
    ∷ (11, 22, 0x895cd7be)
    ∷ (12, 7, 0x6b901122)
    ∷ (13, 12, 0xfd987193)
    ∷ (14, 17, 0xa679438e)
    ∷ (15, 22, 0x49b40821)
    ∷ []

abbrev pub gg_rows : List Row
gg_rows =
    (1, 5, 0xf61e2562)
    ∷ (6, 9, 0xc040b340)
    ∷ (11, 14, 0x265e5a51)
    ∷ (0, 20, 0xe9b6c7aa)
    ∷ (5, 5, 0xd62f105d)
    ∷ (10, 9, 0x2441453)
    ∷ (15, 14, 0xd8a1e681)
    ∷ (4, 20, 0xe7d3fbc8)
    ∷ (9, 5, 0x21e1cde6)
    ∷ (14, 9, 0xc33707d6)
    ∷ (3, 14, 0xf4d50d87)
    ∷ (8, 20, 0x455a14ed)
    ∷ (13, 5, 0xa9e3e905)
    ∷ (2, 9, 0xfcefa3f8)
    ∷ (7, 14, 0x676f02d9)
    ∷ (12, 20, 0x8d2a4c8a)
    ∷ []

abbrev pub hh_rows : List Row
hh_rows =
    (5, 4, 0xfffa3942)
    ∷ (8, 11, 0x8771f681)
    ∷ (11, 16, 0x6d9d6122)
    ∷ (14, 23, 0xfde5380c)
    ∷ (1, 4, 0xa4beea44)
    ∷ (4, 11, 0x4bdecfa9)
    ∷ (7, 16, 0xf6bb4b60)
    ∷ (10, 23, 0xbebfbc70)
    ∷ (13, 4, 0x289b7ec6)
    ∷ (0, 11, 0xeaa127fa)
    ∷ (3, 16, 0xd4ef3085)
    ∷ (6, 23, 0x4881d05)
    ∷ (9, 4, 0xd9d4d039)
    ∷ (12, 11, 0xe6db99e5)
    ∷ (15, 16, 0x1fa27cf8)
    ∷ (2, 23, 0xc4ac5665)
    ∷ []

abbrev pub ii_rows : List Row
ii_rows =
    (0, 6, 0xf4292244)
    ∷ (7, 10, 0x432aff97)
    ∷ (14, 15, 0xab9423a7)
    ∷ (5, 21, 0xfc93a039)
    ∷ (12, 6, 0x655b59c3)
    ∷ (3, 10, 0x8f0ccc92)
    ∷ (10, 15, 0xffeff47d)
    ∷ (1, 21, 0x85845dd1)
    ∷ (8, 6, 0x6fa87e4f)
    ∷ (15, 10, 0xfe2ce6e0)
    ∷ (6, 15, 0xa3014314)
    ∷ (13, 21, 0x4e0811a1)
    ∷ (4, 6, 0xf7537e82)
    ∷ (11, 10, 0xbd3af235)
    ∷ (2, 15, 0x2ad7d2bb)
    ∷ (9, 21, 0xeb86d391)
    ∷ []

-- `Decode`: words of four bytes, the lowest first.
pub decode : Bytes → List ℕ
decode (p ∷ q ∷ r ∷ s ∷ rest) =
    bit_or (bit_or (bit_or p (q <<< 8)) (r <<< 16)) (s <<< 24) ∷ decode rest
decode _ = []

-- `Encode`
pub encode : List ℕ → Bytes
encode [] = []
encode (w ∷ ws) =
    bit_and w 0xff
    ∷ bit_and (w >>> 8) 0xff
    ∷ bit_and (w >>> 16) 0xff
    ∷ bit_and (w >>> 24) 0xff
    ∷ encode ws

abbrev pub add_quads : Quad → Quad → Quad
add_quads p q = record {
  a = u32 (p.a + q.a);
  b = u32 (p.b + q.b);
  c = u32 (p.c + q.c);
  d = u32 (p.d + q.d);
}

pub transform : Quad → Bytes → Quad
transform state block =
    let x = decode block in
    add_quads state (
      rounds i_mix x
        (rounds h_mix x (rounds g_mix x (rounds f_mix x state ff_rows) gg_rows) hh_rows) ii_rows)

-- `Context`
pub record Context : Type 0 where
  pub state : Quad
  pub count_low : ℕ
  pub count_high : ℕ
  pub buffer : Bytes

abbrev pub first_state : Quad
first_state = record { a = 0x67452301; b = 0xefcdab89; c = 0x98badcfe; d = 0x10325476 }

-- `Init`, which leaves the buffer as it is: 64 bytes.
pub init : Bytes → Context
init buffer = record { state = first_state; count_low = 0; count_high = 0; buffer = buffer }

-- `memcpy(&dest[at], bytes, length)`
abbrev pub paste : Bytes → ℕ → Bytes → Bytes
paste dest at bytes = take at dest ++ (bytes ++ drop (at + length bytes) dest)

-- The loop of `Update`, on fuel: the state, and what is left of the text.
pub transform_loop : ℕ → Quad → Bytes → Quad × Bytes
transform_loop zero state rest = (state, rest)
transform_loop (suc fuel) state rest =
    let next = transform_loop fuel (transform state (take 64 rest)) (drop 64 rest) in
    if ltb 63 (length rest) then next else (state, rest)

-- The bit count, in two words.
pub add_count : Context → ℕ → Context
add_count ctx len =
    let bitlen_low = u32 (u64 (len <<< 3)) in
    let bitlen_high = u32 (len >>> 29) in
    let low = u32 (ctx.count_low + bitlen_low) in
    let high = if ltb low bitlen_low then u32 (ctx.count_high + 1) else ctx.count_high in
    record ctx { count_low = low; count_high = u32 (high + bitlen_high) }

-- The rest of `Update`, for a text that fills the buffer, and the one that does not.
abbrev pub fill : Context → ℕ → ℕ → Bytes → Context
fill ctx index part_len bytes =
    let full = paste ctx.buffer index (take part_len bytes) in
    let (state, rest) =
      transform_loop (length bytes) (transform ctx.state full) (drop part_len bytes) in
    record ctx { state = state; buffer = paste full 0 rest }

pub update : Context → Bytes → Context
update ctx bytes =
    let index = bit_and (ctx.count_low >>> 3) 0x3f in
    let part_len = 64 - index in
    let counted = add_count ctx (length bytes) in
    if leb part_len (length bytes)
    then fill counted index part_len bytes
    else record counted { buffer = paste ctx.buffer index bytes }

-- `padding`, 64 bytes.
abbrev pub padding : Bytes
padding = 0x80 ∷ replicate 63 0

abbrev pub words : Quad → List ℕ
words q = q.a ∷ q.b ∷ q.c ∷ q.d ∷ []

-- `Final`: the digest.
pub final : Context → Bytes
final ctx =
    let bits = encode (ctx.count_low ∷ ctx.count_high ∷ []) in
    let index = bit_and (ctx.count_low >>> 3) 0x3f in
    let pad_len = if ltb index 56 then 56 - index else 120 - index in
    encode (words (update (update ctx (take pad_len padding)) bits).state)

pub digest_to_hex : Bytes → Bytes
digest_to_hex [] = []
digest_to_hex (b ∷ bs) = hex_char false (b >>> 4) ∷ hex_char false (b % 16) ∷ digest_to_hex bs

-- `Calculate`, where the context's buffer holds any 64 bytes.
pub calculate : Bytes → Bytes → Bytes
calculate buffer bytes = digest_to_hex (final (update (init buffer) bytes))

-- The calls of `Update` that are made of a text in pieces.
pub update_all : Context → List Bytes → Context
update_all ctx [] = ctx
update_all ctx (piece ∷ pieces) = update_all (update ctx piece) pieces
