-- ===== src/Md5/Count.antt =====
-- The count of bits.
use lmcore.Prelude.{
  ℕ, ◌+◌, ◌*◌, ◌/◌, ◌%◌, ◌^◌, ◌<◌, ◌≡◌, ◌∙◌, arith, ltb, u32, u64, bit_and, bit_and-low, Bool-cases,
  inl, inr,
}
use lmcore.Md5.{Context, add_count}

-- The two words hold eight times the number of bytes, modulo 2 ^ 64.
pub record Counts (ctx : Context) (bytes : ℕ) : Type 0 where
  pub low : ctx.count_low ≡ bytes * 8 % 2 ^ 32
  pub high : ctx.count_high ≡ bytes * 8 / 2 ^ 32 % 2 ^ 32

-- The position in the buffer.
pub index_lem :
    (ctx : Context) (n : ℕ) → Counts ctx n → bit_and (ctx.count_low / 2 ^ 3) 0x3f ≡ n % 64
index_lem ctx n c = bit_and-low 6 (ctx.count_low / 2 ^ 3) ∙ omega (arith, c.low)

pub add_count-Counts :
    (ctx : Context) (n len : ℕ) → len < 2 ^ 64 → Counts ctx n → Counts (add_count ctx len) (n + len)
unfolding add_count
add_count-Counts ctx n len small c =
    let l = c.low in
    let h = c.high in
    let narrow : len * 2 ^ 3 % 2 ^ 64 % 2 ^ 32 ≡ len * 8 % 2 ^ 32 = omega arith in
    elim (Bool-cases
      (ltb (u32 (ctx.count_low + u32 (u64 (len * 2 ^ 3)))) (u32 (u64 (len * 2 ^ 3))))) [
        | inl e ↦ record { low = omega arith; high = rw e (ground arith) }
        | inr e ↦ record { low = omega arith; high = rw e (ground arith) }
      ]
