-- ===== src/Prelude/Xor.antt =====
-- `^` of C++, digit by digit.
use lmcore.Prelude.Bits.{bit_xor_step}
use Prim.Native.Nat.{ℕ, zero, suc, ◌+◌, ◌*◌, ◌/◌, ◌%◌, ◌^◌, ◌≤◌, ◌<◌}
use Prim.Native.Nat.{bit_xor, differ}
use mathlib.Core.Path.{◌≡◌, refl, ap, ◌∙◌}
use native.Mathlib.Nat.{pow-suc}
use native.Mathlib.Omega.{arith}

differ_bits : (x y : ℕ) → x < 2 → y < 2 → differ x y ≡ (x + y) % 2
differ_bits zero y h k = omega arith
differ_bits (suc zero) zero h k = refl
differ_bits (suc zero) (suc zero) h k = refl
differ_bits (suc zero) (suc (suc y)) h k = absurd (omega arith)
differ_bits (suc (suc x)) y h k = absurd (omega arith)

-- The lowest digit and the others.
pub bit_xor_parts :
    (a b : ℕ)
    → (bit_xor a b ≡ bit_xor (a / 2) (b / 2) * 2 + (a % 2 + b % 2) % 2)
      × (bit_xor a b / 2 ≡ bit_xor (a / 2) (b / 2))
bit_xor_parts a b =
    let d = differ_bits (a % 2) (b % 2) (omega arith) (omega arith) in
    let s = bit_xor_step a b in (omega arith, omega arith)

xor_comm_below : (n a b : ℕ) → a ≤ n → b ≤ n → bit_xor a b ≡ bit_xor b a
xor_comm_below zero a b h k =
    let e : a ≡ 0 = omega arith in let f : b ≡ 0 = omega arith in rw (e, f) refl
xor_comm_below (suc n) a b h k = omega (
  arith,
  bit_xor_parts a b,
  bit_xor_parts b a,
  xor_comm_below n (a / 2) (b / 2) (omega arith) (omega arith),
)

pub bit_xor_comm : (a b : ℕ) → bit_xor a b ≡ bit_xor b a
bit_xor_comm a b = xor_comm_below (a + b) a b (omega arith) (omega arith)

xor_assoc_below :
    (n a b c : ℕ) → a ≤ n → b ≤ n → c ≤ n → bit_xor (bit_xor a b) c ≡ bit_xor a (bit_xor b c)
xor_assoc_below zero a b c h k l =
    let e : a ≡ 0 = omega arith in
    let f : b ≡ 0 = omega arith in let g : c ≡ 0 = omega arith in rw (e, f, g) refl
xor_assoc_below (suc n) a b c h k l =
    let p = bit_xor_parts a b in
    let q = bit_xor_parts b c in
    omega (
      arith,
      p.0,
      q.0,
      bit_xor_parts (bit_xor a b) c,
      bit_xor_parts a (bit_xor b c),
      ap (λ t. bit_xor t (c / 2)) p.1,
      ap (λ t. bit_xor (a / 2) t) q.1,
      xor_assoc_below n (a / 2) (b / 2) (c / 2) (omega arith) (omega arith) (omega arith),
    )

pub bit_xor_assoc : (a b c : ℕ) → bit_xor (bit_xor a b) c ≡ bit_xor a (bit_xor b c)
bit_xor_assoc a b c = xor_assoc_below (a + b + c) a b c (omega arith) (omega arith) (omega arith)

xor_self_below : (n a : ℕ) → a ≤ n → bit_xor a a ≡ 0
xor_self_below zero a h = let e : a ≡ 0 = omega arith in rw e refl
xor_self_below (suc n) a h =
    omega (arith, bit_xor_parts a a, xor_self_below n (a / 2) (omega arith))

pub bit_xor_self : (a : ℕ) → bit_xor a a ≡ 0
bit_xor_self a = xor_self_below a a (omega arith)

pub bit_xor_zero : (a : ℕ) → bit_xor a 0 ≡ a
bit_xor_zero a = bit_xor_comm a 0 ∙ zero_left a
  where
    zero_left : (b : ℕ) → bit_xor 0 b ≡ b
    zero_left b = below b b (omega arith)
      where
        below : (n c : ℕ) → c ≤ n → bit_xor 0 c ≡ c
        below zero c h = let e : c ≡ 0 = omega arith in rw e refl
        below (suc n) c h = omega (arith, bit_xor_parts 0 c, below n (c / 2) (omega arith))

-- A field above `k` bits and one of `k` bits.
pub bit_xor_split :
    (k q r s : ℕ) → r < 2 ^ k → s < 2 ^ k → bit_xor (q * 2 ^ k + r) s ≡ q * 2 ^ k + bit_xor r s
bit_xor_split zero q r s h g =
    let e : r ≡ 0 = omega arith in
    let f : s ≡ 0 = omega arith in
    let x : q * 2 ^ 0 + 0 ≡ q = omega arith in rw (e, f, x) (bit_xor_zero q ∙ omega arith)
bit_xor_split (suc k) q r s h g =
    let d : q * 2 ^ suc k ≡ 2 * (q * 2 ^ k) = omega (arith, ap (λ (t : ℕ). q * t) (pow-suc 2 k)) in
    let half : (q * 2 ^ suc k + r) / 2 ≡ q * 2 ^ k + r / 2 = omega arith in
    omega (
      arith,
      bit_xor_parts (q * 2 ^ suc k + r) s,
      bit_xor_parts r s,
      ap (λ t. bit_xor t (s / 2)) half,
      bit_xor_split k q (r / 2) (s / 2) (omega (arith, pow-suc 2 k)) (omega (arith, pow-suc 2 k)),
    )

pub bit_xor-lt : (k r s : ℕ) → r < 2 ^ k → s < 2 ^ k → bit_xor r s < 2 ^ k
bit_xor-lt zero r s h g =
    let e : r ≡ 0 = omega arith in let f : s ≡ 0 = omega arith in rw (e, f) (omega arith)
bit_xor-lt (suc k) r s h g = omega (
  arith,
  pow-suc 2 k,
  bit_xor_parts r s,
  bit_xor-lt k (r / 2) (s / 2) (omega (arith, pow-suc 2 k)) (omega (arith, pow-suc 2 k)),
)
