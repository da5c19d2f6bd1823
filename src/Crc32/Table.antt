-- ===== src/Crc32/Table.antt =====
-- The table does eight rounds of the shift register at once, and pieces add up.
use lmcore.Prelude.{
  ℕ, zero, suc, ◌+◌, ◌*◌, ◌/◌, ◌%◌, ◌^◌, ◌<◌, ◌≡◌, refl, sym, ap, ap₂, ◌∙◌, arith, ◌==◌, List, [],
  ◌∷◌, ◌++◌, Bytes, get_or, bit_and-low, bit_xor, bit_xor_parts, bit_xor_comm, bit_xor_assoc,
  bit_xor_self, bit_xor_zero, bit_xor_split, bit_xor-lt, Bool-cases, inl, inr,
}
use mathlib.Core.Logic.{◌⊎◌}
use lmcore.Crc32.{
  shift_bit, shift_bits, table_from, table, update_byte, update, calculate, new_context,
  context_update, final,
}

abbrev polynomial : ℕ
polynomial = 0xEDB88320

shift_even : (a : ℕ) → a % 2 ≡ 0 → shift_bit a ≡ a / 2
unfolding shift_bit
shift_even a h = ground (arith, bit_and-low 1 a)

shift_odd : (a : ℕ) → a % 2 ≡ 1 → shift_bit a ≡ bit_xor (a / 2) polynomial
unfolding shift_bit
shift_odd a h = ground (arith, bit_and-low 1 a)

parity : (a : ℕ) → (a % 2 ≡ 0) ⊎ (a % 2 ≡ 1)
parity a = elim (Bool-cases (a % 2 == 0)) [
  | inl e ↦ inl (ground arith)
  | inr e ↦ inr (ground arith)
]

swap_last : (a b c : ℕ) → bit_xor (bit_xor a b) c ≡ bit_xor (bit_xor a c) b
swap_last a b c =
    bit_xor_assoc a b c ∙ ap (bit_xor a) (bit_xor_comm b c) ∙ sym (bit_xor_assoc a c b)

cancel : (a b c : ℕ) → bit_xor (bit_xor a c) (bit_xor b c) ≡ bit_xor a b
cancel a b c =
    bit_xor_assoc a c (bit_xor b c)
    ∙ ap (bit_xor a) (
        ap (bit_xor c) (bit_xor_comm b c)
        ∙ sym (bit_xor_assoc c c b)
        ∙ ap (λ t. bit_xor t b) (bit_xor_self c)
        ∙ bit_xor_comm 0 b
        ∙ bit_xor_zero b)

-- The register is linear.
shift_bit-xor : (a b : ℕ) → shift_bit (bit_xor a b) ≡ bit_xor (shift_bit a) (shift_bit b)
shift_bit-xor a b =
    let p = bit_xor_parts a b in
    elim (parity a) [
      | inl x ↦ elim (parity b) [
        | inl y ↦
            shift_even (bit_xor a b) (omega (arith, p.0))
            ∙ p.1
            ∙ ap₂ bit_xor (sym (shift_even a x)) (sym (shift_even b y))
        | inr y ↦
            shift_odd (bit_xor a b) (omega (arith, p.0))
            ∙ ap (λ t. bit_xor t polynomial) p.1
            ∙ bit_xor_assoc (a / 2) (b / 2) polynomial
            ∙ ap₂ bit_xor (sym (shift_even a x)) (sym (shift_odd b y))
      ]
      | inr x ↦ elim (parity b) [
        | inl y ↦
            shift_odd (bit_xor a b) (omega (arith, p.0))
            ∙ ap (λ t. bit_xor t polynomial) p.1
            ∙ swap_last (a / 2) (b / 2) polynomial
            ∙ ap₂ bit_xor (sym (shift_odd a x)) (sym (shift_even b y))
        | inr y ↦
            shift_even (bit_xor a b) (omega (arith, p.0))
            ∙ p.1
            ∙ sym (cancel (a / 2) (b / 2) polynomial)
            ∙ ap₂ bit_xor (sym (shift_odd a x)) (sym (shift_odd b y))
      ]
    ]

shift_bits-xor :
    (n a b : ℕ) → shift_bits n (bit_xor a b) ≡ bit_xor (shift_bits n a) (shift_bits n b)
shift_bits-xor zero a b = refl
shift_bits-xor (suc n) a b =
    ap (shift_bits n) (shift_bit-xor a b) ∙ shift_bits-xor n (shift_bit a) (shift_bit b)

-- Eight rounds take a multiple of 256 down by that.
shift_byte : (q : ℕ) → shift_bits 8 (q * 256) ≡ q
shift_byte q =
    ap (shift_bits 7) (half 128)
    ∙ ap (shift_bits 6) (half 64)
    ∙ ap (shift_bits 5) (half 32)
    ∙ ap (shift_bits 4) (half 16)
    ∙ ap (shift_bits 3) (half 8)
    ∙ ap (shift_bits 2) (half 4)
    ∙ ap (shift_bits 1) (half 2)
    ∙ half 1
    ∙ omega arith
  where
    half : (k : ℕ) → shift_bit (q * (2 * k)) ≡ q * k
    half k =
        let e : q * (2 * k) ≡ 2 * (q * k) = omega arith in
        shift_even (q * (2 * k)) (omega (arith, e)) ∙ omega (arith, e)

get_or-table_from : (n i j : ℕ) → j < n → get_or (table_from n i) j 0 ≡ shift_bits 8 (i + j)
unfolding table_from
get_or-table_from zero i j h = absurd (omega arith)
get_or-table_from (suc n) i zero h = ap (shift_bits 8) (omega arith)
get_or-table_from (suc n) i (suc j) h =
    get_or-table_from n (suc i) j (omega arith)
    ∙ ap (shift_bits 8) (let e : suc i + j ≡ i + suc j = omega arith in e)

-- A round of the loop, by the table, is eight rounds of the register on the sum with the byte.
pub update_byte_lem : (crc b : ℕ) → b < 256 → update_byte crc b ≡ shift_bits 8 (bit_xor crc b)
unfolding update_byte table
update_byte_lem crc b h =
    let x = bit_xor crc b in
    let low = x % 256 in
    let high : x / 256 ≡ crc / 256 =
      ap (λ t. t / 256)
        (ap (λ t. bit_xor t b) (let e : crc ≡ crc / 256 * 2 ^ 8 + crc % 256 = omega arith in e)
          ∙ bit_xor_split 8 (crc / 256) (crc % 256) b (omega arith) (omega arith))
      ∙ omega (arith, bit_xor-lt 8 (crc % 256) b (omega arith) (omega arith)) in
    let whole : bit_xor low (x / 256 * 256) ≡ x =
      bit_xor_comm low (x / 256 * 256)
      ∙ ap (λ t. bit_xor t low) (let e : x / 256 * 256 ≡ x / 256 * 2 ^ 8 + 0 = omega arith in e)
      ∙ bit_xor_split 8 (x / 256) 0 low (omega arith) (omega arith)
      ∙ omega (arith, bit_xor_comm 0 low, bit_xor_zero low) in
    ap (λ t. bit_xor t (crc / 256))
      (ap (λ t. get_or (table_from 256 0) t 0) (bit_and-low 8 x)
        ∙ get_or-table_from 256 0 low (omega arith)
        ∙ ap (shift_bits 8) (let e : 0 + low ≡ low = omega arith in e))
    ∙ ap (bit_xor (shift_bits 8 low)) (sym high ∙ sym (shift_byte (x / 256)))
    ∙ sym (shift_bits-xor 8 low (x / 256 * 256))
    ∙ ap (shift_bits 8) whole

update-append : (crc : ℕ) (xs ys : Bytes) → update crc (xs ++ ys) ≡ update (update crc xs) ys
unfolding update
update-append crc [] ys = refl
update-append crc (x ∷ xs) ys = update-append (update_byte crc x) xs ys

abbrev pub concat : List Bytes → Bytes
concat [] = []
concat (x ∷ xs) = x ++ concat xs

context_update_lem : (crc : ℕ) (ps : List Bytes) → context_update crc ps ≡ update crc (concat ps)
unfolding context_update
context_update_lem crc [] = unfold update in refl
context_update_lem crc (p ∷ ps) =
    context_update_lem (update crc p) ps ∙ sym (update-append crc p (concat ps))

-- A context that is given a text in pieces ends with the checksum of the whole.
pub final-context_update :
    (pieces : List Bytes) → final (context_update new_context pieces) ≡ calculate (concat pieces)
unfolding final calculate
final-context_update pieces = ap (λ t. bit_xor t 0xFFFFFFFF) (context_update_lem new_context pieces)
