-- ===== src/DataBuffer/Inv.antt =====
-- The representation invariant of `DataBuffer`, and what its block operations do: `memcpy`, the
-- terminating zero, and both together.
use lmcore.Prelude.{
  ℕ, ◌+◌, ◌%◌, ◌^◌, ◌≤◌, ◌<◌, ◌≡◌, refl, sym, ap, ap₂, ◌∙◌, arith, Option, none, some, ◌++◌,
  append_assoc, length, set, take, drop, get_or, length-set, length-take, length-drop,
  length-append, get_or-set_self, get_or_of_length_le, take-append_length, take-set, Bytes, ◌⊎◌,
  inl, inr,
}
use lmcore.DataBuffer.{DataBuffer, align, memcpy, terminate, put, bytes}

-- The array, if there is one, has `n` bytes.
abbrev pub Storage : Option Bytes → ℕ → Type 0
Storage none n = n ≡ 0
Storage (some p) n = length p ≡ n

pub record IsValid (b : DataBuffer) : Type 0 where
  pub storage : Storage b.data_ b.capacity
  pub size_in : b.size ≤ b.capacity

-- The byte after the last one is zero, where the array has such a byte.
abbrev pub ZeroAt : Option Bytes → ℕ → Type 0
ZeroAt none n = Unit {0}
ZeroAt (some p) n = get_or p n 0 ≡ 0

abbrev pub IsTerminated : DataBuffer → Type 0
IsTerminated b = ZeroAt b.data_ b.size

-- The operation does not fault, and gives a valid buffer of these bytes.
abbrev pub Holds : Option DataBuffer → Bytes → Type 0
Holds none xs = ⊥
Holds (some b) xs = IsValid b × (bytes b ≡ xs)

-- So, and a zero follows the bytes where the array is longer than they are.
abbrev pub Yields : Option DataBuffer → Bytes → Type 0
Yields none xs = ⊥
Yields (some b) xs = IsValid b × (bytes b ≡ xs) × IsTerminated b

-- Rounding up to a multiple of eight does not wrap below 2 ^ 63, and leaves room.
pub align_bounds : (n : ℕ) → n < 2 ^ 63 → (n ≤ align n) × (align n < n + 8) × (align n % 8 ≡ 0)
unfolding align
align_bounds n h = omega arith

abbrev pub splice : Bytes → ℕ → Bytes → ℕ → Bytes
splice dst off src n = take off dst ++ (take n src ++ drop (off + n) dst)

pub memcpy-eq :
    (dst : Bytes) (off : ℕ) (src : Bytes) (n : ℕ)
    → off + n ≤ length dst
    → n ≤ length src
    → memcpy dst off src n ≡ some (splice dst off src n)
memcpy-eq dst off src n h k = ground arith

pub length-splice :
    (dst : Bytes) (off : ℕ) (src : Bytes) (n : ℕ)
    → off + n ≤ length dst
    → n ≤ length src
    → length (splice dst off src n) ≡ length dst
length-splice dst off src n h k = omega (
  arith,
  length-append (take off dst) (take n src ++ drop (off + n) dst),
  length-append (take n src) (drop (off + n) dst),
  length-take off dst,
  length-take n src,
  length-drop (off + n) dst,
)

pub take-splice :
    (dst : Bytes) (off : ℕ) (src : Bytes) (n : ℕ)
    → off + n ≤ length dst
    → n ≤ length src
    → take (off + n) (splice dst off src n) ≡ take off dst ++ take n src
take-splice dst off src n h k =
    let front = take off dst ++ take n src in
    let e : off + n ≡ length front =
      omega (
        arith,
        length-append (take off dst) (take n src),
        length-take off dst,
        length-take n src,
      ) in
    ap₂ take e (sym (append_assoc (take off dst) (take n src) (drop (off + n) dst)))
    ∙ take-append_length front (drop (off + n) dst)

-- Writing the zero keeps the bytes before it.
pub terminate_lem :
    (p : Bytes) (n c : ℕ)
    → length p ≡ c
    → n ≤ c
    → (q : Bytes) × (terminate p n c ≡ some q)
      × (length q ≡ c)
      × (take n q ≡ take n p)
      × (get_or q n 0 ≡ 0)
terminate_lem p n c len h = elim (leb-cases n c) [
  | inl lt ↦ (
    set p n 0,
    ground arith,
    length-set p n 0 ∙ len,
    take-set n n p 0 (omega arith),
    get_or-set_self p n 0 0 (omega arith),
  )
  | inr ge ↦ (p, ground arith, len, refl, get_or_of_length_le p n 0 (omega arith))
]
  where
    leb-cases : (a b : ℕ) → (a < b) ⊎ (b ≤ a)
    leb-cases a b = grind arith

-- Copying `n` bytes to `off` and writing the zero.
pub put_lem :
    (d : Bytes) (off : ℕ) (p : Bytes) (n size c : ℕ)
    → length d ≡ c
    → off + n ≤ c
    → n ≤ length p
    → size ≡ off + n
    → Yields (put (some d) off p n size c) (take off d ++ take n p)
put_lem d off p n size c len h k e =
    let copied = splice d off p n in
    let l : length copied ≡ c = length-splice d off p n (omega arith) k ∙ len in
    let (q, done, lq, same, zero_after) = terminate_lem copied size c l (omega arith) in
    rw (memcpy-eq d off p n (omega arith) k, done)
      (
        record { storage = lq; size_in = omega arith },
        same ∙ ap (λ i. take i copied) e ∙ take-splice d off p n (omega arith) k,
        zero_after,
      )
