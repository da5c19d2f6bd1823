-- ===== src/DataBuffer/Copy.antt =====
-- Clearing, copying and comparing a `DataBuffer`.
use lmcore.Prelude.{
  ℕ, ◌≤◌, ◌<◌, ◌^◌, ◌≡◌, ◌↔◌, refl, sym, ap, ◌∙◌, arith, Option, none, some, [], ◌∷◌, Bool, true,
  false, ◌==◌, length, take, length-take, Bytes, Bool-cases, inl, inr,
}
use lmcore.DataBuffer.{
  DataBuffer, align, clear, clone, copy, copy_data, stored, bytes, read, bytes_eq, equal,
}
use lmcore.DataBuffer.Inv.{
  Storage, IsValid, Yields, align_bounds, splice, memcpy-eq, length-splice, take-splice,
  terminate_lem,
}
use lmcore.DataBuffer.Grow.{Recapped, stored-zero}

cleared_lem :
    (o : Option Bytes) (c : ℕ)
    → Storage o c
    → let b : DataBuffer = record { data_ = o; size = 0; capacity = c } in Yields (clear b) []
unfolding clear
cleared_lem none c s = (record { storage = s; size_in = omega arith }, refl, tt)
cleared_lem (some p) c s =
    let (q, done, lq, same, zero_after) = terminate_lem p 0 c s (omega arith) in
    rw done (record { storage = lq; size_in = omega arith }, refl, zero_after)

clear_any :
    (b : DataBuffer)
    → Yields (clear (record { data_ = b.data_; size = 0; capacity = b.capacity })) []
    → Yields (clear b) []
unfolding clear
clear_any b y = y

capacity-clear : (b r : DataBuffer) → clear b ≡ some r → r.capacity ≡ b.capacity
unfolding clear
capacity-clear b r e = ground arith

-- `Clear` drops the bytes, ends the buffer by a zero, and keeps its capacity.
pub clear_lem :
    (b : DataBuffer) → IsValid b → Yields (clear b) [] × Recapped (clear b) b.capacity []
clear_lem b v =
    let y = cleared_lem b.data_ b.capacity v.storage in
    (clear_any b y, recapped (clear b) (clear_any b y) (λ r e. capacity-clear b r e))
  where
    recapped :
        (m : Option DataBuffer)
        → Yields m []
        → ((r : DataBuffer) → m ≡ some r → r.capacity ≡ b.capacity)
        → Recapped m b.capacity []
    recapped none y e = y
    recapped (some r) y e = (y.0, y.1, e r refl)

module _ (fresh : ℕ → Bytes) (length-fresh : (n : ℕ) → length (fresh n) ≡ n) where
  clone_lem : (p : Bytes) (n : ℕ) → n ≤ length p → n < 2 ^ 63 → Yields (clone fresh p n) (take n p)
  unfolding clone
  clone_lem p n h small =
      let room = align_bounds n small in
      let l = length-fresh (align n) in
      let q = splice (fresh (align n)) 0 p n in
      let lq : length q ≡ align n = length-splice (fresh (align n)) 0 p n (omega arith) h ∙ l in
      let (r, done, lr, same, zero_after) = terminate_lem q n (align n) lq room.0 in
      rw (memcpy-eq (fresh (align n)) 0 p n (omega arith) h, done)
        (
          record { storage = lr; size_in = room.0 },
          same
              ∙ ap (λ i. take i q) (omega arith)
              ∙ take-splice (fresh (align n)) 0 p n (omega arith) h,
          zero_after,
        )

  copied_data_lem :
      (o : Option Bytes) (n c : ℕ)
      → Storage o c
      → n ≤ c
      → n < 2 ^ 63
      → Yields (copy_data fresh o n) (stored o n)
  copied_data_lem none n c s h small = (record { storage = refl; size_in = omega arith }, refl, tt)
  copied_data_lem (some p) n c s h small = elim (Bool-cases (n == 0)) [
    | inl zero_size ↦
        let e : n ≡ 0 = ground arith in
        rw zero_size
          (record { storage = refl; size_in = omega arith }, sym (ap (λ k. take k p) e), tt)
    | inr more ↦ rw more (clone_lem p n (omega arith) small)
  ]

  -- Copying and copy assignment give a valid buffer of the source's bytes, or of the object's own
  -- where it is assigned to itself.
  pub copy_lem : (b : DataBuffer) → IsValid b → b.size < 2 ^ 63 → Yields (copy fresh b) (bytes b)
  unfolding copy
  copy_lem b v small = copied_data_lem b.data_ b.size b.capacity v.storage v.size_in small

-- `memcmp` tells equal lists from others.
bytes_eq_iff : (xs ys : Bytes) → (bytes_eq xs ys ≡ true) ↔ (xs ≡ ys)
bytes_eq_iff [] [] = (λ e. refl, λ e. refl)
bytes_eq_iff [] (y ∷ ys) = (λ e. cc, λ e. cc)
bytes_eq_iff (x ∷ xs) [] = (λ e. cc, λ e. cc)
bytes_eq_iff (x ∷ xs) (y ∷ ys) =
    let ih = bytes_eq_iff xs ys in (λ e. ground (arith, ih), λ e. ground (arith, ih))

read_lem : (o : Option Bytes) (n c : ℕ) → Storage o c → n ≤ c → read o n ≡ some (stored o n)
read_lem none n c s h = ground arith
read_lem (some p) n c s h = ground arith

length-of_stored : (o : Option Bytes) (n c : ℕ) → Storage o c → n ≤ c → length (stored o n) ≡ n
length-of_stored none n c s h = omega arith
length-of_stored (some p) n c s h = omega (arith, length-take n p)

pub length-bytes : {b : DataBuffer} → IsValid b → length (bytes b) ≡ b.size
length-bytes {b} v = length-of_stored b.data_ b.size b.capacity v.storage v.size_in

-- The comparison of two valid buffers reads inside both, and says whether their bytes are equal.
pub equal_lem :
    (b c : DataBuffer)
    → IsValid b
    → IsValid c
    → (r : Bool) × (equal b c ≡ some r) × ((r ≡ true) ↔ (bytes b ≡ bytes c))
unfolding equal
equal_lem b c v w = elim (Bool-cases (b.size == c.size)) [
  | inr other ↦ (false, rw other, (λ e. cc, λ e. absurd (sizes other (ap length e))))
  | inl same ↦ elim (Bool-cases (b.size == 0)) [
    | inl none_left ↦ (true, rw (same, none_left), (λ _. both_empty same none_left, λ _. refl))
    | inr more ↦ (
      bytes_eq (bytes b) (bytes c),
      rw (
        same,
        more,
        read_lem b.data_ b.size b.capacity v.storage v.size_in,
        ap (read c.data_) (num_eq same) ∙ read_lem c.data_ c.size c.capacity w.storage w.size_in,
      ),
      bytes_eq_iff (bytes b) (bytes c),
    )
  ]
]
  where
    num_eq : (b.size == c.size) ≡ true → b.size ≡ c.size
    num_eq e = ground arith

    sizes : (b.size == c.size) ≡ false → length (bytes b) ≡ length (bytes c) → ⊥
    sizes e l = ground (arith, length-bytes v, length-bytes w)

    both_empty : (b.size == c.size) ≡ true → (b.size == 0) ≡ true → bytes b ≡ bytes c
    both_empty e z =
        let zb : b.size ≡ 0 = ground arith in
        let zc : c.size ≡ 0 = ground arith in
        ap (stored b.data_) zb
        ∙ stored-zero b.data_
        ∙ sym (ap (stored c.data_) zc ∙ stored-zero c.data_)
