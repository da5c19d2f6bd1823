-- ===== src/DataBuffer/Grow.antt =====
-- The operations of `DataBuffer` that write or resize: `Assign`, `Append`, `SetSize`,
-- `SetCapacity` and `Clear` keep the invariant, do not fault, and leave the bytes that they should.
use lmcore.Prelude.{
  ℕ, zero, suc, ◌+◌, ◌^◌, ◌≤◌, ◌<◌, ◌≡◌, refl, sym, ap, ◌∙◌, arith, Option, none, some, [], ◌++◌,
  append-nil, ltb, leb, ◌==◌, if◌then◌else◌, length, take, take_of_length_le, take-nil,
  take_of_take, subst, u64, Bytes, Bool-cases, inl, inr, take-take, min, length-take, leb→le,
}
use lmcore.DataBuffer.{
  DataBuffer, align, memcpy_if, put, stored, bytes, assign, append, append_buffer, enlarge, resize,
  set_size, reallocate, set_capacity, new,
}
use lmcore.DataBuffer.Inv.{
  Storage, IsValid, IsTerminated, Holds, Yields, align_bounds, splice, memcpy-eq, length-splice,
  take-splice, terminate_lem, put_lem,
}

-- A valid array with room is no null pointer.
put_lem_if :
    (dst : Option Bytes) (off : ℕ) (p : Bytes) (n size c : ℕ)
    → Storage dst c
    → off + n ≤ c
    → n ≤ length p
    → size ≡ off + n
    → 0 < n
    → Yields (put dst off p n size c) (stored dst off ++ take n p)
put_lem_if none off p n size c s h k e pos = absurd (omega arith)
put_lem_if (some d) off p n size c s h k e pos = put_lem d off p n size c s h k e

-- The copy of the first `n` bytes into a new array.
pub copied_lem :
    (q : Bytes) (src : Option Bytes) (n c : ℕ)
    → Storage src c
    → n ≤ c
    → n ≤ length q
    → (r : Bytes) × (memcpy_if q src n ≡ some r) × (length r ≡ length q) × (take n r ≡ stored src n)
copied_lem q none n c s h k = (q, refl, refl, let e : n ≡ 0 = omega arith in ap (λ i. take i q) e)
copied_lem q (some p) n c s h k = (
  splice q 0 p n,
  memcpy-eq q 0 p n (omega arith) (omega arith),
  length-splice q 0 p n (omega arith) (omega arith),
  ap (λ i. take i (splice q 0 p n)) (omega arith) ∙ take-splice q 0 p n (omega arith) (omega arith),
)

-- The same in a new array.
grown_lem :
    (q : Bytes) (src : Option Bytes) (k c' : ℕ) (p : Bytes) (n size c : ℕ)
    → Storage src c'
    → k ≤ c'
    → length q ≡ c
    → k + n ≤ c
    → n ≤ length p
    → size ≡ k + n
    → Yields (put (memcpy_if q src k) k p n size c) (stored src k ++ take n p)
grown_lem q src k c' p n size c s h l room m e =
    let (r, copied, lr, same) = copied_lem q src k c' s h (omega arith) in
    rw copied (
      subst (λ xs. Yields (put (some r) k p n size c) (xs ++ take n p)) same
        (put_lem r k p n size c (lr ∙ l) room m e))

-- The operation does not fault, and gives a valid buffer of `n` bytes, those of `b` first, and a
-- zero behind them.
abbrev pub Resized : Option DataBuffer → ℕ → DataBuffer → Type 0
Resized none n b = ⊥
Resized (some r) n b =
    IsValid r × (r.size ≡ n) × (take (min n b.size) (bytes r) ≡ take n (bytes b)) × IsTerminated r

resized_lem :
    (o : Option Bytes) (k n c : ℕ)
    → Storage o c
    → n ≤ c
    → let b : DataBuffer = record { data_ = o; size = k; capacity = c } in Resized (resize b n) n b
resized_lem none k n c s h =
    (record { storage = s; size_in = h }, refl, take-nil (min n k) ∙ sym (take-nil n), tt)
resized_lem (some d) k n c s h =
    let (q, done, lq, same, zero_after) = terminate_lem d n c s h in
    rw done (
      record { storage = lq; size_in = h },
      refl,
      ap (take (min n k)) same ∙ take-take (min n k) n d (omega arith) ∙ sym (take_of_take n k d),
      zero_after,
    )

abbrev pub Recapped : Option DataBuffer → ℕ → Bytes → Type 0
Recapped none c xs = ⊥
Recapped (some r) c xs = IsValid r × (bytes r ≡ xs) × (r.capacity ≡ c)

pub length-stored : (o : Option Bytes) (n : ℕ) → length (stored o n) ≤ n
length-stored none n = omega arith
length-stored (some p) n = omega (arith, length-take n p)

pub stored-zero : (o : Option Bytes) → stored o 0 ≡ []
stored-zero none = refl
stored-zero (some p) = refl

take-stored : (o : Option Bytes) (c n : ℕ) → take c (stored o n) ≡ stored o (min c n)
take-stored none c n = take-nil c
take-stored (some p) c n = take_of_take c n p

module _ (fresh : ℕ → Bytes) (length-fresh : (n : ℕ) → length (fresh n) ≡ n) where
  -- `Assign(p, len)` with some bytes to copy makes them the buffer's bytes.
  pub assign_lem :
      (b : DataBuffer) (p : Bytes) (n : ℕ)
      → IsValid b
      → n ≤ length p
      → n < 2 ^ 63
      → 0 < n
      → Yields (assign fresh b (some p) n) (take n p)
  unfolding assign
  assign_lem b p n v h small pos = elim (Bool-cases (ltb b.capacity n)) [
    | inl more ↦ ground (
      arith,
      align_bounds n small,
      put_lem (fresh (align n)) 0 p n n (align n) (length-fresh (align n)),
    )
    | inr less ↦
        ground (arith, stored-zero b.data_, put_lem_if b.data_ 0 p n n b.capacity v.storage)
  ]

  -- `Append(p, len)` does not fault, keeps the invariant and puts the bytes behind those that were there;
  -- a zero follows them where the array is longer than they are.
  pub append_lem :
      (b : DataBuffer) (p : Bytes) (n : ℕ)
      → IsValid b
      → n ≤ length p
      → b.size + n < 2 ^ 63
      → 0 < n
      → Yields (append fresh b (some p) n) (bytes b ++ take n p)
  unfolding append
  append_lem b p n v h small pos =
      let e : u64 (b.size + n) ≡ b.size + n = omega arith in
      let e' : u64 (n + b.size) ≡ b.size + n = omega arith in
      elim (Bool-cases (leb (b.size + n) b.capacity)) [
        | inl fits ↦ ground (
          arith,
          put_lem_if b.data_ b.size p n (b.size + n) b.capacity v.storage
              (omega (arith, leb→le _ _ fits)) h refl pos,
        )
        | inr full ↦ ground (
          arith,
          align_bounds (b.size + n) small,
          grown_lem (fresh (align (b.size + n))) b.data_ b.size b.capacity p n (b.size + n)
              (align (b.size + n)) v.storage v.size_in (length-fresh (align (b.size + n))),
        )
      ]

  -- A null source, or none of its bytes, changes nothing.
  pub add_nothing :
      (b : DataBuffer) (p : Option Bytes) (n : ℕ)
      → (assign fresh b none n ≡ some b)
        × (append fresh b none n ≡ some b)
        × (assign fresh b p 0 ≡ some b)
        × (append fresh b p 0 ≡ some b)
  unfolding assign append
  add_nothing b none n = (refl, refl, refl, refl)
  add_nothing b (some p) n = (refl, refl, refl, refl)

  enlarged_lem :
      (b : DataBuffer) (n c : ℕ)
      → IsValid b
      → b.size ≤ n
      → n ≤ c
      → Resized (enlarge fresh b n c) n b
  enlarged_lem b n c v more room =
      let (r, copied, lr, same) =
        copied_lem (fresh c) b.data_ b.size b.capacity v.storage v.size_in
          (omega (arith, length-fresh c)) in
      let (q, done, lq, kept, zero_after) = terminate_lem r n c (lr ∙ length-fresh c) room in
      rw (copied, done)
        (
          record { storage = lq; size_in = room },
          refl,
          ap (take (min n b.size)) kept
              ∙ take-take (min n b.size) n r (omega arith)
              ∙ ap (λ k. take k r) (omega arith)
              ∙ same
              ∙ sym (take_of_length_le n (bytes b) (omega (arith, length-stored b.data_ b.size))),
          zero_after,
        )

  reallocated_lem :
      (b : DataBuffer) (c : ℕ)
      → IsValid b
      → Recapped (reallocate fresh b (if leb b.size c then b.size else c) c) c (take c (bytes b))
  reallocated_lem b c v =
      let k = if leb b.size c then b.size else c in
      let fits : (k ≤ c) × (k ≤ b.capacity) × (k ≡ min c b.size) = ground arith in
      let (r, copied, lr, same) =
        copied_lem (fresh c) b.data_ k b.capacity v.storage fits.1
          (omega (arith, length-fresh c)) in
      rw copied (
        record { storage = lr ∙ length-fresh c; size_in = fits.0 },
        same ∙ ap (stored b.data_) fits.2 ∙ sym (take-stored b.data_ c b.size),
        refl,
      )

  -- Appending a buffer puts its bytes behind.
  pub append_buffer_lem :
      (b other : DataBuffer)
      → IsValid b
      → IsValid other
      → b.size + other.size < 2 ^ 63
      → Holds (append_buffer fresh b other) (bytes b ++ bytes other)
  unfolding append_buffer
  append_buffer_lem b other v w small = go other.data_ other.size w.storage w.size_in small
    where
      kept : (m : Option DataBuffer) (xs : Bytes) → Yields m xs → Holds m xs
      kept none xs y = y
      kept (some r) xs y = (y.0, y.1)

      go :
          (o : Option Bytes) (n : ℕ)
          → Storage o other.capacity
          → n ≤ other.capacity
          → b.size + n < 2 ^ 63
          → Holds (append fresh b o n) (bytes b ++ stored o n)
      go none n s h k = rw ((add_nothing b none n).1, append-nil) (v, refl)
      go (some p) zero s h k = rw ((add_nothing b (some p) 0).3, append-nil) (v, refl)
      go (some p) (suc n) s h k =
          kept (append fresh b (some p) (suc n)) (bytes b ++ take (suc n) p)
            (append_lem b p (suc n) v (omega arith) k (omega arith))

  -- `SetSize` keeps the bytes that remain, ends them by a zero and does not fault; of the bytes
  -- that it adds nothing is known.
  pub set_size_lem :
      (b : DataBuffer) (n : ℕ) → IsValid b → n < 2 ^ 63 → Resized (set_size fresh b n) n b
  unfolding set_size
  set_size_lem b n v small = elim (Bool-cases (leb n b.capacity)) [
    | inl fits ↦ rw fits (resized_lem b.data_ b.size n b.capacity v.storage (leb→le _ _ fits))
    | inr full ↦ rw full (enlarged_lem b n (align n) v (ground arith) (align_bounds n small).0)
  ]

  -- `SetCapacity` keeps the bytes that fit the rounded capacity, which it then has.
  pub set_capacity_lem :
      (b : DataBuffer) (n : ℕ)
      → IsValid b
      → n < 2 ^ 63
      → Recapped (set_capacity fresh b n) (align n) (take (align n) (bytes b))
  unfolding set_capacity
  set_capacity_lem b n v small = elim (Bool-cases (align n == b.capacity)) [
    | inl same ↦ rw same (
      v,
      sym (take_of_length_le (align n) (bytes b) (ground (arith, length-stored b.data_ b.size))),
      ground arith,
    )
    | inr other ↦ rw other (elim (Bool-cases (b.size == 0)) [
      | inl none_left ↦ rw none_left (
        record { storage = length-fresh (align n); size_in = omega arith },
        sym (
            ap (λ k. take (align n) (stored b.data_ k)) (ground arith)
            ∙ ap (take (align n)) (stored-zero b.data_)
            ∙ take-nil (align n)),
        refl,
      )
      | inr some_left ↦ rw some_left (reallocated_lem b (align n) v)
    ])
  ]

  -- The constructor gives an empty buffer of the rounded capacity, ended by a zero.
  pub new_lem : (n : ℕ) → n < 2 ^ 63 → Yields (new fresh n) []
  unfolding new
  new_lem n small = ground (
    arith,
    align_bounds n small,
    terminate_lem (fresh (align n)) 0 (align n) (length-fresh (align n)) (omega arith),
  )
