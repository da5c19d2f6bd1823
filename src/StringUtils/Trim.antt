-- ===== src/StringUtils/Trim.antt =====
-- Trimming, padding and repeating.
use lmcore.Prelude.{
  ℕ, zero, suc, ◌-◌, ◌*◌, ◌≤◌, ◌<◌, ◌≡◌, refl, sym, ap, subst, ◌∙◌, arith, Bool, true, false,
  if◌then◌else◌, leb, ◌==◌, [], ◌∷◌, ◌++◌, Bytes, length, take, get_or, length-append,
  length-replicate, Bool-cases, inl, inr, All, max, replicate, append-nil, append_assoc,
  take_of_length_le,
}
use lmcore.StringUtils.{is_space, trim_left, trim_end, trim_right, trim, pad, repeat, repeat_loop}

abbrev pub AllSpace : Bytes → Type 0
AllSpace = All (λ c. is_space c ≡ true)

abbrev pub first_is_space : Bytes → Bool
first_is_space [] = false
first_is_space (c ∷ cs) = is_space c

abbrev pub last_is_space : Bytes → Bool
last_is_space [] = false
last_is_space (x ∷ []) = is_space x
last_is_space (x ∷ y ∷ r) = last_is_space (y ∷ r)

trim_left_lem :
    (s : Bytes)
    → (first_is_space (trim_left s) ≡ false) × ((l : Bytes) × AllSpace l × (s ≡ l ++ trim_left s))
unfolding trim_left
trim_left_lem [] = (refl, ([], tt, refl))
trim_left_lem (c ∷ cs) = elim (Bool-cases (is_space c)) [
  | inl e ↦ let (f, (l, a, q)) = trim_left_lem cs in rw e (f, (c ∷ l, (e, a), ap (λ t. c ∷ t) q))
  | inr e ↦ rw e (e, ([], tt, refl))
]

-- Trimming on the left does not change how the text ends, unless nothing is left.
trim_left-last : (s : Bytes) → last_is_space s ≡ false → last_is_space (trim_left s) ≡ false
unfolding trim_left
trim_left-last [] h = refl
trim_left-last (x ∷ []) h = ground arith
trim_left-last (x ∷ y ∷ r) h = ground (arith, trim_left-last (y ∷ r) h)

drop-AllSpace : (s : Bytes) (n : ℕ) → (trim_end s n ≤ n)
unfolding trim_end
drop-AllSpace s zero = omega arith
drop-AllSpace s (suc n) = ground (arith, drop-AllSpace s n)

-- A character more of the text.
take-suc : (s : Bytes) (n : ℕ) → n < length s → take (suc n) s ≡ take n s ++ (get_or s n 0 ∷ [])
take-suc [] n h = absurd (omega arith)
take-suc (x ∷ s) zero h = refl
take-suc (x ∷ s) (suc n) h = ap (λ t. x ∷ t) (take-suc s n (omega arith))

last_is_space-append : (s : Bytes) (c : ℕ) → last_is_space (s ++ (c ∷ [])) ≡ is_space c
last_is_space-append [] c = refl
last_is_space-append (x ∷ []) c = refl
last_is_space-append (x ∷ y ∷ r) c = last_is_space-append (y ∷ r) c

AllSpace-append : (s : Bytes) (c : ℕ) → AllSpace s → is_space c ≡ true → AllSpace (s ++ (c ∷ []))
AllSpace-append [] c a h = (h, tt)
AllSpace-append (x ∷ s) c a h = (a.0, AllSpace-append s c a.1 h)

trim_end_lem :
    (s : Bytes) (n : ℕ)
    → n ≤ length s
    → (last_is_space (take (trim_end s n) s) ≡ false)
      × ((r : Bytes) × AllSpace r × (take n s ≡ take (trim_end s n) s ++ r))
unfolding trim_end
trim_end_lem s zero h = (refl, ([], tt, refl))
trim_end_lem s (suc n) h = elim (Bool-cases (is_space (get_or s n 0))) [
  | inl e ↦
      let (f, (r, a, q)) = trim_end_lem s n (omega arith) in
      rw e (
        f,
        (
          r ++ (get_or s n 0 ∷ []),
          AllSpace-append r (get_or s n 0) a e,
          take-suc s n (omega arith)
              ∙ ap (λ t. t ++ (get_or s n 0 ∷ [])) q
              ∙ append_assoc (take (trim_end s n) s) r (get_or s n 0 ∷ []),
        ),
      )
  | inr e ↦ rw e (
    subst (λ t. last_is_space t ≡ false) (sym (take-suc s n (omega arith)))
        (last_is_space-append (take n s) (get_or s n 0) ∙ e),
    ([], tt, sym (append-nil (take (suc n) s))),
  )
]

-- `Trim` takes white space off both ends, and what is left neither begins nor ends with any.
pub trim_lem :
    (s : Bytes)
    → (first_is_space (trim s) ≡ false)
      × (last_is_space (trim s) ≡ false)
      × ((l : Bytes) × (r : Bytes) × AllSpace l × AllSpace r × (s ≡ l ++ (trim s ++ r)))
unfolding trim trim_right
trim_lem s =
    let n = trim_end s (length s) in
    let (le, (r, ar, qr)) = trim_end_lem s (length s) (omega arith) in
    let (f, (l, al, ql)) = trim_left_lem (take n s) in
    (
      f,
      trim_left-last (take n s) le,
      (
        l,
        r,
        al,
        ar,
        sym (take_of_length_le (length s) s (omega arith))
            ∙ qr
            ∙ ap (λ t. t ++ r) ql
            ∙ append_assoc l (trim_left (take n s)) r,
      ),
    )

-- `Pad` gives at least the length asked for, and the text stands at the end of the result, or at its
-- front.
pub pad_lem :
    (s : Bytes) (n c : ℕ) (left : Bool)
    → (length (pad s n c left) ≡ max n (length s))
      × ((p : Bytes) × (pad s n c left ≡ (if left then p ++ s else s ++ p)))
unfolding pad
pad_lem s n c left = elim (Bool-cases (leb n (length s))) [
  | inl e ↦ rw e (ground arith, ([], whole left))
  | inr e ↦ rw e (long left, (replicate (n - length s) c, refl))
]
  where
    whole : (b : Bool) → s ≡ (if b then [] ++ s else s ++ [])
    whole true = refl
    whole false = sym (append-nil s)

    long :
        (b : Bool)
        → length (if b then replicate (n - length s) c ++ s else s ++ replicate (n - length s) c)
          ≡ max n (length s)
    long true =
        ground
          (arith, length-append (replicate (n - length s) c) s, length-replicate (n - length s) c)
    long false =
        ground
          (arith, length-append s (replicate (n - length s) c), length-replicate (n - length s) c)

length-repeat_loop : (s : Bytes) (n : ℕ) → length (repeat_loop s n) ≡ n * length s
length-repeat_loop s zero = omega arith
length-repeat_loop s (suc n) =
    grind (arith, length-append s (repeat_loop s n), length-repeat_loop s n)

-- `Repeat` gives as many copies.
pub length-repeat : (s : Bytes) (n : ℕ) → length (repeat s n) ≡ n * length s
unfolding repeat
length-repeat [] n = ground arith
length-repeat (x ∷ s) zero = omega arith
length-repeat (x ∷ s) (suc n) =
    let z : (suc n == 0) ≡ false = ground arith in rw z (length-repeat_loop (x ∷ s) (suc n))
