-- ===== src/StringUtils/Case.antt =====
-- Case conversion and comparison without regard to case.
use lmcore.Prelude.{
  ℕ, suc, ◌≡◌, ◌↔◌, refl, sym, ap, ap₂, ◌∙◌, arith, true, ◌==◌, [], ◌∷◌, Bytes, map, length,
  Bool-cases, inl, inr,
}
use lmcore.StringUtils.{lower_char, upper_char, to_lower, to_upper, same_lower, equals_ignore_case}

cons_injective : (x y : ℕ) (xs ys : Bytes) → x ∷ xs ≡ y ∷ ys → (x ≡ y) × (xs ≡ ys)
cons_injective x y xs ys h = (cc, cc)

length-map_lower : (s : Bytes) → length (map lower_char s) ≡ length s
length-map_lower [] = refl
length-map_lower (x ∷ s) = ap suc (length-map_lower s)

same_lower-eq :
    (s t : Bytes)
    → length s ≡ length t
    → same_lower s t ≡ true
    → map lower_char s ≡ map lower_char t
same_lower-eq [] [] l h = refl
same_lower-eq [] (y ∷ t) l h = absurd (omega arith)
same_lower-eq (x ∷ s) [] l h = absurd (omega arith)
same_lower-eq (x ∷ s) (y ∷ t) l h = elim (Bool-cases (lower_char x == lower_char y)) [
  | inl e ↦ ap₂ (λ a b. a ∷ b) (ground arith) (same_lower-eq s t (omega arith) (ground arith))
  | inr e ↦ ground arith
]

eq-same_lower : (s t : Bytes) → map lower_char s ≡ map lower_char t → same_lower s t ≡ true
eq-same_lower [] t h = refl
eq-same_lower (x ∷ s) [] h = refl
eq-same_lower (x ∷ s) (y ∷ t) h =
    let (a, b) =
      cons_injective (lower_char x) (lower_char y) (map lower_char s) (map lower_char t) h in
    ground (arith, eq-same_lower s t b)

-- `EqualsIgnoreCase` holds exactly if `ToLower` makes the texts equal.
pub equals_ignore_case_lem :
    (s t : Bytes) → (equals_ignore_case s t ≡ true) ↔ (to_lower s ≡ to_lower t)
unfolding equals_ignore_case to_lower
equals_ignore_case_lem s t = (
  λ h. elim (Bool-cases (length s == length t)) [
    | inl e ↦ same_lower-eq s t (ground arith) (ground arith)
    | inr e ↦ ground arith
  ],
  λ h.
      let l : length s ≡ length t = sym (length-map_lower s) ∙ ap length h ∙ length-map_lower t in
      ground (arith, eq-same_lower s t h),
)

-- `ToUpper` does not matter to `ToLower`, nor the other way round.
pub case_lem :
    (s : Bytes) → (to_lower (to_upper s) ≡ to_lower s) × (to_upper (to_lower s) ≡ to_upper s)
unfolding to_lower to_upper lower_char upper_char
case_lem [] = (refl, refl)
case_lem (c ∷ s) =
    let (a, b) = case_lem s in
    (ap₂ (λ x y. x ∷ y) (ground arith) a, ap₂ (λ x y. x ∷ y) (ground arith) b)
