-- ===== src/StringUtils/Find.antt =====
-- Prefixes, suffixes and the search for a substring.
use lmcore.Prelude.{
  ℕ, suc, ◌+◌, ◌-◌, ◌≤◌, ◌≡◌, ◌↔◌, refl, sym, ap, subst, ◌∙◌, arith, true, ltb, [], ◌∷◌, ◌++◌, some,
  Bytes, length, take, drop, length-append, Bool-cases, Option-cases, inl, inr, take-append_length,
  take-append-drop,
}
use lmcore.StringUtils.{bytes_eq, starts_with, ends_with, find, contains, is_some}

pub bytes_eq_self : (xs : Bytes) → bytes_eq xs xs ≡ true
unfolding bytes_eq
bytes_eq_self [] = refl
bytes_eq_self (x ∷ xs) = ground (arith, bytes_eq_self xs)

pub bytes_eq-eq : (xs ys : Bytes) → bytes_eq xs ys ≡ true → xs ≡ ys
unfolding bytes_eq
bytes_eq-eq [] [] h = refl
bytes_eq-eq [] (y ∷ ys) h = ground arith
bytes_eq-eq (x ∷ xs) [] h = ground arith
bytes_eq-eq (x ∷ xs) (y ∷ ys) h = ground (arith, bytes_eq-eq xs ys)

drop_front : (xs ys : Bytes) → drop (length xs) (xs ++ ys) ≡ ys
drop_front [] ys = refl
drop_front (x ∷ xs) ys = drop_front xs ys

pub starts_with_split :
    (str prefix : Bytes) → starts_with str prefix ≡ true → prefix ++ drop (length prefix) str ≡ str
unfolding starts_with
starts_with_split str prefix h = elim (Bool-cases (ltb (length str) (length prefix))) [
  | inl e ↦ ground arith
  | inr e ↦
      ap (λ t. t ++ drop (length prefix) str)
        (sym (bytes_eq-eq (take (length prefix) str) prefix (ground arith)))
      ∙ take-append-drop (length prefix) str
]

pub starts_with-append : (prefix r : Bytes) → starts_with (prefix ++ r) prefix ≡ true
unfolding starts_with
starts_with-append prefix r =
    rw (take-append_length prefix r) (ground (arith, bytes_eq_self prefix, length-append prefix r))

-- A string starts with a prefix exactly if it is the prefix and something behind it, and ends with
-- a suffix exactly if it is the suffix and something before it.
pub affix_lem :
    (str affix : Bytes)
    → ((starts_with str affix ≡ true) ↔ ((r : Bytes) × (str ≡ affix ++ r)))
      × ((ends_with str affix ≡ true) ↔ ((r : Bytes) × (str ≡ r ++ affix)))
unfolding ends_with
affix_lem str affix = (
  (
    λ h. (drop (length affix) str, sym (starts_with_split str affix h)),
    λ (r, e). subst (λ s. starts_with s affix ≡ true) (sym e) (starts_with-append affix r),
  ),
  (split_end, λ (r, e). subst (λ s. ends_with s affix ≡ true) (sym e) (end_append r)),
)
  where
    split_end : ends_with str affix ≡ true → (r : Bytes) × (str ≡ r ++ affix)
    split_end h = elim (Bool-cases (ltb (length str) (length affix))) [
      | inl e ↦ absurd (ground arith)
      | inr e ↦ (
        take (length str - length affix) str,
        sym (take-append-drop (length str - length affix) str)
            ∙ ap (λ t. take (length str - length affix) str ++ t)
                (bytes_eq-eq (drop (length str - length affix) str) affix (ground arith)),
      )
    ]

    end_append : (r : Bytes) → ends_with (r ++ affix) affix ≡ true
    end_append r =
        let l = length-append r affix in
        let e : length (r ++ affix) - length affix ≡ length r = omega arith in
        rw (e, drop_front r affix) (ground (arith, bytes_eq_self affix))

-- Where the pattern is found.
pub find-some :
    (str pat : Bytes) (n : ℕ)
    → find str pat ≡ some n
    → (n + length pat ≤ length str) × (take n str ++ (pat ++ drop (n + length pat) str) ≡ str)
unfolding find
find-some [] [] n h = ground arith
find-some [] (p ∷ pat) n h = absurd (unfold starts_with in ground arith)
find-some (c ∷ cs) pat n h = elim (Bool-cases (starts_with (c ∷ cs) pat)) [
  | inl e ↦
      let z : n ≡ 0 = ground arith in
      rw z (
        ground (
          arith,
          starts_with_split (c ∷ cs) pat e,
          length-append pat (drop (length pat) (c ∷ cs)),
          ap length (starts_with_split (c ∷ cs) pat e),
        ))
  | inr e ↦ elim (Option-cases (find cs pat)) [
    | inl none_ ↦ absurd (ground arith)
    | inr (m, some_) ↦
        let z : n ≡ suc m = ground arith in
        let (l, r) = find-some cs pat m some_ in
        let d : suc m + length pat ≡ suc (m + length pat) = omega arith in
        rw (z, d) (omega arith, ap (λ t. c ∷ t) r)
  ]
]

find-append : (a pat b : Bytes) → is_some (find (a ++ (pat ++ b)) pat) ≡ true
unfolding find
find-append [] [] [] = ground (arith, starts_with-append [] [])
find-append [] [] (x ∷ b) = ground (arith, starts_with-append [] (x ∷ b))
find-append [] (x ∷ pat) b = ground (arith, starts_with-append (x ∷ pat) b)
find-append (x ∷ a) pat b = ground (arith, find-append a pat b)

-- `Contains` holds exactly if the text is the substring with something before and behind it.
pub contains_lem :
    (str substr : Bytes)
    → (contains str substr ≡ true) ↔ ((a : Bytes) × (b : Bytes) × (str ≡ a ++ (substr ++ b)))
unfolding contains
contains_lem str substr = (
  λ h. elim (Option-cases (find str substr)) [
    | inl e ↦ absurd (ground arith)
    | inr (n, e) ↦ (take n str, drop (n + length substr) str, sym (find-some str substr n e).1)
  ],
  λ (a, b, e). subst (λ s. is_some (find s substr) ≡ true) (sym e) (find-append a substr b),
)
