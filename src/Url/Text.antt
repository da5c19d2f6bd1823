-- ===== src/Url/Text.antt =====
-- `find`, `rfind` and `substr`.
use lmcore.Prelude.{
  ℕ, ◌≡◌, refl, ap, ◌∙◌, arith, Bool, true, false, ◌==◌, [], ◌∷◌, ◌++◌, none, some, All, Bytes,
}
use lmcore.Url.{split_at, split_at_last, behind, here_or}

-- The text has no character that a test finds.
abbrev pub Lacks : (ℕ → Bool) → Bytes → Type 0
Lacks test text = All (λ c. test c ≡ false) text

pub weaken :
    (good bad : ℕ → Bool) (text : Bytes)
    → ((c : ℕ) → good c ≡ true → bad c ≡ false)
    → All (λ c. good c ≡ true) text
    → Lacks bad text
weaken good bad [] h a = tt
weaken good bad (c ∷ text) h a = (h c a.0, weaken good bad text h a.1)

pub split_at_lem :
    (c : ℕ) (xs ys : Bytes) → Lacks (λ x. x == c) xs → split_at c (xs ++ (c ∷ ys)) ≡ some (xs, ys)
unfolding split_at
split_at_lem c [] ys h = let same : (c == c) ≡ true = ground arith in rw same refl
split_at_lem c (x ∷ xs) ys h = rw h.0 (ap (behind x) (split_at_lem c xs ys h.1))

pub split_at-none : (c : ℕ) (xs : Bytes) → Lacks (λ x. x == c) xs → split_at c xs ≡ none
unfolding split_at
split_at-none c [] h = refl
split_at-none c (x ∷ xs) h = rw h.0 (ap (behind x) (split_at-none c xs h.1))

pub split_at_last-none : (c : ℕ) (xs : Bytes) → Lacks (λ x. x == c) xs → split_at_last c xs ≡ none
unfolding split_at_last
split_at_last-none c [] h = refl
split_at_last-none c (x ∷ xs) h = ap (here_or c x xs) (split_at_last-none c xs h.1) ∙ rw h.0 refl

pub split_at_last_lem :
    (c : ℕ) (xs ys : Bytes)
    → Lacks (λ x. x == c) ys
    → split_at_last c (xs ++ (c ∷ ys)) ≡ some (xs, ys)
unfolding split_at_last
split_at_last_lem c [] ys h =
    let same : (c == c) ≡ true = ground arith in
    ap (here_or c c ys) (split_at_last-none c ys h) ∙ rw same refl
split_at_last_lem c (x ∷ xs) ys h = ap (here_or c x (xs ++ (c ∷ ys))) (split_at_last_lem c xs ys h)
