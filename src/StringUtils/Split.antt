-- ===== src/StringUtils/Split.antt =====
-- Splitting, joining and replacing.
use lmcore.Prelude.{
  ℕ, zero, suc, ◌+◌, ◌≤◌, ◌<◌, ◌≡◌, refl, sym, ap, ap₂, ◌∙◌, arith, Bool, true, false,
  if◌then◌else◌, ◌==◌, List, [], ◌∷◌, ◌++◌, none, some, Bytes, length, take, drop, length-drop,
  Bool-cases, Option-cases, inl, inr, append-nil,
}
use lmcore.StringUtils.{
  starts_with, find, keep, cons_item, get_lines, keep_all, split_char, split_loop, split_round,
  replace_round, split, join, replace_loop, replace_all,
}
use lmcore.StringUtils.Find.{find-some}

split_loop-found :
    (fuel : ℕ) (str d : Bytes) (skip : Bool) (n : ℕ)
    → find str d ≡ some n
    → split_loop (suc fuel) str d skip
      ≡ keep skip (take n str) (split_loop fuel (drop (n + length d) str) d skip)
unfolding split_loop
split_loop-found fuel str d skip n e =
    ap (λ o. split_round o str d skip (λ rest. split_loop fuel rest d skip)) e

replace_loop-found :
    (fuel : ℕ) (str from to : Bytes) (n : ℕ)
    → find str from ≡ some n
    → replace_loop (suc fuel) str from to
      ≡ take n str ++ (to ++ replace_loop fuel (drop (n + length from) str) from to)
unfolding replace_loop
replace_loop-found fuel str from to n e =
    ap (λ o. replace_round o str from to (λ rest. replace_loop fuel rest from to)) e

split_loop-last :
    (fuel : ℕ) (str d : Bytes) (skip : Bool)
    → find str d ≡ none
    → split_loop (suc fuel) str d skip ≡ keep skip str []
unfolding split_loop
split_loop-last fuel str d skip e =
    ap (λ o. split_round o str d skip (λ rest. split_loop fuel rest d skip)) e

replace_loop-last :
    (fuel : ℕ) (str from to : Bytes)
    → find str from ≡ none
    → replace_loop (suc fuel) str from to ≡ str
unfolding replace_loop
replace_loop-last fuel str from to e =
    ap (λ o. replace_round o str from to (λ rest. replace_loop fuel rest from to)) e

join-cons :
    (x : Bytes) (xs : List Bytes) (sep : Bytes)
    → 1 ≤ length xs
    → join (x ∷ xs) sep ≡ x ++ (sep ++ join xs sep)
unfolding join
join-cons x [] sep h = absurd (omega arith)
join-cons x (y ∷ ys) sep h = refl

-- With enough fuel, the pieces joined by any text are the string with its delimiters replaced.
split_loop-replace :
    (fuel : ℕ) (str from to : Bytes)
    → length str < fuel
    → 0 < length from
    → (1 ≤ length (split_loop fuel str from false))
      × (join (split_loop fuel str from false) to ≡ replace_loop fuel str from to)
split_loop-replace zero str from to h k = absurd (omega arith)
split_loop-replace (suc fuel) str from to h k = elim (Option-cases (find str from)) [
  | inl e ↦
      rw (split_loop-last fuel str from false e, replace_loop-last fuel str from to e)
        (omega arith, unfold join in append-nil str)
  | inr (n, e) ↦
      let (l, _) = find-some str from n e in
      let d = length-drop (n + length from) str in
      let (one, same) =
        split_loop-replace fuel (drop (n + length from) str) from to (omega arith) k in
      rw (split_loop-found fuel str from false n e, replace_loop-found fuel str from to n e)
        (
          omega arith,
          join-cons (take n str) (split_loop fuel (drop (n + length from) str) from false) to one
              ∙ ap (λ t. take n str ++ (to ++ t)) same,
        )
]

-- `ReplaceAll` is splitting at one text and joining by the other, whether the texts are empty or
-- not.
pub replace_all_lem :
    (str from to : Bytes) → replace_all str from to ≡ join (split str from false) to
unfolding replace_all split
replace_all_lem [] [] to = unfold join in refl
replace_all_lem [] (f ∷ from) to =
    unfold join in replace_loop-last 0 [] (f ∷ from) to (unfold find in ground (arith, no_prefix))
  where
    no_prefix : starts_with [] (f ∷ from) ≡ false
    no_prefix = unfold starts_with in ground arith
replace_all_lem (x ∷ str) [] to = unfold join in sym (append-nil (x ∷ str))
replace_all_lem (x ∷ str) (f ∷ from) to =
    sym
      (split_loop-replace (suc (suc (length str))) (x ∷ str) (f ∷ from) to (omega arith)
        (omega arith)).1

replace_loop_self : (fuel : ℕ) (str from : Bytes) → replace_loop fuel str from from ≡ str
replace_loop_self zero str from = unfold replace_loop in refl
replace_loop_self (suc fuel) str from = elim (Option-cases (find str from)) [
  | inl e ↦ replace_loop-last fuel str from from e
  | inr (n, e) ↦
      replace_loop-found fuel str from from n e
      ∙ ap (λ t. take n str ++ (from ++ t))
          (replace_loop_self fuel (drop (n + length from) str) from)
      ∙ (find-some str from n e).1
]

replace_all_self : (str d : Bytes) → replace_all str d d ≡ str
unfolding replace_all
replace_all_self str [] = refl
replace_all_self str (x ∷ d) = replace_loop_self (suc (length str)) str (x ∷ d)

-- What is split at a text, with no piece skipped, is joined by that text to the string again.
pub join-split : (str delimiter : Bytes) → join (split str delimiter false) delimiter ≡ str
join-split str delimiter =
    sym (replace_all_lem str delimiter delimiter) ∙ replace_all_self str delimiter

split_loop-skip :
    (fuel : ℕ) (str d : Bytes)
    → split_loop fuel str d true ≡ keep_all true (split_loop fuel str d false)
split_loop-skip zero str d = unfold split_loop in refl
split_loop-skip (suc fuel) str d = elim (Option-cases (find str d)) [
  | inl e ↦ rw (split_loop-last fuel str d false e) (split_loop-last fuel str d true e)
  | inr (n, e) ↦ rw (split_loop-found fuel str d false n e) (
      split_loop-found fuel str d true n e
      ∙ ap (λ r. keep true (take n str) r) (split_loop-skip fuel (drop (n + length d) str) d))
]

kept : (xs : List Bytes) → keep_all false xs ≡ xs
kept [] = refl
kept (x ∷ xs) = ap (λ r. x ∷ r) (kept xs)

-- With `skip_empty` the empty pieces are left out, by either `Split`.
pub split-skip :
    (str d : Bytes) (c : ℕ)
    → (split str d true ≡ keep_all true (split str d false))
      × (split_char str c true ≡ keep_all true (split_char str c false))
unfolding split split_char
split-skip str d c = (by_text str d, sym (ap (keep_all true) (kept (get_lines str c))))
  where
    by_text : (s e : Bytes) → split s e true ≡ keep_all true (split s e false)
    by_text [] e = refl
    by_text (x ∷ s) [] = refl
    by_text (x ∷ s) (y ∷ e) = split_loop-skip (suc (suc (length s))) (x ∷ s) (y ∷ e)

abbrev pub last_is : ℕ → Bytes → Bool
last_is c [] = false
last_is c (x ∷ []) = x == c
last_is c (x ∷ y ∷ r) = last_is c (y ∷ r)

get_lines-length : (x : ℕ) (r : Bytes) (c : ℕ) → 1 ≤ length (get_lines (x ∷ r) c)
unfolding get_lines
get_lines-length x r c = elim (Bool-cases (x == c)) [
  | inl e ↦ rw e (omega arith)
  | inr e ↦ rw e (cons_item_length (get_lines r c))
]
  where
    cons_item_length : (xs : List Bytes) → 1 ≤ length (cons_item x xs)
    cons_item_length [] = omega arith
    cons_item_length (y ∷ ys) = omega arith

join-cons_item :
    (x : ℕ) (xs : List Bytes) (sep : Bytes)
    → 1 ≤ length xs
    → join (cons_item x xs) sep ≡ x ∷ join xs sep
unfolding join
join-cons_item x [] sep h = absurd (omega arith)
join-cons_item x (y ∷ ys) sep h = refl

abbrev last_delimiter : ℕ → Bytes → Bytes
last_delimiter c str = if last_is c str then c ∷ [] else []

get_lines-hit :
    (c x y : ℕ) (r t : Bytes)
    → (x == c) ≡ true
    → join (get_lines (y ∷ r) c) (c ∷ []) ++ t ≡ y ∷ r
    → join (get_lines (x ∷ y ∷ r) c) (c ∷ []) ++ t ≡ x ∷ y ∷ r
get_lines-hit c x y r t e h =
    let z : x ≡ c = ground arith in
    ap (λ k. join k (c ∷ []) ++ t) first
    ∙ ap (λ k. k ++ t) (join-cons [] (get_lines (y ∷ r) c) (c ∷ []) (get_lines-length y r c))
    ∙ ap₂ (λ a b. a ∷ b) (sym z) h
  where
    first : get_lines (x ∷ y ∷ r) c ≡ [] ∷ get_lines (y ∷ r) c
    first = unfold get_lines in rw e refl

get_lines-miss :
    (c x y : ℕ) (r t : Bytes)
    → (x == c) ≡ false
    → join (get_lines (y ∷ r) c) (c ∷ []) ++ t ≡ y ∷ r
    → join (get_lines (x ∷ y ∷ r) c) (c ∷ []) ++ t ≡ x ∷ y ∷ r
get_lines-miss c x y r t e h =
    ap (λ k. join k (c ∷ []) ++ t) first
    ∙ ap (λ k. k ++ t) (join-cons_item x (get_lines (y ∷ r) c) (c ∷ []) (get_lines-length y r c))
    ∙ ap (λ b. x ∷ b) h
  where
    first : get_lines (x ∷ y ∷ r) c ≡ cons_item x (get_lines (y ∷ r) c)
    first = unfold get_lines in rw e refl

get_lines_lem :
    (str : Bytes) (c : ℕ) → join (get_lines str c) (c ∷ []) ++ last_delimiter c str ≡ str
get_lines_lem [] c = unfold get_lines join in refl
get_lines_lem (x ∷ []) c = unfold get_lines join in ground arith
get_lines_lem (x ∷ y ∷ r) c = elim (Bool-cases (x == c)) [
  | inl e ↦ get_lines-hit c x y r (last_delimiter c (y ∷ r)) e (get_lines_lem (y ∷ r) c)
  | inr e ↦ get_lines-miss c x y r (last_delimiter c (y ∷ r)) e (get_lines_lem (y ∷ r) c)
]

-- The items that `Split` at a character yields, with none skipped and joined by it, make up the
-- text, but for the delimiter at its end, after which no item begins.
pub join-split_char :
    (str : Bytes) (c : ℕ)
    → join (split_char str c false) (c ∷ []) ++ (if last_is c str then c ∷ [] else []) ≡ str
unfolding split_char
join-split_char str c = rw (kept (get_lines str c)) (get_lines_lem str c)
