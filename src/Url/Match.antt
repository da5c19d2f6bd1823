-- ===== src/Url/Match.antt =====
-- The documented meaning of `std::regex_match`: the whole text matches, and each part of the expression,
-- from the left to the right, takes as much as the rest allows.
use lmcore.Prelude.{
  ℕ, ◌-◌, ◌==◌, ◌≡◌, refl, ap, ◌∙◌, Bool, true, false, if◌then◌else◌, [], ◌∷◌, ◌++◌, Option, none,
  some, All, Bytes, length, take, length-append, take-append_length, arith,
}
use lmcore.Url.{Regex, Groups}

-- The first that is there.
abbrev pub or_else : Option Groups → Option Groups → Option Groups
or_else none second = second
or_else (some g) second = some g

-- What goes on with the rest of the text.
abbrev pub Continues : Type 0
Continues = Bytes → Groups → Option Groups

abbrev pub match_one : (ℕ → Bool) → Bytes → Groups → Continues → Option Groups
match_one test [] g k = none
match_one test (x ∷ xs) g k = if test x then k xs g else none

unfoldable pub match_many : (ℕ → Bool) → Bytes → Groups → Continues → Option Groups
match_many test [] g k = k [] g
match_many test (x ∷ xs) g k =
    let more = match_many test xs g k in or_else (if test x then more else none) (k (x ∷ xs) g)

abbrev pub set_group : ℕ → Bytes → Groups → Groups
set_group n text g i = if i == n then text else g i

-- What a group has matched, by what was before it and what is behind it.
abbrev pub matched : Bytes → Bytes → Bytes
matched text rest = take (length text - length rest) text

unfoldable pub match_from : Regex → Bytes → Groups → Continues → Option Groups
match_from (Regex.one test) text g k = match_one test text g k
match_from (Regex.many test) text g k = match_many test text g k
match_from (Regex.seq a b) text g k = match_from a text g (λ rest h. match_from b rest h k)
match_from (Regex.opt a) text g k = or_else (match_from a text g k) (k text g)
match_from (Regex.group n a) text g k =
    match_from a text g (λ rest h. k rest (set_group n (matched text rest) h))

abbrev pub at_end : Continues
at_end [] g = some g
at_end (x ∷ xs) g = none

unfoldable pub match_whole : Regex → Bytes → Option Groups
match_whole r text = match_from r text (λ i. []) at_end

-- The text is empty or begins with a character that is not of a class.
abbrev pub Stops : (ℕ → Bool) → Bytes → Type 0
Stops test [] = Unit
Stops test (x ∷ xs) = test x ≡ false

-- A class takes all of its characters where the rest then matches.
pub match_many_lem :
    (test : ℕ → Bool) (xs ys : Bytes) (g h : Groups) (k : Continues)
    → All (λ c. test c ≡ true) xs
    → Stops test ys
    → k ys g ≡ some h
    → match_many test (xs ++ ys) g k ≡ some h
unfolding match_many
match_many_lem test [] [] g h k a s e = e
match_many_lem test [] (y ∷ ys) g h k a s e = rw s e
match_many_lem test (x ∷ xs) ys g h k a s e = rw (a.0, match_many_lem test xs ys g h k a.1 s e) refl

pub matched-append : (xs ys : Bytes) → matched (xs ++ ys) ys ≡ xs
matched-append xs ys =
    let e : length (xs ++ ys) - length ys ≡ length xs = omega (arith, length-append xs ys) in
    ap (λ n. take n (xs ++ ys)) e ∙ take-append_length xs ys
