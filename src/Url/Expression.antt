-- ===== src/Url/Expression.antt =====
-- What `URL_REGEX` matches of a URL's text: its parts.
use lmcore.Prelude.{
  ℕ, ◌==◌, ◌≡◌, refl, ap, ◌∙◌, sym, arith, Bool, true, false, [], ◌∷◌, ◌++◌, Option, some, All,
  Bytes, codes,
}
use lmcore.Url.{Parts, Regex, Groups, but, is_dot, is_char, url_regex, parts_of, marked}
use lmcore.Url.Match.{
  Continues, or_else, set_group, matched, match_from, match_whole, at_end, Stops, match_many_lem,
  matched-append,
}
use lmcore.Url.Text.{Lacks}
use lmcore.Url.Codec.{
  IsParts, IsRooted, ends_scheme, ends_authority, ends_path, ends_query, is_nul, text_of,
}

-- A group that is as many characters of a class as there are.
group_many :
    (n : ℕ) (test : ℕ → Bool) (xs ys : Bytes) (g h : Groups) (k : Continues)
    → All (λ c. test c ≡ true) xs
    → Stops test ys
    → k ys (set_group n xs g) ≡ some h
    → match_from (Regex.group n (Regex.many test)) (xs ++ ys) g k ≡ some h
unfolding match_from
group_many n test xs ys g h k a s e =
    match_many_lem test xs ys g h (λ rest f. k rest (set_group n (matched (xs ++ ys) rest) f)) a s
      (ap (λ z. k ys (set_group n z g)) (matched-append xs ys) ∙ e)

same_char : (c : ℕ) → (c == c) ≡ true
same_char c = ground arith

-- The groups of a part behind its mark.
abbrev mark_groups : ℕ → ℕ → ℕ → Bytes → Bytes → Groups → Groups
mark_groups m n c [] ys g = g
mark_groups m n c (x ∷ xs) ys g =
    set_group m (matched (c ∷ x ∷ (xs ++ ys)) ys) (set_group n (x ∷ xs) g)

stopped :
    (c : ℕ) (ys : Bytes) (g : Groups) (k : Continues) (o : Option Groups)
    → Stops (is_char c) ys
    → (r : Regex) → or_else (match_from (Regex.seq (Regex.one (is_char c)) r) ys g k) o ≡ o
unfolding match_from
stopped c [] g k o s r = refl
stopped c (y ∷ ys) g k o s r = rw s refl

mark_lem :
    (m n c : ℕ) (test : ℕ → Bool) (xs ys : Bytes) (g h : Groups) (k : Continues)
    → All (λ x. test x ≡ true) xs
    → Stops test ys
    → Stops (is_char c) ys
    → k ys (mark_groups m n c xs ys g) ≡ some h
    → match_from
        (Regex.opt
          (Regex.group m (Regex.seq (Regex.one (is_char c)) (Regex.group n (Regex.many test)))))
        (marked c xs ++ ys)
        g
        k
      ≡ some h
unfolding match_from
mark_lem m n c test [] ys g h k a s t e =
    stopped c ys g (λ rest f. k rest (set_group m (matched ys rest) f)) (k ys g) t
      (Regex.group n (Regex.many test))
    ∙ e
mark_lem m n c test (x ∷ xs) ys g h k a s t e =
    rw
      (
        same_char c,
        group_many n test (x ∷ xs) ys g h
            (λ rest f. k rest (set_group m (matched (c ∷ x ∷ (xs ++ ys)) rest) f)) a s e,
      )
      refl

scheme_lem :
    (test : ℕ → Bool) (x : ℕ) (xs ys : Bytes) (g h : Groups) (k : Continues)
    → All (λ x. test x ≡ true) (x ∷ xs)
    → Stops test (b':' ∷ ys)
    → k ys (set_group 1 (matched (x ∷ (xs ++ (b':' ∷ ys))) ys) (set_group 2 (x ∷ xs) g)) ≡ some h
    → match_from
        (Regex.opt (
          Regex.group 1 (
            Regex.seq
              (Regex.group 2 (Regex.seq (Regex.one test) (Regex.many test)))
              (Regex.one (is_char b':')))))
        (x ∷ (xs ++ (b':' ∷ ys)))
        g
        k
      ≡ some h
unfolding match_from
scheme_lem test x xs ys g h k a s e =
    let text = x ∷ (xs ++ (b':' ∷ ys)) in
    let after : Continues = λ rest f.
      match_from (Regex.one (is_char b':')) rest (set_group 2 (matched text rest) f)
        (λ more i. k more (set_group 1 (matched text more) i)) in
    rw
      (
        a.0,
        match_many_lem test xs (b':' ∷ ys) g h after a.1 s (
            ap (λ z. k ys (set_group 1 (matched text ys) (set_group 2 z g)))
              (matched-append (x ∷ xs) (b':' ∷ ys))
            ∙ e),
      )
      refl

authority_lem :
    (test : ℕ → Bool) (xs ys : Bytes) (g h : Groups) (k : Continues)
    → All (λ x. test x ≡ true) xs
    → Stops test ys
    → k ys (set_group 3 (matched (b'/' ∷ b'/' ∷ (xs ++ ys)) ys) (set_group 4 xs g)) ≡ some h
    → match_from
        (Regex.opt (
          Regex.group 3 (
            Regex.seq
              (Regex.one (is_char b'/'))
              (Regex.seq (Regex.one (is_char b'/')) (Regex.group 4 (Regex.many test))))))
        (b'/' ∷ b'/' ∷ (xs ++ ys))
        g
        k
      ≡ some h
unfolding match_from
authority_lem test xs ys g h k a s e =
    rw
      (group_many 4 test xs ys g h
        (λ rest f. k rest (set_group 3 (matched (b'/' ∷ b'/' ∷ (xs ++ ys)) rest) f)) a s e)
      refl

-- A class is made of the characters that it leaves out.
in_class :
    (ends test : ℕ → Bool) (xs : Bytes)
    → ((c : ℕ) → ends c ≡ false → test c ≡ true)
    → Lacks ends xs
    → All (λ c. test c ≡ true) xs
in_class ends test [] h a = tt
in_class ends test (x ∷ xs) h a = (h x a.0, in_class ends test xs h a.1)

Stops-fragment : (f : Bytes) → Stops (but (codes "#")) (marked b'#' f ++ [])
Stops-fragment [] = tt
Stops-fragment (x ∷ f) = refl

fragment_mark : (f : Bytes) → Stops (is_char b'?') (marked b'#' f ++ [])
fragment_mark [] = tt
fragment_mark (x ∷ f) = refl

Stops-query : (q f : Bytes) → Stops (but (codes "?#")) (marked b'?' q ++ (marked b'#' f ++ []))
Stops-query [] [] = tt
Stops-query [] (x ∷ f) = refl
Stops-query (x ∷ q) f = refl

Stops-path :
    (p q f : Bytes)
    → IsRooted p
    → Stops (but (codes "/?#")) (p ++ (marked b'?' q ++ (marked b'#' f ++ [])))
Stops-path [] [] [] h = tt
Stops-path [] [] (x ∷ f) h = refl
Stops-path [] (x ∷ q) f h = refl
Stops-path (c ∷ p) q f h = ap (but (codes "/?#")) h

append_nothing : (xs : Bytes) → xs ++ [] ≡ xs
append_nothing [] = refl
append_nothing (x ∷ xs) = ap (λ ys. x ∷ ys) (append_nothing xs)

-- The groups of the whole match.
pub groups_of : Parts → Groups
groups_of p =
    let fragment = marked b'#' p.fragment ++ [] in
    let query = marked b'?' p.query ++ fragment in
    let path = p.path ++ query in
    let authority = b'/' ∷ b'/' ∷ (p.authority ++ path) in
    let scheme = set_group 2 p.scheme (λ i. []) in
    let g = set_group 1 (matched (p.scheme ++ (b':' ∷ authority)) authority) scheme in
    let h = set_group 3 (matched authority path) (set_group 4 p.authority g) in
    mark_groups 8 9 b'#' p.fragment []
      (mark_groups 6 7 b'?' p.query fragment (set_group 5 p.path h))

parts_of-groups :
    (s a p q f : Bytes)
    → parts_of (groups_of (record { scheme = s; authority = a; path = p; query = q; fragment = f }))
      ≡ record { scheme = s; authority = a; path = p; query = q; fragment = f }
unfolding groups_of
parts_of-groups s a p [] [] = refl
parts_of-groups s a p [] (x ∷ f) = refl
parts_of-groups s a p (y ∷ q) [] = refl
parts_of-groups s a p (y ∷ q) (x ∷ f) = refl

abbrev authority_part : Regex
authority_part = Regex.opt (
    Regex.group 3 (
      Regex.seq (Regex.one (is_char b'/'))
        (Regex.seq (Regex.one (is_char b'/')) (Regex.group 4 (Regex.many (but (codes "/?#")))))))

abbrev path_part : Regex
path_part = Regex.group 5 (Regex.many (but (codes "?#")))

abbrev marked_part : ℕ → ℕ → ℕ → (ℕ → Bool) → Regex
marked_part m n c test =
    Regex.opt (Regex.group m (Regex.seq (Regex.one (is_char c)) (Regex.group n (Regex.many test))))

abbrev query_part : Regex
query_part = marked_part 6 7 b'?' (but (codes "#"))

abbrev fragment_part : Regex
fragment_part = marked_part 8 9 b'#' is_dot

from_scheme :
    (x : ℕ) (s a p q f : Bytes)
    → IsParts (record { scheme = x ∷ s; authority = a; path = p; query = q; fragment = f })
    → match_whole url_regex
        (x ∷ (s ++ (b':' ∷ b'/' ∷ b'/' ∷ (a ++ (p ++ (marked b'?' q ++ (marked b'#' f ++ [])))))))
      ≡ some
          (groups_of (record { scheme = x ∷ s; authority = a; path = p; query = q; fragment = f }))
unfolding match_whole url_regex match_from groups_of
from_scheme x s a p q f v =
    let one_query = marked b'#' f ++ [] in
    let query = marked b'?' q ++ one_query in
    let path = p ++ query in
    let authority = b'/' ∷ b'/' ∷ (a ++ path) in
    let end : Continues = λ rest g. match_from fragment_part rest g at_end in
    let from_query : Continues = λ rest g. match_from query_part rest g end in
    let from_path : Continues = λ rest g. match_from path_part rest g from_query in
    let from_authority : Continues = λ rest g. match_from authority_part rest g from_path in
    let one : Groups =
      set_group 1 (matched (x ∷ (s ++ (b':' ∷ authority))) authority)
        (set_group 2 (x ∷ s) (λ i. [])) in
    let two = set_group 3 (matched authority path) (set_group 4 a one) in
    let three = set_group 5 p two in
    let four = mark_groups 6 7 b'?' q one_query three in
    let five = mark_groups 8 9 b'#' f [] four in
    scheme_lem (but (codes ":/?#")) x s authority (λ i. []) five from_authority
      (in_class ends_scheme (but (codes ":/?#")) (x ∷ s) (λ c e. ground arith) v.scheme) refl
      (authority_lem (but (codes "/?#")) a path one five from_path
        (in_class ends_authority (but (codes "/?#")) a (λ c e. ground arith) v.authority)
        (Stops-path p q f v.rooted)
        (group_many 5 (but (codes "?#")) p query two five from_query
          (in_class ends_path (but (codes "?#")) p (λ c e. ground arith) v.path) (Stops-query q f)
          (mark_lem 6 7 b'?' (but (codes "#")) q one_query three five end
            (in_class ends_query (but (codes "#")) q (λ c e. ground arith) v.query)
            (Stops-fragment f) (fragment_mark f)
            (mark_lem 8 9 b'#' is_dot f [] four five at_end
              (in_class is_nul is_dot f (λ c e. ground arith) v.fragment) tt tt refl))))

-- The expression matches the text of a URL, and its groups are the parts.
pub match_whole-text_of :
    (p : Parts)
    → IsParts p
    → (match_whole url_regex (text_of p) ≡ some (groups_of p)) × (parts_of (groups_of p) ≡ p)
unfolding groups_of
match_whole-text_of p v = from_parts p.scheme p.authority p.path p.query p.fragment v
  where
    from_parts :
        (s a p q f : Bytes)
        → IsParts (record { scheme = s; authority = a; path = p; query = q; fragment = f })
        → (match_whole url_regex
              (s ++ (codes "://" ++ (a ++ (p ++ (marked b'?' q ++ marked b'#' f)))))
            ≡ some (
                groups_of
                  (record { scheme = s; authority = a; path = p; query = q; fragment = f })))
          × (parts_of (
                groups_of (record { scheme = s; authority = a; path = p; query = q; fragment = f }))
              ≡ record { scheme = s; authority = a; path = p; query = q; fragment = f })
    from_parts [] a p q f v = absurd v.has_scheme
    from_parts (x ∷ s) a p q f v = (
      ap
            (λ z.
              match_whole url_regex
                (x ∷ (s ++ (codes "://" ++ (a ++ (p ++ (marked b'?' q ++ z)))))))
            (sym (append_nothing (marked b'#' f)))
          ∙ from_scheme x s a p q f v,
      parts_of-groups (x ∷ s) a p q f,
    )
