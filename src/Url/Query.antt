-- ===== src/Url/Query.antt =====
-- Queries, printed and parsed.
use lmcore.Prelude.{
  ℕ, ◌≡◌, refl, ap, ap₂, ◌∙◌, arith, Bool, false, if◌then◌else◌, ◌==◌, ◌||◌, List, [], ◌∷◌, ◌++◌,
  map, All, All-append, Bytes, IsByte,
}
use lmcore.Url.{
  Std, Url, encode, is_unreserved, equal_text, find_or, pieces, add_first, semicolon, add_split,
  add_pair, add_pairs, parse_query, get_query_param, split_at,
}
use lmcore.Url.Text.{Lacks, split_at_lem}
use lmcore.Url.Codec.{IsStd, decode-encode, encode-Lacks}

-- A parameter as a client writes it, and the query.
abbrev pub pair_text : Bytes × Bytes → Bytes
pair_text (k, v) = encode k ++ (b'=' ∷ encode v)

abbrev pub print_query : List (Bytes × Bytes) → Bytes
print_query [] = []
print_query (p ∷ []) = pair_text p
print_query (p ∷ q ∷ ps) = pair_text p ++ (b'&' ∷ print_query (q ∷ ps))

-- The value of the last parameter with a key.
abbrev pub last_of : List (Bytes × Bytes) → Bytes → Bytes → Bytes
last_of [] key default = default
last_of ((k, v) ∷ ps) key default = last_of ps key (if equal_text k key then v else default)

abbrev pub ArePairs : List (Bytes × Bytes) → Type 0
ArePairs ps = All (λ p. All IsByte p.0 × All IsByte p.1) ps

abbrev separates : ℕ → Bool
separates c = c == b'&' || c == b';'

pieces-append : (xs ys : Bytes) → Lacks separates xs → pieces (xs ++ (b'&' ∷ ys)) ≡ xs ∷ pieces ys
unfolding pieces
pieces-append [] ys h = refl
pieces-append (x ∷ xs) ys h =
    let other : (x == b'&') ≡ false = ground (arith, h.0) in
    rw other (ap (add_first x) (pieces-append xs ys h.1))

pieces_one : (x : ℕ) (xs : Bytes) → Lacks separates (x ∷ xs) → pieces (x ∷ xs) ≡ (x ∷ xs) ∷ []
unfolding pieces
pieces_one x [] h = let other : (x == b'&') ≡ false = ground (arith, h.0) in rw other refl
pieces_one x (y ∷ xs) h =
    let other : (x == b'&') ≡ false = ground (arith, h.0) in
    rw other (ap (add_first x) (pieces_one y xs h.1))

pair_text-Lacks :
    (p : Bytes × Bytes) → All IsByte p.0 → All IsByte p.1 → Lacks separates (pair_text p)
unfolding is_unreserved
pair_text-Lacks p h k =
    All-append (λ c. separates c ≡ false) (encode p.0) (b'=' ∷ encode p.1)
      (encode-Lacks separates p.0 (λ c e. ground arith) h)
      (refl, encode-Lacks separates p.1 (λ c e. ground arith) k)

pieces_pair :
    (t : Bytes) (ys : Bytes)
    → Lacks separates (t ++ (b'=' ∷ ys))
    → pieces (t ++ (b'=' ∷ ys)) ≡ (t ++ (b'=' ∷ ys)) ∷ []
pieces_pair [] ys h = pieces_one b'=' ys h
pieces_pair (x ∷ t) ys h = pieces_one x (t ++ (b'=' ∷ ys)) h

pieces-print_query :
    (ps : List (Bytes × Bytes)) → ArePairs ps → pieces (print_query ps) ≡ map pair_text ps
unfolding pieces
pieces-print_query [] h = refl
pieces-print_query (p ∷ []) h =
    pieces_pair (encode p.0) (encode p.1) (pair_text-Lacks p h.0.0 h.0.1)
pieces-print_query (p ∷ q ∷ ps) h =
    pieces-append (pair_text p) (print_query (q ∷ ps)) (pair_text-Lacks p h.0.0 h.0.1)
    ∙ ap (λ k. pair_text p ∷ k) (pieces-print_query (q ∷ ps) h.1)

map-semicolon : (xs : Bytes) → Lacks separates xs → map semicolon xs ≡ xs
map-semicolon [] h = refl
map-semicolon (x ∷ xs) h =
    let plain : semicolon x ≡ x = ground (arith, h.0) in
    ap₂ (λ y ys. y ∷ ys) plain (map-semicolon xs h.1)

add_pair_lem :
    (std : Std)
    → IsStd std
    → (params : List (Bytes × Bytes)) (p : Bytes × Bytes) → All IsByte p.0
    → All IsByte p.1
    → add_pair std params (pair_text p) ≡ p ∷ params
unfolding add_pair is_unreserved
add_pair_lem std laws params p h k =
    ap (λ t. add_split std params t (split_at b'=' t))
      (map-semicolon (pair_text p) (pair_text-Lacks p h k))
    ∙ ap (add_split std params (pair_text p)) (
        split_at_lem b'=' (encode p.0) (encode p.1)
          (encode-Lacks (λ c. c == b'=') p.0 (λ c e. ground arith) h))
    ∙ ap₂ (λ x y. (x, y) ∷ params) (decode-encode std laws p.0 h) (decode-encode std laws p.1 k)

find_added :
    (std : Std)
    → IsStd std
    → (ps params : List (Bytes × Bytes)) (key default : Bytes) → ArePairs ps
    → find_or (add_pairs std params (map pair_text ps)) key default
      ≡ last_of ps key (find_or params key default)
find_added std laws [] params key default h = refl
find_added std laws (p ∷ ps) params key default h =
    ap (λ q. find_or (add_pairs std q (map pair_text ps)) key default)
      (add_pair_lem std laws params p h.0.0 h.0.1)
    ∙ find_added std laws ps (p ∷ params) key default h.1

-- Of a query that was printed from some parameters, with any bytes in their keys and values,
-- `GetQueryParam` gives the value of the last parameter of a key, and the default where it has none.
pub get_query_param-print_query :
    (std : Std)
    → IsStd std
    → (u : Url) (ps : List (Bytes × Bytes)) (key default : Bytes) → ArePairs ps
    → get_query_param std (record u { query = print_query ps }) key default ≡ last_of ps key default
unfolding get_query_param parse_query
get_query_param-print_query std laws u ps key default h =
    ap (λ q. find_or (add_pairs std [] q) key default) (pieces-print_query ps h)
    ∙ find_added std laws ps [] key default h
