-- ===== src/Url/Codec.antt =====
-- Percent-encoding, and the laws of what the code calls.
use lmcore.Prelude.{
  ℕ, ◌/◌, ◌%◌, ◌^◌, ◌<◌, ◌≡◌, refl, ap, ◌∙◌, arith, Bool, true, false, ◌==◌, ◌||◌, [], ◌∷◌, ◌++◌,
  some, All, Bytes, IsByte, codes, passes, passes_at, if-both,
}
use lmcore.Hex.{hex_char}
use lmcore.Url.Text.{Lacks, weaken}
use lmcore.Url.Match.{match_whole}
use lmcore.Url.{Parts, Std, url_regex, is_digit, is_unreserved, encode, plus, decode, marked}

abbrev pub ends_scheme : ℕ → Bool
ends_scheme c = c == b':' || c == b'/' || c == b'?' || c == b'#'

abbrev pub ends_authority : ℕ → Bool
ends_authority c = c == b'/' || c == b'?' || c == b'#'

abbrev pub ends_path : ℕ → Bool
ends_path c = c == b'?' || c == b'#'

abbrev pub ends_query : ℕ → Bool
ends_query c = c == b'#'

abbrev pub is_nul : ℕ → Bool
is_nul c = c == 0

abbrev pub IsRooted : Bytes → Type 0
IsRooted [] = Unit
IsRooted (c ∷ cs) = c ≡ b'/'

abbrev pub NonEmpty : Bytes → Type 0
NonEmpty [] = ⊥
NonEmpty (c ∷ cs) = Unit

-- The parts of a URL with a scheme and an authority, by RFC 3986.
pub record IsParts (p : Parts) : Type 0 where
  pub has_scheme : NonEmpty p.scheme
  pub scheme : Lacks ends_scheme p.scheme
  pub authority : Lacks ends_authority p.authority
  pub path : Lacks ends_path p.path
  pub rooted : IsRooted p.path
  pub query : Lacks ends_query p.query
  pub fragment : Lacks is_nul p.fragment

abbrev pub text_of : Parts → Bytes
text_of p =
    p.scheme
    ++ (codes "://" ++ (p.authority ++ (p.path ++ (marked b'?' p.query ++ marked b'#' p.fragment))))

-- `regex_match` takes what the expression says, from the left to the right; `stoi` reads what is printed, the decimal digits of a
-- number, and a byte's two hexadecimal digits.
pub record IsStd (std : Std) : Type 0 where
  pub matches : (text : Bytes) → std.regex_match url_regex text ≡ match_whole url_regex text
  pub reads_port : (n : ℕ) → n < 2 ^ 16 → std.stoi (std.print n) ≡ some n
  pub prints_digits : (n : ℕ) → All (λ c. is_digit c ≡ true) (std.print n)
  pub reads_hex :
      (c : ℕ)
      → c < 256
      → std.stoi_hex (hex_char true (c / 16) ∷ hex_char true (c % 16) ∷ []) ≡ some c

-- A character that is no percent sign is decoded alone.
decode_plain :
    (std : Std) (c : ℕ) (rest : Bytes)
    → (c == b'%') ≡ false
    → decode std (c ∷ rest) ≡ plus c ∷ decode std rest
unfolding decode
decode_plain std c [] h = refl
decode_plain std c (a ∷ []) h = refl
decode_plain std c (a ∷ b ∷ rest) h = rw h refl

decode_hex :
    (std : Std)
    → IsStd std
    → (c : ℕ) (rest : Bytes) → c < 256
    → decode std (b'%' ∷ hex_char true (c / 16) ∷ hex_char true (c % 16) ∷ rest)
      ≡ c ∷ decode std rest
unfolding decode
decode_hex std laws c rest small = rw (laws.reads_hex c small) refl

-- What is encoded, of any bytes, decodes to the same bytes.
pub decode-encode :
    (std : Std) → IsStd std → (str : Bytes) → All IsByte str → decode std (encode str) ≡ str
unfolding encode is_unreserved decode
decode-encode std laws [] h = refl
decode-encode std laws (c ∷ str) h =
    let rest = decode-encode std laws str h.1 in
    if-both (λ (t : Bytes). decode std t ≡ c ∷ str) (is_unreserved c) _ _
      (λ e.
        let simple : plus c ≡ c = ground arith in
        decode_plain std c (encode str) (ground arith)
        ∙ ap (λ k. k ∷ decode std (encode str)) simple
        ∙ ap (λ k. c ∷ k) rest)
      (λ e. decode_hex std laws c (encode str) h.0 ∙ ap (λ k. c ∷ k) rest)

abbrev pub is_encoded : ℕ → Bool
is_encoded c = is_unreserved c || c == b'%'

hex_is_encoded : (n : ℕ) → n < 16 → is_encoded (hex_char true n) ≡ true
unfolding is_unreserved passes hex_char
hex_is_encoded n h = passes_at (λ k. is_encoded (hex_char true k)) 16 n h refl

-- What is encoded has letters, digits and `-_.~%` only.
pub encode_lem : (str : Bytes) → All IsByte str → All (λ c. is_encoded c ≡ true) (encode str)
unfolding encode is_unreserved
encode_lem [] h = tt
encode_lem (c ∷ str) h =
    let rest = encode_lem str h.1 in
    let small = h.0 in
    if-both (λ (t : Bytes). All (λ x. is_encoded x ≡ true) t) (is_unreserved c) _ _
      (λ e. (ground arith, rest))
      (λ e. (
        refl,
        (hex_is_encoded (c / 16) (omega arith), (hex_is_encoded (c % 16) (omega arith), rest)),
      ))

-- So it lacks each character that is none of these.
pub encode-Lacks :
    (test : ℕ → Bool) (str : Bytes)
    → ((c : ℕ) → is_encoded c ≡ true → test c ≡ false)
    → All IsByte str
    → Lacks test (encode str)
encode-Lacks test str h bytes = weaken is_encoded test (encode str) h (encode_lem str bytes)
