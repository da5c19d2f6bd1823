-- ===== src/Uuid/Text.antt =====
-- The two forms of the text, and their validation.
use lmcore.Prelude.{
  ℕ, zero, suc, ◌+◌, ◌/◌, ◌%◌, ◌≡◌, refl, sym, ap, ◌∙◌, arith, Bool, true, false, ◌==◌, [], ◌∷◌,
  ◌++◌, Bytes, All, length, take, drop, length-append, append-nil, length-drop, take_of_length_le,
  take-append-drop, bit_and, ◌>>>◌, Bool-cases, inl, inr,
}
use lmcore.Hex.{is_xdigit, hex_char}
use lmcore.Hex.Digits.{digit_lem}
use lmcore.Uuid.{
  put_hex, format, generate, with_version, with_variant, digits_but_dashes, all_digits, validate,
  add_dashes, remove_dashes,
}

abbrev AllDigits : Bytes → Type 0
AllDigits = All (λ c. is_xdigit c ≡ true)

AllDigits-append : (xs ys : Bytes) → AllDigits xs → AllDigits ys → AllDigits (xs ++ ys)
AllDigits-append [] ys a b = b
AllDigits-append (x ∷ xs) ys a b = (a.0, AllDigits-append xs ys a.1 b)

put_hex-AllDigits : (w v : ℕ) → AllDigits (put_hex w v)
unfolding put_hex
put_hex-AllDigits zero v = tt
put_hex-AllDigits (suc w) v =
    AllDigits-append (put_hex w (v / 16)) (hex_char false (v % 16) ∷ [])
      (put_hex-AllDigits w (v / 16)) ((digit_lem false (v % 16) (omega arith)).0, tt)

length-put_hex : (w v : ℕ) → length (put_hex w v) ≡ w
unfolding put_hex
length-put_hex zero v = refl
length-put_hex (suc w) v =
    length-append (put_hex w (v / 16)) (hex_char false (v % 16) ∷ [])
    ∙ omega (arith, length-put_hex w (v / 16))

all_digits_lem : (xs : Bytes) → AllDigits xs → all_digits xs ≡ true
unfolding all_digits
all_digits_lem [] a = refl
all_digits_lem (x ∷ xs) a = ground (arith, a.0, all_digits_lem xs a.1)

-- Digits are passed over, wherever they stand.
digits_pass :
    (xs ys : Bytes) (i : ℕ)
    → AllDigits xs
    → digits_but_dashes (xs ++ ys) i ≡ digits_but_dashes ys (i + length xs)
unfolding digits_but_dashes
digits_pass [] ys i a = ap (digits_but_dashes ys) (omega arith)
digits_pass (x ∷ xs) ys i a = ground (
  arith,
  a.0,
  digits_pass xs ys (i + 1) a.1
      ∙ ap (digits_but_dashes ys)
          (let e : i + 1 + length xs ≡ i + suc (length xs) = omega arith in e),
)

remove-append : (xs ys : Bytes) → remove_dashes (xs ++ ys) ≡ remove_dashes xs ++ remove_dashes ys
unfolding remove_dashes
remove-append [] ys = refl
remove-append (x ∷ xs) ys = ground (arith, remove-append xs ys)

-- A dash that is put in comes out again.
remove_dash :
    (xs ys : Bytes) → remove_dashes (xs ++ (b'-' ∷ ys)) ≡ remove_dashes xs ++ remove_dashes ys
unfolding remove_dashes
remove_dash xs ys = remove-append xs (b'-' ∷ ys)

drop-nil : (n : ℕ) → drop {A = ℕ} n [] ≡ []
drop-nil zero = refl
drop-nil (suc n) = refl

drop-drop : (m n : ℕ) (xs : Bytes) → drop n (drop m xs) ≡ drop (m + n) xs
drop-drop zero n xs = ap (λ k. drop k xs) (omega arith)
drop-drop (suc m) n [] =
    drop-nil n
    ∙ sym (drop-nil (suc (m + n)))
    ∙ ap (λ k. drop k []) (let e : suc (m + n) ≡ suc m + n = omega arith in e)
drop-drop (suc m) n (x ∷ xs) =
    drop-drop m n xs
    ∙ ap (λ k. drop k (x ∷ xs)) (let e : suc (m + n) ≡ suc m + n = omega arith in e)

-- `RemoveDashes` undoes `AddDashes`, on any text without dashes, and in general leaves what it leaves
-- of the text before.
pub remove_dashes-add_dashes : (uuid : Bytes) → remove_dashes (add_dashes uuid) ≡ remove_dashes uuid
unfolding add_dashes
remove_dashes-add_dashes u = elim (Bool-cases (length u == 32)) [
  | inl e ↦ rw e (
      remove_dash (take 8 u) _
      ∙ ap (λ t. remove_dashes (take 8 u) ++ t)
          (remove_dash (take 4 (drop 8 u)) _
            ∙ ap (λ t. remove_dashes (take 4 (drop 8 u)) ++ t)
                (remove_dash (take 4 (drop 12 u)) _
                  ∙ ap (λ t. remove_dashes (take 4 (drop 12 u)) ++ t)
                      (remove_dash (take 4 (drop 16 u)) (take 12 (drop 20 u))
                        ∙ ap (λ t. remove_dashes (take 4 (drop 16 u)) ++ remove_dashes t)
                            (take_of_length_le 12 (drop 20 u) (ground (arith, length-drop 20 u)))
                        ∙ part 4 16 20 refl)
                  ∙ part 4 12 16 refl)
            ∙ part 4 8 12 refl)
      ∙ sym (remove-append (take 8 u) (drop 8 u))
      ∙ ap remove_dashes (take-append-drop 8 u))
  | inr e ↦ rw e refl
]
  where
    part :
        (n m k : ℕ)
        → k ≡ m + n
        → remove_dashes (take n (drop m u)) ++ remove_dashes (drop k u) ≡ remove_dashes (drop m u)
    part n m k e =
        ap (λ t. remove_dashes (take n (drop m u)) ++ remove_dashes t)
          (ap (λ j. drop j u) e ∙ sym (drop-drop m n u))
        ∙ sym (remove-append (take n (drop m u)) (drop n (drop m u)))
        ∙ ap remove_dashes (take-append-drop n (drop m u))

-- A text of the form with dashes passes the loop.
dashed_lem :
    (a b c d e : ℕ)
    → digits_but_dashes
        (put_hex 8 a
          ++ (b'-'
              ∷ (put_hex 4 b
                  ++ (b'-' ∷ (put_hex 4 c ++ (b'-' ∷ (put_hex 4 d ++ (b'-' ∷ put_hex 12 e))))))))
        0
      ≡ true
unfolding put_hex digits_but_dashes
dashed_lem a b c d e =
    digits_pass (put_hex 8 a)
      (b'-'
        ∷ (put_hex 4 b
            ++ (b'-' ∷ (put_hex 4 c ++ (b'-' ∷ (put_hex 4 d ++ (b'-' ∷ put_hex 12 e)))))))
      0 (put_hex-AllDigits 8 a)
    ∙ digits_pass (put_hex 4 b)
        (b'-' ∷ (put_hex 4 c ++ (b'-' ∷ (put_hex 4 d ++ (b'-' ∷ put_hex 12 e))))) 9
        (put_hex-AllDigits 4 b)
    ∙ digits_pass (put_hex 4 c) (b'-' ∷ (put_hex 4 d ++ (b'-' ∷ put_hex 12 e))) 14
        (put_hex-AllDigits 4 c)
    ∙ digits_pass (put_hex 4 d) (b'-' ∷ put_hex 12 e) 19 (put_hex-AllDigits 4 d)
    ∙ ap (λ t. digits_but_dashes t 24) (sym (append-nil (put_hex 12 e)))
    ∙ digits_pass (put_hex 12 e) [] 24 (put_hex-AllDigits 12 e)

-- Whatever numbers are drawn, `Validate` accepts the text, with dashes and without.
pub validate-generate : (b : Bool) (high low : ℕ) → validate (generate b high low) ≡ true
unfolding validate generate format put_hex
validate-generate true high low =
    let h = with_version high in
    let l = with_variant low in
    dashed_lem (bit_and (h >>> 32) 0xFFFFFFFF) (bit_and (h >>> 16) 0xFFFF) (bit_and h 0xFFFF)
      (bit_and (l >>> 48) 0xFFFF) (bit_and l 0xFFFFFFFFFFFF)
validate-generate false high low =
    all_digits_lem (put_hex 16 (with_version high) ++ put_hex 16 (with_variant low)) (
      AllDigits-append (put_hex 16 (with_version high)) (put_hex 16 (with_variant low))
        (put_hex-AllDigits 16 (with_version high)) (put_hex-AllDigits 16 (with_variant low)))
