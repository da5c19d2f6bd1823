-- ===== src/Hex/RoundTrip.antt =====
-- Encoding and decoding: the round trip, when decoding succeeds, and what `IsValidHex` promises.
use lmcore.Prelude.{
  ℕ, suc, ◌*◌, ◌/◌, ◌%◌, ◌≤◌, ◌≡◌, refl, ap, ap₂, ◌∙◌, arith, Bool, true, false, ◌==◌,
  if◌then◌else◌, some, [], ◌∷◌, ◌++◌, Bytes, All, IsByte, length, Bool-cases, Option-cases, inl,
  inr, bit_and,
}
use lmcore.Hex.{
  is_xdigit, digits, encode_more, encode_all, encode, clean, char_to_nibble, pair_byte, push_pair,
  decode_pairs, decode, count_digits, is_valid_hex,
}
use lmcore.Hex.Digits.{digit_lem, pair_byte_lem, nibble-lt, nibble_of_xdigit}

clean-append : (xs ys : Bytes) → clean (xs ++ ys) ≡ clean xs ++ clean ys
unfolding clean
clean-append [] ys = refl
clean-append (x ∷ xs) ys = ground (arith, clean-append xs ys)

module _ (u : Bool) (sep : ℕ) (no_digit : is_xdigit sep ≡ false) where
  -- The digits without the separators.
  abbrev plain : Bytes → Bytes
  plain [] = []
  plain (b ∷ bs) = digits u sep b ++ plain bs

  clean-digits : (b : ℕ) (r : Bytes) → clean (digits u sep b ++ r) ≡ digits u sep b ++ clean r
  unfolding clean
  clean-digits b r = ground (
    arith,
    digit_lem u (bit_and (b / 16) 0x0f) (nibble-lt b).0,
    digit_lem u (bit_and b 0x0f) (nibble-lt b).1,
  )

  clean-encode_more : (bs : Bytes) → clean (encode_more u sep bs) ≡ plain bs
  unfolding encode_more
  clean-encode_more [] = unfold clean in refl
  clean-encode_more (b ∷ bs) = elim (Bool-cases (sep == 0)) [
    | inl e ↦ rw e (
        clean-digits b (encode_more u sep bs)
        ∙ ap (λ r. digits u sep b ++ r) (clean-encode_more bs))
    | inr e ↦ rw e (
        skip (digits u sep b ++ encode_more u sep bs)
        ∙ clean-digits b (encode_more u sep bs)
        ∙ ap (λ r. digits u sep b ++ r) (clean-encode_more bs))
  ]
    where
      skip : (r : Bytes) → clean (sep ∷ r) ≡ clean r
      skip r = unfold clean in rw no_digit

  clean-encode_all : (bs : Bytes) → clean (encode_all u sep bs) ≡ plain bs
  unfolding encode_all
  clean-encode_all [] = unfold clean in refl
  clean-encode_all (b ∷ bs) =
      clean-digits b (encode_more u sep bs) ∙ ap (λ r. digits u sep b ++ r) (clean-encode_more bs)

  decode_pairs-plain : (bs : Bytes) → All IsByte bs → decode_pairs (plain bs) ≡ (true, bs)
  unfolding decode_pairs
  decode_pairs-plain [] h = refl
  decode_pairs-plain (b ∷ bs) h =
      ap₂ push_pair
        (ap₂ pair_byte (digit_lem u (bit_and (b / 16) 0x0f) (nibble-lt b).0).1
            (digit_lem u (bit_and b 0x0f) (nibble-lt b).1).1
          ∙ pair_byte_lem b h.0)
        (decode_pairs-plain bs h.1)

  length-plain : (bs : Bytes) → length (plain bs) ≡ 2 * length bs
  length-plain [] = omega arith
  length-plain (b ∷ bs) = omega (arith, length-plain bs)

  -- What is encoded, in either case and with any separator that is not a hexadecimal digit,
  -- decodes to the same bytes.
  pub hex_round_trip : (bs : Bytes) → All IsByte bs → decode (encode u sep (some bs)) ≡ (true, bs)
  unfolding decode encode
  hex_round_trip [] h = unfold encode_all in refl
  hex_round_trip (b ∷ bs) h =
      rw (clean-encode_all (b ∷ bs))
        (ground (arith, decode_pairs-plain (b ∷ bs) h, length-plain bs, nonempty))
    where
      nonempty : 2 ≤ length (encode_all u sep (b ∷ bs))
      nonempty = unfold encode_all in omega arith

abbrev AllDigits : Bytes → Type 0
AllDigits = All (λ c. is_xdigit c ≡ true)

clean-AllDigits : (cs : Bytes) → AllDigits (clean cs)
unfolding clean
clean-AllDigits [] = tt
clean-AllDigits (c ∷ cs) = ground (arith, clean-AllDigits cs)

-- An even number of digits decodes, to half as many bytes.
abbrev Decoded : ℕ → Bool × Bytes → Type 0
Decoded n (ok, out) = (ok ≡ true) × (2 * length out ≡ n) × All IsByte out

push_pair_lem :
    (h l : ℕ) (n : ℕ) (r : Bool × Bytes)
    → is_xdigit h ≡ true
    → is_xdigit l ≡ true
    → Decoded n r
    → Decoded (suc (suc n)) (push_pair (pair_byte (char_to_nibble h) (char_to_nibble l)) r)
push_pair_lem h l n (true, out) dh dl (a, b, c) =
    let (x, ex) = nibble_of_xdigit h dh in
    let (y, ey) = nibble_of_xdigit l dl in rw (ex, ey) (refl, omega arith, (omega arith, c))
push_pair_lem h l n (false, out) dh dl (a, b, c) = cc

decode_pairs_lem :
    (cs : Bytes) → AllDigits cs → length cs % 2 ≡ 0 → Decoded (length cs) (decode_pairs cs)
unfolding decode_pairs
decode_pairs_lem [] h e = (refl, refl, tt)
decode_pairs_lem (c ∷ []) h e = absurd (omega arith)
decode_pairs_lem (c ∷ d ∷ cs) h e =
    push_pair_lem c d (length cs) (decode_pairs cs) h.0 h.1.0
      (decode_pairs_lem cs h.1.1 (omega arith))

-- `Decode` succeeds exactly if the text has an even number of hexadecimal digits. Its output is then
-- one byte for every two of them, and is empty otherwise.
pub decode_lem :
    (hex : Bytes)
    → ((decode hex).0 ≡ (length (clean hex) % 2 == 0))
      × (2 * length (decode hex).1 ≡ (if (decode hex).0 then length (clean hex) else 0))
unfolding decode
decode_lem [] = unfold clean in (refl, refl)
decode_lem (c ∷ cs) = elim (Bool-cases (length (clean (c ∷ cs)) % 2 == 0)) [
  | inl even ↦
      ground (arith, decode_pairs_lem (clean (c ∷ cs)) (clean-AllDigits (c ∷ cs)) (ground arith))
  | inr odd ↦ ground arith
]

count_digits_lem :
    (allow : Bool) (cs : Bytes) (n : ℕ) → count_digits allow cs ≡ some n → length (clean cs) ≡ n
unfolding count_digits clean
count_digits_lem allow [] n h = ground arith
count_digits_lem allow (c ∷ cs) n h = elim (Option-cases (count_digits allow cs)) [
  | inl e ↦ ground arith
  | inr (k, e) ↦ ground (arith, count_digits_lem allow cs k e)
]

-- A text that `IsValidHex` accepts decodes, and not to nothing.
pub decode_of_valid :
    (hex : Bytes) (allow : Bool)
    → is_valid_hex hex allow ≡ true
    → ((decode hex).0 ≡ true) × (1 ≤ length (decode hex).1)
unfolding is_valid_hex
decode_of_valid hex allow h = elim (Option-cases (count_digits allow hex)) [
  | inl e ↦ ground arith
  | inr (n, e) ↦ ground (arith, decode_lem hex, count_digits_lem allow hex n e)
]
