-- ===== src/Base64/RoundTrip.antt =====
-- Decoding undoes encoding; the lengths; where decoding stops.
use lmcore.Prelude.{
  ℕ, ◌+◌, ◌*◌, ◌/◌, ◌<◌, ◌≡◌, refl, ap, ap₂, ◌∙◌, arith, true, false, ◌&&◌, not, ◌==◌, [], ◌∷◌,
  ◌++◌, Bytes, All, IsByte, length,
}
use lmcore.Base64.{
  is_base64_char, char_at, value_of, sextet0, sextet1, sextet2, sextet3, octet0, octet1, octet2,
  encode, accepted, decode_groups, decode,
}
use lmcore.Base64.Sextets.{char_at_lem, sextet_lem, octet_lem}

accept_char : (n : ℕ) (r : Bytes) → n < 64 → accepted (char_at n ∷ r) ≡ char_at n ∷ accepted r
unfolding accepted
accept_char n r h = ground (arith, char_at_lem n h)

accepted-pad : (r : Bytes) → accepted (b'=' ∷ r) ≡ []
unfolding accepted
accepted-pad r = refl

-- The three bytes that four sextets of theirs give.
group_lem :
    (a b c : ℕ)
    → a < 256
    → b < 256
    → c < 256
    → (octet0 (value_of (char_at (sextet0 a))) (value_of (char_at (sextet1 a b))) ≡ a)
      × (octet1 (value_of (char_at (sextet1 a b))) (value_of (char_at (sextet2 b c))) ≡ b)
      × (octet2 (value_of (char_at (sextet2 b c))) (value_of (char_at (sextet3 c))) ≡ c)
group_lem a b c ha hb hc =
    let sa = sextet_lem a b ha hb in
    let sb = sextet_lem b c hb hc in
    let sc = sextet_lem c c hc hc in
    (
      ap₂ octet0 (char_at_lem (sextet0 a) (omega arith)).0
            (char_at_lem (sextet1 a b) (omega arith)).0
          ∙ (octet_lem (sextet0 a) (sextet1 a b) (omega arith) (omega arith)).0
          ∙ omega arith,
      ap₂ octet1 (char_at_lem (sextet1 a b) (omega arith)).0
            (char_at_lem (sextet2 b c) (omega arith)).0
          ∙ (octet_lem (sextet1 a b) (sextet2 b c) (omega arith) (omega arith)).1
          ∙ omega arith,
      ap₂ octet2 (char_at_lem (sextet2 b c) (omega arith)).0
            (char_at_lem (sextet3 c) (omega arith)).0
          ∙ (octet_lem (sextet2 b c) (sextet3 c) (omega arith) (omega arith)).2
          ∙ omega arith,
    )

sextets-lt :
    (a b : ℕ)
    → a < 256
    → b < 256
    → (sextet0 a < 64) × (sextet1 a b < 64) × (sextet2 a b < 64) × (sextet3 a < 64)
sextets-lt a b ha hb =
    let s = sextet_lem a b ha hb in (omega arith, omega arith, omega arith, omega arith)

-- Two characters of the alphabet are accepted with what follows them.
accept_two :
    (m n : ℕ) (r : Bytes)
    → m < 64
    → n < 64
    → accepted (char_at m ∷ char_at n ∷ r) ≡ char_at m ∷ char_at n ∷ accepted r
accept_two m n r hm hn =
    accept_char m (char_at n ∷ r) hm ∙ ap (λ t. char_at m ∷ t) (accept_char n r hn)

groups-encode : (bs : Bytes) → All IsByte bs → decode_groups (accepted (encode bs)) ≡ bs
unfolding encode decode_groups
groups-encode [] h = unfold accepted in refl
groups-encode (a ∷ []) h =
    let l = sextets-lt a 0 h.0 (omega arith) in
    ap decode_groups (
      accept_two (sextet0 a) (sextet1 a 0) (b'=' ∷ b'=' ∷ []) l.0 l.1
      ∙ ap (λ t. char_at (sextet0 a) ∷ char_at (sextet1 a 0) ∷ t) (accepted-pad (b'=' ∷ [])))
    ∙ ap (λ x. x ∷ []) (group_lem a 0 0 h.0 (omega arith) (omega arith)).0
groups-encode (a ∷ b ∷ []) h =
    let l = sextets-lt a b h.0 h.1.0 in
    let m = sextets-lt b 0 h.1.0 (omega arith) in
    let g = group_lem a b 0 h.0 h.1.0 (omega arith) in
    ap decode_groups (
      accept_two (sextet0 a) (sextet1 a b) (char_at (sextet2 b 0) ∷ b'=' ∷ []) l.0 l.1
      ∙ ap (λ t. char_at (sextet0 a) ∷ char_at (sextet1 a b) ∷ t)
          (accept_char (sextet2 b 0) (b'=' ∷ []) m.2
            ∙ ap (λ t. char_at (sextet2 b 0) ∷ t) (accepted-pad [])))
    ∙ ap₂ (λ x y. x ∷ y ∷ []) g.0 g.1
groups-encode (a ∷ b ∷ c ∷ r) h =
    let l = sextets-lt a b h.0 h.1.0 in
    let m = sextets-lt b c h.1.0 h.1.1.0 in
    let n = sextets-lt c c h.1.1.0 h.1.1.0 in
    let g = group_lem a b c h.0 h.1.0 h.1.1.0 in
    ap decode_groups (
      accept_two (sextet0 a) (sextet1 a b) (char_at (sextet2 b c) ∷ char_at (sextet3 c) ∷ encode r)
        l.0 l.1
      ∙ ap (λ t. char_at (sextet0 a) ∷ char_at (sextet1 a b) ∷ t)
          (accept_two (sextet2 b c) (sextet3 c) (encode r) m.2 n.3))
    ∙ ap₂
        (λ x y.
          x
          ∷ y
          ∷ octet2 (value_of (char_at (sextet2 b c))) (value_of (char_at (sextet3 c)))
          ∷ decode_groups (accepted (encode r)))
        g.0 g.1
    ∙ ap₂ (λ z t. a ∷ b ∷ z ∷ t) g.2 (groups-encode r h.1.1.1)

-- What is encoded decodes to the same bytes.
pub base64_round_trip : (bs : Bytes) → All IsByte bs → decode (encode bs) ≡ (true, bs)
unfolding decode
base64_round_trip bs h = ap (λ r. (true, r)) (groups-encode bs h)

-- The text has four characters for every three bytes begun, as the code reserves.
pub length-encode : (bs : Bytes) → length (encode bs) ≡ (length bs + 2) / 3 * 4
unfolding encode
length-encode [] = refl
length-encode (a ∷ []) = refl
length-encode (a ∷ b ∷ []) = refl
length-encode (a ∷ b ∷ c ∷ r) = omega (arith, length-encode r)

accepted-stop :
    (xs : Bytes) (c : ℕ) (ys : Bytes)
    → (is_base64_char c && not (c == b'=')) ≡ false
    → accepted (xs ++ (c ∷ ys)) ≡ accepted xs
unfolding accepted
accepted-stop [] c ys h = ground arith
accepted-stop (x ∷ xs) c ys h = ground (arith, accepted-stop xs c ys h)

-- A character outside the alphabet, or a padding sign, ends the decoding: what follows it is
-- ignored, and the call reports success as for the text before it.
pub decode_stops :
    (xs : Bytes) (c : ℕ) (ys : Bytes)
    → (is_base64_char c && not (c == b'=')) ≡ false
    → (decode (xs ++ (c ∷ ys)) ≡ decode xs) × ((decode (xs ++ (c ∷ ys))).0 ≡ true)
unfolding decode
decode_stops xs c ys h = (ap (λ r. (true, decode_groups r)) (accepted-stop xs c ys h), refl)
