-- ===== src/Md5/Rfc.antt =====
-- The transformation of RFC 1321, section 3.4: 64 steps in four rounds of 16, with the functions F, G,
-- H and I, the words of each round in its order, its four shifts and the table T.
use lmcore.Prelude.{
  ℕ, zero, suc, ◌+◌, ◌-◌, ◌*◌, ◌/◌, ◌%◌, ◌^◌, ◌≡◌, refl, ap, ◌∙◌, List, [], ◌∷◌, Bytes, get_or, u32,
  bit_and, bit_or, bit_xor, bit_and-low, ◌>>>◌,
}
use lmcore.Md5.{
  Quad, Row, f_mix, g_mix, h_mix, i_mix, rotate_left, round, rounds, ff_rows, gg_rows, hh_rows,
  ii_rows, decode, encode, transform, first_state, words,
}
use lmcore.Md5.Blocks.{absorb}

-- The function of a round.
abbrev pub rfc_function : ℕ → ℕ → ℕ → ℕ → ℕ
rfc_function zero x y z = bit_or (bit_and x y) (bit_and (2 ^ 32 - 1 - x) z)
rfc_function (suc zero) x y z = bit_or (bit_and x z) (bit_and y (2 ^ 32 - 1 - z))
rfc_function (suc (suc zero)) x y z = bit_xor (bit_xor x y) z
rfc_function _ x y z = bit_xor y (bit_or x (2 ^ 32 - 1 - z))

-- The word of the block that the step `i` of a round takes.
abbrev pub rfc_word : ℕ → ℕ → ℕ
rfc_word zero i = i
rfc_word (suc zero) i = (5 * i + 1) % 16
rfc_word (suc (suc zero)) i = (3 * i + 5) % 16
rfc_word _ i = 7 * i % 16

-- The shifts of a round, which it takes in turn.
abbrev pub rfc_shifts : ℕ → List ℕ
rfc_shifts zero = 7 ∷ 12 ∷ 17 ∷ 22 ∷ []
rfc_shifts (suc zero) = 5 ∷ 9 ∷ 14 ∷ 20 ∷ []
rfc_shifts (suc (suc zero)) = 4 ∷ 11 ∷ 16 ∷ 23 ∷ []
rfc_shifts _ = 6 ∷ 10 ∷ 15 ∷ 21 ∷ []

-- The table T: the integer part of 2 ^ 32 times the absolute value of the sine of 1 to 64.
abbrev pub rfc_table : List ℕ
rfc_table =
    3614090360 ∷ 3905402710 ∷ 606105819 ∷ 3250441966 ∷ 4118548399 ∷ 1200080426 ∷ 2821735955
    ∷ 4249261313 ∷ 1770035416 ∷ 2336552879 ∷ 4294925233 ∷ 2304563134 ∷ 1804603682 ∷ 4254626195
    ∷ 2792965006 ∷ 1236535329 ∷ 4129170786 ∷ 3225465664 ∷ 643717713 ∷ 3921069994 ∷ 3593408605
    ∷ 38016083 ∷ 3634488961 ∷ 3889429448 ∷ 568446438 ∷ 3275163606 ∷ 4107603335 ∷ 1163531501
    ∷ 2850285829 ∷ 4243563512 ∷ 1735328473 ∷ 2368359562 ∷ 4294588738 ∷ 2272392833 ∷ 1839030562
    ∷ 4259657740 ∷ 2763975236 ∷ 1272893353 ∷ 4139469664 ∷ 3200236656 ∷ 681279174 ∷ 3936430074
    ∷ 3572445317 ∷ 76029189 ∷ 3654602809 ∷ 3873151461 ∷ 530742520 ∷ 3299628645 ∷ 4096336452
    ∷ 1126891415 ∷ 2878612391 ∷ 4237533241 ∷ 1700485571 ∷ 2399980690 ∷ 4293915773 ∷ 2240044497
    ∷ 1873313359 ∷ 4264355552 ∷ 2734768916 ∷ 1309151649 ∷ 4149444226 ∷ 3174756917 ∷ 718787259
    ∷ 3951481745 ∷ []

-- The step `i` of a round, [abcd k s t]: a = b + ((a + f(b, c, d) + X[k] + T[t]) <<< s). The roles of
-- the variables move one place in the next.
abbrev pub rfc_step : ℕ → List ℕ → ℕ → Quad → Quad
rfc_step r x i q =
    let sum = u32 (
      q.a
      + (rfc_function r q.b q.c q.d
          + get_or x (rfc_word r i) 0
          + get_or rfc_table (16 * r + i) 0)) in
    record {
      a = q.d;
      b = u32 (rotate_left sum (get_or (rfc_shifts r) (i % 4) 0) + q.b);
      c = q.b;
      d = q.c;
    }

-- `n` steps of a round from the step `i` on.
abbrev pub rfc_round : ℕ → List ℕ → ℕ → ℕ → Quad → Quad
rfc_round r x i zero q = q
rfc_round r x i (suc n) q = rfc_round r x (suc i) n (rfc_step r x i q)

-- The words of a block, the low byte of each first.
abbrev pub rfc_words : Bytes → List ℕ
rfc_words (p ∷ q ∷ r ∷ s ∷ rest) =
    bit_or (bit_or (bit_or p (q * 2 ^ 8)) (r * 2 ^ 16)) (s * 2 ^ 24) ∷ rfc_words rest
rfc_words _ = []

-- The bytes of words, the low byte of each first.
abbrev pub rfc_bytes : List ℕ → Bytes
rfc_bytes [] = []
rfc_bytes (w ∷ ws) =
    w % 2 ^ 8 ∷ w / 2 ^ 8 % 2 ^ 8 ∷ w / 2 ^ 16 % 2 ^ 8 ∷ w / 2 ^ 24 % 2 ^ 8 ∷ rfc_bytes ws

-- The four rounds, and what they are added to.
abbrev pub rfc_transform : Quad → Bytes → Quad
rfc_transform q block =
    let x = rfc_words block in
    let r = rfc_round 3 x 0 16 (rfc_round 2 x 0 16 (rfc_round 1 x 0 16 (rfc_round 0 x 0 16 q))) in
    record { a = u32 (q.a + r.a); b = u32 (q.b + r.b); c = u32 (q.c + r.c); d = u32 (q.d + r.d) }

abbrev pub rfc_absorb : Quad → List Bytes → Quad
rfc_absorb q [] = q
rfc_absorb q (b ∷ bs) = rfc_absorb (rfc_transform q b) bs

-- The digest of a text that is some blocks.
abbrev pub rfc_digest : List Bytes → Bytes
rfc_digest blocks =
    let start : Quad = record { a = 1732584193; b = 4023233417; c = 2562383102; d = 271733878 } in
    let q = rfc_absorb start blocks in rfc_bytes (q.a ∷ q.b ∷ q.c ∷ q.d ∷ [])

-- The rows that a round of the code would have by the RFC.
abbrev rows_of : ℕ → ℕ → ℕ → List Row
rows_of r i zero = []
rows_of r i (suc n) =
    (rfc_word r i, get_or (rfc_shifts r) (i % 4) 0, get_or rfc_table (16 * r + i) 0)
    ∷ rows_of r (suc i) n

rounds_lem :
    (r i n : ℕ) (x : List ℕ) (q : Quad)
    → rounds (rfc_function r) x q (rows_of r i n) ≡ rfc_round r x i n q
unfolding rounds round
rounds_lem r i zero x q = refl
rounds_lem r i (suc n) x q = rounds_lem r (suc i) n x (rfc_step r x i q)

decode_lem : (block : Bytes) → decode block ≡ rfc_words block
unfolding decode
decode_lem [] = refl
decode_lem (p ∷ []) = refl
decode_lem (p ∷ q ∷ []) = refl
decode_lem (p ∷ q ∷ r ∷ []) = refl
decode_lem (p ∷ q ∷ r ∷ s ∷ rest) =
    ap (λ ws. bit_or (bit_or (bit_or p (q * 2 ^ 8)) (r * 2 ^ 16)) (s * 2 ^ 24) ∷ ws)
      (decode_lem rest)

pub encode_lem : (ws : List ℕ) → encode ws ≡ rfc_bytes ws
unfolding encode
encode_lem [] = refl
encode_lem (w ∷ ws) =
    rw
      (
        bit_and-low 8 w,
        bit_and-low 8 (w >>> 8),
        bit_and-low 8 (w >>> 16),
        bit_and-low 8 (w >>> 24),
        encode_lem ws,
      )
      refl

-- The four rounds of the code on some words.
four : List ℕ → Quad → Quad
four x q =
    rounds i_mix x (rounds h_mix x (rounds g_mix x (rounds f_mix x q ff_rows) gg_rows) hh_rows)
      ii_rows

four_lem :
    (x : List ℕ) (q : Quad)
    → four x q ≡ rfc_round 3 x 0 16 (rfc_round 2 x 0 16 (rfc_round 1 x 0 16 (rfc_round 0 x 0 16 q)))
unfolding four f_mix g_mix h_mix i_mix
four_lem x q =
    rounds_lem 3 0 16 x (
      rounds (rfc_function 2) x
        (rounds (rfc_function 1) x (rounds (rfc_function 0) x q ff_rows) gg_rows) hh_rows)
    ∙ ap (rfc_round 3 x 0 16) (
        rounds_lem 2 0 16 x
          (rounds (rfc_function 1) x (rounds (rfc_function 0) x q ff_rows) gg_rows)
        ∙ ap (rfc_round 2 x 0 16) (
            rounds_lem 1 0 16 x (rounds (rfc_function 0) x q ff_rows)
            ∙ ap (rfc_round 1 x 0 16) (rounds_lem 0 0 16 x q)))

transform_lem : (q : Quad) (block : Bytes) → transform q block ≡ rfc_transform q block
unfolding transform four
transform_lem q block =
    ap
      (λ (r : Quad). record {
        a = u32 (q.a + r.a);
        b = u32 (q.b + r.b);
        c = u32 (q.c + r.c);
        d = u32 (q.d + r.d);
      })
      (ap (λ x. four x q) (decode_lem block) ∙ four_lem (rfc_words block) q)

absorb_lem : (q : Quad) (bs : List Bytes) → absorb q bs ≡ rfc_absorb q bs
absorb_lem q [] = refl
absorb_lem q (b ∷ bs) =
    ap (λ r. absorb r bs) (transform_lem q b) ∙ absorb_lem (rfc_transform q b) bs

-- The state of the code after some blocks has the digest of the RFC.
pub digest-absorb : (bs : List Bytes) → encode (words (absorb first_state bs)) ≡ rfc_digest bs
digest-absorb bs =
    encode_lem (words (absorb first_state bs))
    ∙ ap (λ q. rfc_bytes (words q)) (absorb_lem first_state bs)
