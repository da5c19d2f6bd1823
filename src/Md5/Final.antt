-- ===== src/Md5/Final.antt =====
-- `Final` pads the text and gives the digest.
use lmcore.Prelude.{
  ℕ, zero, suc, ◌-◌, ◌*◌, ◌/◌, ◌%◌, ◌^◌, ◌≤◌, ◌<◌, ◌≡◌, refl, sym, ap, ap₂, ◌∙◌, arith,
  if◌then◌else◌, ltb, List, [], ◌∷◌, ◌++◌, Bytes, length, take, replicate, All, append_assoc,
  append-nil, length-append, length-replicate, bit_and,
}
use lmcore.Md5.{Context, init, first_state, padding, encode, words, update, update_all, final}
use lmcore.Md5.Count.{index_lem}
use lmcore.Md5.Blocks.{concat, concat_injective, IsBlock, absorb, length-concat, Absorbed}
use lmcore.Md5.Rfc.{rfc_bytes}
use lmcore.Md5.Update.{init-Absorbed, update-Absorbed, update_all-Absorbed}

abbrev pub zeros : ℕ → Bytes
zeros n = replicate n 0

-- The padding of RFC 1321 for a text of `n` bytes: a one bit, zeros up to 8 bytes short of a block,
-- and the number of bits modulo 2 ^ 64, its lowest byte first.
abbrev pub rfc_padding : ℕ → Bytes
rfc_padding n =
    (0x80 ∷ zeros ((119 - n % 64) % 64)) ++ encode (n * 8 % 2 ^ 32 ∷ n * 8 / 2 ^ 32 % 2 ^ 32 ∷ [])

-- The digest of a text that is some blocks.
abbrev pub digest : List Bytes → Bytes
digest blocks = encode (words (absorb first_state blocks))

take-zeros : (k n : ℕ) → k ≤ n → take k (zeros n) ≡ zeros k
take-zeros zero n h = refl
take-zeros (suc k) zero h = absurd (omega arith)
take-zeros (suc k) (suc n) h = ap (λ r. 0 ∷ r) (take-zeros k n (omega arith))

abbrev pad_len : ℕ → ℕ
pad_len index = if ltb index 56 then 56 - index else 120 - index

take-padding : (n : ℕ) → take (pad_len (n % 64)) padding ≡ 0x80 ∷ zeros ((119 - n % 64) % 64)
take-padding n =
    let e : pad_len (n % 64) ≡ suc ((119 - n % 64) % 64) = ground arith in
    rw e (ap (λ r. 0x80 ∷ r) (take-zeros ((119 - n % 64) % 64) 63 (omega arith)))

length-encode : (v w : ℕ) → length (encode (v ∷ w ∷ [])) ≡ 8
unfolding encode
length-encode v w = refl

empty_of_zero : (xs : Bytes) → length xs ≡ 0 → xs ≡ []
empty_of_zero [] h = refl
empty_of_zero (x ∷ xs) h = absurd (omega arith)

-- `Final` of a context that was given a text: the text and its padding are a whole number of blocks, and
-- the digest is that of the state after them.
pub final_lem :
    (ctx : Context) (text : Bytes)
    → Absorbed ctx text
    → (blocks : List Bytes) × All IsBlock blocks
      × (concat blocks ≡ text ++ rfc_padding (length text))
      × (final ctx ≡ digest blocks)
unfolding final
final_lem ctx text v =
    let n = length text in
    let index = bit_and (ctx.count_low / 2 ^ 3) 0x3f in
    let bits = encode (ctx.count_low ∷ ctx.count_high ∷ []) in
    let front = take (pad_len index) padding in
    let at : index ≡ n % 64 = index_lem ctx n v.counts in
    let is_front : front ≡ 0x80 ∷ zeros ((119 - n % 64) % 64) =
      ap (λ i. take (pad_len i) padding) at ∙ take-padding n in
    let long = ap length is_front in
    let count : length (zeros ((119 - n % 64) % 64)) ≡ (119 - n % 64) % 64 =
      length-replicate ((119 - n % 64) % 64) 0 in
    let eight = length-encode ctx.count_low ctx.count_high in
    let w =
      update-Absorbed (update ctx front) (text ++ front) bits (omega arith)
        (update-Absorbed ctx text front (omega arith) v) in
    let full = length-concat w.blocks w.whole in
    let rest : w.rest ≡ [] = empty_of_zero w.rest (
      let s = w.short in
      omega (
        arith,
        ap length w.splits,
        length-append (concat w.blocks) w.rest,
        length-append (text ++ front) bits,
        length-append text front,
      )) in
    (
      w.blocks,
      w.whole,
      sym (append-nil (concat w.blocks))
          ∙ ap (λ r. concat w.blocks ++ r) (sym rest)
          ∙ sym w.splits
          ∙ append_assoc text front bits
          ∙ ap (λ k. text ++ k)
              (ap₂ (λ x y. x ++ y) is_front
                (ap₂ (λ x y. encode (x ∷ y ∷ [])) v.counts.low v.counts.high)),
      ap (λ q. encode (words q)) w.state,
    )

absorbed_lem :
    (buffer : Bytes) (pieces : List Bytes)
    → length buffer ≡ 64
    → All (λ p. length p < 2 ^ 64) pieces
    → (blocks : List Bytes) × All IsBlock blocks
      × (concat blocks ≡ concat pieces ++ rfc_padding (length (concat pieces)))
      × (final (update_all (init buffer) pieces) ≡ digest blocks)
absorbed_lem buffer pieces h k =
    final_lem (update_all (init buffer) pieces) (concat pieces)
      (update_all-Absorbed (init buffer) [] pieces k (init-Absorbed buffer h))

-- The padding of RFC 1321 for a text of `n` bytes, with the count as the RFC writes it.
abbrev pub rfc_tail : ℕ → Bytes
rfc_tail n =
    (0x80 ∷ zeros ((119 - n % 64) % 64))
    ++ rfc_bytes (n * 8 % 2 ^ 32 ∷ n * 8 / 2 ^ 32 % 2 ^ 32 ∷ [])

-- The digest depends on the text alone: not on how it is cut into pieces, nor on what was in the
-- buffers.
pub pieces_lem :
    (buffer other : Bytes) (pieces others : List Bytes)
    → length buffer ≡ 64
    → length other ≡ 64
    → All (λ p. length p < 2 ^ 64) pieces
    → All (λ p. length p < 2 ^ 64) others
    → concat pieces ≡ concat others
    → final (update_all (init buffer) pieces) ≡ final (update_all (init other) others)
pieces_lem buffer other pieces others h k small less same =
    let (bs, w, t, d) = absorbed_lem buffer pieces h small in
    let (cs, x, u, e) = absorbed_lem other others k less in
    d
    ∙ ap digest
        (concat_injective bs cs w x (t ∙ ap (λ z. z ++ rfc_padding (length z)) same ∙ sym u))
    ∙ sym e
