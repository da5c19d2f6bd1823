-- ===== src/Md5/Blocks.antt =====
-- The state after blocks of 64 bytes, and how a context stands to the text it was given.
use lmcore.Prelude.{
  ℕ, zero, suc, ◌+◌, ◌*◌, ◌≤◌, ◌<◌, ◌≡◌, refl, sym, ap, ap₂, ◌∙◌, arith, ltb, List, [], ◌∷◌, ◌++◌,
  Bytes, length, take, drop, All, append_assoc, length-append, length-take, length-drop,
  take-append_length, take-append-drop, Bool-cases, inl, inr,
}
use lmcore.Md5.{Quad, transform, Context, paste, first_state, transform_loop}
use lmcore.Md5.Count.{Counts}

abbrev pub concat : List Bytes → Bytes
concat [] = []
concat (x ∷ xs) = x ++ concat xs

abbrev pub IsBlock : Bytes → Type 0
IsBlock b = length b ≡ 64

-- The state after some blocks.
abbrev pub absorb : Quad → List Bytes → Quad
absorb q [] = q
absorb q (b ∷ bs) = absorb (transform q b) bs

pub absorb-append : (q : Quad) (bs cs : List Bytes) → absorb q (bs ++ cs) ≡ absorb (absorb q bs) cs
absorb-append q [] cs = refl
absorb-append q (b ∷ bs) cs = absorb-append (transform q b) bs cs

pub concat-append : (bs cs : List Bytes) → concat (bs ++ cs) ≡ concat bs ++ concat cs
concat-append [] cs = refl
concat-append (b ∷ bs) cs =
    ap (λ t. b ++ t) (concat-append bs cs) ∙ sym (append_assoc b (concat bs) (concat cs))

pub All-append : (bs cs : List Bytes) → All IsBlock bs → All IsBlock cs → All IsBlock (bs ++ cs)
All-append [] cs h k = k
All-append (b ∷ bs) cs h k = (h.0, All-append bs cs h.1 k)

pub length-concat : (bs : List Bytes) → All IsBlock bs → length (concat bs) ≡ length bs * 64
length-concat [] h = omega arith
length-concat (b ∷ bs) h = omega (arith, length-append b (concat bs), length-concat bs h.1, h.0)

drop-append_length : (xs ys : Bytes) → drop (length xs) (xs ++ ys) ≡ ys
drop-append_length [] ys = refl
drop-append_length (x ∷ xs) ys = drop-append_length xs ys

-- A text is cut into blocks in one way.
pub concat_injective :
    (bs cs : List Bytes) → All IsBlock bs → All IsBlock cs → concat bs ≡ concat cs → bs ≡ cs
concat_injective [] [] h k e = refl
concat_injective [] (c ∷ cs) h k e =
    absurd (omega (arith, length-append c (concat cs), k.0, ap length e))
concat_injective (b ∷ bs) [] h k e =
    absurd (omega (arith, length-append b (concat bs), h.0, ap length e))
concat_injective (b ∷ bs) (c ∷ cs) h k e =
    ap₂ (λ x xs. x ∷ xs)
      (sym (take-append_length b (concat bs))
        ∙ ap₂ take (h.0 ∙ sym k.0) e
        ∙ take-append_length c (concat cs))
      (concat_injective bs cs h.1 k.1 (
        sym (drop-append_length b (concat bs))
        ∙ ap₂ drop (h.0 ∙ sym k.0) e
        ∙ drop-append_length c (concat cs)))

-- The blocks that the text fills are absorbed, and the rest of it is at the front of the buffer.
pub record Absorbed (ctx : Context) (text : Bytes) : Type 0 where
  pub blocks : List Bytes
  pub rest : Bytes
  pub whole : All IsBlock blocks
  pub short : length rest < 64
  pub splits : text ≡ concat blocks ++ rest
  pub state : ctx.state ≡ absorb first_state blocks
  pub storage : length ctx.buffer ≡ 64
  pub kept : take (length rest) ctx.buffer ≡ rest
  pub counts : Counts ctx (length text)

-- The loop absorbs the blocks that the text has.
pub transform_loop_lem :
    (fuel : ℕ) (q : Quad) (text : Bytes)
    → length text ≤ fuel
    → (bs : List Bytes) × All IsBlock bs
      × ((transform_loop fuel q text).0 ≡ absorb q bs)
      × (text ≡ concat bs ++ (transform_loop fuel q text).1)
      × (length (transform_loop fuel q text).1 < 64)
unfolding transform_loop
transform_loop_lem zero q text h = ([], tt, refl, refl, omega arith)
transform_loop_lem (suc fuel) q text h = elim (Bool-cases (ltb 63 (length text))) [
  | inl e ↦
      let big : 63 < length text = ground arith in
      let (bs, w, s, t, r) =
        transform_loop_lem fuel (transform q (take 64 text)) (drop 64 text)
          (omega (arith, length-drop 64 text)) in
      rw e (
        take 64 text ∷ bs,
        (omega (arith, length-take 64 text), w),
        s,
        sym (take-append-drop 64 text)
            ∙ ap (λ k. take 64 text ++ k) t
            ∙ sym (
                append_assoc (take 64 text) (concat bs)
                  (transform_loop fuel (transform q (take 64 text)) (drop 64 text)).1),
        r,
      )
  | inr e ↦ rw e ([], tt, refl, refl, ground arith)
]

-- What a copy into the buffer leaves at its front.
pub length-paste :
    (dest : Bytes) (at : ℕ) (bytes : Bytes)
    → at + length bytes ≤ length dest
    → length (paste dest at bytes) ≡ length dest
length-paste dest at bytes h = omega (
  arith,
  length-append (take at dest) (bytes ++ drop (at + length bytes) dest),
  length-append bytes (drop (at + length bytes) dest),
  length-take at dest,
  length-drop (at + length bytes) dest,
)

pub take-paste :
    (dest : Bytes) (at : ℕ) (bytes front : Bytes)
    → at ≤ length dest
    → take at dest ≡ front
    → take (at + length bytes) (paste dest at bytes) ≡ front ++ bytes
take-paste dest at bytes front h e =
    let l : length (take at dest ++ bytes) ≡ at + length bytes =
      omega (arith, length-append (take at dest) bytes, length-take at dest) in
    ap₂ take (sym l) (sym (append_assoc (take at dest) bytes (drop (at + length bytes) dest)))
    ∙ take-append_length (take at dest ++ bytes) (drop (at + length bytes) dest)
    ∙ ap (λ k. k ++ bytes) e
