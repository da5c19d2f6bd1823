-- ===== src/Md5/Update.antt =====
-- `Update` takes a text of any length in.
use lmcore.Prelude.{
  ℕ, ◌+◌, ◌-◌, ◌/◌, ◌^◌, ◌≤◌, ◌<◌, ◌≡◌, refl, sym, ap, ap₂, subst, ◌∙◌, arith, leb, List, [], ◌∷◌,
  ◌++◌, Bytes, length, take, drop, All, append_assoc, append-nil, length-append, length-take,
  length-drop, take-append-drop, take_of_length_le, bit_and, if-both,
}
use lmcore.Md5.{
  transform, Context, init, first_state, paste, transform_loop, add_count, fill, update, update_all,
}
use lmcore.Md5.Count.{Counts, index_lem, add_count-Counts}
use lmcore.Md5.Blocks.{
  concat, absorb, absorb-append, concat-append, All-append, length-concat, Absorbed,
  transform_loop_lem, length-paste, take-paste,
}

pub init-Absorbed : (buffer : Bytes) → length buffer ≡ 64 → Absorbed (init buffer) []
unfolding init
init-Absorbed buffer h = record {
  blocks = [];
  rest = [];
  whole = tt;
  short = omega arith;
  splits = refl;
  state = refl;
  storage = h;
  kept = refl;
  counts = record { low = refl; high = refl };
}

-- The position in the buffer is the length of what is kept there.
pub index-rest :
    (ctx : Context) (text : Bytes) (v : Absorbed ctx text)
    → bit_and (ctx.count_low / 2 ^ 3) 0x3f ≡ length v.rest
index-rest ctx text v = omega (
  arith,
  index_lem ctx (length text) v.counts,
  ap length v.splits,
  length-append (concat v.blocks) v.rest,
  length-concat v.blocks v.whole,
  v.short,
)

Counts-append :
    (ctx : Context) (text bytes : Bytes)
    → length bytes < 2 ^ 64
    → Counts ctx (length text)
    → Counts (add_count ctx (length bytes)) (length (text ++ bytes))
Counts-append ctx text bytes small c =
    subst (Counts (add_count ctx (length bytes))) (sym (length-append text bytes))
      (add_count-Counts ctx (length text) (length bytes) small c)

fill-Absorbed :
    (ctx : Context) (text bytes : Bytes) (index : ℕ) (v : Absorbed ctx text)
    → length bytes < 2 ^ 64
    → index ≡ length v.rest
    → 64 - index ≤ length bytes
    → Absorbed (fill (add_count ctx (length bytes)) index (64 - index) bytes) (text ++ bytes)
unfolding add_count
fill-Absorbed ctx text bytes index v small at enough =
    let part = take (64 - index) bytes in
    let left = drop (64 - index) bytes in
    let full = paste ctx.buffer index part in
    let short = v.short in
    let store = v.storage in
    let long : length part ≡ 64 - index = omega (arith, length-take (64 - index) bytes) in
    let size : length full ≡ 64 = length-paste ctx.buffer index part (omega arith) ∙ v.storage in
    let filled : full ≡ v.rest ++ part =
      sym (take_of_length_le (index + length part) full (omega arith))
      ∙ take-paste ctx.buffer index part v.rest (omega arith)
          (ap (λ k. take k ctx.buffer) at ∙ v.kept) in
    let (bs, w, s, t, r) =
      transform_loop_lem (length bytes) (transform ctx.state full) left
        (omega (arith, length-drop (64 - index) bytes)) in
    let c = Counts-append ctx text bytes small v.counts in
    let loop = transform_loop (length bytes) (transform ctx.state full) left in
    record {
      blocks = v.blocks ++ (full ∷ bs);
      rest = loop.1;
      whole = All-append v.blocks (full ∷ bs) v.whole (size, w);
      short = r;
      splits =
          ap₂ (λ x y. x ++ y) v.splits
            (sym (take-append-drop (64 - index) bytes) ∙ ap (λ k. part ++ k) t)
          ∙ append_assoc (concat v.blocks) v.rest (part ++ (concat bs ++ loop.1))
          ∙ ap (λ k. concat v.blocks ++ k)
              (sym (append_assoc v.rest part (concat bs ++ loop.1))
                ∙ ap (λ k. k ++ (concat bs ++ loop.1)) (sym filled)
                ∙ sym (append_assoc full (concat bs) loop.1))
          ∙ sym (append_assoc (concat v.blocks) (full ++ concat bs) loop.1)
          ∙ ap (λ k. k ++ loop.1) (sym (concat-append v.blocks (full ∷ bs)));
      state =
          s
          ∙ ap (λ k. absorb (transform k full) bs) v.state
          ∙ sym (absorb-append first_state v.blocks (full ∷ bs));
      storage = length-paste full 0 loop.1 (omega arith) ∙ size;
      kept =
          ap (λ k. take k (paste full 0 loop.1))
            (let z : length loop.1 ≡ 0 + length loop.1 = omega arith in z)
          ∙ take-paste full 0 loop.1 [] (omega arith) refl;
      counts = record { low = c.low; high = c.high };
    }

keep-Absorbed :
    (ctx : Context) (text bytes : Bytes) (index : ℕ) (v : Absorbed ctx text)
    → length bytes < 2 ^ 64
    → index ≡ length v.rest
    → length bytes < 64 - index
    → Absorbed
        (record (add_count ctx (length bytes)) { buffer = paste ctx.buffer index bytes })
        (text ++ bytes)
unfolding add_count
keep-Absorbed ctx text bytes index v small at less =
    let c = Counts-append ctx text bytes small v.counts in
    let store = v.storage in
    let l = length-append v.rest bytes in
    record {
      blocks = v.blocks;
      rest = v.rest ++ bytes;
      whole = v.whole;
      short = omega arith;
      splits = ap (λ k. k ++ bytes) v.splits ∙ append_assoc (concat v.blocks) v.rest bytes;
      state = v.state;
      storage = length-paste ctx.buffer index bytes (omega arith) ∙ v.storage;
      kept =
          ap (λ k. take k (paste ctx.buffer index bytes))
            (let z : length (v.rest ++ bytes) ≡ index + length bytes = omega arith in z)
          ∙ take-paste ctx.buffer index bytes v.rest (omega arith)
              (ap (λ k. take k ctx.buffer) at ∙ v.kept);
      counts = record { low = c.low; high = c.high };
    }

-- `Update` takes a text in, of any length below 2 ^ 64: the blocks that are complete then have been
-- transformed in their order, the rest of the text is in the buffer, and the bits are counted.
pub update-Absorbed :
    (ctx : Context) (text bytes : Bytes)
    → length bytes < 2 ^ 64
    → Absorbed ctx text
    → Absorbed (update ctx bytes) (text ++ bytes)
unfolding update
update-Absorbed ctx text bytes small v =
    let index = bit_and (ctx.count_low / 2 ^ 3) 0x3f in
    let at = index-rest ctx text v in
    if-both (λ k. Absorbed k (text ++ bytes)) (leb (64 - index) (length bytes))
      (fill (add_count ctx (length bytes)) index (64 - index) bytes)
      (record (add_count ctx (length bytes)) { buffer = paste ctx.buffer index bytes })
      (λ e. fill-Absorbed ctx text bytes index v small at (ground arith))
      (λ e. keep-Absorbed ctx text bytes index v small at (ground arith))

pub update_all-Absorbed :
    (ctx : Context) (text : Bytes) (pieces : List Bytes)
    → All (λ p. length p < 2 ^ 64) pieces
    → Absorbed ctx text
    → Absorbed (update_all ctx pieces) (text ++ concat pieces)
unfolding update_all
update_all-Absorbed ctx text [] h v = subst (Absorbed ctx) (sym (append-nil text)) v
update_all-Absorbed ctx text (p ∷ ps) h v =
    subst (Absorbed (update_all (update ctx p) ps)) (append_assoc text p (concat ps))
      (update_all-Absorbed (update ctx p) (text ++ p) ps h.1 (update-Absorbed ctx text p h.0 v))
