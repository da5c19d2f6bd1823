-- ===== src/MpscChannel/Push.antt =====
-- Producers keep the invariant.
use lmcore.Prelude.{
  ℕ, ◌+◌, ◌%◌, ◌^◌, ◌≤◌, ◌<◌, ◌≡◌, ◌≢◌, inl, inr, refl, sym, ap, subst, ◌∙◌, arith, Bool, true,
  false, ◌==◌, ◌&&◌, not, leb, Option, none, some, sub64, Bool-cases, if-both, IfSome,
}
use lmcore.MpscChannel.{Producer, Consumer, Mpsc, update, go, push_reply, slot, claim, push_step}
use lmcore.MpscChannel.Valid.{
  first, PushKnows, PopKnows, IsValid, is_writing, update_ne, update_eq, go-IsValid,
}
use lmcore.MpscChannel.Claim.{apart, claim-IsValid}

-- A write to the slot of another position.
pub slot_other :
    (s : Mpsc) (t p : ℕ) (o : Option ℕ)
    → t ≢ p
    → t < p + s.capacity
    → p < t + s.capacity
    → update s.buffer (t % s.capacity) o (p % s.capacity) ≡ slot s p
slot_other s t p o h a b =
    update_ne s.buffer (t % s.capacity) (p % s.capacity) o (apart s.capacity t p h a b)

abbrev position : Producer → ℕ
position (Producer.push_write v t) = t
position _ = 0

abbrev is_none : Option ℕ → Bool
is_none none = true
is_none (some x) = false

pub not_both : (v : ℕ) {o : Option ℕ} → o ≡ none → o ≡ some v → ⊥
not_both v a b = absurd (ground (arith, ap is_none (sym a ∙ b)))

-- Only the producer of a position writes its slot.
write-PushKnows :
    (s : Mpsc) (i t j : ℕ) (o : Option ℕ) (p : Producer)
    → i ≢ j
    → s.owner t ≡ i
    → first s ≤ t
    → t < s.tail
    → s.tail ≤ s.head + s.capacity
    → PushKnows s j p
    → PushKnows (record s { buffer = update s.buffer (t % s.capacity) o }) j p
write-PushKnows s i t j o Producer.outside h own a b room k = tt
write-PushKnows s i t j o (Producer.push_tail w) h own a b room k = tt
write-PushKnows s i t j o (Producer.push_head w q) h own a b room k = k
write-PushKnows s i t j o (Producer.push_cas w q) h own a b room k = k
write-PushKnows s i t j o (Producer.push_write w q) h own a b room (c, d, e, f, g) = (
  c,
  d,
  e,
  f,
  slot_other s t q o (λ x. h (sym own ∙ ap s.owner x ∙ f)) (omega arith) (omega arith) ∙ g,
)

write-PopKnows :
    (s : Mpsc) (t v : ℕ) (c : Consumer)
    → slot s t ≡ none
    → first s ≤ t
    → t < s.tail
    → s.tail ≤ s.head + s.capacity
    → PopKnows s c
    → PopKnows (record s { buffer = update s.buffer (t % s.capacity) (some v) }) c
write-PopKnows s t v Consumer.idle e a b room k = tt
write-PopKnows s t v Consumer.pop_head e a b room k = tt
write-PopKnows s t v Consumer.again_head e a b room k = tt
write-PopKnows s t v (Consumer.pop_tail h) e a b room k = k
write-PopKnows s t v (Consumer.again_tail h) e a b room k = k
write-PopKnows s t v (Consumer.pop_test n h) e a b room k = k
write-PopKnows s t v (Consumer.pop_store h w) e a b room k = k
write-PopKnows s t v (Consumer.assign_read h) e a b room k = k
write-PopKnows s t v (Consumer.assign_write h o) e a b room (c, d, f) = (
  c,
  d,
  (elim f [
    | inl g ↦ inl g
    | inr g ↦ inr (
      g.0,
      slot_other s t h (some v) (λ x. not_both (s.claims h) (ap (slot s) (sym x) ∙ e) g.1)
            (omega arith) (omega arith)
          ∙ g.1,
    )
  ]),
)
write-PopKnows s t v (Consumer.pop_take h) e a b room (c, d, f) = (
  c,
  d,
  slot_other s t h (some v) (λ x. not_both (s.claims h) (ap (slot s) (sym x) ∙ e) f) (omega arith)
        (omega arith)
      ∙ f,
)

write-IsValid :
    (n : ℕ) (s : Mpsc) (i v t : ℕ)
    → IsValid n s
    → s.producers i ≡ Producer.push_write v t
    → PushKnows s i (Producer.push_write v t)
    → IsValid
        (n + 1)
        (push_reply (record s { buffer = update s.buffer (t % s.capacity) (some v) }) i true)
write-IsValid n s i v t h at (a, b, c, own, e) =
    let counted = h.counted in
    let room = h.room in
    record {
      positive = h.positive;
      counted = omega arith;
      order = h.order;
      room = h.room;
      push_knows = λ j. elim (Bool-cases (i == j)) [
        | inl k ↦ rw k tt
        | inr k ↦ rw k (
            write-PushKnows s i t j (some v) (s.producers j) (λ x. absurd (ground arith)) own a b
              room (h.push_knows j))
      ];
      pop_knows = write-PopKnows s t v s.consumer e a b room h.pop_knows;
      held = λ p x y. elim (Bool-cases (t == p)) [
        | inl k ↦
            let same : t ≡ p = ground arith in
            inl (
              subst
                (λ q.
                  update s.buffer (t % s.capacity) (some v) (q % s.capacity) ≡ some (s.claims q))
                same (update_eq s.buffer (t % s.capacity) (some v) ∙ ap some (sym c)))
        | inr k ↦
            let ne : t ≢ p = λ z. absurd (ground arith) in
            elim (h.held p x y) [
              | inl f ↦ inl (slot_other s t p (some v) ne (omega arith) (omega arith) ∙ f)
              | inr f ↦ inr (
                  update_ne s.producers i (s.owner p) Producer.outside
                    (λ z. ne (ap position (sym at ∙ ap s.producers z ∙ f)))
                  ∙ f)
            ]
      ];
      fine = λ p x y. elim (Bool-cases (t == p)) [
        | inl k ↦
            let same : t ≡ p = ground arith in
            inr (
              subst
                (λ q.
                  update s.buffer (t % s.capacity) (some v) (q % s.capacity) ≡ some (s.claims q))
                same (update_eq s.buffer (t % s.capacity) (some v) ∙ ap some (sym c)))
        | inr k ↦
            let other =
              slot_other s t p (some v) (λ z. absurd (ground arith)) (omega arith) (omega arith) in
            elim (h.fine p x y) [ inl f ↦ inl (other ∙ f) | inr f ↦ inr (other ∙ f) ]
      ];
      free = λ p x y.
          slot_other s t p (some v) (λ z. omega arith) (omega arith) (omega arith) ∙ h.free p x y;
      order_kept = h.order_kept;
    }

push_step-at :
    (n : ℕ) (s : Mpsc) (i : ℕ) (spurious : Bool) (p : Producer)
    → n + 1 < 2 ^ 64
    → IsValid n s
    → s.producers i ≡ p
    → PushKnows s i p
    → IfSome (IsValid (n + 1)) (push_step s i spurious p)
unfolding push_step
push_step-at n s i spurious Producer.outside few h e k = tt
push_step-at n s i spurious (Producer.push_tail v) few h e k =
    go-IsValid n s i (Producer.push_head v s.tail) h (ap is_writing e) (omega arith)
push_step-at n s i spurious (Producer.push_head v t) few h e k =
    let a = h.counted in
    let b = h.order in
    let quiet = ap is_writing e in
    if-both (IsValid (n + 1)) (leb s.capacity (sub64 t s.head)) _ _
      (λ _. reply_lem (go-IsValid n s i Producer.outside h quiet tt))
      (λ f. go-IsValid n s i (Producer.push_cas v t) h quiet (ground arith))
  where
    reply_lem : IsValid (n + 1) (go s i Producer.outside) → IsValid (n + 1) (push_reply s i false)
    reply_lem w = record {
      positive = w.positive;
      counted = w.counted;
      order = w.order;
      room = w.room;
      push_knows = w.push_knows;
      pop_knows = w.pop_knows;
      held = w.held;
      fine = w.fine;
      free = w.free;
      order_kept = w.order_kept;
    }
push_step-at n s i spurious (Producer.push_cas v t) few h e k =
    let quiet = ap is_writing e in
    if-both (IsValid (n + 1)) ((s.tail == t) && not spurious) _ _
      (λ f.
        let now : s.tail ≡ t = ground arith in
        subst (λ q. IsValid (n + 1) (claim s i v q)) now
          (claim-IsValid n s i v few h quiet (omega arith)))
      (λ _. go-IsValid n s i (Producer.push_tail v) h quiet tt)
push_step-at n s i spurious (Producer.push_write v t) few h e k = write-IsValid n s i v t h e k

pub push_step-IsValid :
    (n : ℕ) (s : Mpsc) (i : ℕ) (spurious : Bool)
    → n + 1 < 2 ^ 64
    → IsValid n s
    → IfSome (IsValid (n + 1)) (push_step s i spurious (s.producers i))
push_step-IsValid n s i spurious few h =
    push_step-at n s i spurious (s.producers i) few h refl (h.push_knows i)
