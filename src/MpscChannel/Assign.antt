-- ===== src/MpscChannel/Assign.antt =====
-- The assignment to `slot` keeps the invariant.
use lmcore.Prelude.{
  ◌⊎◌, ℕ, ◌+◌, ◌%◌, ◌≤◌, ◌<◌, ◌≡◌, inl, inr, ap, subst, ◌∙◌, arith, ◌==◌, Option, none, some,
  Bool-cases,
}
use lmcore.MpscChannel.{Producer, Consumer, Mpsc, update, slot}
use lmcore.MpscChannel.Valid.{in_hand, PushKnows, IsFine, IsValid, update_eq}
use lmcore.MpscChannel.Push.{slot_other, not_both}

-- The assignment writes what it has read, or empties the slot at `head_`.
assign-PushKnows :
    (s : Mpsc) (h : ℕ) (o : Option ℕ) (j : ℕ) (p : Producer)
    → h ≡ s.head
    → (o ≡ none) ⊎ ((o ≡ some (s.claims h)) × (slot s h ≡ some (s.claims h)))
    → in_hand s.consumer ≡ 0
    → s.tail ≤ h + s.capacity
    → PushKnows s j p
    → PushKnows
        (record s { buffer = update s.buffer (h % s.capacity) o; consumer = Consumer.pop_test 0 h })
        j
        p
assign-PushKnows s h o j Producer.outside at e out room k = tt
assign-PushKnows s h o j (Producer.push_tail w) at e out room k = tt
assign-PushKnows s h o j (Producer.push_head w t) at e out room k = k
assign-PushKnows s h o j (Producer.push_cas w t) at e out room k = k
assign-PushKnows s h o j (Producer.push_write w t) at e out room (a, b, c, d, g) = (
  omega arith,
  b,
  c,
  d,
  (elim (Bool-cases (h == t)) [
    | inl q ↦
        let same : h ≡ t = ground arith in
        elim e [
          | inl f ↦
              subst (λ p. update s.buffer (h % s.capacity) o (p % s.capacity) ≡ none) same
                (update_eq s.buffer (h % s.capacity) o ∙ f)
          | inr f ↦ absurd (not_both (s.claims h) (ap (slot s) same ∙ g) f.1)
        ]
    | inr q ↦ slot_other s h t o (λ x. absurd (ground arith)) (omega arith) (omega arith) ∙ g
  ]),
)

pub assign-IsValid :
    (n : ℕ) (s : Mpsc) (h : ℕ) (o : Option ℕ)
    → IsValid n s
    → in_hand s.consumer ≡ 0
    → h ≡ s.head
    → h < s.tail
    → (o ≡ none) ⊎ ((o ≡ some (s.claims h)) × (slot s h ≡ some (s.claims h)))
    → IsValid
        (n + 1)
        (record s { buffer = update s.buffer (h % s.capacity) o; consumer = Consumer.pop_test 0 h })
assign-IsValid n s h o v out at low e =
    let counted = v.counted in
    let order = v.order in
    let room = v.room in
    let positive = v.positive in
    record {
      positive = v.positive;
      counted = omega arith;
      order = omega arith;
      room = v.room;
      push_knows =
          λ j. assign-PushKnows s h o j (s.producers j) at e out (omega arith) (v.push_knows j);
      pop_knows = (at, low);
      held = λ p a b. elim (v.held p a b) [
        | inl f ↦ inl (slot_other s h p o (λ x. omega arith) (omega arith) (omega arith) ∙ f)
        | inr f ↦ inr f
      ];
      fine = λ p a b. elim (Bool-cases (h == p)) [
        | inl q ↦
            let same : h ≡ p = ground arith in
            subst
              (IsFine (record s {
                buffer = update s.buffer (h % s.capacity) o;
                consumer = Consumer.pop_test 0 h;
              }))
              same (written e)
        | inr q ↦
            let other =
              slot_other s h p o (λ x. absurd (ground arith)) (omega arith) (omega arith) in
            elim (v.fine p (omega arith) b) [ inl f ↦ inl (other ∙ f) | inr f ↦ inr (other ∙ f) ]
      ];
      free = λ p a b.
          slot_other s h p o (λ x. omega arith) (omega arith) (omega arith)
          ∙ v.free p a (omega arith);
      order_kept = v.order_kept;
    }
  where
    written :
        (o ≡ none) ⊎ ((o ≡ some (s.claims h)) × (slot s h ≡ some (s.claims h)))
        → (update s.buffer (h % s.capacity) o (h % s.capacity) ≡ none)
          ⊎ (update s.buffer (h % s.capacity) o (h % s.capacity) ≡ some (s.claims h))
    written (inl f) = inl (update_eq s.buffer (h % s.capacity) o ∙ f)
    written (inr f) = inr (update_eq s.buffer (h % s.capacity) o ∙ f.0)
