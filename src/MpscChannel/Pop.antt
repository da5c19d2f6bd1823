-- ===== src/MpscChannel/Pop.antt =====
-- The consumer keeps the invariant.
use lmcore.Prelude.{
  ℕ, suc, ◌+◌, ◌%◌, ◌^◌, ◌≤◌, ◌<◌, ◌≡◌, ◌≢◌, inl, inr, refl, sym, ap, ap₂, subst, ◌∙◌, arith, ◌==◌,
  ltb, [], ◌∷◌, ◌++◌, Option, none, some, u64, Bool-cases, if-both, IfSome,
}
use native.Mathlib.Nat.{add-mod_right}
use lmcore.MpscChannel.{
  Producer, Consumer, Mpsc, update, slot, max_spin_count, test_slot, take_slot, pop_step,
}
use lmcore.MpscChannel.Valid.{in_hand, PushKnows, PopKnows, firsts, IsValid, update_eq}
use lmcore.MpscChannel.Push.{slot_other, not_both}
use lmcore.MpscChannel.Assign.{assign-IsValid}

-- The consumer moves on within its call.
consume-PushKnows :
    (s : Mpsc) (c : Consumer) (j : ℕ) (p : Producer)
    → in_hand c ≡ in_hand s.consumer
    → PushKnows s j p
    → PushKnows (record s { consumer = c }) j p
consume-PushKnows s c j Producer.outside e k = tt
consume-PushKnows s c j (Producer.push_tail v) e k = tt
consume-PushKnows s c j (Producer.push_head v t) e k = k
consume-PushKnows s c j (Producer.push_cas v t) e k = k
consume-PushKnows s c j (Producer.push_write v t) e (a, b, x, d, f) = (omega arith, b, x, d, f)

consume-PopKnows :
    (s : Mpsc) (c d : Consumer) (o : Option ℕ)
    → PopKnows s d
    → PopKnows (record s { consumer = c; popped = o }) d
consume-PopKnows s c Consumer.idle o k = tt
consume-PopKnows s c Consumer.pop_head o k = tt
consume-PopKnows s c Consumer.again_head o k = tt
consume-PopKnows s c (Consumer.pop_tail h) o k = k
consume-PopKnows s c (Consumer.again_tail h) o k = k
consume-PopKnows s c (Consumer.pop_test n h) o k = k
consume-PopKnows s c (Consumer.assign_read h) o k = k
consume-PopKnows s c (Consumer.assign_write h x) o k = k
consume-PopKnows s c (Consumer.pop_take h) o k = k
consume-PopKnows s c (Consumer.pop_store h v) o k = k

pub consume-IsValid :
    (n : ℕ) (s : Mpsc) (c : Consumer) (o : Option ℕ)
    → IsValid n s
    → in_hand c ≡ in_hand s.consumer
    → PopKnows s c
    → IsValid (n + 1) (record s { consumer = c; popped = o })
consume-IsValid n s c o h e k =
    let counted = h.counted in
    let order = h.order in
    record {
      positive = h.positive;
      counted = omega arith;
      order = omega arith;
      room = h.room;
      push_knows = λ j. consume-PushKnows s c j (s.producers j) e (h.push_knows j);
      pop_knows = consume-PopKnows s c c o k;
      held = h.held;
      fine = λ p a b. h.fine p (omega arith) b;
      free = λ p a b. h.free p a (omega arith);
      order_kept = h.order_kept;
    }

take-PushKnows :
    (s : Mpsc) (h v j : ℕ) (p : Producer)
    → h ≡ s.head
    → slot s h ≡ some (s.claims h)
    → s.tail ≤ h + s.capacity
    → PushKnows s j p
    → PushKnows
        (record s {
          buffer = update s.buffer (h % s.capacity) none;
          consumer = Consumer.pop_store h v;
        })
        j
        p
take-PushKnows s h v j Producer.outside f e room k = tt
take-PushKnows s h v j (Producer.push_tail w) f e room k = tt
take-PushKnows s h v j (Producer.push_head w t) f e room k = k
take-PushKnows s h v j (Producer.push_cas w t) f e room k = k
take-PushKnows s h v j (Producer.push_write w t) f e room (a, b, c, d, g) =
    let ne : h ≢ t = λ x. not_both (s.claims h) (ap (slot s) x ∙ g) e in
    let less : h < t = elim (Bool-cases (ltb h t)) [
      | inl l ↦ ground arith
      | inr l ↦ absurd (ne (ground arith))
    ] in
    (omega arith, b, c, d, slot_other s h t none ne (omega arith) (omega arith) ∙ g)

take-IsValid :
    (n : ℕ) (s : Mpsc) (h : ℕ)
    → IsValid n s
    → in_hand s.consumer ≡ 0
    → h ≡ s.head
    → h < s.tail
    → slot s h ≡ some (s.claims h)
    → IsValid (n + 1) (record s {
      buffer = update s.buffer (h % s.capacity) none;
      consumer = Consumer.pop_store h (s.claims h);
    })
take-IsValid n s h v out at low e =
    let counted = v.counted in
    let room = v.room in
    let positive = v.positive in
    record {
      positive = v.positive;
      counted = omega arith;
      order = omega arith;
      room = v.room;
      push_knows = λ j.
          take-PushKnows s h (s.claims h) j (s.producers j) at e (omega arith) (v.push_knows j);
      pop_knows = (at, low, refl);
      held = λ p a b. elim (v.held p (omega arith) b) [
        | inl f ↦ inl (slot_other s h p none (λ x. omega arith) (omega arith) (omega arith) ∙ f)
        | inr f ↦ inr f
      ];
      fine = λ p a b.
          let other = slot_other s h p none (λ x. omega arith) (omega arith) (omega arith) in
          elim (v.fine p (omega arith) b) [ inl f ↦ inl (other ∙ f) | inr f ↦ inr (other ∙ f) ];
      free = λ p a b. elim (Bool-cases (ltb p (h + s.capacity))) [
        | inl l ↦
            slot_other s h p none (λ x. omega arith) (omega arith) (ground arith)
            ∙ v.free p a (ground arith)
        | inr l ↦
            let last : h + s.capacity ≡ p = ground arith in
            subst (λ q. update s.buffer (h % s.capacity) none q ≡ none)
              (sym (add-mod_right h s.capacity) ∙ ap (λ q. q % s.capacity) last)
              (update_eq s.buffer (h % s.capacity) none)
      ];
      order_kept = v.order_kept;
    }

store-PushKnows :
    (s : Mpsc) (h v j : ℕ) (head : ℕ) (p : Producer)
    → h ≡ s.head
    → s.head + 1 ≡ head
    → in_hand s.consumer ≡ 1
    → PushKnows s j p
    → PushKnows (record s { head = head; consumer = Consumer.idle }) j p
store-PushKnows s h v j head Producer.outside at e f k = tt
store-PushKnows s h v j head (Producer.push_tail w) at e f k = tt
store-PushKnows s h v j head (Producer.push_head w t) at e f k = k
store-PushKnows s h v j head (Producer.push_cas w t) at e f k = omega arith
store-PushKnows s h v j head (Producer.push_write w t) at e f (a, b, c, d, g) =
    (omega arith, b, c, d, g)

store-IsValid :
    (n : ℕ) (s : Mpsc) (h v : ℕ)
    → n + 1 < 2 ^ 64
    → IsValid n s
    → in_hand s.consumer ≡ 1
    → h ≡ s.head
    → h < s.tail
    → v ≡ s.claims h
    → IsValid (n + 1) (record s {
      head = u64 (h + 1);
      consumer = Consumer.idle;
      popped = some v;
      received = s.received ++ (v ∷ []);
    })
store-IsValid n s h v few i out at low e =
    let counted = i.counted in
    let order = i.order in
    let room = i.room in
    let next : s.head + 1 ≡ u64 (h + 1) = omega arith in
    let exact : suc h ≡ u64 (h + 1) = omega arith in
    record {
      positive = i.positive;
      counted = omega arith;
      order = omega arith;
      room = omega arith;
      push_knows =
          λ j. store-PushKnows s h v j (u64 (h + 1)) (s.producers j) at next out (i.push_knows j);
      pop_knows = tt;
      held = λ p a b. i.held p (omega arith) b;
      fine = λ p a b. i.fine p (omega arith) b;
      free = λ p a b. i.free p a (omega arith);
      order_kept =
          ap₂ (λ xs x. xs ++ (x ∷ [])) (i.order_kept ∙ ap (λ k. firsts k s.claims) (sym at)) e
          ∙ ap (λ k. firsts k s.claims) exact;
    }

pop_step-at :
    (n : ℕ) (s : Mpsc) (c : Consumer)
    → n + 1 < 2 ^ 64
    → IsValid n s
    → s.consumer ≡ c
    → PopKnows s c
    → IfSome (IsValid (n + 1)) (pop_step s c)
unfolding pop_step
pop_step-at n s Consumer.idle few v e k = tt
pop_step-at n s Consumer.pop_head few v e k =
    consume-IsValid n s (Consumer.pop_tail s.head) s.popped v (ap in_hand (sym e)) refl
pop_step-at n s (Consumer.pop_tail h) few v e k =
    let order = v.order in
    if-both (IsValid (n + 1)) (s.tail == h) _ _
      (λ _. consume-IsValid n s Consumer.idle none v (ap in_hand (sym e)) tt)
      (λ f.
        consume-IsValid n s (Consumer.pop_test 0 h) s.popped v (ap in_hand (sym e))
          (k, ground arith))
pop_step-at n s Consumer.again_head few v e k =
    consume-IsValid n s (Consumer.again_tail s.head) s.popped v (ap in_hand (sym e)) refl
pop_step-at n s (Consumer.again_tail h) few v e k =
    let order = v.order in
    if-both (IsValid (n + 1)) (s.tail == h) _ _
      (λ _. consume-IsValid n s Consumer.idle none v (ap in_hand (sym e)) tt)
      (λ f.
        consume-IsValid n s (Consumer.assign_read h) s.popped v (ap in_hand (sym e))
          (k, ground arith))
pop_step-at n s (Consumer.assign_read h) few v e (at, low) =
    let out : in_hand s.consumer ≡ 0 = ap in_hand e in
    consume-IsValid n s (Consumer.assign_write h (slot s h)) s.popped v (ap in_hand (sym e))
      (at, low, (elim (v.fine h (omega (arith, out)) low) [ inl f ↦ inl f | inr f ↦ inr (f, f) ]))
pop_step-at n s (Consumer.assign_write h o) few v e (at, low, f) =
    assign-IsValid n s h o v (ap in_hand e) at low f
pop_step-at n s (Consumer.pop_test spins h) few v e (at, low) = from (slot s h) refl
  where
    from :
        (o : Option ℕ)
        → slot s h ≡ o
        → IsValid (n + 1) (record s { consumer = test_slot s spins h o })
    from none f =
        if-both (λ (c : Consumer). IsValid (n + 1) (record s { consumer = c }))
          (ltb max_spin_count (spins + 1)) _ _
          (λ _. consume-IsValid n s Consumer.again_head s.popped v (ap in_hand (sym e)) tt)
          (λ _.
            consume-IsValid n s (Consumer.pop_test (spins + 1) h) s.popped v (ap in_hand (sym e))
              (at, low))
    from (some x) f =
        consume-IsValid n s (Consumer.pop_take h) s.popped v (ap in_hand (sym e)) (at, low, full f)
      where
        out : in_hand s.consumer ≡ 0
        out = ap in_hand e

        full : slot s h ≡ some x → slot s h ≡ some (s.claims h)
        full f = elim (v.fine h (omega (arith, out)) low) [
          | inl g ↦ absurd (not_both x g f)
          | inr g ↦ g
        ]
pop_step-at n s (Consumer.pop_take h) few v e (at, low, f) =
    subst (λ o. IfSome (IsValid (n + 1)) (take_slot s h o)) (sym f)
      (take-IsValid n s h v (ap in_hand e) at low f)
pop_step-at n s (Consumer.pop_store h x) few v e (at, low, f) =
    store-IsValid n s h x few v (ap in_hand e) at low f

pub pop_step-IsValid :
    (n : ℕ) (s : Mpsc)
    → n + 1 < 2 ^ 64
    → IsValid n s
    → IfSome (IsValid (n + 1)) (pop_step s s.consumer)
pop_step-IsValid n s few v = pop_step-at n s s.consumer few v refl v.pop_knows
