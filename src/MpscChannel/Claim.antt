-- ===== src/MpscChannel/Claim.antt =====
-- The exchange of `tail_` keeps the invariant.
use lmcore.Prelude.{
  ℕ, zero, suc, ◌+◌, ◌%◌, ◌^◌, ◌≤◌, ◌<◌, ◌≡◌, ◌≢◌, inl, inr, refl, sym, ap, ap₂, ◌∙◌, arith, false,
  ◌==◌, leb, [], ◌∷◌, ◌++◌, some, u64, Bool-cases,
}
use lmcore.Window.{slot_ne}
use lmcore.MpscChannel.{Producer, Consumer, Mpsc, update, claim}
use lmcore.MpscChannel.Valid.{
  PushKnows, PopKnows, firsts, IsValid, is_writing, update_ne, update_eq, not_owner,
}

-- Positions less than the capacity apart have different slots, whichever comes first.
pub apart : (c p q : ℕ) → p ≢ q → p < q + c → q < p + c → p % c ≢ q % c
apart c p q h a b e = elim (Bool-cases (leb p q)) [
  | inl l ↦ slot_ne c p q (ground arith) b e
  | inr l ↦ slot_ne c q p (ground arith) a (sym e)
]

pub firsts-update : (n p v : ℕ) (f : ℕ → ℕ) → n ≤ p → firsts n (update f p v) ≡ firsts n f
firsts-update zero p v f h = refl
firsts-update (suc n) p v f h =
    ap₂ (λ xs x. xs ++ (x ∷ [])) (firsts-update n p v f (omega arith))
      (update_ne f p n v (λ e. omega arith))

-- What the others know is not changed by a claim.
pub claim-PushKnows :
    (s : Mpsc) (i v j : ℕ) (p : Producer) (tail : ℕ)
    → s.tail + 1 ≡ tail
    → PushKnows s j p
    → PushKnows
        (record s {
          tail = tail;
          claims = update s.claims s.tail v;
          owner = update s.owner s.tail i;
        })
        j
        p
claim-PushKnows s i v j Producer.outside tail e k = tt
claim-PushKnows s i v j (Producer.push_tail w) tail e k = tt
claim-PushKnows s i v j (Producer.push_head w t) tail e k = omega arith
claim-PushKnows s i v j (Producer.push_cas w t) tail e k = k
claim-PushKnows s i v j (Producer.push_write w t) tail e (a, b, c, d, f) = (
  a,
  omega arith,
  update_ne s.claims s.tail t v (λ x. omega arith) ∙ c,
  update_ne s.owner s.tail t i (λ x. omega arith) ∙ d,
  f,
)

pub claim-PopKnows :
    (s : Mpsc) (v : ℕ) (c : Consumer) (tail : ℕ)
    → s.tail + 1 ≡ tail
    → PopKnows s c
    → PopKnows (record s { tail = tail; claims = update s.claims s.tail v }) c
claim-PopKnows s v Consumer.idle tail e k = tt
claim-PopKnows s v Consumer.pop_head tail e k = tt
claim-PopKnows s v Consumer.again_head tail e k = tt
claim-PopKnows s v (Consumer.pop_tail h) tail e k = k
claim-PopKnows s v (Consumer.again_tail h) tail e k = k
claim-PopKnows s v (Consumer.pop_test n h) tail e (a, b) = (a, omega arith)
claim-PopKnows s v (Consumer.assign_read h) tail e (a, b) = (a, omega arith)
claim-PopKnows s v (Consumer.assign_write h o) tail e (a, b, c) =
    let same = update_ne s.claims s.tail h v (λ x. omega arith) in
    (
      a,
      omega arith,
      (elim c [ inl d ↦ inl d | inr d ↦ inr (d.0 ∙ ap some (sym same), d.1 ∙ ap some (sym same)) ]),
    )
claim-PopKnows s v (Consumer.pop_take h) tail e (a, b, c) =
    (a, omega arith, c ∙ ap some (sym (update_ne s.claims s.tail h v (λ x. omega arith))))
claim-PopKnows s v (Consumer.pop_store h w) tail e (a, b, c) =
    (a, omega arith, c ∙ sym (update_ne s.claims s.tail h v (λ x. omega arith)))

pub claim-IsValid :
    (n : ℕ) (s : Mpsc) (i v : ℕ)
    → n + 1 < 2 ^ 64
    → IsValid n s
    → is_writing (s.producers i) ≡ false
    → s.tail < s.head + s.capacity
    → IsValid (n + 1) (claim s i v s.tail)
unfolding claim
claim-IsValid n s i v few h quiet room =
    let counted = h.counted in
    let order = h.order in
    let next : s.tail + 1 ≡ u64 (s.tail + 1) = omega arith in
    record {
      positive = h.positive;
      counted = omega arith;
      order = omega arith;
      room = omega arith;
      push_knows = λ j. elim (Bool-cases (i == j)) [
        | inl e ↦
            let same : i ≡ j = ground arith in
            rw e (
              order,
              omega arith,
              update_eq s.claims s.tail v,
              update_eq s.owner s.tail i ∙ same,
              h.free s.tail (omega arith) (omega arith),
            )
        | inr e ↦
            rw e (claim-PushKnows s i v j (s.producers j) (u64 (s.tail + 1)) next (h.push_knows j))
      ];
      pop_knows = claim-PopKnows s v s.consumer (u64 (s.tail + 1)) next h.pop_knows;
      held = λ q a b. elim (Bool-cases (s.tail == q)) [
        | inl e ↦
            let same : s.tail ≡ q = ground arith in
            rw e (
              inr (
                update_eq s.producers i (Producer.push_write v s.tail)
                ∙ ap (Producer.push_write v) same))
        | inr e ↦ rw e (elim (h.held q a (ground arith)) [
          | inl k ↦ inl k
          | inr k ↦ inr (
              update_ne s.producers i (s.owner q) (Producer.push_write v s.tail)
                (not_owner s i q (s.claims q) q quiet k)
              ∙ k)
        ])
      ];
      fine = λ q a b. elim (Bool-cases (s.tail == q)) [
        | inl e ↦ inl (h.free q (ground arith) (ground arith))
        | inr e ↦ rw e (h.fine q a (ground arith))
      ];
      free = λ p a b. h.free p (omega arith) b;
      order_kept = h.order_kept ∙ sym (firsts-update s.head s.tail v s.claims (omega arith));
    }
