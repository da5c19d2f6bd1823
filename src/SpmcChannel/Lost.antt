-- ===== src/SpmcChannel/Lost.antt =====
-- A consumer claims its slot by `head_` before it takes the value out, so the producer may write the
-- slot first.
use lmcore.Prelude.{
  ℕ, ◌+◌, ◌%◌, ◌≡◌, refl, sym, ap, ◌∙◌, arith, true, false, ◌==◌, List, [], ◌∷◌, Option, none, some,
  u64,
}
use lmcore.SpmcChannel.{
  Producer, Consumer, Spmc, update, pop_reply, slot, take_slot, push_step, pop_step, Event, step,
}

-- Some events in a row; `none` where one of them cannot happen.
abbrev pub run_from : Option Spmc → List Event → Option Spmc
run_from none es = none
run_from (some s) [] = some s
run_from (some s) (e ∷ es) = run_from (step s e) es

update_eq {ℓ} : {A : Type ℓ} (f : ℕ → A) (i k : ℕ) (a : A) → i ≡ k → update f i a k ≡ a
update_eq f i k a e = let same : (i == k) ≡ true = ground arith in rw same refl

-- Where the producer is about to write the slot that a consumer has claimed and not emptied yet, and
-- does so first, both calls succeed and the consumer gets the new value: the one that the slot held is
-- lost, and the slot of the producer's position is left empty.
pub value_lost :
    (s : Spmc) (i h t v : ℕ)
    → t % s.capacity ≡ h % s.capacity
    → s.consumers i ≡ Consumer.pop_take h
    → s.producer ≡ Producer.push_write v t
    → (u : Spmc) × (run_from
          (some s)
          (Event.push_next ∷ Event.pop_next i false ∷ Event.push_next ∷ [])
        ≡ some u)
      × (u.popped i ≡ some v)
      × (u.pushed ≡ true)
      × (slot u t ≡ none)
unfolding step push_step pop_step
value_lost s i h t v same takes writes =
    let s1 = record s {
      buffer = update s.buffer (t % s.capacity) (some v);
      producer = Producer.push_store v t;
    } in
    let s2 = pop_reply (record s1 { buffer = update s1.buffer (h % s.capacity) none }) i (some v) in
    let rest = Event.pop_next i false ∷ Event.push_next ∷ [] in
    (
      record s2 { tail = u64 (t + 1); producer = Producer.outside; pushed = true },
      ap (λ p. run_from (push_step s p) rest) writes
          ∙ ap (λ c. run_from (pop_step s1 i false c) (Event.push_next ∷ [])) takes
          ∙ ap (λ o. run_from (take_slot s1 i h o) (Event.push_next ∷ []))
              (update_eq s.buffer (t % s.capacity) (h % s.capacity) (some v) same),
      update_eq s.popped i i (some v) refl,
      refl,
      update_eq s1.buffer (h % s.capacity) (t % s.capacity) none (sym same),
    )
