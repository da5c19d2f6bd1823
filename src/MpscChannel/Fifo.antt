-- ===== src/MpscChannel/Fifo.antt =====
-- The order of the values.
use lmcore.Prelude.{
  ℕ, ◌+◌, ◌^◌, ◌≤◌, ◌<◌, ◌≡◌, refl, sym, ap, subst, ◌∙◌, arith, some, IfSome, IfSome-some,
}
use lmcore.MpscChannel.{
  Producer, Consumer, Mpsc, new, slot, begin_push, begin_pop, Event, step, Reach,
}
use lmcore.MpscChannel.Valid.{
  in_hand, first, PopKnows, IsHeld, IsFine, firsts, IsValid, is_writing, new-IsValid, go-IsValid,
}
use lmcore.MpscChannel.Push.{push_step-IsValid}
use lmcore.MpscChannel.Pop.{consume-IsValid, pop_step-IsValid}

begin_push-IsValid :
    (n : ℕ) (s : Mpsc) (i v : ℕ) (p : Producer)
    → IsValid n s
    → s.producers i ≡ p
    → IfSome (IsValid (n + 1)) (begin_push s i v p)
begin_push-IsValid n s i v Producer.outside h e =
    go-IsValid n s i (Producer.push_tail v) h (ap is_writing e) tt
begin_push-IsValid n s i v (Producer.push_tail w) h e = tt
begin_push-IsValid n s i v (Producer.push_head w t) h e = tt
begin_push-IsValid n s i v (Producer.push_cas w t) h e = tt
begin_push-IsValid n s i v (Producer.push_write w t) h e = tt

begin_pop-IsValid :
    (n : ℕ) (s : Mpsc) (c : Consumer)
    → IsValid n s
    → s.consumer ≡ c
    → IfSome (IsValid (n + 1)) (begin_pop s c)
begin_pop-IsValid n s Consumer.idle h e =
    consume-IsValid n s Consumer.pop_head s.popped h (ap in_hand (sym e)) tt
begin_pop-IsValid n s Consumer.pop_head h e = tt
begin_pop-IsValid n s Consumer.again_head h e = tt
begin_pop-IsValid n s (Consumer.pop_tail x) h e = tt
begin_pop-IsValid n s (Consumer.again_tail x) h e = tt
begin_pop-IsValid n s (Consumer.pop_test k x) h e = tt
begin_pop-IsValid n s (Consumer.assign_read x) h e = tt
begin_pop-IsValid n s (Consumer.assign_write x o) h e = tt
begin_pop-IsValid n s (Consumer.pop_take x) h e = tt
begin_pop-IsValid n s (Consumer.pop_store x v) h e = tt

step-IsValid :
    (n : ℕ) (s : Mpsc) (e : Event)
    → n + 1 < 2 ^ 64
    → IsValid n s
    → IfSome (IsValid (n + 1)) (step s e)
unfolding step
step-IsValid n s (Event.try_push i v) few h = begin_push-IsValid n s i v (s.producers i) h refl
step-IsValid n s (Event.push_next i b) few h = push_step-IsValid n s i b few h
step-IsValid n s Event.try_pop few h = begin_pop-IsValid n s s.consumer h refl
step-IsValid n s Event.pop_next few h = pop_step-IsValid n s few h

Reach-IsValid : (capacity n : ℕ) {s : Mpsc} → n < 2 ^ 64 → Reach (new capacity) n s → IsValid n s
Reach-IsValid capacity _ few Reach.here = new-IsValid capacity
Reach-IsValid capacity _ few (Reach.next {n} {t} {u} e r h) =
    IfSome-some (IsValid (n + 1)) h
      (step-IsValid n t e few (Reach-IsValid capacity n (omega arith) r))

-- In any run of fewer than 2 ^ 64 events of any number of producers and the consumer, the values
-- received are those that the exchanges have claimed the first positions for, in the order of the
-- positions, each once; no more positions than the capacity are claimed beyond these; the value of
-- each of them but the first lies in its slot or is about to be written there by its producer; and the
-- slot of each, but for one that the consumer has just taken, is empty or has its value. Each access to a
-- slot is taken as a single step.
pub claimed_order :
    (capacity n : ℕ) {s : Mpsc}
    → n < 2 ^ 64
    → Reach (new capacity) n s
    → (s.received ≡ firsts s.head s.claims)
      × (s.head ≤ s.tail)
      × (s.tail ≤ s.head + s.capacity)
      × ((p : ℕ) → s.head < p → p < s.tail → IsHeld s p)
      × ((p : ℕ) → first s ≤ p → p < s.tail → IsFine s p)
claimed_order capacity n {s} few r =
    let v = Reach-IsValid capacity n few r in
    let order = v.order in (v.order_kept, omega arith, v.room, v.held, v.fine)

-- When the consumer comes to take the value out of a slot, in a run of fewer than 2 ^ 64 events, the
-- slot is not empty and has the value that the first position was claimed for. Each access to a slot is
-- taken as a single step.
pub takes_claimed :
    (capacity n h : ℕ) {s : Mpsc}
    → n < 2 ^ 64
    → Reach (new capacity) n s
    → s.consumer ≡ Consumer.pop_take h
    → slot s h ≡ some (s.claims s.head)
takes_claimed capacity n h {s} few r e =
    let v = Reach-IsValid capacity n few r in
    let k = subst (PopKnows s) e v.pop_knows in k.2 ∙ ap (λ p. some (s.claims p)) k.0
