-- ===== src/SpscChannel/Safe.antt =====
-- Every event keeps the invariant, the consumer never finds an empty slot, and the threads never
-- use one slot at a time.
use lmcore.Prelude.{
  ℕ, ◌+◌, ◌^◌, ◌≤◌, ◌<◌, ◌≡◌, refl, sym, ap, subst, arith, false, if◌then◌else◌, leb, ◌==◌, [],
  none, sub64, if-both, IfSome, IfSome-some,
}
use lmcore.SpscChannel.{
  PushMode, PopMode, Producer, Consumer, Reply, Spsc, Event, push_full, push_step, pop_empty,
  pop_step, begin_push, begin_pop, step, Reach,
}
use lmcore.SpscChannel.Inv.{
  ProducerKnows, ConsumerKnows, in_hand, IsValid, write-IsValid, store_tail-IsValid, producer_moves,
  consumer_moves, take_slot-IsValid, store_head-IsValid,
}

module _ {A : Type 0} where
  -- The invariant, at most one position further.
  abbrev Follows : ℕ → Spsc A → Type 0
  Follows t u = IsValid u × (u.tail ≤ t + 1)

  push_step-IsValid :
      (s : Spsc A) (p : Producer A)
      → s.producer ≡ p
      → s.tail + 1 < 2 ^ 64
      → IsValid s
      → IfSome (Follows s.tail) (push_step s p)
  unfolding push_step
  push_step-IsValid s Producer.outside e small h = tt
  push_step-IsValid s (Producer.check v) e small h =
      if-both (Follows s.tail) s.closed _ _
        (λ _. (producer_moves s Producer.outside (Reply.pushed false) h tt, omega arith))
        (λ _.
          (producer_moves s (Producer.load_tail PushMode.send v) s.push_reply h tt, omega arith))
  push_step-IsValid s (Producer.load_tail m v) e small h =
      (producer_moves s (Producer.load_head m v s.tail) s.push_reply h refl, omega arith)
  push_step-IsValid s (Producer.load_head m v t) e small h =
      let at : t ≡ s.tail =
        subst (ProducerKnows s.capacity s.buffer s.head s.tail) e h.producer_knows in
      if-both (Follows s.tail) (leb s.capacity (sub64 t s.head)) _ _ (λ _. (full m, full_tail m))
        (λ f. (producer_moves s (Producer.write m v t) s.push_reply h (at, room at f), omega arith))
    where
      full : (k : PushMode) → IsValid (push_full s k v)
      full PushMode.try_send = producer_moves s Producer.outside (Reply.pushed false) h tt
      full PushMode.send = producer_moves s (Producer.check v) s.push_reply h tt

      full_tail : (k : PushMode) → (push_full s k v).tail ≤ s.tail + 1
      full_tail PushMode.try_send = omega arith
      full_tail PushMode.send = omega arith

      room : t ≡ s.tail → leb s.capacity (sub64 t s.head) ≡ false → s.tail < s.head + s.capacity
      room at f = ground (arith, h.order)
  push_step-IsValid s (Producer.write m v t) e small h = (write-IsValid s m v t e h, omega arith)
  push_step-IsValid s (Producer.store_tail m v t) e small h =
      let k = subst (ProducerKnows s.capacity s.buffer s.head s.tail) e h.producer_knows in
      (store_tail-IsValid s m v t e (omega (arith, k.0)) h, omega (arith, k.0))

  pop_step-IsValid :
      (s : Spsc A) (c : Consumer A)
      → s.consumer ≡ c
      → s.tail + 1 < 2 ^ 64
      → IsValid s
      → IfSome (Follows s.tail) (pop_step s c)
  unfolding pop_step
  pop_step-IsValid s Consumer.outside e small h = tt
  pop_step-IsValid s Consumer.check e small h = (
    consumer_moves s (Consumer.load_head (if s.closed then PopMode.recv_last else PopMode.recv))
        s.pop_reply h (ap in_hand e) refl tt,
    omega arith,
  )
  pop_step-IsValid s (Consumer.load_head m) e small h = (
    consumer_moves s (Consumer.load_tail m s.head) s.pop_reply h (ap in_hand e) refl refl,
    omega arith,
  )
  pop_step-IsValid s (Consumer.load_tail m k) e small h =
      let at : k ≡ s.head = subst (ConsumerKnows s.head s.tail) e h.consumer_knows in
      if-both (Follows s.tail) (s.tail == k) _ _ (λ _. (empty m, empty_tail m))
        (λ f. (
          consumer_moves s (Consumer.take m k) s.pop_reply h (ap in_hand e) refl
              (at, ground (arith, h.order)),
          omega arith,
        ))
    where
      empty : (m : PopMode) → IsValid (pop_empty s m)
      empty PopMode.recv = consumer_moves s Consumer.check s.pop_reply h (ap in_hand e) refl tt
      empty PopMode.try_recv =
          consumer_moves s Consumer.outside (Reply.popped none) h (ap in_hand e) refl tt
      empty PopMode.recv_last =
          consumer_moves s Consumer.outside (Reply.popped none) h (ap in_hand e) refl tt

      empty_tail : (m : PopMode) → (pop_empty s m).tail ≤ s.tail + 1
      empty_tail PopMode.recv = omega arith
      empty_tail PopMode.try_recv = omega arith
      empty_tail PopMode.recv_last = omega arith
  pop_step-IsValid s (Consumer.take m k) e small h =
      let (x, took, valid) = take_slot-IsValid s m k e h in
      subst (IfSome (Follows s.tail)) (sym took) (valid, omega arith)
  pop_step-IsValid s (Consumer.store_head m k x) e small h =
      (store_head-IsValid s m k x e (omega arith) h, omega arith)

  begin_push-IsValid :
      (s : Spsc A) (p q : Producer A)
      → ProducerKnows s.capacity s.buffer s.head s.tail q
      → IsValid s
      → IfSome (Follows s.tail) (begin_push s p q)
  begin_push-IsValid s Producer.outside q k h = (producer_moves s q s.push_reply h k, omega arith)
  begin_push-IsValid s (Producer.check v) q k h = tt
  begin_push-IsValid s (Producer.load_tail m v) q k h = tt
  begin_push-IsValid s (Producer.load_head m v t) q k h = tt
  begin_push-IsValid s (Producer.write m v t) q k h = tt
  begin_push-IsValid s (Producer.store_tail m v t) q k h = tt

  begin_pop-IsValid :
      (s : Spsc A) (c d : Consumer A)
      → s.consumer ≡ c
      → in_hand d ≡ []
      → ConsumerKnows s.head s.tail d
      → IsValid s
      → IfSome (Follows s.tail) (begin_pop s c d)
  begin_pop-IsValid s Consumer.outside d e f k h =
      (consumer_moves s d s.pop_reply h (ap in_hand e) f k, omega arith)
  begin_pop-IsValid s Consumer.check d e f k h = tt
  begin_pop-IsValid s (Consumer.load_head m) d e f k h = tt
  begin_pop-IsValid s (Consumer.load_tail m i) d e f k h = tt
  begin_pop-IsValid s (Consumer.take m i) d e f k h = tt
  begin_pop-IsValid s (Consumer.store_head m i x) d e f k h = tt

  step-IsValid :
      (s : Spsc A) (e : Event A)
      → s.tail + 1 < 2 ^ 64
      → IsValid s
      → IfSome (Follows s.tail) (step s e)
  unfolding step
  step-IsValid s (Event.call_try_send v) small h = begin_push-IsValid s s.producer _ tt h
  step-IsValid s (Event.call_send v) small h = begin_push-IsValid s s.producer _ tt h
  step-IsValid s Event.call_try_recv small h = begin_pop-IsValid s s.consumer _ refl refl tt h
  step-IsValid s Event.call_recv small h = begin_pop-IsValid s s.consumer _ refl refl tt h
  step-IsValid s Event.call_close small h = (
    record {
      positive = h.positive;
      storage = h.storage;
      order = h.order;
      room = h.room;
      producer_knows = h.producer_knows;
      consumer_knows = h.consumer_knows;
      values = h.values;
      contents = h.contents;
      logged = h.logged;
    },
    omega arith,
  )
  step-IsValid s Event.producer_step small h = push_step-IsValid s s.producer refl small h
  step-IsValid s Event.consumer_step small h = pop_step-IsValid s s.consumer refl small h

  pub Reach-IsValid :
      {s : Spsc A} {n : ℕ} {t : Spsc A}
      → s.tail + n < 2 ^ 64
      → IsValid s
      → Reach s n t
      → IsValid t × (t.tail ≤ s.tail + n)
  Reach-IsValid small v Reach.here = (v, omega arith)
  Reach-IsValid {s = s} small v (Reach.next {n} {t} {u} e r h) =
      let (w, b) = Reach-IsValid (omega arith) v r in
      let (x, c) = IfSome-some (Follows t.tail) h (step-IsValid t e (omega arith) w) in
      (x, omega arith)
