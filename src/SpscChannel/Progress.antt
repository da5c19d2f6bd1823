-- ===== src/SpscChannel/Progress.antt =====
-- How many steps a call takes.
use lmcore.Prelude.{
  ℕ, ◌+◌, ◌%◌, ◌≤◌, ◌^◌, ◌<◌, ◌⊎◌, inl, inr, ◌≡◌, refl, sym, ap, subst, ◌∙◌, arith, true, leb, ◌==◌,
  Option, none, some, sub64, get_or, if-both, IfSome, IfSome-some, some_injective,
}
use lmcore.SpscChannel.Fifo.{takes_oldest}
use lmcore.SpscChannel.{
  new, Reach, PushMode, PopMode, Producer, Consumer, Spsc, Event, push_full, push_step, take_slot,
  pop_step, step,
}

module _ {A : Type 0} where
  -- The steps that the producer's call has left once the channel is closed, or in any case for
  -- `TrySend`.
  abbrev pub push_left : Producer A → ℕ
  push_left Producer.outside = 0
  push_left (Producer.check v) = 1
  push_left (Producer.load_tail m v) = 4
  push_left (Producer.load_head m v t) = 3
  push_left (Producer.write m v t) = 2
  push_left (Producer.store_tail m v t) = 1

  abbrev pub pop_left : Consumer A → ℕ
  pop_left Consumer.outside = 0
  pop_left (Consumer.store_head m h x) = 1
  pop_left (Consumer.take m h) = 2
  pop_left (Consumer.load_tail PopMode.recv h) = 6
  pop_left (Consumer.load_head PopMode.recv) = 7
  pop_left (Consumer.load_tail m h) = 3
  pop_left (Consumer.load_head m) = 4
  pop_left Consumer.check = 5

  -- A run in which the producer makes `p` steps and the consumer `c`, and no call is begun.
  pub data Runs (s : Spsc A) : ℕ → ℕ → Spsc A → Type 0 where
    here : Runs s 0 0 s
    producer :
        {p c : ℕ} {t u : Spsc A}
        → Runs s p c t
        → step t Event.producer_step ≡ some u
        → Runs s (p + 1) c u
    consumer :
        {p c : ℕ} {t u : Spsc A}
        → Runs s p c t
        → step t Event.consumer_step ≡ some u
        → Runs s p (c + 1) u
    close :
        {p c : ℕ} {t u : Spsc A} → Runs s p c t → step t Event.call_close ≡ some u → Runs s p c u

  -- What is left after a step, with the phase of the other thread.
  abbrev PushLess : Spsc A → Spsc A → Type 0
  PushLess s u =
      (push_left u.producer + 1 ≤ push_left s.producer)
      × (u.consumer ≡ s.consumer)
      × (u.closed ≡ s.closed)

  abbrev PopLess : Spsc A → Spsc A → Type 0
  PopLess s u =
      (pop_left u.consumer + 1 ≤ pop_left s.consumer)
      × (u.producer ≡ s.producer)
      × (u.closed ≡ s.closed)

  push_less :
      (s : Spsc A) (p : Producer A)
      → s.producer ≡ p
      → s.closed ≡ true
      → IfSome (PushLess s) (push_step s p)
  unfolding push_step
  push_less s Producer.outside e c = tt
  push_less s (Producer.check v) e c =
      if-both (PushLess s) s.closed _ _ (λ _. (less, refl, refl)) (λ f. absurd (ground arith))
    where
      less : 1 ≤ push_left s.producer
      less = omega (arith, ap push_left e)
  push_less s (Producer.load_tail m v) e c = (omega (arith, ap push_left e), refl, refl)
  push_less s (Producer.load_head m v t) e c =
      if-both (PushLess s) (leb s.capacity (sub64 t s.head)) _ _ (λ _. full m)
        (λ _. (omega (arith, ap push_left e), refl, refl))
    where
      full : (k : PushMode) → PushLess s (push_full s k v)
      full PushMode.try_send = (omega (arith, ap push_left e), refl, refl)
      full PushMode.send = (omega (arith, ap push_left e), refl, refl)
  push_less s (Producer.write m v t) e c = (omega (arith, ap push_left e), refl, refl)
  push_less s (Producer.store_tail m v t) e c = (omega (arith, ap push_left e), refl, refl)

  pop_less :
      (s : Spsc A) (c : Consumer A)
      → s.consumer ≡ c
      → s.closed ≡ true
      → IfSome (PopLess s) (pop_step s c)
  unfolding pop_step
  pop_less s Consumer.outside e k = tt
  pop_less s Consumer.check e k = rw k (omega (arith, ap pop_left e), refl, refl)
  pop_less s (Consumer.load_head PopMode.recv) e k = (omega (arith, ap pop_left e), refl, refl)
  pop_less s (Consumer.load_head PopMode.try_recv) e k = (omega (arith, ap pop_left e), refl, refl)
  pop_less s (Consumer.load_head PopMode.recv_last) e k = (omega (arith, ap pop_left e), refl, refl)
  pop_less s (Consumer.load_tail PopMode.recv h) e k =
      if-both (PopLess s) (s.tail == h) _ _ (λ _. (omega (arith, ap pop_left e), refl, refl))
        (λ _. (omega (arith, ap pop_left e), refl, refl))
  pop_less s (Consumer.load_tail PopMode.try_recv h) e k =
      if-both (PopLess s) (s.tail == h) _ _ (λ _. (omega (arith, ap pop_left e), refl, refl))
        (λ _. (omega (arith, ap pop_left e), refl, refl))
  pop_less s (Consumer.load_tail PopMode.recv_last h) e k =
      if-both (PopLess s) (s.tail == h) _ _ (λ _. (omega (arith, ap pop_left e), refl, refl))
        (λ _. (omega (arith, ap pop_left e), refl, refl))
  pop_less s (Consumer.take m h) e k = took (get_or s.buffer (h % s.capacity) none)
    where
      took : (o : Option A) → IfSome (PopLess s) (take_slot s m h o)
      took none = tt
      took (some x) = (omega (arith, ap pop_left e), refl, refl)
  pop_less s (Consumer.store_head m h x) e k = (omega (arith, ap pop_left e), refl, refl)

  push_most : (p : Producer A) → push_left p ≤ 4
  push_most Producer.outside = omega arith
  push_most (Producer.check v) = omega arith
  push_most (Producer.load_tail m v) = omega arith
  push_most (Producer.load_head m v t) = omega arith
  push_most (Producer.write m v t) = omega arith
  push_most (Producer.store_tail m v t) = omega arith

  pop_most : (c : Consumer A) → pop_left c ≤ 7
  pop_most Consumer.outside = omega arith
  pop_most Consumer.check = omega arith
  pop_most (Consumer.load_head PopMode.recv) = omega arith
  pop_most (Consumer.load_head PopMode.try_recv) = omega arith
  pop_most (Consumer.load_head PopMode.recv_last) = omega arith
  pop_most (Consumer.load_tail PopMode.recv h) = omega arith
  pop_most (Consumer.load_tail PopMode.try_recv h) = omega arith
  pop_most (Consumer.load_tail PopMode.recv_last h) = omega arith
  pop_most (Consumer.take m h) = omega arith
  pop_most (Consumer.store_head m h x) = omega arith

  steps_left :
      {s : Spsc A} {p c : ℕ} {t : Spsc A}
      → s.closed ≡ true
      → Runs s p c t
      → (t.closed ≡ true)
        × (p + push_left t.producer ≤ push_left s.producer)
        × (c + pop_left t.consumer ≤ pop_left s.consumer)
        × (push_left s.producer ≤ 4)
        × (pop_left s.consumer ≤ 7)
  unfolding step
  steps_left {s} k Runs.here =
      (k, omega arith, omega arith, push_most s.producer, pop_most s.consumer)
  steps_left {s} k (Runs.producer {p} {c} {t} {u} r e) =
      let (z, a, b, f, g) = steps_left k r in
      let (x, y, w) = IfSome-some (PushLess t) e (push_less t t.producer refl z) in
      (w ∙ z, omega arith, subst (λ q. c + pop_left q ≤ pop_left s.consumer) (sym y) b, f, g)
  steps_left {s} k (Runs.consumer {p} {c} {t} {u} r e) =
      let (z, a, b, f, g) = steps_left k r in
      let (x, y, w) = IfSome-some (PopLess t) e (pop_less t t.consumer refl z) in
      (w ∙ z, subst (λ q. p + push_left q ≤ push_left s.producer) (sym y) a, omega arith, f, g)
  steps_left {s} k (Runs.close {p} {c} {t} {u} r e) =
      let (z, a, b, f, g) = steps_left k r in
      subst
        (λ (q : Spsc A).
          (q.closed ≡ true)
          × (p + push_left q.producer ≤ push_left s.producer)
          × (c + pop_left q.consumer ≤ pop_left s.consumer)
          × (push_left s.producer ≤ 4)
          × (pop_left s.consumer ≤ 7))
        (some_injective e) (refl, a, b, f, g)

  -- A thread in a call has a next step.
  push_goes :
      (s : Spsc A) (p : Producer A) → (push_left p ≡ 0) ⊎ ((u : Spsc A) × (push_step s p ≡ some u))
  unfolding push_step
  push_goes s Producer.outside = inl refl
  push_goes s (Producer.check v) = inr (_, refl)
  push_goes s (Producer.load_tail m v) = inr (_, refl)
  push_goes s (Producer.load_head m v t) = inr (_, refl)
  push_goes s (Producer.write m v t) = inr (_, refl)
  push_goes s (Producer.store_tail m v t) = inr (_, refl)

  pop_goes :
      (s : Spsc A) (c : Consumer A)
      → ((m : PopMode) (h : ℕ)
          → c ≡ Consumer.take m h
          → (x : A) × (get_or s.buffer (h % s.capacity) none ≡ some x))
      → (pop_left c ≡ 0) ⊎ ((u : Spsc A) × (pop_step s c ≡ some u))
  unfolding pop_step
  pop_goes s Consumer.outside full = inl refl
  pop_goes s Consumer.check full = inr (_, refl)
  pop_goes s (Consumer.load_head m) full = inr (_, refl)
  pop_goes s (Consumer.load_tail m h) full = inr (_, refl)
  pop_goes s (Consumer.take m h) full =
      let (x, e) = full m h refl in inr (_, ap (take_slot s m h) e)
  pop_goes s (Consumer.store_head m h x) full = inr (_, refl)

  -- Once the channel is closed, the producer's call ends within four steps of its own and the
  -- consumer's within seven, whatever the other thread does: every step leaves fewer to make, and in a
  -- state that is reached in fewer than 2 ^ 64 events a thread that has steps left, and so is in a call,
  -- can make the next one.
  pub closed_ends :
      (n : ℕ) {s : Spsc A} {k p c : ℕ} {t : Spsc A}
      → s.closed ≡ true
      → Runs s p c t
      → Reach (new n) k t
      → k < 2 ^ 64
      → (p + push_left t.producer ≤ push_left s.producer)
        × (c + pop_left t.consumer ≤ pop_left s.consumer)
        × (push_left s.producer ≤ 4)
        × (pop_left s.consumer ≤ 7)
        × ((push_left t.producer ≡ 0) ⊎ ((u : Spsc A) × (step t Event.producer_step ≡ some u)))
        × ((pop_left t.consumer ≡ 0) ⊎ ((u : Spsc A) × (step t Event.consumer_step ≡ some u)))
  unfolding step
  closed_ends n {s} {k} {p} {c} {t} closed r reached few =
      let (z, a, b, f, g) = steps_left closed r in
      (
        a,
        b,
        f,
        g,
        push_goes t t.producer,
        pop_goes t t.consumer
            (λ m h e. let (x, rest, v, w) = takes_oldest n m h reached few e in (x, v)),
      )
