-- ===== src/SpscChannel/Fifo.antt =====
-- What the two ends of the channel see.
use lmcore.Prelude.{
  ℕ, suc, ◌-◌, ◌%◌, ◌^◌, ◌≤◌, ◌<◌, ◌≡◌, ◌≢◌, refl, ap, subst, arith, ◌==◌, List, [], ◌∷◌, ◌++◌,
  Option, none, some, map, get_or, set, length, length-append, some_injective,
}
use lmcore.Window.{slot_ne, length-window}
use lmcore.SpscChannel.{
  PushMode, PopMode, Producer, Consumer, Spsc, new, take_slot, Reach, size, empty, full,
}
use lmcore.SpscChannel.Inv.{
  ProducerKnows, ConsumerKnows, in_hand, first, IsValid, new-IsValid, take_slot-IsValid,
}
use lmcore.SpscChannel.Safe.{Reach-IsValid}

module _ {A : Type 0} where
  length_of_somes : (xs : List A) → length (map some xs) ≡ length xs
  length_of_somes [] = refl
  length_of_somes (x ∷ xs) = ap suc (length_of_somes xs)

  -- How many values wait: those in the buffer and the one in the consumer's hand.
  waiting_lem :
      (s : Spsc A) (v : IsValid s) → length (in_hand s.consumer ++ v.values) ≡ s.tail - s.head
  waiting_lem s v =
      let a = length-append (in_hand s.consumer) v.values in
      let b = length_of_somes v.values in
      let c = ap length v.contents in
      let d = length-window none s.capacity s.buffer (first s) (s.tail - first s) in
      let o = v.order in omega arith

  Run-IsValid :
      (n : ℕ) {k : ℕ} {s : Spsc A} → Reach (new n) k s → k < 2 ^ 64 → IsValid s × (s.tail < 2 ^ 64)
  unfolding new
  Run-IsValid n r small =
      let (v, b) = Reach-IsValid (omega arith) (new-IsValid n) r in (v, omega arith)

  -- In any run of fewer than 2 ^ 64 events, however the producer and the consumer interleave, the
  -- values received are the first of those sent, in their order and none twice; the rest, which are
  -- no more than the capacity, are waiting. `Size` is their number, and `Empty` and `Full` tell whether
  -- that is 0 or the capacity.
  pub fifo :
      (n : ℕ) {k : ℕ} {s : Spsc A}
      → Reach (new n) k s
      → k < 2 ^ 64
      → (waiting : List A) × (s.sent ≡ s.received ++ waiting)
        × (length waiting ≤ s.capacity)
        × (size s ≡ length waiting)
        × (empty s ≡ (length waiting == 0))
        × (full s ≡ (length waiting == s.capacity))
  unfolding size empty full
  fifo n {k} {s} r small =
      let (v, b) = Run-IsValid n r small in
      let l = waiting_lem s v in
      let o = v.order in
      let m = v.room in
      (
        in_hand s.consumer ++ v.values,
        v.logged,
        omega arith,
        ground (arith, l, o, m),
        ground (arith, l, o, m),
        ground (arith, l, o, m),
      )

  taken_value :
      (s : Spsc A) (m : PopMode) (h : ℕ) (o : Option A) (x : A)
      → take_slot s m h o
        ≡ some (record s {
          buffer = set s.buffer (h % s.capacity) none;
          consumer = Consumer.store_head m h x;
        })
      → o ≡ some x
  taken_value s m h none x e = cc
  taken_value s m h (some y) x e =
      let same : y ∷ [] ≡ x ∷ [] = ap (λ (u : Spsc A). in_hand u.consumer) (some_injective e) in cc

  -- When the consumer comes to take a value out of its slot, the slot holds one, so that `slot.value()`
  -- does not throw, and it is the oldest that was not received.
  pub takes_oldest :
      (n : ℕ) {k : ℕ} {s : Spsc A} (m : PopMode) (h : ℕ)
      → Reach (new n) k s
      → k < 2 ^ 64
      → s.consumer ≡ Consumer.take m h
      → (x : A) × (rest : List A) × (get_or s.buffer (h % s.capacity) none ≡ some x)
        × (s.sent ≡ s.received ++ (x ∷ rest))
  takes_oldest n {k} {s} m h r small e =
      let (v, b) = Run-IsValid n r small in
      let (x, took, w) = take_slot-IsValid s m h e v in
      (x, w.values, taken_value s m h (get_or s.buffer (h % s.capacity) none) x took, w.logged)

  -- While the producer is about to write its slot and the consumer about to empty its own, these are
  -- two slots: no slot is accessed by both threads at a time.
  pub slots_differ :
      (n : ℕ) {k : ℕ} {s : Spsc A} (m : PushMode) (v : A) (t : ℕ) (l : PopMode) (h : ℕ)
      → Reach (new n) k s
      → k < 2 ^ 64
      → s.producer ≡ Producer.write m v t
      → s.consumer ≡ Consumer.take l h
      → h % s.capacity ≢ t % s.capacity
  slots_differ n {k} {s} m x t l h r small p c =
      let (v, b) = Run-IsValid n r small in
      let (at, room) = subst (ProducerKnows s.capacity s.buffer s.head s.tail) p v.producer_knows in
      let (from, left) = subst (ConsumerKnows s.head s.tail) c v.consumer_knows in
      slot_ne s.capacity h t (omega arith) (omega arith)
