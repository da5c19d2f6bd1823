-- ===== src/SpmcChannel/Bounds.antt =====
-- The positions `head_` and `tail_`.
use lmcore.Prelude.{
  subst, false, inl, inr, Bool-cases, ℕ, ◌+◌, ◌-◌, ◌^◌, ◌≤◌, ◌<◌, ◌≡◌, ◌⊎◌, refl, arith, Bool, true,
  ltb, leb, ◌==◌, ◌&&◌, not, Option, none, some, u64, sub64, if-both, IfSome, IfSome-some,
}
use lmcore.SpmcChannel.{
  Producer, Consumer, Spmc, new, update, max_spin_count, is_some, slot, take_slot, push_step,
  pop_step, begin_push, Event, is_idle, step, Reach, size, empty, full,
}

-- Only the producer moves `tail_`, so that what it has loaded is still the value.
abbrev pub PushKnows : ℕ → ℕ → ℕ → Producer → Type 0
PushKnows c head tail (Producer.push_head v t) = t ≡ tail
PushKnows c head tail (Producer.push_write v t) = (t ≡ tail) × (t < head + c)
PushKnows c head tail (Producer.push_store v t) = (t ≡ tail) × (t < head + c)
PushKnows c head tail _ = Unit

abbrev pub PopKnows : ℕ → ℕ → Consumer → Type 0
PopKnows head tail (Consumer.pop_tail k h) = h ≤ head
PopKnows head tail (Consumer.pop_test k h) = h < tail
PopKnows head tail (Consumer.pop_cas h) = h < tail
PopKnows head tail _ = Unit

module _ (least wide : ℕ) where
  pub record Within (n c head tail : ℕ) (producer : Producer) (consumers : ℕ → Consumer)
      : Type 0 where
    pub counted : tail ≤ n
    pub floor : least ≤ head
    pub width : c ≡ wide
    pub ordered : head ≤ tail
    pub bounded : tail ≤ head + c
    pub push_knows : PushKnows c head tail producer
    pub pop_knows : (i : ℕ) → PopKnows head tail (consumers i)

  abbrev pub IsWithin : ℕ → Spmc → Type 0
  IsWithin n s = Within n s.capacity s.head s.tail s.producer s.consumers

  -- The positions only grow.
  push_later :
      (c head head' tail : ℕ) (p : Producer)
      → head ≤ head'
      → PushKnows c head tail p
      → PushKnows c head' tail p
  push_later c head head' tail Producer.outside h k = tt
  push_later c head head' tail (Producer.push_tail v) h k = tt
  push_later c head head' tail (Producer.push_head v t) h k = k
  push_later c head head' tail (Producer.push_write v t) h (a, b) = (a, omega arith)
  push_later c head head' tail (Producer.push_store v t) h (a, b) = (a, omega arith)

  pop_later :
      (head tail head' tail' : ℕ) (c : Consumer)
      → head ≤ head'
      → tail ≤ tail'
      → PopKnows head tail c
      → PopKnows head' tail' c
  pop_later head tail head' tail' Consumer.idle h k v = tt
  pop_later head tail head' tail' Consumer.again_head h k v = tt
  pop_later head tail head' tail' (Consumer.pop_head _) h k v = tt
  pop_later head tail head' tail' (Consumer.again_tail _) h k v = tt
  pop_later head tail head' tail' (Consumer.pop_take _) h k v = tt
  pop_later head tail head' tail' (Consumer.pop_cas t) h k v = omega (arith, v)
  pop_later head tail head' tail' (Consumer.pop_tail _ t) h k v = omega (arith, v)
  pop_later head tail head' tail' (Consumer.pop_test _ t) h k v = omega (arith, v)

  -- The producer goes on.
  pushed_on :
      (n : ℕ) (s : Spmc) (tail : ℕ) (p : Producer)
      → IsWithin n s
      → s.tail ≤ tail
      → tail ≤ n + 1
      → tail ≤ s.head + s.capacity
      → PushKnows s.capacity s.head tail p
      → Within (n + 1) s.capacity s.head tail p s.consumers
  pushed_on n s tail p v grows few room knows =
      let ordered = v.ordered in
      record {
        counted = few;
        floor = v.floor;
        width = v.width;
        ordered = omega arith;
        bounded = room;
        push_knows = knows;
        pop_knows = λ i.
            pop_later s.head s.tail s.head tail (s.consumers i) (omega arith) grows (v.pop_knows i);
      }

  -- A consumer goes on.
  popped_on :
      (n : ℕ) (s : Spmc) (head : ℕ) (i : ℕ) (c : Consumer)
      → IsWithin n s
      → s.head ≤ head
      → head ≤ s.tail
      → PopKnows head s.tail c
      → Within (n + 1) s.capacity head s.tail s.producer (update s.consumers i c)
  popped_on n s head i c v grows low knows =
      let counted = v.counted in
      let bounded = v.bounded in
      record {
        counted = omega arith;
        floor = omega (arith, v.floor);
        width = v.width;
        ordered = low;
        bounded = omega arith;
        push_knows = push_later s.capacity s.head head s.tail s.producer grows v.push_knows;
        pop_knows = λ j.
            if-both (PopKnows head s.tail) (i == j) c (s.consumers j) (λ _. knows)
              (λ _.
                pop_later s.head s.tail head s.tail (s.consumers j) grows (omega arith)
                  (v.pop_knows j));
      }

  push_step-IsWithin :
      (n : ℕ) (s : Spmc) (p : Producer)
      → n + 1 < 2 ^ 64
      → IsWithin n s
      → PushKnows s.capacity s.head s.tail p
      → IfSome (IsWithin (n + 1)) (push_step s p)
  unfolding push_step
  push_step-IsWithin n s Producer.outside few v k = tt
  push_step-IsWithin n s (Producer.push_tail x) few v k =
      let a = v.counted in
      pushed_on n s s.tail (Producer.push_head x s.tail) v (omega arith) (omega arith) v.bounded
        refl
  push_step-IsWithin n s (Producer.push_head x t) few v k =
      let a = v.counted in
      let b = v.ordered in
      if-both (IsWithin (n + 1)) (leb s.capacity (sub64 t s.head)) _ _
        (λ _. pushed_on n s s.tail Producer.outside v (omega arith) (omega arith) v.bounded tt)
        (λ e.
          pushed_on n s s.tail (Producer.push_write x t) v (omega arith) (omega arith) v.bounded
            (k, ground arith))
  push_step-IsWithin n s (Producer.push_write x t) few v k =
      let a = v.counted in
      pushed_on n s s.tail (Producer.push_store x t) v (omega arith) (omega arith) v.bounded k
  push_step-IsWithin n s (Producer.push_store x t) few v (a, b) =
      let c = v.counted in
      pushed_on n s (u64 (t + 1)) Producer.outside v (omega arith) (omega arith) (omega arith) tt

  pop_step-IsWithin :
      (n : ℕ) (s : Spmc) (i : ℕ) (spurious : Bool) (c : Consumer)
      → n + 1 < 2 ^ 64
      → IsWithin n s
      → PopKnows s.head s.tail c
      → IfSome (IsWithin (n + 1)) (pop_step s i spurious c)
  unfolding pop_step
  pop_step-IsWithin n s i spurious Consumer.idle few v k = tt
  pop_step-IsWithin n s i spurious (Consumer.pop_head spins) few v k =
      popped_on n s s.head i (Consumer.pop_tail spins s.head) v (omega arith) v.ordered
        (omega arith)
  pop_step-IsWithin n s i spurious (Consumer.pop_tail spins h) few v k =
      let b = v.ordered in
      if-both (IsWithin (n + 1)) (s.tail == h) _ _
        (λ _. popped_on n s s.head i Consumer.idle v (omega arith) b tt)
        (λ e. popped_on n s s.head i (Consumer.pop_test spins h) v (omega arith) b (ground arith))
  pop_step-IsWithin n s i spurious (Consumer.pop_test spins h) few v k =
      let b = v.ordered in
      if-both (IsWithin (n + 1)) (is_some (slot s h)) _ _
        (λ _. popped_on n s s.head i (Consumer.pop_cas h) v (omega arith) b k)
        (λ _.
          if-both (IsWithin (n + 1)) (ltb max_spin_count (spins + 1)) _ _
            (λ _. popped_on n s s.head i Consumer.again_head v (omega arith) b tt)
            (λ _. popped_on n s s.head i (Consumer.pop_head (spins + 1)) v (omega arith) b tt))
  pop_step-IsWithin n s i spurious Consumer.again_head few v k =
      popped_on n s s.head i (Consumer.again_tail s.head) v (omega arith) v.ordered tt
  pop_step-IsWithin n s i spurious (Consumer.again_tail h) few v k =
      let b = v.ordered in
      if-both (IsWithin (n + 1)) (s.tail == h) _ _
        (λ _. popped_on n s s.head i Consumer.idle v (omega arith) b tt)
        (λ _. popped_on n s s.head i (Consumer.pop_head 0) v (omega arith) b tt)
  pop_step-IsWithin n s i spurious (Consumer.pop_cas h) few v k =
      let a = v.counted in
      let b = v.ordered in
      if-both (IsWithin (n + 1)) ((s.head == h) && not spurious) _ _
        (λ e.
          let now : s.head ≡ h = ground arith in
          popped_on n s (u64 (h + 1)) i (Consumer.pop_take h) v (omega arith) (omega arith) tt)
        (λ _. popped_on n s s.head i (Consumer.pop_head 0) v (omega arith) b tt)
  pop_step-IsWithin n s i spurious (Consumer.pop_take h) few v k = from (slot s h)
    where
      from : (o : Option ℕ) → IfSome (IsWithin (n + 1)) (take_slot s i h o)
      from none = tt
      from (some x) = popped_on n s s.head i Consumer.idle v (omega arith) v.ordered tt

  begin_push-IsWithin :
      (n : ℕ) (s : Spmc) (x : ℕ) (p : Producer)
      → IsWithin n s
      → IfSome (IsWithin (n + 1)) (begin_push s x p)
  begin_push-IsWithin n s x Producer.outside v =
      let a = v.counted in
      pushed_on n s s.tail (Producer.push_tail x) v (omega arith) (omega arith) v.bounded tt
  begin_push-IsWithin n s x (Producer.push_tail _) v = tt
  begin_push-IsWithin n s x (Producer.push_head _ _) v = tt
  begin_push-IsWithin n s x (Producer.push_write _ _) v = tt
  begin_push-IsWithin n s x (Producer.push_store _ _) v = tt

  step-IsWithin :
      (n : ℕ) (s : Spmc) (e : Event)
      → n + 1 < 2 ^ 64
      → IsWithin n s
      → IfSome (IsWithin (n + 1)) (step s e)
  unfolding step
  step-IsWithin n s (Event.try_push x) few v = begin_push-IsWithin n s x s.producer v
  step-IsWithin n s Event.push_next few v = push_step-IsWithin n s s.producer few v v.push_knows
  step-IsWithin n s (Event.try_pop i) few v =
      if-both (IfSome (IsWithin (n + 1))) (is_idle (s.consumers i)) _ _
        (λ _. popped_on n s s.head i (Consumer.pop_head 0) v (omega arith) v.ordered tt) (λ _. tt)
  step-IsWithin n s (Event.pop_next i b) few v =
      pop_step-IsWithin n s i b (s.consumers i) few v (v.pop_knows i)

new-IsWithin : (capacity : ℕ) → IsWithin 0 (new capacity).capacity 0 (new capacity)
unfolding new
new-IsWithin capacity = record {
  counted = omega arith;
  floor = omega arith;
  width = refl;
  ordered = omega arith;
  bounded = omega arith;
  push_knows = tt;
  pop_knows = λ i. tt;
}

Reach-IsWithin :
    (least wide n : ℕ) {s : Spmc} (m : ℕ) {u : Spmc}
    → n + m < 2 ^ 64
    → IsWithin least wide n s
    → Reach s m u
    → IsWithin least wide (n + m) u
Reach-IsWithin least wide n {s} _ few v Reach.here =
    subst (λ k. IsWithin least wide k s) (let z : n ≡ n + 0 = omega arith in z) v
Reach-IsWithin least wide n _ few v (Reach.next {n = m} {t} {u} e r h) =
    subst (λ k. IsWithin least wide k u) (let z : n + m + 1 ≡ n + (m + 1) = omega arith in z)
      (IfSome-some (IsWithin least wide (n + m + 1)) h (
        step-IsWithin least wide (n + m) t e (omega arith)
          (Reach-IsWithin least wide n m (omega arith) v r)))

-- What is known in one state, with its own `head_` as the least.
from_here : (least wide n : ℕ) (s : Spmc) → IsWithin least wide n s → IsWithin s.head s.capacity n s
from_here least wide n s v = record {
  counted = v.counted;
  floor = omega arith;
  width = refl;
  ordered = v.ordered;
  bounded = v.bounded;
  push_knows = v.push_knows;
  pop_knows = v.pop_knows;
}

-- Where `Size`, `Empty` and `Full` load `head_` in one state and `tail_` in a later one of a run of
-- fewer than 2 ^ 64 events of the producer and any number of consumers, `head_` is not beyond `tail_` in the later state, nor
-- `tail_` more than the capacity beyond it; `Size` is at least the distance there, and no more than
-- the capacity; where `Empty` says so the queue is empty in the later state, and where `Full` does not
-- say so it is not full there.
pub counters_lem :
    (capacity n m : ℕ) {s u : Spmc}
    → n + m < 2 ^ 64
    → Reach (new capacity) n s
    → Reach s m u
    → (u.head ≤ u.tail)
      × (u.tail ≤ u.head + u.capacity)
      × (u.tail - u.head ≤ size s u)
      × (size s u ≤ u.capacity)
      × ((empty s u ≡ false) ⊎ (u.tail ≡ u.head))
      × ((full s u ≡ true) ⊎ (u.tail < u.head + u.capacity))
unfolding size empty full
counters_lem capacity n m {s} {u} few r q =
    let w = Reach-IsWithin 0 (new capacity).capacity 0 n (omega arith) (new-IsWithin capacity) r in
    let v =
      Reach-IsWithin s.head s.capacity (0 + n) m (omega arith)
        (from_here 0 (new capacity).capacity (0 + n) s w) q in
    let least = v.floor in
    let same = v.width in
    let a = v.counted in
    let b = v.ordered in
    let c = v.bounded in
    (
      b,
      c,
      ground arith,
      ground arith,
      (elim (Bool-cases (u.tail == s.head)) [ inl e ↦ inr (ground arith) | inr e ↦ inl e ]),
      (elim (Bool-cases (leb s.capacity (sub64 u.tail s.head))) [
        | inl e ↦ inl e
        | inr e ↦ inr (ground arith)
      ]),
    )
