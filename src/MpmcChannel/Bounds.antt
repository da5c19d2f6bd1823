-- ===== src/MpmcChannel/Bounds.antt =====
-- The positions `head_` and `tail_`.
use lmcore.Prelude.{
  refl, subst, false, inl, inr, Bool-cases, ℕ, ◌+◌, ◌-◌, ◌^◌, ◌≤◌, ◌<◌, ◌≡◌, ◌⊎◌, arith, Bool, true,
  ltb, leb, ◌==◌, ◌&&◌, not, Option, none, some, u64, sub64, if-both, IfSome, IfSome-some,
}
use lmcore.MpmcChannel.{
  Thread, Mpmc, new, update, max_spin_count, is_some, slot, take_slot, thread_step, Event,
  is_outside, step, Reach, size, empty, full,
}

-- What a thread knows of the positions that it has loaded.
abbrev pub Knows : ℕ → ℕ → ℕ → Thread → Type 0
Knows c head tail (Thread.push_head v t) = t ≤ tail
Knows c head tail (Thread.push_cas v t) = t < head + c
Knows c head tail (Thread.pop_tail k h) = h ≤ head
Knows c head tail (Thread.pop_test k h) = h < tail
Knows c head tail (Thread.pop_cas h) = h < tail
Knows c head tail _ = Unit

module _ (least wide : ℕ) where
  pub record Within (n c head tail : ℕ) (threads : ℕ → Thread) : Type 0 where
    pub counted : tail ≤ n
    pub floor : least ≤ head
    pub width : c ≡ wide
    pub ordered : head ≤ tail
    pub bounded : tail ≤ head + c
    pub known : (i : ℕ) → Knows c head tail (threads i)

  abbrev pub IsWithin : ℕ → Mpmc → Type 0
  IsWithin n s = Within n s.capacity s.head s.tail s.threads

  -- The positions only grow.
  later :
      (c head tail head' tail' : ℕ) (t : Thread)
      → head ≤ head'
      → tail ≤ tail'
      → Knows c head tail t
      → Knows c head' tail' t
  later c head tail head' tail' Thread.outside h k v = tt
  later c head tail head' tail' (Thread.push_tail _) h k v = tt
  later c head tail head' tail' (Thread.push_head _ t) h k v = omega (arith, v)
  later c head tail head' tail' (Thread.push_cas _ t) h k v = omega (arith, v)
  later c head tail head' tail' (Thread.push_write _ _) h k v = tt
  later c head tail head' tail' (Thread.pop_head _) h k v = tt
  later c head tail head' tail' (Thread.pop_tail _ t) h k v = omega (arith, v)
  later c head tail head' tail' (Thread.pop_test _ t) h k v = omega (arith, v)
  later c head tail head' tail' Thread.again_head h k v = tt
  later c head tail head' tail' (Thread.again_tail _) h k v = tt
  later c head tail head' tail' (Thread.pop_cas t) h k v = omega (arith, v)
  later c head tail head' tail' (Thread.pop_take _) h k v = tt

  -- A thread goes on while the positions grow.
  moved :
      (n c head tail head' tail' : ℕ) (threads : ℕ → Thread) (i : ℕ) (t : Thread)
      → Within n c head tail threads
      → head ≤ head'
      → tail ≤ tail'
      → tail' ≤ n + 1
      → head' ≤ tail'
      → tail' ≤ head' + c
      → Knows c head' tail' t
      → Within (n + 1) c head' tail' (update threads i t)
  moved n c head tail head' tail' threads i t v h k counted ordered bounded knows = record {
    counted = counted;
    floor = omega (arith, v.floor);
    width = v.width;
    ordered = ordered;
    bounded = bounded;
    known = λ j.
        if-both (Knows c head' tail') (i == j) t (threads j) (λ _. knows)
          (λ _. later c head tail head' tail' (threads j) h k (v.known j));
  }

  -- A thread goes on where the positions stay.
  stayed :
      (n : ℕ) (s : Mpmc) (i : ℕ) (t : Thread)
      → IsWithin n s
      → Knows s.capacity s.head s.tail t
      → Within (n + 1) s.capacity s.head s.tail (update s.threads i t)
  stayed n s i t v =
      let a = v.counted in
      let b = v.ordered in
      let c = v.bounded in
      moved n s.capacity s.head s.tail s.head s.tail s.threads i t v (omega arith) (omega arith)
        (omega arith) b c

  thread_step-IsWithin :
      (n : ℕ) (s : Mpmc) (i : ℕ) (spurious : Bool) (t : Thread)
      → n + 1 < 2 ^ 64
      → IsWithin n s
      → Knows s.capacity s.head s.tail t
      → IfSome (IsWithin (n + 1)) (thread_step s i spurious t)
  unfolding thread_step
  thread_step-IsWithin n s i spurious Thread.outside few v k = tt
  thread_step-IsWithin n s i spurious (Thread.push_tail x) few v k =
      stayed n s i (Thread.push_head x s.tail) v (omega arith)
  thread_step-IsWithin n s i spurious (Thread.push_head x t) few v k =
      let a = v.counted in
      let b = v.ordered in
      if-both (IsWithin (n + 1)) (leb s.capacity (sub64 t s.head)) _ _
        (λ _. stayed n s i Thread.outside v tt)
        (λ e. stayed n s i (Thread.push_cas x t) v (ground arith))
  thread_step-IsWithin n s i spurious (Thread.push_cas x t) few v k =
      let a = v.counted in
      let b = v.ordered in
      if-both (IsWithin (n + 1)) ((s.tail == t) && not spurious) _ _
        (λ e.
          let now : s.tail ≡ t = ground arith in
          moved n s.capacity s.head s.tail s.head (u64 (t + 1)) s.threads i (Thread.push_write x t)
            v (omega arith) (omega arith) (omega arith) (omega arith) (omega arith) tt)
        (λ _. stayed n s i (Thread.push_tail x) v tt)
  thread_step-IsWithin n s i spurious (Thread.push_write x t) few v k =
      stayed n s i Thread.outside v tt
  thread_step-IsWithin n s i spurious (Thread.pop_head spins) few v k =
      stayed n s i (Thread.pop_tail spins s.head) v (omega arith)
  thread_step-IsWithin n s i spurious (Thread.pop_tail spins h) few v k =
      let b = v.ordered in
      if-both (IsWithin (n + 1)) (s.tail == h) _ _ (λ _. stayed n s i Thread.outside v tt)
        (λ e. stayed n s i (Thread.pop_test spins h) v (ground arith))
  thread_step-IsWithin n s i spurious (Thread.pop_test spins h) few v k =
      if-both (IsWithin (n + 1)) (is_some (slot s h)) _ _ (λ _. stayed n s i (Thread.pop_cas h) v k)
        (λ _.
          if-both (IsWithin (n + 1)) (ltb max_spin_count (spins + 1)) _ _
            (λ _. stayed n s i Thread.again_head v tt)
            (λ _. stayed n s i (Thread.pop_head (spins + 1)) v tt))
  thread_step-IsWithin n s i spurious Thread.again_head few v k =
      stayed n s i (Thread.again_tail s.head) v tt
  thread_step-IsWithin n s i spurious (Thread.again_tail h) few v k =
      if-both (IsWithin (n + 1)) (s.tail == h) _ _ (λ _. stayed n s i Thread.outside v tt)
        (λ _. stayed n s i (Thread.pop_head 0) v tt)
  thread_step-IsWithin n s i spurious (Thread.pop_cas h) few v k =
      let a = v.counted in
      let b = v.ordered in
      let c = v.bounded in
      if-both (IsWithin (n + 1)) ((s.head == h) && not spurious) _ _
        (λ e.
          let now : s.head ≡ h = ground arith in
          moved n s.capacity s.head s.tail (u64 (h + 1)) s.tail s.threads i (Thread.pop_take h) v
            (omega arith) (omega arith) (omega arith) (omega arith) (omega arith) tt)
        (λ _. stayed n s i (Thread.pop_head 0) v tt)
  thread_step-IsWithin n s i spurious (Thread.pop_take h) few v k = from (slot s h)
    where
      from : (o : Option ℕ) → IfSome (IsWithin (n + 1)) (take_slot s i h o)
      from none = tt
      from (some x) = stayed n s i Thread.outside v tt

  step-IsWithin :
      (n : ℕ) (s : Mpmc) (e : Event)
      → n + 1 < 2 ^ 64
      → IsWithin n s
      → IfSome (IsWithin (n + 1)) (step s e)
  unfolding step
  step-IsWithin n s (Event.try_push i x) few v =
      if-both (IfSome (IsWithin (n + 1))) (is_outside (s.threads i)) _ _
        (λ _. stayed n s i (Thread.push_tail x) v tt) (λ _. tt)
  step-IsWithin n s (Event.try_pop i) few v =
      if-both (IfSome (IsWithin (n + 1))) (is_outside (s.threads i)) _ _
        (λ _. stayed n s i (Thread.pop_head 0) v tt) (λ _. tt)
  step-IsWithin n s (Event.next_step i b) few v =
      thread_step-IsWithin n s i b (s.threads i) few v (v.known i)

new-IsWithin : (capacity : ℕ) → IsWithin 0 (new capacity).capacity 0 (new capacity)
unfolding new
new-IsWithin capacity = record {
  counted = omega arith;
  floor = omega arith;
  width = refl;
  ordered = omega arith;
  bounded = omega arith;
  known = λ i. tt;
}

Reach-IsWithin :
    (least wide n : ℕ) {s : Mpmc} (m : ℕ) {u : Mpmc}
    → n + m < 2 ^ 64
    → IsWithin least wide n s
    → Reach s m u
    → IsWithin least wide (n + m) u
Reach-IsWithin least wide n {s} _ few v Reach.here =
    subst (λ k. IsWithin least wide k s) (let z : n ≡ n + 0 = omega arith in z) v
Reach-IsWithin least wide n _ few v (Reach.next {n = m} {t} {u} e r h) =
    subst (λ k. IsWithin least wide k u) (let z : n + m + 1 ≡ n + (m + 1) = omega arith in z)
      (IfSome-some (IsWithin least wide (n + m + 1)) h (
        step-IsWithin least wide (n + m) t e (omega arith)
          (Reach-IsWithin least wide n m (omega arith) v r)))

-- What is known in one state, with its own `head_` as the least.
from_here : (least wide n : ℕ) (s : Mpmc) → IsWithin least wide n s → IsWithin s.head s.capacity n s
from_here least wide n s v = record {
  counted = v.counted;
  floor = omega arith;
  width = refl;
  ordered = v.ordered;
  bounded = v.bounded;
  known = v.known;
}

-- Where `Size`, `Empty` and `Full` load `head_` in one state and `tail_` in a later one of a run of
-- fewer than 2 ^ 64 events of any number of threads, `head_` is not beyond `tail_` in the later state, nor
-- `tail_` more than the capacity beyond it; `Size` is at least the distance there, and no more than
-- the capacity; where `Empty` says so the queue is empty in the later state, and where `Full` does not
-- say so it is not full there.
pub positions_lem :
    (capacity n m : ℕ) {s u : Mpmc}
    → n + m < 2 ^ 64
    → Reach (new capacity) n s
    → Reach s m u
    → (u.head ≤ u.tail)
      × (u.tail ≤ u.head + u.capacity)
      × (u.tail - u.head ≤ size s u)
      × (size s u ≤ u.capacity)
      × ((empty s u ≡ false) ⊎ (u.tail ≡ u.head))
      × ((full s u ≡ true) ⊎ (u.tail < u.head + u.capacity))
unfolding size empty full
positions_lem capacity n m {s} {u} few r q =
    let w = Reach-IsWithin 0 (new capacity).capacity 0 n (omega arith) (new-IsWithin capacity) r in
    let v =
      Reach-IsWithin s.head s.capacity (0 + n) m (omega arith)
        (from_here 0 (new capacity).capacity (0 + n) s w) q in
    let least = v.floor in
    let same = v.width in
    let a = v.counted in
    let b = v.ordered in
    let c = v.bounded in
    (
      b,
      c,
      ground arith,
      ground arith,
      (elim (Bool-cases (u.tail == s.head)) [ inl e ↦ inr (ground arith) | inr e ↦ inl e ]),
      (elim (Bool-cases (leb s.capacity (sub64 u.tail s.head))) [
        | inl e ↦ inl e
        | inr e ↦ inr (ground arith)
      ]),
    )
