-- ===== src/MpscChannel/Valid.antt =====
-- The invariant of the queue.
use lmcore.Prelude.{
  ℕ, zero, suc, ◌+◌, ◌≤◌, ◌<◌, ◌≡◌, ◌≢◌, ◌⊎◌, inl, inr, refl, ap, subst, ◌∙◌, arith, Bool, true,
  false, ◌==◌, List, [], ◌∷◌, ◌++◌, none, some, Bool-cases,
}
use lmcore.MpscChannel.{Producer, Consumer, Mpsc, new, update, go, slot}

-- Whether the consumer has emptied the slot at `head_`.
abbrev pub in_hand : Consumer → ℕ
in_hand (Consumer.pop_store h v) = 1
in_hand _ = 0

-- The first position whose value the consumer has not taken.
abbrev pub first : Mpsc → ℕ
first s = s.head + in_hand s.consumer

-- What a producer knows where it is.
abbrev pub PushKnows : Mpsc → ℕ → Producer → Type 0
PushKnows s i (Producer.push_head v t) = t ≤ s.tail
PushKnows s i (Producer.push_cas v t) = t < s.head + s.capacity
PushKnows s i (Producer.push_write v t) =
    (first s ≤ t) × (t < s.tail) × (s.claims t ≡ v) × (s.owner t ≡ i) × (slot s t ≡ none)
PushKnows s i _ = Unit

abbrev pub PopKnows : Mpsc → Consumer → Type 0
PopKnows s (Consumer.pop_tail h) = h ≡ s.head
PopKnows s (Consumer.again_tail h) = h ≡ s.head
PopKnows s (Consumer.pop_test k h) = (h ≡ s.head) × (h < s.tail)
PopKnows s (Consumer.assign_read h) = (h ≡ s.head) × (h < s.tail)
PopKnows s (Consumer.assign_write h o) =
    (h ≡ s.head)
    × (h < s.tail)
    × ((o ≡ none) ⊎ ((o ≡ some (s.claims h)) × (slot s h ≡ some (s.claims h))))
PopKnows s (Consumer.pop_take h) = (h ≡ s.head) × (h < s.tail) × (slot s h ≡ some (s.claims h))
PopKnows s (Consumer.pop_store h v) = (h ≡ s.head) × (h < s.tail) × (v ≡ s.claims h)
PopKnows s _ = Unit

-- The value of a claimed position lies in its slot, or its producer is about to write it.
abbrev pub IsHeld : Mpsc → ℕ → Type 0
IsHeld s p =
    (slot s p ≡ some (s.claims p)) ⊎ (s.producers (s.owner p) ≡ Producer.push_write (s.claims p) p)

-- The slot of a claimed position is empty or has its value.
abbrev pub IsFine : Mpsc → ℕ → Type 0
IsFine s p = (slot s p ≡ none) ⊎ (slot s p ≡ some (s.claims p))

-- The values of the first positions.
abbrev pub firsts : ℕ → (ℕ → ℕ) → List ℕ
firsts zero f = []
firsts (suc n) f = firsts n f ++ (f n ∷ [])

pub record IsValid (n : ℕ) (s : Mpsc) : Type 0 where
  pub positive : 0 < s.capacity
  pub counted : s.tail ≤ n
  pub order : first s ≤ s.tail
  pub room : s.tail ≤ s.head + s.capacity
  pub push_knows : (i : ℕ) → PushKnows s i (s.producers i)
  pub pop_knows : PopKnows s s.consumer
  pub held : (p : ℕ) → s.head < p → p < s.tail → IsHeld s p
  pub fine : (p : ℕ) → first s ≤ p → p < s.tail → IsFine s p
  pub free : (p : ℕ) → s.tail ≤ p → p < first s + s.capacity → slot s p ≡ none
  pub order_kept : s.received ≡ firsts s.head s.claims

pub new-IsValid : (capacity : ℕ) → IsValid 0 (new capacity)
unfolding new
new-IsValid capacity = record {
  positive = ground arith;
  counted = omega arith;
  order = omega arith;
  room = omega arith;
  push_knows = λ i. tt;
  pop_knows = tt;
  held = λ p h k. absurd (omega arith);
  fine = λ p h k. absurd (omega arith);
  free = λ p h k. refl;
  order_kept = refl;
}

abbrev pub is_writing : Producer → Bool
is_writing (Producer.push_write v t) = true
is_writing _ = false

-- Another thread's place.
pub update_ne {ℓ} : {A : Type ℓ} (f : ℕ → A) (i j : ℕ) (a : A) → i ≢ j → update f i a j ≡ f j
update_ne f i j a h = let other : (i == j) ≡ false = ground arith in rw other refl

pub update_eq {ℓ} : {A : Type ℓ} (f : ℕ → A) (i : ℕ) (a : A) → update f i a i ≡ a
update_eq f i a = let same : (i == i) ≡ true = ground arith in rw same refl

-- Of a producer that is not about to write, the thread of a position about to be written is not it.
pub not_owner :
    (s : Mpsc) (i p v t : ℕ)
    → is_writing (s.producers i) ≡ false
    → s.producers (s.owner p) ≡ Producer.push_write v t
    → i ≢ s.owner p
not_owner s i p v t h e same =
    absurd (ground (arith, ap (λ k. is_writing (s.producers k)) same ∙ ap is_writing e))

-- A producer that is not about to write goes on.
pub go-IsValid :
    (n : ℕ) (s : Mpsc) (i : ℕ) (p : Producer)
    → IsValid n s
    → is_writing (s.producers i) ≡ false
    → PushKnows s i p
    → IsValid (n + 1) (go s i p)
go-IsValid n s i p v quiet knows =
    let counted = v.counted in
    record {
      positive = v.positive;
      counted = omega arith;
      order = v.order;
      room = v.room;
      push_knows = λ j. elim (Bool-cases (i == j)) [
        | inl e ↦ let same : i ≡ j = ground arith in rw e (subst (λ k. PushKnows s k p) same knows)
        | inr e ↦ rw e (v.push_knows j)
      ];
      pop_knows = v.pop_knows;
      held = λ q h k. elim (v.held q h k) [
        | inl e ↦ inl e
        | inr e ↦
            inr (update_ne s.producers i (s.owner q) p (not_owner s i q (s.claims q) q quiet e) ∙ e)
      ];
      fine = v.fine;
      free = v.free;
      order_kept = v.order_kept;
    }
