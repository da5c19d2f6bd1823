-- ===== src/CircularQueue/Inv.antt =====
-- The representation invariant of `CircularQueue`, the values that a valid queue holds, and what
-- its two writes, at the tail and at the head, do to them.
use lmcore.Prelude.{
  ℕ, suc, ◌+◌, ◌%◌, ◌^◌, ◌≤◌, ◌<◌, ◌≡◌, sym, ap, ap₂, ◌∙◌, arith, List, [], ◌∷◌, ◌++◌, length, set,
  get_or, get_or-set_self, u64,
}
use lmcore.Window.{window, window_congr, window-set_outside, window-snoc}
use lmcore.CircularQueue.{CircularQueue, advance}
use native.Mathlib.Nat.{mod-add-mod, mod-eq_of_lt, add-mod_right, mod-lt}

-- `small`: a vector has less than 2 ^ 63 elements.
pub record IsValid {ℓ} {A : Type ℓ} (q : CircularQueue A) : Type ℓ where
  pub positive : 0 < q.capacity
  pub small : q.capacity < 2 ^ 63
  pub storage : length q.buffer ≡ q.capacity
  pub head_in : q.head < q.capacity
  pub size_in : q.size ≤ q.capacity
  pub tail_at : q.tail ≡ (q.head + q.size) % q.capacity

-- Going round by one slot does not wrap a `size_t`.
pub advance-eq : (c i : ℕ) → c < 2 ^ 63 → i < c → advance c i ≡ (i + 1) % c
advance-eq c i small h = let e : (i + 1) % 2 ^ 64 ≡ i + 1 = omega arith in ap (λ k. k % c) e

-- The position after the head, and the tail seen from it.
pub advance-shift : (c i n : ℕ) → c < 2 ^ 63 → i < c → (advance c i + n) % c ≡ (suc i + n) % c
advance-shift c i n small h =
    ap (λ k. (k + n) % c) (advance-eq c i small h)
    ∙ mod-add-mod (i + 1) c n
    ∙ ap (λ k. k % c) (omega arith)

module _ {ℓ} {A : Type ℓ} (d : A) where
  abbrev pub contents : CircularQueue A → List A
  contents q = window d q.capacity q.buffer q.head q.size

  -- Writing at the tail with room left adds one value at the end.
  pub window-push :
      (c : ℕ) (buf : List A) (h n t : ℕ) (v : A)
      → length buf ≡ c
      → 0 < c
      → n < c
      → t ≡ (h + n) % c
      → window d c (set buf t v) h (suc n) ≡ window d c buf h n ++ (v ∷ [])
  window-push c buf h n t v len pos room e =
      ap (λ i. window d c (set buf i v) h (suc n)) e
      ∙ window-snoc d c (set buf ((h + n) % c) v) h n
      ∙ ap₂ (λ xs x. xs ++ (x ∷ []))
          (window-set_outside d c buf v h n (h + n) (omega arith) (omega arith))
          (get_or-set_self buf ((h + n) % c) v d (rw len (mod-lt (h + n) pos)))

  -- Moving the oldest value out of its slot leaves the others.
  pub window-pop :
      (c : ℕ) (buf : List A) (h h' n : ℕ) (m : A)
      → c < 2 ^ 63
      → h < c
      → suc n ≤ c
      → h' ≡ advance c h
      → window d c buf h (suc n) ≡ get_or buf h d ∷ window d c (set buf h m) h' n
  window-pop c buf h h' n m small head room e =
      rw (mod-eq_of_lt head) (ap (◌∷◌ (get_or buf h d)) (sym tail))
    where
      slot : (h + c) % c ≡ h
      slot = add-mod_right h c ∙ mod-eq_of_lt head

      same : h' % c ≡ suc h % c
      same =
          ap (λ k. k % c) (e ∙ sym (omega arith))
          ∙ advance-shift c h 0 small head
          ∙ ap (λ k. k % c) (omega arith)

      tail : window d c (set buf h m) h' n ≡ window d c buf (suc h) n
      tail =
          window_congr d c (set buf h m) h' (suc h) n same
          ∙ ap (λ i. window d c (set buf i m) (suc h) n) (sym slot)
          ∙ window-set_outside d c buf m (suc h) n (h + c) (omega arith) (omega arith)

-- The tail moves on with the size.
pub advance_tail :
    (c h n t : ℕ) → c < 2 ^ 63 → 0 < c → t ≡ (h + n) % c → advance c t ≡ (h + suc n) % c
advance_tail c h n t small pos e =
    ap (advance c) e
    ∙ advance-eq c ((h + n) % c) small (mod-lt (h + n) pos)
    ∙ mod-add-mod (h + n) c 1
    ∙ ap (λ k. k % c) (omega arith)

pub advance-lt : (c i : ℕ) → 0 < c → advance c i < c
advance-lt c i pos = mod-lt (u64 (i + 1)) pos

pub next-mod : (c i : ℕ) → c < 2 ^ 63 → i < c → suc i % c ≡ advance c i % c
next-mod c i small h =
    ap (λ k. k % c) (omega arith)
    ∙ sym (advance-shift c i 0 small h)
    ∙ ap (λ k. k % c) (omega arith)
