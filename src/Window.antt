-- ===== src/Window.antt =====
-- The values that a circular buffer of `cap` slots holds at the positions `h`, `h + 1`, …, each
-- position `i` in slot `i % cap`. CircularQueue and the channels of sync/ are read through it.
use lmcore.Prelude.{
  ℕ, zero, suc, ◌+◌, ◌%◌, ◌≤◌, ◌<◌, ◌≡◌, ◌≢◌, refl, sym, ap, ap₂, ◌∙◌, arith, List, [], ◌∷◌, ◌++◌,
  length, get_or, set, get_or-set_ne,
}
use native.Mathlib.Nat.{suc-mod}

-- Positions less than `cap` apart have different slots.
pub slot_ne : (cap i j : ℕ) → i < j → j < i + cap → i % cap ≢ j % cap
slot_ne cap i j lt near e = grind arith

module _ {ℓ} {A : Type ℓ} (d : A) (cap : ℕ) where
  abbrev pub window : List A → ℕ → ℕ → List A
  window buf h zero = []
  window buf h (suc n) = get_or buf (h % cap) d ∷ window buf (suc h) n

  pub length-window : (buf : List A) (h n : ℕ) → length (window buf h n) ≡ n
  length-window buf h zero = refl
  length-window buf h (suc n) = ap suc (length-window buf (suc h) n)

  -- Only the slots of the first and later positions count.
  pub window_congr :
      (buf : List A) (h k n : ℕ) → h % cap ≡ k % cap → window buf h n ≡ window buf k n
  window_congr buf h k zero e = refl
  window_congr buf h k (suc n) e =
      ap₂ ◌∷◌ (ap (λ i. get_or buf i d) e) (window_congr buf (suc h) (suc k) n next)
    where
      next : suc h % cap ≡ suc k % cap
      next = suc-mod h cap ∙ ap (λ t. suc t % cap) e ∙ sym (suc-mod k cap)

  -- A write to a slot outside the window leaves it as it is.
  pub window-set_outside :
      (buf : List A) (x : A) (h n i : ℕ)
      → h + n ≤ i
      → i < h + cap
      → window (set buf (i % cap) x) h n ≡ window buf h n
  window-set_outside buf x h zero i p q = refl
  window-set_outside buf x h (suc n) i p q =
      ap₂ ◌∷◌
        (get_or-set_ne buf (i % cap) (h % cap) x d (λ e. slot_ne cap h i (omega arith) q (sym e)))
        (window-set_outside buf x (suc h) n i (omega arith) (omega arith))

  -- The window is extended at its end.
  pub window-snoc :
      (buf : List A) (h n : ℕ)
      → window buf h (suc n) ≡ window buf h n ++ (get_or buf ((h + n) % cap) d ∷ [])
  window-snoc buf h zero = ap (λ i. get_or buf (i % cap) d ∷ []) (omega arith)
  window-snoc buf h (suc n) = ap (◌∷◌ (get_or buf (h % cap) d)) (
      window-snoc buf (suc h) n
      ∙ ap (λ i. window buf (suc h) n ++ (get_or buf (i % cap) d ∷ [])) (omega arith))
