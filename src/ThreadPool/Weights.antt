-- ===== src/ThreadPool/Weights.antt =====
-- Tasks counted with a weight each, in a queue and in the map of queues.
use lmcore.Prelude.{ℕ, ◌+◌, ◌≡◌, refl, ap, arith, List, [], ◌∷◌, ◌++◌}
use lmcore.ThreadPool.Tags.{TagMap, pending, store, erase, Lacks, HasUniqueKeys}

module _ {ℓ} {A : Type ℓ} (f : A → ℕ) where
  abbrev pub weigh : List A → ℕ
  weigh [] = 0
  weigh (x ∷ xs) = f x + weigh xs

  pub weigh-append : (xs ys : List A) → weigh (xs ++ ys) ≡ weigh xs + weigh ys
  weigh-append [] ys = omega arith
  weigh-append (x ∷ xs) ys = omega (arith, weigh-append xs ys)

  abbrev pub weigh_all : TagMap A → ℕ
  weigh_all [] = 0
  weigh_all ((u, xs) ∷ m) = weigh xs + weigh_all m

  pub weigh_all-store :
      (m : TagMap A) (t : ℕ) (ys : List A)
      → weigh_all (store m t ys) + weigh (pending m t) ≡ weigh_all m + weigh ys
  unfolding store pending
  weigh_all-store [] t ys = omega arith
  weigh_all-store ((v, xs) ∷ m) t ys = ground (arith, weigh_all-store m t ys)

  erase_of_Lacks : (m : TagMap A) (t : ℕ) → Lacks t m → weigh_all (erase m t) ≡ weigh_all m
  unfolding erase
  erase_of_Lacks [] t h = refl
  erase_of_Lacks ((v, xs) ∷ m) t h = ground (arith, erase_of_Lacks m t h.1)

  pub weigh_all-erase :
      (m : TagMap A) (t : ℕ)
      → HasUniqueKeys m
      → weigh_all (erase m t) + weigh (pending m t) ≡ weigh_all m
  unfolding erase pending
  weigh_all-erase [] t h = omega arith
  weigh_all-erase ((v, xs) ∷ m) t h = ground (
    arith,
    weigh_all-erase m t h.1,
    erase_of_Lacks m t,
    ap (λ (k : ℕ). weigh_all (erase m k)) {x = v} {y = t},
  )
