-- ===== src/ThreadPool/Tags.antt =====
-- The map from serial tags to queues, `std::unordered_map<std::string, std::queue<…>>`, as an
-- association list; a tag that is not in it has the empty queue.
use lmcore.Prelude.{ℕ, ◌+◌, ◌≡◌, ◌≢◌, refl, ap, arith, if◌then◌else◌, ◌==◌, List, [], ◌∷◌, length}

abbrev pub TagMap {ℓ} : Type ℓ → Type ℓ
TagMap A = List (ℕ × List A)

module _ {ℓ} {A : Type ℓ} where
  unfoldable pub pending : TagMap A → ℕ → List A
  pending [] t = []
  pending ((u, xs) ∷ m) t = if u == t then xs else pending m t

  unfoldable pub store : TagMap A → ℕ → List A → TagMap A
  store [] t ys = (t, ys) ∷ []
  store ((u, xs) ∷ m) t ys = if u == t then (t, ys) ∷ m else (u, xs) ∷ store m t ys

  unfoldable pub erase : TagMap A → ℕ → TagMap A
  erase [] t = []
  erase ((u, xs) ∷ m) t = let rest = erase m t in if u == t then rest else (u, xs) ∷ rest

  unfoldable pub total : TagMap A → ℕ
  total [] = 0
  total ((u, xs) ∷ m) = length xs + total m

  pub pending-store :
      (m : TagMap A) (t u : ℕ) (ys : List A)
      → pending (store m t ys) u ≡ (if t == u then ys else pending m u)
  unfolding pending store
  pending-store [] t u ys = refl
  pending-store ((v, xs) ∷ m) t u ys = ground (arith, pending-store m t u ys)

  pub pending-erase :
      (m : TagMap A) (t u : ℕ) → pending (erase m t) u ≡ (if t == u then [] else pending m u)
  unfolding pending erase
  pending-erase [] t u = ground arith
  pending-erase ((v, xs) ∷ m) t u = ground (arith, pending-erase m t u)

  -- A key stands in the map once.
  abbrev pub Lacks : ℕ → TagMap A → Type 0
  Lacks t [] = Unit {0}
  Lacks t ((u, xs) ∷ m) = (u ≢ t) × Lacks t m

  abbrev pub HasUniqueKeys : TagMap A → Type 0
  HasUniqueKeys [] = Unit {0}
  HasUniqueKeys ((u, xs) ∷ m) = Lacks u m × HasUniqueKeys m

  Lacks-store : (t u : ℕ) (m : TagMap A) (ys : List A) → u ≢ t → Lacks t m → Lacks t (store m u ys)
  unfolding store
  Lacks-store t u [] ys ne h = (ne, tt)
  Lacks-store t u ((v, xs) ∷ m) ys ne h = ground (arith, Lacks-store t u m ys ne h.1)

  pub store-HasUniqueKeys :
      (m : TagMap A) (t : ℕ) (ys : List A) → HasUniqueKeys m → HasUniqueKeys (store m t ys)
  unfolding store
  store-HasUniqueKeys [] t ys h = (tt, tt)
  store-HasUniqueKeys ((v, xs) ∷ m) t ys h =
      ground (arith, store-HasUniqueKeys m t ys h.1, Lacks-store v t m ys)

  Lacks-erase : (t u : ℕ) (m : TagMap A) → Lacks t m → Lacks t (erase m u)
  unfolding erase
  Lacks-erase t u [] h = tt
  Lacks-erase t u ((v, xs) ∷ m) h = ground (arith, Lacks-erase t u m h.1)

  pub erase-HasUniqueKeys : (m : TagMap A) (t : ℕ) → HasUniqueKeys m → HasUniqueKeys (erase m t)
  unfolding erase
  erase-HasUniqueKeys [] t h = tt
  erase-HasUniqueKeys ((v, xs) ∷ m) t h =
      ground (arith, erase-HasUniqueKeys m t h.1, Lacks-erase v t m h.0)

  erase_of_Lacks : (m : TagMap A) (t : ℕ) → Lacks t m → total (erase m t) ≡ total m
  unfolding erase total
  erase_of_Lacks [] t h = refl
  erase_of_Lacks ((v, xs) ∷ m) t h = ground (arith, erase_of_Lacks m t h.1)

  pub total-store :
      (m : TagMap A) (t : ℕ) (ys : List A)
      → total (store m t ys) + length (pending m t) ≡ total m + length ys
  unfolding store total pending
  total-store [] t ys = omega arith
  total-store ((v, xs) ∷ m) t ys = ground (arith, total-store m t ys)

  pub total-erase :
      (m : TagMap A) (t : ℕ) → HasUniqueKeys m → total (erase m t) + length (pending m t) ≡ total m
  unfolding erase total pending
  total-erase [] t h = omega arith
  total-erase ((v, xs) ∷ m) t h = ground (
    arith,
    total-erase m t h.1,
    erase_of_Lacks m t,
    ap (λ (k : ℕ). total (erase m k)) {x = v} {y = t},
  )
