-- ===== src/ObjectPool/Ownership.antt =====
-- Where the objects of a pool are.
use lmcore.Prelude.{
  ℕ, zero, suc, ◌+◌, ◌-◌, ◌≤◌, ◌<◌, ◌≡◌, refl, sym, ap, subst, ◌∙◌, arith, Bool, true,
  if◌then◌else◌, ltb, ◌==◌, List, [], ◌∷◌, ◌++◌, some, length, length-append, split_last,
  Option-cases, Bool-cases, count, count-append, inl, inr, some_injective,
}
use lmcore.ObjectPool.{
  ObjectPool, new, acquire_from, acquire, release, remove, release_of, drop_lease, delete_last,
  shrink, set_max_pool_size, push_all, clear, Call, step, Reach,
}

-- How often the object occurs in the pool, with its users, and among the deleted ones.
abbrev pub places : ObjectPool → ℕ → ℕ
places s i = count i s.pool + count i s.leased + count i s.deleted

-- Each object that was made is in one place, others in none, and the pool is within its limit.
pub record IsOwned (s : ObjectPool) : Type 0 where
  pub once : (i : ℕ) → places s i ≡ (if ltb i s.fresh then 1 else 0)
  pub bounded : length s.pool ≤ s.pool_size_max

count-push_all : (i : ℕ) (xs ys : List ℕ) → count i (push_all xs ys) ≡ count i xs + count i ys
count-push_all i [] ys = omega arith
count-push_all i (x ∷ xs) ys = omega (arith, count-push_all i xs (x ∷ ys))

split_last_lem :
    (i x : ℕ) (xs : List ℕ)
    → (count i (x ∷ xs) ≡ count i (split_last x xs).0 + (if (split_last x xs).1 == i then 1 else 0))
      × (length (split_last x xs).0 ≡ length xs)
split_last_lem i x [] = (omega arith, refl)
split_last_lem i x (y ∷ ys) = let (a, b) = split_last_lem i y ys in (omega arith, omega arith)

remove_lem :
    (i obj : ℕ) (xs ys : List ℕ)
    → remove xs obj ≡ some ys
    → count i xs ≡ count i ys + (if obj == i then 1 else 0)
remove_lem i obj [] ys h = ground arith
remove_lem i obj (x ∷ xs) ys h = elim (Bool-cases (x == obj)) [
  | inl e ↦ ground arith
  | inr e ↦ elim (Option-cases (remove xs obj)) [
    | inl n ↦ ground arith
    | inr (zs, n) ↦ ground (arith, remove_lem i obj xs zs n)
  ]
]

acquire-IsOwned : (s : ObjectPool) → IsOwned s → IsOwned (acquire s)
unfolding acquire
acquire-IsOwned s v = from s.pool refl
  where
    from : (xs : List ℕ) → s.pool ≡ xs → IsOwned (acquire_from s xs)
    from [] e = record { once = λ i. ground (arith, v.once i, v.once s.fresh); bounded = v.bounded }
    from (x ∷ xs) e = record {
      once = λ i. ground (arith, v.once i, split_last_lem i x xs, ap (count i) e);
      bounded = ground (arith, v.bounded, split_last_lem 0 x xs, ap length e);
    }

release-IsOwned :
    (s : ObjectPool) (obj : ℕ) (rest : List ℕ)
    → remove s.leased obj ≡ some rest
    → IsOwned s
    → IsOwned (release (record s { leased = rest }) obj)
unfolding release
release-IsOwned s obj rest e v = elim (Bool-cases (ltb (length s.pool) s.pool_size_max)) [
  | inl b ↦ rw b (record {
    once = λ i.
        ground
          (arith, v.once i, remove_lem i obj s.leased rest e, count-append i s.pool (obj ∷ []));
    bounded = ground (arith, length-append s.pool (obj ∷ []));
  })
  | inr b ↦ rw b (record {
    once = λ i. ground (arith, v.once i, remove_lem i obj s.leased rest e);
    bounded = v.bounded;
  })
]

drop_lease-IsOwned :
    (s t : ObjectPool) (obj : ℕ) → IsOwned s → drop_lease s obj ≡ some t → IsOwned t
unfolding drop_lease
drop_lease-IsOwned s t obj v h = elim (Option-cases (remove s.leased obj)) [
  | inl e ↦ absurd (ground arith)
  | inr (rest, e) ↦
      subst IsOwned (some_injective (sym (ap (release_of s obj) e) ∙ h))
        (release-IsOwned s obj rest e v)
]

-- The objects stay in their places but for the one at the back.
delete_last_lem :
    (s : ObjectPool) (i : ℕ) (xs : List ℕ)
    → s.pool ≡ xs
    → (places (delete_last s xs) i ≡ places s i)
      × (length (delete_last s xs).pool ≡ length s.pool - 1)
      × ((delete_last s xs).fresh ≡ s.fresh)
delete_last_lem s i [] e = (refl, ground (arith, ap length e), refl)
delete_last_lem s i (x ∷ xs) e = (
  ground (arith, split_last_lem i x xs, ap (count i) e),
  ground (arith, split_last_lem i x xs, ap length e),
  refl,
)

-- As many rounds as there are objects are enough.
shrink_lem :
    (fuel : ℕ) (s : ObjectPool) (i : ℕ)
    → length s.pool ≤ fuel
    → (places (shrink fuel s) i ≡ places s i)
      × (length (shrink fuel s).pool ≤ (shrink fuel s).pool_size_max)
      × ((shrink fuel s).fresh ≡ s.fresh)
unfolding shrink
shrink_lem zero s i h = (refl, omega arith, refl)
shrink_lem (suc fuel) s i h =
    let (a, l, f) = delete_last_lem s i s.pool refl in
    let (p, b, g) = shrink_lem fuel (delete_last s s.pool) i (omega arith) in
    elim (Bool-cases (ltb s.pool_size_max (length s.pool))) [
      | inl e ↦ rw e (p ∙ a, b, g ∙ f)
      | inr e ↦ rw e (refl, ground arith, refl)
    ]

step-IsOwned : (s t : ObjectPool) (e : Call) → IsOwned s → step s e ≡ some t → IsOwned t
unfolding step
step-IsOwned s t Call.acquire_call v h = subst IsOwned (some_injective h) (acquire-IsOwned s v)
step-IsOwned s t Call.clear_call v h = subst IsOwned (some_injective h) cleared
  where
    cleared : IsOwned (clear s)
    cleared =
        unfold clear in
        record {
          once = λ i. omega (arith, v.once i, count-push_all i s.pool s.deleted);
          bounded = omega arith;
        }
step-IsOwned s t (Call.drop_call obj) v h = drop_lease-IsOwned s t obj v h
step-IsOwned s t (Call.set_max_call n) v h = subst IsOwned (some_injective h) shrunk
  where
    from :
        (u : ObjectPool)
        → places u ≡ places s
        → u.fresh ≡ s.fresh
        → IsOwned (shrink (length u.pool) u)
    from u p f = record {
      once = λ i.
          let (a, b, g) = shrink_lem (length u.pool) u i (omega arith) in
          a ∙ ap (λ k. k i) p ∙ v.once i ∙ ap (λ k. if ltb i k then 1 else 0) (sym (g ∙ f));
      bounded = let (a, b, g) = shrink_lem (length u.pool) u 0 (omega arith) in b;
    }

    shrunk : IsOwned (set_max_pool_size s n)
    shrunk = unfold set_max_pool_size in from (record s { pool_size_max = n }) refl refl

Reach-IsOwned : {s t : ObjectPool} → IsOwned s → Reach s t → IsOwned t
Reach-IsOwned v Reach.here = v
Reach-IsOwned v (Reach.next {t} {u} e r h) = step-IsOwned t u e (Reach-IsOwned v r) h

-- Whatever calls are made of a new pool, in any order, each object that the factory has made is
-- either in the pool, or with a user, or deleted, and that once; no other object is in any of these
-- places; and the pool keeps to its limit.
pub owned_once :
    (has_resetter : Bool) (n : ℕ) {s : ObjectPool}
    → Reach (new has_resetter n) s
    → ((i : ℕ)
        → count i s.pool + count i s.leased + count i s.deleted ≡ (if ltb i s.fresh then 1 else 0))
      × (length s.pool ≤ s.pool_size_max)
unfolding new
owned_once has_resetter n r =
    let v = Reach-IsOwned (record { once = λ i. ground arith; bounded = omega arith }) r in
    (v.once, v.bounded)

-- `Acquire` of a pooled object lends the one that was released last, and calls the resetter on it
-- where there is one.
pub acquire-release :
    (s : ObjectPool) (obj : ℕ)
    → length s.pool < s.pool_size_max
    → ((acquire (release s obj)).pool ≡ s.pool)
      × ((acquire (release s obj)).leased ≡ obj ∷ s.leased)
      × ((acquire (release s obj)).reset ≡ (if s.has_resetter then obj ∷ s.reset else s.reset))
unfolding acquire release
acquire-release s obj h =
    let e : ltb (length s.pool) s.pool_size_max ≡ true = ground arith in
    rw e (from (record s { pool = s.pool ++ (obj ∷ []) }) s.pool)
  where
    back : (x : ℕ) (xs : List ℕ) → split_last x (xs ++ (obj ∷ [])) ≡ (x ∷ xs, obj)
    back x [] = refl
    back x (y ∷ ys) = ap (λ r. (x ∷ r.0, r.1)) (back y ys)

    from :
        (u : ObjectPool) (xs : List ℕ)
        → ((acquire_from u (xs ++ (obj ∷ []))).pool ≡ xs)
          × ((acquire_from u (xs ++ (obj ∷ []))).leased ≡ obj ∷ u.leased)
          × ((acquire_from u (xs ++ (obj ∷ []))).reset
              ≡ (if u.has_resetter then obj ∷ u.reset else u.reset))
    from u [] = (refl, refl, refl)
    from u (x ∷ xs) = rw (back x xs) (refl, refl, refl)
