-- ===== src/ThreadPool/Held.antt =====
-- The tasks that a pool holds, waiting or with a worker, over a whole run.
use lmcore.Prelude.{
  Bool-cases, inl, inr, ap, ℕ, zero, suc, ◌+◌, ◌-◌, ◌≡◌, refl, arith, if◌then◌else◌, List, [], ◌∷◌,
  ◌++◌, Option, none, some, get_elem?, subst, some_injective,
}
use lmcore.ThreadPool.Tags.{pending, HasUniqueKeys, store-HasUniqueKeys, erase-HasUniqueKeys}
use lmcore.ThreadPool.{
  Item, ThreadPool, new, add_task, claim, next_serial_task, fetch, wake, remove_at, finish_item,
  finish, stop, Event, step, Reach,
}
use lmcore.ThreadPool.Weights.{weigh, weigh-append, weigh_all, weigh_all-store, weigh_all-erase}

abbrev HasKeys : ThreadPool → Type 0
HasKeys s = HasUniqueKeys s.serial_tasks

add-HasKeys : (s : ThreadPool) (x : Item) → HasKeys s → HasKeys (add_task s x)
unfolding add_task
add-HasKeys s x h =
    ground
      (arith, store-HasUniqueKeys s.serial_tasks x.tag (pending s.serial_tasks x.tag ++ (x ∷ [])) h)

claim-HasKeys : (s : ThreadPool) (t : ℕ) (xs : List Item) → HasKeys s → HasKeys (claim s t xs)
claim-HasKeys s t [] h = h
claim-HasKeys s t (x ∷ []) h = ground (arith, erase-HasUniqueKeys s.serial_tasks t h)
claim-HasKeys s t (x ∷ y ∷ ys) h = ground (arith, store-HasUniqueKeys s.serial_tasks t (y ∷ ys) h)

fetch-HasKeys : (s : ThreadPool) (xs : List Item) → HasKeys s → HasKeys (fetch s xs)
fetch-HasKeys s [] h = serial s.available_serial_tags
  where
    serial : (ts : List ℕ) → HasKeys (next_serial_task s ts)
    serial [] = h
    serial (t ∷ ts) =
        claim-HasKeys (record s { available_serial_tags = ts }) t (pending s.serial_tasks t) h
fetch-HasKeys s (x ∷ xs) h = h

wake-HasKeys : (s : ThreadPool) → HasKeys s → HasKeys (wake s)
unfolding wake
wake-HasKeys s h = ground (arith, fetch-HasKeys (record s { idle = s.idle - 1 }) s.tasks h)

finish-HasKeys : (s t : ThreadPool) (i : ℕ) → HasKeys s → finish s i ≡ some t → HasKeys t
unfolding finish
finish-HasKeys s t i h e = go (get_elem? s.executing i) e
  where
    go : (o : Option Item) → finish_item s i o ≡ some t → HasKeys t
    go none e = cc
    go (some x) e = subst HasKeys (some_injective e) (ground arith)

step-HasKeys : (s t : ThreadPool) (e : Event) → HasKeys s → step s e ≡ some t → HasKeys t
unfolding step stop
step-HasKeys s t (Event.add x) h e = subst HasKeys (some_injective e) (add-HasKeys s x h)
step-HasKeys s t Event.park h e = ground arith
step-HasKeys s t Event.wake_up h e =
    let r : wake s ≡ t = ground arith in subst HasKeys r (wake-HasKeys s h)
step-HasKeys s t (Event.end_of i) h e = finish-HasKeys s t i h e
step-HasKeys s t Event.shut_down h e = subst HasKeys (some_injective e) h

Reach-HasKeys : {s t : ThreadPool} → HasKeys s → Reach s t → HasKeys t
Reach-HasKeys h Reach.here = h
Reach-HasKeys h (Reach.next e r k) = step-HasKeys _ _ e (Reach-HasKeys h r) k

module _ (f : Item → ℕ) where
  -- The weight of the tasks that the pool holds, and of those that an event takes in or ends.
  abbrev pub held : ThreadPool → ℕ
  held s = weigh f s.tasks + weigh_all f s.serial_tasks + weigh f s.executing

  abbrev pub accepted : ThreadPool → Event → ℕ
  accepted s (Event.add x) = if s.shutdown then 0 else f x
  accepted s _ = 0

  abbrev weigh_option : Option Item → ℕ
  weigh_option none = 0
  weigh_option (some x) = f x

  abbrev pub ended : ThreadPool → Event → ℕ
  ended s (Event.end_of i) = weigh_option (get_elem? s.executing i)
  ended s _ = 0

  held-add : (s : ThreadPool) (x : Item) → held (add_task s x) ≡ held s + accepted s (Event.add x)
  unfolding add_task
  held-add s x = ground (
    arith,
    weigh_all-store f s.serial_tasks x.tag (pending s.serial_tasks x.tag ++ (x ∷ [])),
    weigh-append f (pending s.serial_tasks x.tag) (x ∷ []),
    weigh-append f s.tasks (x ∷ []),
  )

  held-claim :
      (s : ThreadPool) (t : ℕ) (xs : List Item)
      → HasUniqueKeys s.serial_tasks
      → pending s.serial_tasks t ≡ xs
      → held (claim s t xs) ≡ held s
  held-claim s t [] u e = refl
  held-claim s t (x ∷ []) u e = ground (arith, weigh_all-erase f s.serial_tasks t u, ap (weigh f) e)
  held-claim s t (x ∷ y ∷ ys) u e =
      ground (arith, weigh_all-store f s.serial_tasks t (y ∷ ys), ap (weigh f) e)

  -- A worker that wakes up takes a task over, or none.
  held-wake : (s : ThreadPool) → HasUniqueKeys s.serial_tasks → held (wake s) ≡ held s
  unfolding wake
  held-wake s u = elim (Bool-cases s.running) [
    | inl on ↦ ground (arith, fetched s.tasks refl)
    | inr off ↦ ground arith
  ]
    where
      serial : (ts : List ℕ) → held (next_serial_task (record s { idle = s.idle - 1 }) ts) ≡ held s
      serial [] = refl
      serial (t ∷ ts) =
          held-claim (record s { idle = s.idle - 1; available_serial_tags = ts }) t
            (pending s.serial_tasks t) u refl

      fetched :
          (xs : List Item)
          → s.tasks ≡ xs
          → held (fetch (record s { idle = s.idle - 1 }) xs) ≡ held s
      fetched [] e = serial s.available_serial_tags
      fetched (x ∷ xs) e = ground (arith, ap (weigh f) e)

  weigh-remove_at :
      (xs : List Item) (i : ℕ) {x : Item}
      → get_elem? xs i ≡ some x
      → weigh f (remove_at xs i) + f x ≡ weigh f xs
  weigh-remove_at [] i e = cc
  weigh-remove_at (y ∷ ys) zero e = let same = ap f (some_injective e) in omega arith
  weigh-remove_at (y ∷ ys) (suc i) e = omega (arith, weigh-remove_at ys i e)

  held-finish :
      (s t : ThreadPool) (i : ℕ) → finish s i ≡ some t → held t + ended s (Event.end_of i) ≡ held s
  unfolding finish
  held-finish s t i e = go (get_elem? s.executing i) refl e
    where
      go :
          (o : Option Item)
          → get_elem? s.executing i ≡ o
          → finish_item s i o ≡ some t
          → held t + weigh_option (get_elem? s.executing i) ≡ held s
      go none q e = cc
      go (some x) q e =
          subst (λ r. held r + weigh_option (get_elem? s.executing i) ≡ held s) (some_injective e)
            (ground (arith, weigh-remove_at s.executing i q, ap weigh_option q))

  held-step :
      (s t : ThreadPool) (e : Event)
      → HasKeys s
      → step s e ≡ some t
      → held t + ended s e ≡ held s + accepted s e
  unfolding step stop
  held-step s t (Event.add x) h e =
      subst (λ r. held r + 0 ≡ held s + accepted s (Event.add x)) (some_injective e)
        (omega (arith, held-add s x))
  held-step s t Event.park h e = ground arith
  held-step s t Event.wake_up h e =
      let r : wake s ≡ t = ground arith in
      subst (λ r. held r + 0 ≡ held s + 0) r (omega (arith, held-wake s h))
  held-step s t (Event.end_of i) h e = omega (arith, held-finish s t i e)
  held-step s t Event.shut_down h e = ground arith

-- In any run of a new pool each event keeps the weight of the tasks that the pool holds, waiting or
-- with a worker, but for that of the task which `AddTask` accepts and of the one whose run ends. The
-- weight of each task is any number, so with a weight of one for a task and none for the others the
-- pool holds that task as often as before.
pub held-run :
    (f : Item → ℕ) (pre_alloc threads_max : ℕ) {s t : ThreadPool} (e : Event)
    → Reach (new pre_alloc threads_max) s
    → step s e ≡ some t
    → held f t + ended f s e ≡ held f s + accepted f s e
unfolding new
held-run f pre_alloc threads_max {s} {t} e r h = held-step f s t e (Reach-HasKeys tt r) h
