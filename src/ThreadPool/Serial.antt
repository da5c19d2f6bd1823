-- ===== src/ThreadPool/Serial.antt =====
-- Tasks of one serial tag run one at a time: of each tag at most one item is in the normal queue or
-- with a worker, and exactly then its tag is in `runningSerialTags_`.
use lmcore.Prelude.{
  ℕ, zero, suc, ◌+◌, ◌-◌, ◌≤◌, ◌<◌, ◌≡◌, refl, ap, arith, Bool, true, false, if◌then◌else◌, ◌==◌,
  List, [], ◌∷◌, ◌++◌, Option, none, some, get_elem?, All, All-append, Bool-cases, inl, inr, subst,
  some_injective,
}
use lmcore.ThreadPool.Tags.{TagMap, pending, store, erase, pending-store, pending-erase}
use lmcore.ThreadPool.{
  Item, ThreadPool, new, add_task, store_rest, claim, next_serial_task, fetch, wake, remove_at,
  clean_up, release_item, finish_item, finish, stop, Event, step, Reach,
}

abbrev pub count_tag : ℕ → List Item → ℕ
count_tag t [] = 0
count_tag t (x ∷ xs) = (if x.tag == t then 1 else 0) + count_tag t xs

pub count_tag-snoc :
    (t : ℕ) (xs : List Item) (x : Item)
    → count_tag t (xs ++ (x ∷ [])) ≡ count_tag t xs + (if x.tag == t then 1 else 0)
count_tag-snoc t [] x = omega arith
count_tag-snoc t (y ∷ ys) x = omega (arith, count_tag-snoc t ys x)

pub count_tag-remove_at :
    (t : ℕ) (xs : List Item) (i : ℕ) {x : Item}
    → get_elem? xs i ≡ some x
    → count_tag t (remove_at xs i) + (if x.tag == t then 1 else 0) ≡ count_tag t xs
count_tag-remove_at t [] i h = cc
count_tag-remove_at t (y ∷ ys) zero h = ground arith
count_tag-remove_at t (y ∷ ys) (suc i) h = omega (arith, count_tag-remove_at t ys i h)

abbrev pub HaveTag : ℕ → List Item → Type 0
HaveTag t = All (λ (x : Item). x.tag ≡ t)

pub record IsSerial (s : ThreadPool) : Type 0 where
  pub one :
      (t : ℕ)
      → 0 < t
      → count_tag t s.tasks + count_tag t s.executing ≡ (if s.running_serial_tags t then 1 else 0)
  pub queued : (t : ℕ) → HaveTag t (pending s.serial_tasks t)

pub new-IsSerial : (pre_alloc threads_max : ℕ) → IsSerial (new pre_alloc threads_max)
unfolding new pending
new-IsSerial pre_alloc threads_max = record { one = λ t h. refl; queued = λ t. tt }

store-HaveTag :
    (m : TagMap Item) (t u : ℕ) (ys : List Item)
    → HaveTag u (pending m u)
    → HaveTag t ys
    → HaveTag u (pending (store m t ys) u)
store-HaveTag m t u ys hm hy = elim (Bool-cases (t == u)) [
  | inl e ↦
      rw (pending-store m t u ys, e)
        (let e' : t ≡ u = ground arith in subst (λ k. HaveTag k ys) e' hy)
  | inr e ↦ rw (pending-store m t u ys, e) hm
]

erase-HaveTag :
    (m : TagMap Item) (t u : ℕ) → HaveTag u (pending m u) → HaveTag u (pending (erase m t) u)
erase-HaveTag m t u hm = elim (Bool-cases (t == u)) [
  | inl e ↦ rw (pending-erase m t u, e) tt
  | inr e ↦ rw (pending-erase m t u, e) hm
]

store_rest-HaveTag :
    (m : TagMap Item) (t u : ℕ) (ys : List Item)
    → HaveTag u (pending m u)
    → HaveTag t ys
    → HaveTag u (pending (store_rest m t ys) u)
store_rest-HaveTag m t u [] hm hy = erase-HaveTag m t u hm
store_rest-HaveTag m t u (y ∷ ys) hm hy = store-HaveTag m t u (y ∷ ys) hm hy

if_elim {ℓ κ} :
    {A : Type ℓ} (P : A → Type κ) (b : Bool) {x y : A} → P x → P y → P (if b then x else y)
if_elim P true px py = px
if_elim P false px py = py

-- `AddTask`
add_one :
    (s : ThreadPool) (x : Item) (t : ℕ)
    → IsSerial s
    → 0 < t
    → let s' = add_task s x in
      count_tag t s'.tasks + count_tag t s'.executing ≡ (if s'.running_serial_tags t then 1 else 0)
unfolding add_task
add_one s x t v h = ground (arith, v.one t h, count_tag-snoc t s.tasks x)

add_queued :
    (s : ThreadPool) (x : Item) (t : ℕ)
    → IsSerial s
    → HaveTag t (pending (add_task s x).serial_tasks t)
unfolding add_task
add_queued s x t v = ground (
  arith,
  v.queued t,
  store-HaveTag s.serial_tasks x.tag t (pending s.serial_tasks x.tag ++ (x ∷ [])) (v.queued t)
      (All-append _ (pending s.serial_tasks x.tag) (x ∷ []) (v.queued x.tag) (refl, tt)),
)

pub add_task-IsSerial : (s : ThreadPool) (x : Item) → IsSerial s → IsSerial (add_task s x)
add_task-IsSerial s x v = record {
  one = λ t h. add_one s x t v h;
  queued = λ t. add_queued s x t v;
}

-- A worker that takes a pending item of a tag: no other item of the tag is under way.
claim-IsSerial :
    (s : ThreadPool) (t : ℕ) (xs : List Item)
    → IsSerial s
    → pending s.serial_tasks t ≡ xs
    → IsSerial (claim s t xs)
claim-IsSerial s t [] v e = v
claim-IsSerial s t (x ∷ xs) v e = elim (Bool-cases (s.running_serial_tags t)) [
  | inl busy ↦ rw busy v
  | inr free ↦
      let here : HaveTag t (x ∷ xs) = subst (HaveTag t) e (v.queued t) in
      rw free (record {
        one = λ u h. ground (arith, v.one u h, here.0);
        queued = λ u. store_rest-HaveTag s.serial_tasks t u xs (v.queued u) here.1;
      })
]

fetch-IsSerial :
    (s : ThreadPool) (xs : List Item) → IsSerial s → s.tasks ≡ xs → IsSerial (fetch s xs)
fetch-IsSerial s [] v e = serial s.available_serial_tags
  where
    serial : (ts : List ℕ) → IsSerial (next_serial_task s ts)
    serial [] = v
    serial (t ∷ ts) =
        claim-IsSerial (record s { available_serial_tags = ts }) t (pending s.serial_tasks t)
          (record { one = v.one; queued = v.queued }) refl
fetch-IsSerial s (x ∷ xs) v e = record {
  one = λ t h. ground (arith, v.one t h, ap (count_tag t) e);
  queued = v.queued;
}

wake-IsSerial : (s : ThreadPool) → IsSerial s → IsSerial (wake s)
unfolding wake
wake-IsSerial s v =
    if_elim IsSerial s.running
      (fetch-IsSerial (record s { idle = s.idle - 1 }) s.tasks
        (record { one = v.one; queued = v.queued }) refl)
      (record { one = v.one; queued = v.queued })

finished-IsSerial :
    (s : ThreadPool) (i : ℕ) (x : Item)
    → IsSerial s
    → get_elem? s.executing i ≡ some x
    → IsSerial (release_item (clean_up (record s { executing = remove_at s.executing i }) x.tag))
finished-IsSerial s i x v e = record {
  one = λ u h. ground (arith, v.one u h, count_tag-remove_at u s.executing i e);
  queued = λ u. ground (arith, v.queued u);
}

finish-IsSerial : (s t : ThreadPool) (i : ℕ) → IsSerial s → finish s i ≡ some t → IsSerial t
unfolding finish
finish-IsSerial s t i v = go (get_elem? s.executing i) refl
  where
    go : (o : Option Item) → get_elem? s.executing i ≡ o → finish_item s i o ≡ some t → IsSerial t
    go none e h = cc
    go (some x) e h = subst IsSerial (some_injective h) (finished-IsSerial s i x v e)

-- Every event keeps the invariant.
step-IsSerial : (s t : ThreadPool) (e : Event) → IsSerial s → step s e ≡ some t → IsSerial t
unfolding step stop
step-IsSerial s t (Event.add x) v h = subst IsSerial (some_injective h) (add_task-IsSerial s x v)
step-IsSerial s t Event.park v h =
    let r : (record s { idle = s.idle + 1 }) ≡ t = ground arith in
    subst IsSerial r (record { one = v.one; queued = v.queued })
step-IsSerial s t Event.wake_up v h =
    let r : wake s ≡ t = ground arith in subst IsSerial r (wake-IsSerial s v)
step-IsSerial s t (Event.end_of i) v h = finish-IsSerial s t i v h
step-IsSerial s t Event.shut_down v h =
    subst IsSerial (some_injective h) (record { one = v.one; queued = v.queued })

pub Reach-IsSerial : {s t : ThreadPool} → IsSerial s → Reach s t → IsSerial t
Reach-IsSerial v Reach.here = v
Reach-IsSerial v (Reach.next e r h) = step-IsSerial _ _ e (Reach-IsSerial v r) h

-- In every state that a new pool comes to, whatever tasks are added and however the workers'
-- steps interleave, at most one task of each serial tag is with a worker or in the normal queue,
-- and its tag is marked as running exactly then.
pub at_most_one :
    (pre_alloc threads_max : ℕ) {s : ThreadPool} (t : ℕ)
    → Reach (new pre_alloc threads_max) s
    → 0 < t
    → (count_tag t s.executing ≤ 1)
      × (count_tag t s.tasks + count_tag t s.executing ≡ (if s.running_serial_tags t then 1 else 0))
at_most_one pre_alloc threads_max {s} t r h =
    let v = Reach-IsSerial (new-IsSerial pre_alloc threads_max) r in
    (ground (arith, v.one t h), v.one t h)
