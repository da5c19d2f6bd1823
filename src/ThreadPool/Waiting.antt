-- ===== src/ThreadPool/Waiting.antt =====
-- No serial task is forgotten: while tasks of a tag wait, one of that tag is under way, at whose end
-- the tag is looked at again, or the tag is in `availableSerialTags_`.
use lmcore.Prelude.{
  ℕ, ◌-◌, ◌≡◌, refl, sym, ap, ◌∙◌, arith, Bool, true, false, ◌||◌, if◌then◌else◌, ◌==◌, List, [],
  ◌∷◌, ◌++◌, Option, none, some, get_elem?, Bool-cases, inl, inr, subst, some_injective,
}
use lmcore.ThreadPool.Tags.{TagMap, pending, pending-store, pending-erase}
use lmcore.ThreadPool.{
  Item, ThreadPool, new, is_empty, add_task, store_rest, claim, next_serial_task, fetch, wake,
  finish_item, finish, stop, Event, step, Reach,
}

abbrev pub contains : List ℕ → ℕ → Bool
contains [] t = false
contains (u ∷ us) t = (u == t) || contains us t

contains-snoc : (us : List ℕ) (u t : ℕ) → contains (us ++ (u ∷ [])) t ≡ (contains us t || (u == t))
contains-snoc [] u t = ground arith
contains-snoc (v ∷ vs) u t = ground (arith, contains-snoc vs u t)

is_empty-snoc : (xs : List Item) (x : Item) → is_empty (xs ++ (x ∷ [])) ≡ false
is_empty-snoc [] x = refl
is_empty-snoc (y ∷ ys) x = refl

abbrev pub attended : ThreadPool → ℕ → Bool
attended s t =
    is_empty (pending s.serial_tasks t)
    || (s.running_serial_tags t || contains s.available_serial_tags t)

add_attended :
    (s : ThreadPool) (x : Item) (t : ℕ) → attended s t ≡ true → attended (add_task s x) t ≡ true
unfolding add_task
add_attended s x t h = ground (
  arith,
  pending-store s.serial_tasks x.tag t (pending s.serial_tasks x.tag ++ (x ∷ [])),
  is_empty-snoc (pending s.serial_tasks x.tag) x,
)

pending-store_rest :
    (m : TagMap Item) (t u : ℕ) (ys : List Item)
    → pending (store_rest m t ys) u ≡ (if t == u then ys else pending m u)
pending-store_rest m t u [] = pending-erase m t u
pending-store_rest m t u (y ∷ ys) = pending-store m t u (y ∷ ys)

-- A tag that a worker takes from the front of the available ones.
claim-attended :
    (s : ThreadPool) (t u : ℕ) (ts : List ℕ) (xs : List Item)
    → pending s.serial_tasks t ≡ xs
    → s.available_serial_tags ≡ t ∷ ts
    → attended s u ≡ true
    → attended (claim (record s { available_serial_tags = ts }) t xs) u ≡ true
claim-attended s t u ts [] e a h = elim (Bool-cases (t == u)) [
  | inl same ↦
      let eq : t ≡ u = ground arith in
      let none_left : pending s.serial_tasks u ≡ [] = ap (pending s.serial_tasks) (sym eq) ∙ e in
      rw none_left
  | inr other ↦ ground (arith, ap (λ l. contains l u) a)
]
claim-attended s t u ts (x ∷ xs) e a h =
    ground (arith, ap (λ l. contains l u) a, pending-store_rest s.serial_tasks t u xs)

fetch-attended :
    (s : ThreadPool) (xs : List Item) (u : ℕ) → attended s u ≡ true → attended (fetch s xs) u ≡ true
fetch-attended s [] u h = serial s.available_serial_tags refl
  where
    serial :
        (ts : List ℕ) → s.available_serial_tags ≡ ts → attended (next_serial_task s ts) u ≡ true
    serial [] a = h
    serial (t ∷ ts) a = claim-attended s t u ts (pending s.serial_tasks t) refl a h
fetch-attended s (x ∷ xs) u h = h

wake-attended : (s : ThreadPool) (u : ℕ) → attended s u ≡ true → attended (wake s) u ≡ true
unfolding wake
wake-attended s u h = ground (arith, fetch-attended (record s { idle = s.idle - 1 }) s.tasks u)

finish-attended :
    (s t : ThreadPool) (i u : ℕ) → attended s u ≡ true → finish s i ≡ some t → attended t u ≡ true
unfolding finish
finish-attended s t i u h = go (get_elem? s.executing i)
  where
    go : (o : Option Item) → finish_item s i o ≡ some t → attended t u ≡ true
    go none e = cc
    go (some x) e =
        subst (λ r. attended r u ≡ true) (some_injective e)
          (ground (arith, contains-snoc s.available_serial_tags x.tag u))

step-attended :
    (s t : ThreadPool) (e : Event) (u : ℕ)
    → attended s u ≡ true
    → step s e ≡ some t
    → attended t u ≡ true
unfolding step stop
step-attended s t (Event.add x) u h e =
    subst (λ r. attended r u ≡ true) (some_injective e) (add_attended s x u h)
step-attended s t Event.park u h e = ground arith
step-attended s t Event.wake_up u h e =
    let r : wake s ≡ t = ground arith in subst (λ r. attended r u ≡ true) r (wake-attended s u h)
step-attended s t (Event.end_of i) u h e = finish-attended s t i u h e
step-attended s t Event.shut_down u h e = subst (λ r. attended r u ≡ true) (some_injective e) h

Reach-attended : {s t : ThreadPool} (u : ℕ) → attended s u ≡ true → Reach s t → attended t u ≡ true
Reach-attended u h Reach.here = h
Reach-attended u h (Reach.next e r k) = step-attended _ _ e u (Reach-attended u h r) k

-- In every state that a new pool comes to, each tag has no waiting task, or is marked as running,
-- or is among the available tags.
pub never_forgotten :
    (pre_alloc threads_max : ℕ) {s : ThreadPool} (t : ℕ)
    → Reach (new pre_alloc threads_max) s
    → (is_empty (pending s.serial_tasks t)
        || (s.running_serial_tags t || contains s.available_serial_tags t))
      ≡ true
unfolding new pending
never_forgotten pre_alloc threads_max t r = Reach-attended t refl r
