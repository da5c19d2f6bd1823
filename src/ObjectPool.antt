-- ===== src/ObjectPool.antt =====
-- include/lmcore/object_pool.h: `ObjectPool`, objects kept for reuse.
-- An object is its address. The factory is the default one, `new T()`, which gives a new address
-- each time. `leased` are the objects that shared pointers own, whose deleter is `Release`; `reset`
-- and `deleted` list the calls of the resetter and of the deleter, the latest first. Each call of
-- the pool holds the mutex while it touches `pool`, so threads interleave as a sequence of calls.
pub mod Ownership
mod Tests
use lmcore.Prelude.{
  ℕ, zero, suc, ◌+◌, ◌-◌, ◌≡◌, Bool, true, false, if◌then◌else◌, ltb, ◌==◌, List, [], ◌∷◌, ◌++◌,
  Option, none, some, length, split_last,
}

pub record ObjectPool : Type 0 where
  pub pool : List ℕ
  pub pool_size_max : ℕ
  pub has_resetter : Bool
  pub leased : List ℕ
  pub reset : List ℕ
  pub deleted : List ℕ
  -- The address that the factory gives next.
  pub fresh : ℕ

pub new : Bool → ℕ → ObjectPool
new has_resetter pool_size_max = record {
  pool = [];
  pool_size_max = pool_size_max;
  has_resetter = has_resetter;
  leased = [];
  reset = [];
  deleted = [];
  fresh = 0;
}

abbrev pub lease_new : ObjectPool → ObjectPool
lease_new s = record s { leased = s.fresh ∷ s.leased; fresh = s.fresh + 1 }

abbrev pub lease_pooled : ObjectPool → List ℕ × ℕ → ObjectPool
lease_pooled s (rest, obj) = record s {
  pool = rest;
  leased = obj ∷ s.leased;
  reset = (if s.has_resetter then obj ∷ s.reset else s.reset);
}

abbrev pub acquire_from : ObjectPool → List ℕ → ObjectPool
acquire_from s [] = lease_new s
acquire_from s (x ∷ xs) = lease_pooled s (split_last x xs)

-- `Acquire`; the object is at the head of `leased`.
pub acquire : ObjectPool → ObjectPool
acquire s = acquire_from s s.pool

-- `Release`
pub release : ObjectPool → ℕ → ObjectPool
release s obj =
    if ltb (length s.pool) s.pool_size_max
    then record s { pool = s.pool ++ (obj ∷ []) }
    else record s { deleted = obj ∷ s.deleted }

abbrev pub remove : List ℕ → ℕ → Option (List ℕ)
remove [] obj = none
remove (x ∷ xs) obj =
    let rest = remove xs obj in
    if x == obj then some xs else elim rest [ none ↦ none | some ys ↦ some (x ∷ ys) ]

abbrev pub release_of : ObjectPool → ℕ → Option (List ℕ) → Option ObjectPool
release_of s obj none = none
release_of s obj (some rest) = some (release (record s { leased = rest }) obj)

-- The last shared pointer to an object goes; `none` where there is none.
pub drop_lease : ObjectPool → ℕ → Option ObjectPool
drop_lease s obj = release_of s obj (remove s.leased obj)

abbrev pub delete_back : ObjectPool → List ℕ × ℕ → ObjectPool
delete_back s (rest, obj) = record s { pool = rest; deleted = obj ∷ s.deleted }

abbrev pub delete_last : ObjectPool → List ℕ → ObjectPool
delete_last s [] = s
delete_last s (x ∷ xs) = delete_back s (split_last x xs)

-- The loop of `SetMaxPoolSize`, on fuel.
pub shrink : ℕ → ObjectPool → ObjectPool
shrink zero s = s
shrink (suc fuel) s =
    let rest = shrink fuel (delete_last s s.pool) in
    if ltb s.pool_size_max (length s.pool) then rest else s

pub set_max_pool_size : ObjectPool → ℕ → ObjectPool
set_max_pool_size s n = shrink (length s.pool) (record s { pool_size_max = n })

abbrev pub push_all : List ℕ → List ℕ → List ℕ
push_all [] ys = ys
push_all (x ∷ xs) ys = push_all xs (x ∷ ys)

-- `Clear`
pub clear : ObjectPool → ObjectPool
clear s = record s { pool = []; deleted = push_all s.pool s.deleted }

pub data Call : Type 0 where
  acquire_call clear_call : Call
  drop_call set_max_call : ℕ → Call

-- `none`: the program cannot make the call now.
pub step : ObjectPool → Call → Option ObjectPool
step s Call.acquire_call = some (acquire s)
step s Call.clear_call = some (clear s)
step s (Call.drop_call obj) = drop_lease s obj
step s (Call.set_max_call n) = some (set_max_pool_size s n)

pub data Reach (s : ObjectPool) : ObjectPool → Type 0 where
  here : Reach s s
  next : {t u : ObjectPool} (e : Call) → Reach s t → step t e ≡ some u → Reach s u
