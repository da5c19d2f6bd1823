-- ===== src/ThreadPool.antt =====
-- src/thread_pool.cpp, include/lmcore/thread_pool.h: `ThreadPool`, workers over one queue, with
-- tasks of equal serial tags one at a time.
-- All state is read and written under `mutex_`, so each of the handler's parts between a lock and
-- its release is one event, and threads interleave as a sequence of events, but for `AddTask`: its
-- two parts, the one of `AcquireTaskItem`, which takes an item out of the free ones or makes one, and
-- the one that queues it, are one event here. The items of the free list have no part in what follows. A
-- wake-up may come at any time at which the wait's predicate holds, whichever notification causes it.
pub mod Tags
pub mod Weights
pub mod Serial
pub mod Waiting
pub mod Order
pub mod Held
mod Tests
use Tags.{TagMap, pending, store, erase, total}
use lmcore.Prelude.{
  ◌≡◌, ℕ, zero, suc, ◌+◌, ◌-◌, Bool, true, false, ◌&&◌, ◌||◌, not, if◌then◌else◌, ltb, ◌==◌, List,
  [], ◌∷◌, ◌++◌, Option, none, some, length, get_elem?,
}

-- `TaskItem`: a task, by a number, and its serial tag. Tags are compared only, and 0 is the empty
-- one.
pub record Item : Type 0 where
  pub task : ℕ
  pub tag : ℕ

pub record ThreadPool : Type 0 where
  pub running : Bool
  pub shutdown : Bool
  pub threads_max : ℕ
  -- Workers inside the wait, as `idle_` counts them.
  pub idle : ℕ
  -- `threads_.size()`, and how many of those workers have returned.
  pub threads : ℕ
  pub exited : ℕ
  pub tasks : List Item
  -- What the busy workers are at.
  pub executing : List Item
  pub serial_tasks : TagMap Item
  pub running_serial_tags : ℕ → Bool
  pub available_serial_tags : List ℕ
  -- `taskItemPool_.size()`; the items in it are cleared.
  pub free_items : ℕ

abbrev pub pool_size_max : ℕ
pool_size_max = 100

-- `ThreadPool(preAlloc, threadsMax)`, for a limit that is not negative.
pub new : ℕ → ℕ → ThreadPool
new pre_alloc threads_max = record {
  running = true;
  shutdown = false;
  threads_max = threads_max;
  idle = 0;
  threads = if ltb threads_max pre_alloc then threads_max else pre_alloc;
  exited = 0;
  tasks = [];
  executing = [];
  serial_tasks = [];
  running_serial_tags = λ _. false;
  available_serial_tags = [];
  free_items = 0;
}

abbrev pub insert : (ℕ → Bool) → ℕ → ℕ → Bool
insert s t u = if t == u then true else s u

abbrev pub remove : (ℕ → Bool) → ℕ → ℕ → Bool
remove s t u = if t == u then false else s u

-- A thread is created where none is idle and there may be more.
abbrev pub create_worker : ThreadPool → ThreadPool
create_worker s =
    if s.idle == 0 && ltb s.threads s.threads_max then record s { threads = s.threads + 1 } else s

abbrev pub enqueue : ThreadPool → Item → ThreadPool
enqueue s x = record s { tasks = s.tasks ++ (x ∷ []) }

-- `AcquireTaskItem`
abbrev pub acquire_item : ThreadPool → ThreadPool
acquire_item s = record s { free_items = s.free_items - 1 }

-- The rest of `AddTask`, from the second lock on.
abbrev pub schedule : ThreadPool → Item → ThreadPool
schedule s x =
    if s.shutdown
    then s
    else if x.tag == 0
    then create_worker (enqueue s x)
    else if s.running_serial_tags x.tag
    then record s {
      serial_tasks = store s.serial_tasks x.tag (pending s.serial_tasks x.tag ++ (x ∷ []));
    }
    else create_worker
        (enqueue (record s { running_serial_tags = insert s.running_serial_tags x.tag }) x)

-- `AddTask`, where the task is not null; a null task changes nothing.
pub add_task : ThreadPool → Item → ThreadPool
add_task s x = schedule (acquire_item s) x

-- `serialTasks_[tag].pop()`, and the key goes when its queue is empty.
abbrev pub store_rest : TagMap Item → ℕ → List Item → TagMap Item
store_rest m t [] = erase m t
store_rest m t (y ∷ ys) = store m t (y ∷ ys)

-- `GetNextSerialTask`, on the queue of the tag that it has popped.
abbrev pub claim : ThreadPool → ℕ → List Item → ThreadPool
claim s t [] = s
claim s t (x ∷ xs) = if s.running_serial_tags t then s else record s {
  executing = x ∷ s.executing;
  serial_tasks = store_rest s.serial_tasks t xs;
  running_serial_tags = insert s.running_serial_tags t;
}

abbrev pub next_serial_task : ThreadPool → List ℕ → ThreadPool
next_serial_task s [] = s
next_serial_task s (t ∷ ts) =
    claim (record s { available_serial_tags = ts }) t (pending s.serial_tasks t)

-- Normal tasks first.
abbrev pub fetch : ThreadPool → List Item → ThreadPool
fetch s [] = next_serial_task s s.available_serial_tags
fetch s (x ∷ xs) = record s { tasks = xs; executing = x ∷ s.executing }

abbrev pub is_empty {ℓ} : {A : Type ℓ} → List A → Bool
is_empty [] = true
is_empty (x ∷ xs) = false

-- The predicate of the wait.
abbrev pub awake : ThreadPool → Bool
awake s = not s.running || (not (is_empty s.tasks) || not (is_empty s.available_serial_tags))

-- From the return of the wait to the release of the lock.
pub wake : ThreadPool → ThreadPool
wake s =
    let s' = record s { idle = s.idle - 1 } in
    if s.running then fetch s' s'.tasks else record s' { exited = s'.exited + 1 }

abbrev pub remove_at {ℓ} : {A : Type ℓ} → List A → ℕ → List A
remove_at [] i = []
remove_at (x ∷ xs) zero = xs
remove_at (x ∷ xs) (suc i) = x ∷ remove_at xs i

-- What a worker does when a serial task has ended.
abbrev pub clean_up : ThreadPool → ℕ → ThreadPool
clean_up s t = if t == 0 then s else record s {
  running_serial_tags = remove s.running_serial_tags t;
  available_serial_tags =
      (if is_empty (pending s.serial_tasks t)
        then s.available_serial_tags
        else s.available_serial_tags ++ (t ∷ []));
}

-- `ReleaseTaskItem`
abbrev pub release_item : ThreadPool → ThreadPool
release_item s = record s {
  free_items = (if ltb s.free_items pool_size_max then s.free_items + 1 else s.free_items);
}

abbrev pub finish_item : ThreadPool → ℕ → Option Item → Option ThreadPool
finish_item s i none = none
finish_item s i (some x) =
    some (release_item (clean_up (record s { executing = remove_at s.executing i }) x.tag))

-- The worker that executes the `i`-th item has run it, whether it returned or threw.
pub finish : ThreadPool → ℕ → Option ThreadPool
finish s i = finish_item s i (get_elem? s.executing i)

pub stop : ThreadPool → ThreadPool
stop s = record s { running = false; shutdown = true }

pub queue_size : ThreadPool → ℕ
queue_size s = length s.tasks + total s.serial_tasks

pub data Event : Type 0 where
  add : Item → Event
  park wake_up : Event
  end_of : ℕ → Event
  shut_down : Event

-- `none`: the event cannot happen now. A worker parks when it is at no task and not in the wait.
pub step : ThreadPool → Event → Option ThreadPool
step s (add x) = some (add_task s x)
step s park =
    if s.running && ltb (s.idle + length s.executing + s.exited) s.threads
    then some (record s { idle = s.idle + 1 })
    else none
step s wake_up = if ltb 0 s.idle && awake s then some (wake s) else none
step s (end_of i) = finish s i
step s shut_down = some (stop s)

-- The states that a pool can come to.
pub data Reach (s : ThreadPool) : ThreadPool → Type 0 where
  here : Reach s s
  next : {t u : ThreadPool} (e : Event) → Reach s t → step t e ≡ some u → Reach s u
