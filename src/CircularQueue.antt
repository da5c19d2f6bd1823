-- ===== src/CircularQueue.antt =====
-- include/lmcore/circular_queue.h: `CircularQueue<T>`, a ring of fixed capacity under one mutex.
-- Every method holds `mutex_` from its first read to its last write, so a call is one step and an
-- interleaving of threads is a sequence of calls. The `const T &` and `T &&` overloads differ in
-- how `value` is copied only, and are one function here.
pub mod Spec
pub mod Inv
pub mod Refine
mod Tests
use lmcore.Prelude.{
  ℕ, ◌+◌, ◌-◌, ◌%◌, ◌^◌, Bool, true, false, if◌then◌else◌, ltb, leb, ◌==◌, List, [], ◌∷◌, u64,
  sub64, get_or, set, replicate,
}
use Spec.{Op, Reply}

-- The fields of the class. `T` is `A`.
pub record CircularQueue {ℓ} (A : Type ℓ) : Type ℓ where
  pub capacity : ℕ
  pub buffer : List A
  pub head : ℕ
  pub tail : ℕ
  pub size : ℕ

-- What a call does to the two condition variables.
pub data Notify : Type 0 where
  nobody not_empty_one not_full_one not_full_all : Notify

-- `(i + 1) % capacity_` on `size_t`.
abbrev pub advance : ℕ → ℕ → ℕ
advance cap i = u64 (i + 1) % cap

-- `d` is a value-initialised `T`, and `moved` what a move leaves behind in its source.
module _ {ℓ} {A : Type ℓ} (d : A) (moved : A → A) where
  pub new : ℕ → CircularQueue A
  new n =
      let cap = if n == 0 then 1 else n in
      record { capacity = cap; buffer = replicate cap d; head = 0; tail = 0; size = 0 }

  -- `buffer_[tail_] = value; tail_ = (tail_ + 1) % capacity_`
  abbrev pub write_tail : CircularQueue A → A → CircularQueue A
  write_tail q v = record q { buffer = set q.buffer q.tail v; tail = advance q.capacity q.tail }

  -- `T result = std::move(buffer_[head_]); head_ = (head_ + 1) % capacity_; --size_`
  abbrev pub take_head : CircularQueue A → A × CircularQueue A
  take_head q =
      let x = get_or q.buffer q.head d in
      (
        x,
        record q {
          buffer = set q.buffer q.head (moved x);
          head = advance q.capacity q.head;
          size = sub64 q.size 1;
        },
      )

  abbrev pub grow : CircularQueue A → CircularQueue A
  grow q = record q { size = u64 (q.size + 1) }

  -- A caller of `Push` waits on `not_full_` while the queue is full.
  pub push : CircularQueue A → A → CircularQueue A × Reply A × Notify
  push q v =
      if ltb q.size q.capacity
      then (grow (write_tail q v), Reply.done, not_empty_one)
      else (q, Reply.blocked, nobody)

  pub try_push : CircularQueue A → A → CircularQueue A × Reply A × Notify
  try_push q v =
      if leb q.capacity q.size
      then (q, Reply.flag false, nobody)
      else (grow (write_tail q v), Reply.flag true, not_empty_one)

  pub force_push : CircularQueue A → A → CircularQueue A × Reply A × Notify
  force_push q v =
      if leb q.capacity q.size
      then (
        write_tail (record q { head = advance q.capacity q.head }) v,
        Reply.flag true,
        not_empty_one,
      )
      else (write_tail (grow q) v, Reply.flag false, not_empty_one)

  -- A caller of `Pop` waits on `not_empty_` while the queue is empty.
  pub pop : CircularQueue A → CircularQueue A × Reply A × Notify
  pop q =
      let (x, q') = take_head q in
      if ltb 0 q.size then (q', Reply.value x, not_full_one) else (q, Reply.blocked, nobody)

  pub try_pop : CircularQueue A → CircularQueue A × Reply A × Notify
  try_pop q =
      let (x, q') = take_head q in
      if q.size == 0 then (q, Reply.absent, nobody) else (q', Reply.value x, not_full_one)

  pub clear : CircularQueue A → CircularQueue A × Reply A × Notify
  clear q = (record q { head = 0; tail = 0; size = 0 }, Reply.done, not_full_all)

  -- `Capacity`, `Size`, `Empty` and `Full` change nothing.
  pub call : CircularQueue A → Op A → CircularQueue A × Reply A × Notify
  call q (Op.push v) = push q v
  call q (Op.try_push v) = try_push q v
  call q (Op.force_push v) = force_push q v
  call q Op.pop = pop q
  call q Op.try_pop = try_pop q
  call q Op.clear = clear q
  call q Op.capacity = (q, Reply.number q.capacity, nobody)
  call q Op.size = (q, Reply.number q.size, nobody)
  call q Op.empty = (q, Reply.flag (q.size == 0), nobody)
  call q Op.full = (q, Reply.flag (q.size == q.capacity), nobody)

  -- The calls of all threads, in the order in which they took the mutex.
  pub run : CircularQueue A → List (Op A) → List (Reply A)
  run q [] = []
  run q (op ∷ ops) = let (q', r, _) = call q op in r ∷ run q' ops
