-- ===== src/MpmcChannel.antt =====
-- include/lmcore/mpmc_channel.h: `MpmcCircularQueue`, a queue of several producer and several consumer
-- threads and no lock.
-- The threads interleave at each access to an atomic variable or to a slot. The accesses to a slot
-- are taken to be atomic here, which they are not in the code. `Send` and `Recv` repeat the calls that
-- are modelled until the channel is closed. Values are numbers, and a thread makes one call at a time.
pub mod Bounds
pub mod Lost
mod Tests
use lmcore.Prelude.{
  ℕ, zero, suc, ◌+◌, ◌-◌, ◌%◌, ◌^◌, ◌<◌, ◌≡◌, Bool, true, false, if◌then◌else◌, ltb, leb, ◌==◌,
  ◌&&◌, not, List, [], ◌∷◌, Option, none, some, u64, sub64, get_or, set, replicate,
}

-- Where a thread is: outside of any call; in `TryPush` before the load of `tail_`, of `head_`, before
-- the exchange of `tail_`, before the write of its slot; in `TryPop`, with `spin_count`, before the load
-- of `head_`, of `tail_`, before the test of the slot, before the loads after too many of these, before
-- the exchange of `head_`, before it takes the value out of its slot.
pub data Thread : Type 0 where
  outside : Thread
  push_tail : ℕ → Thread
  push_head push_cas push_write : ℕ → ℕ → Thread
  pop_head : ℕ → Thread
  pop_tail pop_test : ℕ → ℕ → Thread
  again_head : Thread
  again_tail pop_cas pop_take : ℕ → Thread

pub data Reply : Type 0 where
  nothing : Reply
  pushed : Bool → Reply
  popped : Option ℕ → Reply

pub record Mpmc : Type 0 where
  pub capacity : ℕ
  pub buffer : List (Option ℕ)
  pub head : ℕ
  pub tail : ℕ
  pub threads : ℕ → Thread
  pub replies : ℕ → Reply

pub new : ℕ → Mpmc
new capacity =
    let c = if capacity == 0 then 1 else capacity in
    record {
      capacity = c;
      buffer = replicate c none;
      head = 0;
      tail = 0;
      threads = λ i. Thread.outside;
      replies = λ i. Reply.nothing;
    }

abbrev pub update {ℓ} : {A : Type ℓ} → (ℕ → A) → ℕ → A → ℕ → A
update f i a j = if i == j then a else f j

abbrev pub go : Mpmc → ℕ → Thread → Mpmc
go s i t = record s { threads = update s.threads i t }

abbrev pub reply : Mpmc → ℕ → Reply → Mpmc
reply s i r = record s {
  threads = update s.threads i Thread.outside;
  replies = update s.replies i r;
}

abbrev pub max_spin_count : ℕ
max_spin_count = 100

abbrev pub is_some : Option ℕ → Bool
is_some none = false
is_some (some x) = true

abbrev pub slot : Mpmc → ℕ → Option ℕ
slot s position = get_or s.buffer (position % s.capacity) none

-- `slot.value()`, which throws for an empty slot, and `slot.reset()`.
abbrev pub take_slot : Mpmc → ℕ → ℕ → Option ℕ → Option Mpmc
take_slot s i h none = none
take_slot s i h (some v) =
    some
      (reply (record s { buffer = set s.buffer (h % s.capacity) none }) i (Reply.popped (some v)))

-- A step of `TryPush` or `TryPop`. The exchange is a weak one: where `spurious` holds it fails although
-- the variable has the value that is expected.
pub thread_step : Mpmc → ℕ → Bool → Thread → Option Mpmc
thread_step s i spurious Thread.outside = none
thread_step s i spurious (Thread.push_tail v) = some (go s i (Thread.push_head v s.tail))
thread_step s i spurious (Thread.push_head v t) = some (
    if leb s.capacity (sub64 t s.head)
    then reply s i (Reply.pushed false)
    else go s i (Thread.push_cas v t))
thread_step s i spurious (Thread.push_cas v t) = some (
    if (s.tail == t) && not spurious
    then go (record s { tail = u64 (t + 1) }) i (Thread.push_write v t)
    else go s i (Thread.push_tail v))
thread_step s i spurious (Thread.push_write v t) =
    some
      (reply (record s { buffer = set s.buffer (t % s.capacity) (some v) }) i (Reply.pushed true))
thread_step s i spurious (Thread.pop_head spins) = some (go s i (Thread.pop_tail spins s.head))
thread_step s i spurious (Thread.pop_tail spins h) =
    some (if s.tail == h then reply s i (Reply.popped none) else go s i (Thread.pop_test spins h))
thread_step s i spurious (Thread.pop_test spins h) = some (
    if is_some (slot s h)
    then go s i (Thread.pop_cas h)
    else if ltb max_spin_count (spins + 1)
    then go s i Thread.again_head
    else go s i (Thread.pop_head (spins + 1)))
thread_step s i spurious Thread.again_head = some (go s i (Thread.again_tail s.head))
thread_step s i spurious (Thread.again_tail h) =
    some (if s.tail == h then reply s i (Reply.popped none) else go s i (Thread.pop_head 0))
thread_step s i spurious (Thread.pop_cas h) = some (
    if (s.head == h) && not spurious
    then go (record s { head = u64 (h + 1) }) i (Thread.pop_take h)
    else go s i (Thread.pop_head 0))
thread_step s i spurious (Thread.pop_take h) = take_slot s i h (slot s h)

pub data Event : Type 0 where
  try_push : ℕ → ℕ → Event
  try_pop : ℕ → Event
  next_step : ℕ → Bool → Event

abbrev pub is_outside : Thread → Bool
is_outside Thread.outside = true
is_outside _ = false

-- `none`: the event cannot happen now, or the program throws.
pub step : Mpmc → Event → Option Mpmc
step s (Event.try_push i v) =
    if is_outside (s.threads i) then some (go s i (Thread.push_tail v)) else none
step s (Event.try_pop i) =
    if is_outside (s.threads i) then some (go s i (Thread.pop_head 0)) else none
step s (Event.next_step i spurious) = thread_step s i spurious (s.threads i)

-- A run, and the number of its events.
pub data Reach (s : Mpmc) : ℕ → Mpmc → Type 0 where
  here : Reach s 0 s
  next : {n : ℕ} {t u : Mpmc} (e : Event) → Reach s n t → step t e ≡ some u → Reach s (n + 1) u

-- `Size`, `Empty` and `Full` load `head_` in one state and `tail_` in another.
pub size : Mpmc → Mpmc → ℕ
size s u =
    let h = s.head in
    let t = u.tail in
    let diff = if leb h t then t - h else 0 in if ltb s.capacity diff then s.capacity else diff

pub empty : Mpmc → Mpmc → Bool
empty s u = u.tail == s.head

pub full : Mpmc → Mpmc → Bool
full s u = leb s.capacity (sub64 u.tail s.head)
