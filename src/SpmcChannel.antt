-- ===== src/SpmcChannel.antt =====
-- include/lmcore/spmc_channel.h: `SpmcCircularQueue`, a queue of one producer thread and several
-- consumer threads and no lock.
-- The threads interleave at each access to an atomic variable or to a slot. The accesses to a slot
-- are taken to be atomic here, which they are not in the code. The buffer, whose length is the
-- capacity, is a function of the index. `Send` and `Recv` repeat the calls that are modelled until the
-- channel is closed. Values are numbers, and a thread makes one call at a time.
pub mod Bounds
pub mod Lost
mod Tests
use lmcore.Prelude.{
  ℕ, zero, suc, ◌+◌, ◌-◌, ◌%◌, ◌^◌, ◌≡◌, Bool, true, false, if◌then◌else◌, ltb, leb, ◌==◌, ◌&&◌,
  not, List, [], ◌∷◌, Option, none, some, u64, sub64,
}

-- Where the producer is: outside of any call; in `TryPush` before the load of `tail_`, of `head_`, before
-- the write of the slot, before the store of `tail_`.
pub data Producer : Type 0 where
  outside : Producer
  push_tail : ℕ → Producer
  push_head push_write push_store : ℕ → ℕ → Producer

-- Where a consumer is: outside of any call; in `TryPop`, with `spin_count`, before the load of `head_`,
-- of `tail_`, before the test of the slot, before the loads after too many of these, before the exchange
-- of `head_`, before it takes the value out of its slot.
pub data Consumer : Type 0 where
  idle again_head : Consumer
  pop_head again_tail pop_cas pop_take : ℕ → Consumer
  pop_tail pop_test : ℕ → ℕ → Consumer

pub record Spmc : Type 0 where
  pub capacity : ℕ
  pub buffer : ℕ → Option ℕ
  pub head : ℕ
  pub tail : ℕ
  pub producer : Producer
  pub consumers : ℕ → Consumer
  -- Whether the last `TryPush` succeeded, and what the last `TryPop` of each consumer returned.
  pub pushed : Bool
  pub popped : ℕ → Option ℕ

pub new : ℕ → Spmc
new capacity = record {
  capacity = (if capacity == 0 then 1 else capacity);
  buffer = λ i. none;
  head = 0;
  tail = 0;
  producer = Producer.outside;
  consumers = λ i. Consumer.idle;
  pushed = false;
  popped = λ i. none;
}

abbrev pub update {ℓ} : {A : Type ℓ} → (ℕ → A) → ℕ → A → ℕ → A
update f i a j = if i == j then a else f j

abbrev pub slot : Spmc → ℕ → Option ℕ
slot s position = s.buffer (position % s.capacity)

-- A step of `TryPush`.
pub push_step : Spmc → Producer → Option Spmc
push_step s Producer.outside = none
push_step s (Producer.push_tail v) = some (record s { producer = Producer.push_head v s.tail })
push_step s (Producer.push_head v t) = some (
    if leb s.capacity (sub64 t s.head)
    then record s { producer = Producer.outside; pushed = false }
    else record s { producer = Producer.push_write v t })
push_step s (Producer.push_write v t) = some (record s {
  buffer = update s.buffer (t % s.capacity) (some v);
  producer = Producer.push_store v t;
})
push_step s (Producer.push_store v t) =
    some (record s { tail = u64 (t + 1); producer = Producer.outside; pushed = true })

abbrev pub go : Spmc → ℕ → Consumer → Spmc
go s i c = record s { consumers = update s.consumers i c }

abbrev pub pop_reply : Spmc → ℕ → Option ℕ → Spmc
pop_reply s i o = record s {
  consumers = update s.consumers i Consumer.idle;
  popped = update s.popped i o;
}

abbrev pub max_spin_count : ℕ
max_spin_count = 100

abbrev pub is_some : Option ℕ → Bool
is_some none = false
is_some (some x) = true

-- `slot.value()`, which throws for an empty slot, and `slot.reset()`.
abbrev pub take_slot : Spmc → ℕ → ℕ → Option ℕ → Option Spmc
take_slot s i h none = none
take_slot s i h (some v) =
    some (pop_reply (record s { buffer = update s.buffer (h % s.capacity) none }) i (some v))

-- A step of `TryPop`. The exchange is a weak one: where `spurious` holds it fails although `head_` has
-- the value that is expected.
pub pop_step : Spmc → ℕ → Bool → Consumer → Option Spmc
pop_step s i spurious Consumer.idle = none
pop_step s i spurious (Consumer.pop_head spins) = some (go s i (Consumer.pop_tail spins s.head))
pop_step s i spurious (Consumer.pop_tail spins h) =
    some (if s.tail == h then pop_reply s i none else go s i (Consumer.pop_test spins h))
pop_step s i spurious (Consumer.pop_test spins h) = some (
    if is_some (slot s h)
    then go s i (Consumer.pop_cas h)
    else if ltb max_spin_count (spins + 1)
    then go s i Consumer.again_head
    else go s i (Consumer.pop_head (spins + 1)))
pop_step s i spurious Consumer.again_head = some (go s i (Consumer.again_tail s.head))
pop_step s i spurious (Consumer.again_tail h) =
    some (if s.tail == h then pop_reply s i none else go s i (Consumer.pop_head 0))
pop_step s i spurious (Consumer.pop_cas h) = some (
    if (s.head == h) && not spurious
    then go (record s { head = u64 (h + 1) }) i (Consumer.pop_take h)
    else go s i (Consumer.pop_head 0))
pop_step s i spurious (Consumer.pop_take h) = take_slot s i h (slot s h)

pub data Event : Type 0 where
  try_push : ℕ → Event
  push_next : Event
  try_pop : ℕ → Event
  pop_next : ℕ → Bool → Event

abbrev pub begin_push : Spmc → ℕ → Producer → Option Spmc
begin_push s v Producer.outside = some (record s { producer = Producer.push_tail v })
begin_push s v _ = none

abbrev pub is_idle : Consumer → Bool
is_idle Consumer.idle = true
is_idle _ = false

-- `none`: the event cannot happen now, or the program throws.
pub step : Spmc → Event → Option Spmc
step s (Event.try_push v) = begin_push s v s.producer
step s Event.push_next = push_step s s.producer
step s (Event.try_pop i) =
    if is_idle (s.consumers i) then some (go s i (Consumer.pop_head 0)) else none
step s (Event.pop_next i spurious) = pop_step s i spurious (s.consumers i)

-- A run, and the number of its events.
pub data Reach (s : Spmc) : ℕ → Spmc → Type 0 where
  here : Reach s 0 s
  next : {n : ℕ} {t u : Spmc} (e : Event) → Reach s n t → step t e ≡ some u → Reach s (n + 1) u

-- `Size`, `Empty` and `Full` load `head_` in one state and `tail_` in another.
pub size : Spmc → Spmc → ℕ
size s u =
    let h = s.head in
    let t = u.tail in
    let diff = if leb h t then t - h else 0 in if ltb s.capacity diff then s.capacity else diff

pub empty : Spmc → Spmc → Bool
empty s u = u.tail == s.head

pub full : Spmc → Spmc → Bool
full s u = leb s.capacity (sub64 u.tail s.head)
