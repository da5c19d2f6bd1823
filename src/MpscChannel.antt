-- ===== src/MpscChannel.antt =====
-- include/lmcore/mpsc_channel.h: `MpscCircularQueue`, a queue of several producer threads and one
-- consumer thread and no lock.
-- The threads interleave at each access to an atomic variable or to a slot. The accesses to a slot
-- are taken to be atomic here, which they are not in the code. The buffer, whose length is the
-- capacity, is a function of the index. `Send` and `Recv` repeat the calls that are modelled until the
-- channel is closed. Values are numbers, and a thread makes one call at a time.
pub mod Valid
pub mod Claim
pub mod Push
pub mod Assign
pub mod Pop
pub mod Fifo
pub mod Lost
mod Tests
use lmcore.Prelude.{
  ℕ, zero, suc, ◌+◌, ◌-◌, ◌%◌, ◌^◌, ◌≡◌, Bool, true, false, if◌then◌else◌, ltb, leb, ◌==◌, ◌&&◌,
  not, List, [], ◌∷◌, ◌++◌, Option, none, some, u64, sub64,
}

-- Where a producer is: outside of any call; in `TryPush` before the load of `tail_`, of `head_`, before
-- the exchange, before the write of its slot.
pub data Producer : Type 0 where
  outside : Producer
  push_tail : ℕ → Producer
  push_head push_cas push_write : ℕ → ℕ → Producer

-- Where the consumer is: outside of any call; in `TryPop` before the load of `head_`, of `tail_`,
-- before the test of the slot, with `spin_count`, before the loads after too many of these, before the
-- read and the write of the assignment to `slot` that follows them, with what was read, before it takes
-- the value out of the slot, before the store of `head_`.
pub data Consumer : Type 0 where
  idle pop_head again_head : Consumer
  pop_tail again_tail assign_read pop_take : ℕ → Consumer
  assign_write : ℕ → Option ℕ → Consumer
  pop_test pop_store : ℕ → ℕ → Consumer

pub record Mpsc : Type 0 where
  pub capacity : ℕ
  pub buffer : ℕ → Option ℕ
  pub head : ℕ
  pub tail : ℕ
  pub producers : ℕ → Producer
  pub consumer : Consumer
  -- Whether the last `TryPush` of each producer succeeded, and what the last `TryPop` returned.
  pub pushed : ℕ → Bool
  pub popped : Option ℕ
  -- What the exchanges have claimed: the value of each position, and its producer.
  pub claims : ℕ → ℕ
  pub owner : ℕ → ℕ
  -- The values that `TryPop` has returned.
  pub received : List ℕ

pub new : ℕ → Mpsc
new capacity = record {
  capacity = (if capacity == 0 then 1 else capacity);
  buffer = λ i. none;
  head = 0;
  tail = 0;
  producers = λ i. Producer.outside;
  consumer = Consumer.idle;
  pushed = λ i. false;
  popped = none;
  claims = λ p. 0;
  owner = λ p. 0;
  received = [];
}

abbrev pub update {ℓ} : {A : Type ℓ} → (ℕ → A) → ℕ → A → ℕ → A
update f i a j = if i == j then a else f j

abbrev pub go : Mpsc → ℕ → Producer → Mpsc
go s i p = record s { producers = update s.producers i p }

abbrev pub push_reply : Mpsc → ℕ → Bool → Mpsc
push_reply s i b = record s {
  producers = update s.producers i Producer.outside;
  pushed = update s.pushed i b;
}

abbrev pub slot : Mpsc → ℕ → Option ℕ
slot s position = s.buffer (position % s.capacity)

-- The position is the thread's once the exchange has succeeded.
pub claim : Mpsc → ℕ → ℕ → ℕ → Mpsc
claim s i v t = record s {
  tail = u64 (t + 1);
  producers = update s.producers i (Producer.push_write v t);
  claims = update s.claims t v;
  owner = update s.owner t i;
}

-- A step of `TryPush`. The exchange is a weak one: where `spurious` holds it fails although `tail_` has
-- the value that is expected.
pub push_step : Mpsc → ℕ → Bool → Producer → Option Mpsc
push_step s i spurious Producer.outside = none
push_step s i spurious (Producer.push_tail v) = some (go s i (Producer.push_head v s.tail))
push_step s i spurious (Producer.push_head v t) = some (
    if leb s.capacity (sub64 t s.head)
    then push_reply s i false
    else go s i (Producer.push_cas v t))
push_step s i spurious (Producer.push_cas v t) =
    some (if (s.tail == t) && not spurious then claim s i v t else go s i (Producer.push_tail v))
push_step s i spurious (Producer.push_write v t) =
    some (push_reply (record s { buffer = update s.buffer (t % s.capacity) (some v) }) i true)

abbrev pub max_spin_count : ℕ
max_spin_count = 100

abbrev pub test_slot : Mpsc → ℕ → ℕ → Option ℕ → Consumer
test_slot s spins h (some v) = Consumer.pop_take h
test_slot s spins h none =
    if ltb max_spin_count (spins + 1) then Consumer.again_head else Consumer.pop_test (spins + 1) h

-- `slot.value()`, which throws for an empty slot, and `slot.reset()`.
abbrev pub take_slot : Mpsc → ℕ → Option ℕ → Option Mpsc
take_slot s h none = none
take_slot s h (some v) =
    some (record s {
      buffer = update s.buffer (h % s.capacity) none;
      consumer = Consumer.pop_store h v;
    })

-- A step of `TryPop`. `slot` is a reference, so the assignment to it after the loads are repeated copies
-- the slot to itself.
pub pop_step : Mpsc → Consumer → Option Mpsc
pop_step s Consumer.idle = none
pop_step s Consumer.pop_head = some (record s { consumer = Consumer.pop_tail s.head })
pop_step s (Consumer.pop_tail h) = some (
    if s.tail == h
    then record s { consumer = Consumer.idle; popped = none }
    else record s { consumer = Consumer.pop_test 0 h })
pop_step s (Consumer.pop_test spins h) =
    some (record s { consumer = test_slot s spins h (slot s h) })
pop_step s Consumer.again_head = some (record s { consumer = Consumer.again_tail s.head })
pop_step s (Consumer.again_tail h) = some (
    if s.tail == h
    then record s { consumer = Consumer.idle; popped = none }
    else record s { consumer = Consumer.assign_read h })
pop_step s (Consumer.assign_read h) =
    some (record s { consumer = Consumer.assign_write h (slot s h) })
pop_step s (Consumer.assign_write h o) =
    some
      (record s { buffer = update s.buffer (h % s.capacity) o; consumer = Consumer.pop_test 0 h })
pop_step s (Consumer.pop_take h) = take_slot s h (slot s h)
pop_step s (Consumer.pop_store h v) = some (record s {
  head = u64 (h + 1);
  consumer = Consumer.idle;
  popped = some v;
  received = s.received ++ (v ∷ []);
})

pub data Event : Type 0 where
  try_push : ℕ → ℕ → Event
  push_next : ℕ → Bool → Event
  try_pop pop_next : Event

abbrev pub begin_push : Mpsc → ℕ → ℕ → Producer → Option Mpsc
begin_push s i v Producer.outside = some (go s i (Producer.push_tail v))
begin_push s i v _ = none

abbrev pub begin_pop : Mpsc → Consumer → Option Mpsc
begin_pop s Consumer.idle = some (record s { consumer = Consumer.pop_head })
begin_pop s _ = none

-- `none`: the event cannot happen now, or the program throws.
pub step : Mpsc → Event → Option Mpsc
step s (Event.try_push i v) = begin_push s i v (s.producers i)
step s (Event.push_next i spurious) = push_step s i spurious (s.producers i)
step s Event.try_pop = begin_pop s s.consumer
step s Event.pop_next = pop_step s s.consumer

-- A run, and the number of its events.
pub data Reach (s : Mpsc) : ℕ → Mpsc → Type 0 where
  here : Reach s 0 s
  next : {n : ℕ} {t u : Mpsc} (e : Event) → Reach s n t → step t e ≡ some u → Reach s (n + 1) u
