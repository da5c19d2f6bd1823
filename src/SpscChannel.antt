-- ===== src/SpscChannel.antt =====
-- include/lmcore/spsc_channel.h: `SpscCircularQueue`, `SpscSender` and `SpscReceiver`, a channel with
-- one producer thread and one consumer thread and no lock.
-- The threads interleave at each access to an atomic variable. The buffer is accessed between two of
-- those: a release store publishes what was written before it, so that the thread whose acquire load
-- reads the store sees it, and a slot is accessed by one thread at a time (`slots_differ` in Fifo).
-- The overloads of `TryPush` and of `TryPop` differ in how the value is passed only.
pub mod Inv
pub mod Safe
pub mod Fifo
pub mod Progress
mod Tests
use lmcore.Prelude.{
  ℕ, zero, suc, ◌+◌, ◌-◌, ◌%◌, ◌^◌, ◌≡◌, Bool, true, false, if◌then◌else◌, ltb, leb, ◌==◌, List, [],
  ◌∷◌, ◌++◌, Option, none, some, u64, sub64, get_or, set, replicate,
}

-- Whether `TryPush` is called by `TrySend`, or by a round of the loop of `Send`.
pub data PushMode : Type 0 where
  try_send send : PushMode

-- Whether `TryPop` is called by `TryRecv`, by a round of the loop of `Recv`, or after that loop.
pub data PopMode : Type 0 where
  try_recv recv recv_last : PopMode

module _ (A : Type 0) where
  -- Where the producer is: outside of any call, before the test of `closed_`, before the load of
  -- `tail_`, before the load of `head_`, before the write of the slot, before the store of `tail_`.
  pub data Producer : Type 0 where
    outside : Producer
    check : A → Producer
    load_tail : PushMode → A → Producer
    load_head write store_tail : PushMode → A → ℕ → Producer

  -- Likewise the consumer. The last two know the slot, and the value taken from it.
  pub data Consumer : Type 0 where
    outside check : Consumer
    load_head : PopMode → Consumer
    load_tail take : PopMode → ℕ → Consumer
    store_head : PopMode → ℕ → A → Consumer

  -- What a call has returned last.
  pub data Reply : Type 0 where
    nothing : Reply
    pushed : Bool → Reply
    popped : Option A → Reply

-- The queue, the flag that the two ends share, the two threads, and all that was pushed and popped.
pub record Spsc (A : Type 0) : Type 0 where
  pub capacity : ℕ
  pub buffer : List (Option A)
  pub head : ℕ
  pub tail : ℕ
  pub closed : Bool
  pub producer : Producer A
  pub consumer : Consumer A
  pub push_reply : Reply A
  pub pop_reply : Reply A
  pub sent : List A
  pub received : List A

pub data Event (A : Type 0) : Type 0 where
  call_try_send call_send : A → Event A
  call_try_recv call_recv call_close : Event A
  producer_step consumer_step : Event A

module _ {A : Type 0} where
  -- `SpscChannel(capacity)`
  pub new : ℕ → Spsc A
  new n =
      let cap = if n == 0 then 1 else n in
      record {
        capacity = cap;
        buffer = replicate cap none;
        head = 0;
        tail = 0;
        closed = false;
        producer = Producer.outside;
        consumer = Consumer.outside;
        push_reply = Reply.nothing;
        pop_reply = Reply.nothing;
        sent = [];
        received = [];
      }

  -- `TryPush` finds the queue full: `TrySend` returns false, and `Send` goes round.
  abbrev pub push_full : Spsc A → PushMode → A → Spsc A
  push_full s PushMode.try_send v = record s {
    producer = Producer.outside;
    push_reply = Reply.pushed false;
  }
  push_full s PushMode.send v = record s { producer = Producer.check v }

  pub push_step : Spsc A → Producer A → Option (Spsc A)
  push_step s Producer.outside = none
  push_step s (Producer.check v) = some (
      if s.closed
      then record s { producer = Producer.outside; push_reply = Reply.pushed false }
      else record s { producer = Producer.load_tail PushMode.send v })
  push_step s (Producer.load_tail m v) =
      some (record s { producer = Producer.load_head m v s.tail })
  push_step s (Producer.load_head m v t) = some (
      if leb s.capacity (sub64 t s.head)
      then push_full s m v
      else record s { producer = Producer.write m v t })
  push_step s (Producer.write m v t) = some (record s {
    buffer = set s.buffer (t % s.capacity) (some v);
    producer = Producer.store_tail m v t;
  })
  push_step s (Producer.store_tail m v t) = some (record s {
    tail = u64 (t + 1);
    producer = Producer.outside;
    push_reply = Reply.pushed true;
    sent = s.sent ++ (v ∷ []);
  })

  -- `TryPop` finds the queue empty: `Recv` goes round, unless that was after its loop.
  abbrev pub pop_empty : Spsc A → PopMode → Spsc A
  pop_empty s PopMode.recv = record s { consumer = Consumer.check }
  pop_empty s _ = record s { consumer = Consumer.outside; pop_reply = Reply.popped none }

  -- `slot.value()`, which throws for an empty slot, and `slot.reset()`.
  abbrev pub take_slot : Spsc A → PopMode → ℕ → Option A → Option (Spsc A)
  take_slot s m h none = none
  take_slot s m h (some x) = some (record s {
    buffer = set s.buffer (h % s.capacity) none;
    consumer = Consumer.store_head m h x;
  })

  pub pop_step : Spsc A → Consumer A → Option (Spsc A)
  pop_step s Consumer.outside = none
  pop_step s Consumer.check = some (record s {
    consumer = Consumer.load_head (if s.closed then PopMode.recv_last else PopMode.recv);
  })
  pop_step s (Consumer.load_head m) = some (record s { consumer = Consumer.load_tail m s.head })
  pop_step s (Consumer.load_tail m h) =
      some (if s.tail == h then pop_empty s m else record s { consumer = Consumer.take m h })
  pop_step s (Consumer.take m h) = take_slot s m h (get_or s.buffer (h % s.capacity) none)
  pop_step s (Consumer.store_head m h x) = some (record s {
    head = u64 (h + 1);
    consumer = Consumer.outside;
    pop_reply = Reply.popped (some x);
    received = s.received ++ (x ∷ []);
  })

  -- A thread makes one call at a time.
  abbrev pub begin_push : Spsc A → Producer A → Producer A → Option (Spsc A)
  begin_push s Producer.outside p = some (record s { producer = p })
  begin_push s _ p = none

  abbrev pub begin_pop : Spsc A → Consumer A → Consumer A → Option (Spsc A)
  begin_pop s Consumer.outside c = some (record s { consumer = c })
  begin_pop s _ c = none

  -- `none`: the event cannot happen now, or the program faults.
  pub step : Spsc A → Event A → Option (Spsc A)
  step s (Event.call_try_send v) = begin_push s s.producer (Producer.load_tail PushMode.try_send v)
  step s (Event.call_send v) = begin_push s s.producer (Producer.check v)
  step s Event.call_try_recv = begin_pop s s.consumer (Consumer.load_head PopMode.try_recv)
  step s Event.call_recv = begin_pop s s.consumer Consumer.check
  step s Event.call_close = some (record s { closed = true })
  step s Event.producer_step = push_step s s.producer
  step s Event.consumer_step = pop_step s s.consumer

  -- A run, and the number of its events.
  pub data Reach (s : Spsc A) : ℕ → Spsc A → Type 0 where
    here : Reach s 0 s
    next :
        {n : ℕ} {t u : Spsc A} (e : Event A) → Reach s n t → step t e ≡ some u → Reach s (n + 1) u

  -- `Size`, `Empty` and `Full`, where their two loads see one state.
  pub size : Spsc A → ℕ
  size s =
      let diff = if leb s.head s.tail then s.tail - s.head else 0 in
      if ltb s.capacity diff then s.capacity else diff

  pub empty : Spsc A → Bool
  empty s = s.tail == s.head

  pub full : Spsc A → Bool
  full s = leb s.capacity (sub64 s.tail s.head)
