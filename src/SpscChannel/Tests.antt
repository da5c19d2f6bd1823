-- ===== src/SpscChannel/Tests.antt =====
-- A channel of one slot: 5 is sent and received, and 6 is on its way.
use lmcore.Prelude.{
  ◌⊎◌, ℕ, ◌+◌, ◌%◌, ◌≤◌, ◌≡◌, ◌≢◌, refl, arith, true, false, ◌==◌, List, [], ◌∷◌, ◌++◌, none, some,
  get_or, length,
}
use lmcore.SpscChannel.{
  PushMode, PopMode, Producer, Consumer, Reply, Spsc, Event, new, push_step, pop_step, step, Reach,
  size, empty, full,
}
use lmcore.SpscChannel.Fifo.{fifo, takes_oldest, slots_differ}
use lmcore.SpscChannel.Progress.{push_left, pop_left, Runs, closed_ends}

-- The producer has pushed 5.
abbrev one_sent : Spsc ℕ
one_sent = record {
  capacity = 1;
  buffer = some 5 ∷ [];
  head = 0;
  tail = 1;
  closed = false;
  producer = Producer.outside;
  consumer = Consumer.outside;
  push_reply = Reply.pushed true;
  pop_reply = Reply.nothing;
  sent = 5 ∷ [];
  received = [];
}

Reach-one_sent : Reach (new 1) 5 one_sent
unfolding step push_step new
Reach-one_sent =
    Reach.next Event.producer_step
      (Reach.next Event.producer_step
        (Reach.next Event.producer_step
          (Reach.next Event.producer_step (Reach.next (Event.call_try_send 5) Reach.here refl) refl)
          refl)
        refl)
      refl

fifo_example :
    (waiting : List ℕ) × (one_sent.sent ≡ one_sent.received ++ waiting)
    × (length waiting ≤ one_sent.capacity)
    × (size one_sent ≡ length waiting)
    × (empty one_sent ≡ (length waiting == 0))
    × (full one_sent ≡ (length waiting == one_sent.capacity))
fifo_example = fifo 1 Reach-one_sent (omega arith)

-- The consumer has found a value, and is about to take it.
abbrev about_to_take : Spsc ℕ
about_to_take = record one_sent { consumer = Consumer.take PopMode.try_recv 0 }

Reach-about_to_take : Reach (new 1) 8 about_to_take
unfolding step pop_step
Reach-about_to_take =
    Reach.next Event.consumer_step
      (Reach.next Event.consumer_step (Reach.next Event.call_try_recv Reach-one_sent refl) refl)
      refl

takes_oldest_example :
    (x : ℕ) × (rest : List ℕ) × (get_or about_to_take.buffer (0 % about_to_take.capacity) none
      ≡ some x)
    × (about_to_take.sent ≡ about_to_take.received ++ (x ∷ rest))
takes_oldest_example = takes_oldest 1 PopMode.try_recv 0 Reach-about_to_take (omega arith) refl

-- With two slots, the producer is about to write 6 while the consumer is about to take 5.
abbrev both_busy : Spsc ℕ
both_busy = record {
  capacity = 2;
  buffer = some 5 ∷ none ∷ [];
  head = 0;
  tail = 1;
  closed = false;
  producer = Producer.write PushMode.try_send 6 1;
  consumer = Consumer.take PopMode.try_recv 0;
  push_reply = Reply.pushed true;
  pop_reply = Reply.nothing;
  sent = 5 ∷ [];
  received = [];
}

Reach-both_busy : Reach (new 2) 11 both_busy
unfolding step push_step pop_step new
Reach-both_busy =
    Reach.next Event.consumer_step
      (Reach.next Event.consumer_step
        (Reach.next Event.call_try_recv
          (Reach.next Event.producer_step
            (Reach.next Event.producer_step
              (Reach.next (Event.call_try_send 6)
                (Reach.next Event.producer_step
                  (Reach.next Event.producer_step
                    (Reach.next Event.producer_step
                      (Reach.next Event.producer_step
                        (Reach.next (Event.call_try_send 5) Reach.here refl) refl)
                      refl)
                    refl)
                  refl)
                refl)
              refl)
            refl)
          refl)
        refl)
      refl

slots_differ_example : 0 % both_busy.capacity ≢ 1 % both_busy.capacity
slots_differ_example =
    slots_differ 2 PushMode.try_send 6 1 PopMode.try_recv 0 Reach-both_busy (omega arith) refl refl

-- The channel is closed while `Recv` is about to test for that.
abbrev waiting_closed : Spsc ℕ
waiting_closed = record (new 1) { closed = true; consumer = Consumer.check }

abbrev last_try : Spsc ℕ
last_try = record waiting_closed { consumer = Consumer.load_head PopMode.recv_last }

last_try-Reach : Reach (new 1) 3 last_try
unfolding step pop_step new
last_try-Reach =
    Reach.next Event.consumer_step
      (Reach.next Event.call_close (Reach.next Event.call_recv Reach.here refl) refl) refl

waiting_closed-Runs : Runs waiting_closed 0 1 last_try
unfolding step pop_step new
waiting_closed-Runs = Runs.consumer Runs.here refl

is_closed : waiting_closed.closed ≡ true
unfolding new
is_closed = refl

closed_ends_example :
    (0 + push_left last_try.producer ≤ push_left waiting_closed.producer)
    × (1 + pop_left last_try.consumer ≤ pop_left waiting_closed.consumer)
    × (push_left waiting_closed.producer ≤ 4)
    × (pop_left waiting_closed.consumer ≤ 7)
    × ((push_left last_try.producer ≡ 0)
        ⊎ ((u : Spsc ℕ) × (step last_try Event.producer_step ≡ some u)))
    × ((pop_left last_try.consumer ≡ 0)
        ⊎ ((u : Spsc ℕ) × (step last_try Event.consumer_step ≡ some u)))
closed_ends_example =
    closed_ends 1 {s = waiting_closed} {t = last_try} is_closed waiting_closed-Runs last_try-Reach
      (omega arith)
