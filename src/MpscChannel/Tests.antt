-- ===== src/MpscChannel/Tests.antt =====
-- A run of a queue with two producers, and the theorems at it.
use lmcore.Prelude.{zero, suc, ℕ, ◌+◌, ◌≤◌, ◌<◌, ◌≡◌, refl, arith, false, Option, none, some}
use lmcore.MpscChannel.{Consumer, Mpsc, new, slot, claim, push_step, pop_step, Event, step, Reach}
use lmcore.MpscChannel.Valid.{first, IsHeld, IsFine, firsts}
use lmcore.MpscChannel.Fifo.{claimed_order, takes_claimed}

abbrev or_new : Option Mpsc → Mpsc
or_new none = new 0
or_new (some s) = s

abbrev start : Mpsc
start = new 2

abbrev called_5 : Mpsc
called_5 = or_new (step start (Event.try_push 1 5))

called_5-Reach : Reach start 1 called_5
unfolding step new push_step pop_step claim
called_5-Reach = Reach.next (Event.try_push 1 5) Reach.here refl

abbrev loaded_5 : Mpsc
loaded_5 = or_new (step called_5 (Event.push_next 1 false))

loaded_5-Reach : Reach start 2 loaded_5
unfolding step new push_step pop_step claim
loaded_5-Reach = Reach.next (Event.push_next 1 false) called_5-Reach refl

abbrev tested_5 : Mpsc
tested_5 = or_new (step loaded_5 (Event.push_next 1 false))

tested_5-Reach : Reach start 3 tested_5
unfolding step new push_step pop_step claim
tested_5-Reach = Reach.next (Event.push_next 1 false) loaded_5-Reach refl

abbrev claimed_5 : Mpsc
claimed_5 = or_new (step tested_5 (Event.push_next 1 false))

claimed_5-Reach : Reach start 4 claimed_5
unfolding step new push_step pop_step claim
claimed_5-Reach = Reach.next (Event.push_next 1 false) tested_5-Reach refl

abbrev written_5 : Mpsc
written_5 = or_new (step claimed_5 (Event.push_next 1 false))

written_5-Reach : Reach start 5 written_5
unfolding step new push_step pop_step claim
written_5-Reach = Reach.next (Event.push_next 1 false) claimed_5-Reach refl

abbrev pop_called : Mpsc
pop_called = or_new (step written_5 (Event.try_pop))

pop_called-Reach : Reach start 6 pop_called
unfolding step new push_step pop_step claim
pop_called-Reach = Reach.next (Event.try_pop) written_5-Reach refl

abbrev pop_loaded : Mpsc
pop_loaded = or_new (step pop_called (Event.pop_next))

pop_loaded-Reach : Reach start 7 pop_loaded
unfolding step new push_step pop_step claim
pop_loaded-Reach = Reach.next (Event.pop_next) pop_called-Reach refl

abbrev pop_begun : Mpsc
pop_begun = or_new (step pop_loaded (Event.pop_next))

pop_begun-Reach : Reach start 8 pop_begun
unfolding step new push_step pop_step claim
pop_begun-Reach = Reach.next (Event.pop_next) pop_loaded-Reach refl

abbrev pop_tested : Mpsc
pop_tested = or_new (step pop_begun (Event.pop_next))

pop_tested-Reach : Reach start 9 pop_tested
unfolding step new push_step pop_step claim
pop_tested-Reach = Reach.next (Event.pop_next) pop_begun-Reach refl

claimed_order_example :
    (claimed_5.received ≡ firsts claimed_5.head claimed_5.claims)
    × (claimed_5.head ≤ claimed_5.tail)
    × (claimed_5.tail ≤ claimed_5.head + claimed_5.capacity)
    × ((p : ℕ) → claimed_5.head < p → p < claimed_5.tail → IsHeld claimed_5 p)
    × ((p : ℕ) → first claimed_5 ≤ p → p < claimed_5.tail → IsFine claimed_5 p)
claimed_order_example = claimed_order 2 4 (omega arith) claimed_5-Reach

pop_tested-takes : pop_tested.consumer ≡ Consumer.pop_take 0
unfolding step new push_step pop_step claim
pop_tested-takes = refl

takes_claimed_example : slot pop_tested 0 ≡ some (pop_tested.claims pop_tested.head)
takes_claimed_example = takes_claimed 2 9 0 (omega arith) pop_tested-Reach pop_tested-takes

-- The consumer's call, which finds the slot of value 5 empty, and spins until the assignment.
abbrev some_steps : ℕ → Option Mpsc → Option Mpsc
some_steps n none = none
some_steps zero (some s) = some s
some_steps (suc n) (some s) = some_steps n (step s Event.pop_next)

abbrev spun : Mpsc
spun = or_new (some_steps 106 (step claimed_5 Event.try_pop))

abbrev spun_written : Mpsc
spun_written = or_new (step spun (Event.push_next 1 false))

abbrev spun_erased : Mpsc
spun_erased = or_new (step spun_written Event.pop_next)
