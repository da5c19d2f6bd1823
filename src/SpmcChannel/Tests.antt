-- ===== src/SpmcChannel/Tests.antt =====
-- Runs of a queue of one slot, and the theorems at concrete states.
use lmcore.Prelude.{
  ◌<◌, ◌+◌, ◌-◌, ◌%◌, ◌≤◌, ◌≡◌, ◌⊎◌, refl, arith, true, false, List, [], ◌∷◌, Option, none, some,
}
use lmcore.SpmcChannel.{
  Producer, Consumer, Spmc, new, slot, push_step, pop_step, Event, step, Reach, size, empty, full,
}
use lmcore.SpmcChannel.Bounds.{counters_lem}
use lmcore.SpmcChannel.Lost.{run_from, value_lost}

abbrev or_new : Option Spmc → Spmc
or_new none = new 1
or_new (some s) = s

abbrev one_call : Spmc
one_call = or_new (step (new 2) (Event.try_push 7))

one_call-Reach : Reach (new 2) 1 one_call
unfolding step new
one_call-Reach = Reach.next (Event.try_push 7) Reach.here refl

abbrev called_again : Spmc
called_again = or_new (step one_call (Event.try_pop 1))

called_again-Reach : Reach one_call 1 called_again
unfolding step new
called_again-Reach = Reach.next (Event.try_pop 1) Reach.here refl

counters_lem_example :
    (called_again.head ≤ called_again.tail)
    × (called_again.tail ≤ called_again.head + called_again.capacity)
    × (called_again.tail - called_again.head ≤ size one_call called_again)
    × (size one_call called_again ≤ called_again.capacity)
    × ((empty one_call called_again ≡ false) ⊎ (called_again.tail ≡ called_again.head))
    × ((full one_call called_again ≡ true)
        ⊎ (called_again.tail < called_again.head + called_again.capacity))
counters_lem_example = counters_lem 2 1 1 (omega arith) one_call-Reach called_again-Reach

-- 7 is pushed.
abbrev push_7 : List Event
push_7 =
    Event.try_push 7 ∷ Event.push_next ∷ Event.push_next ∷ Event.push_next ∷ Event.push_next ∷ []

-- Consumer 1 claims the slot.
abbrev claim_7 : List Event
claim_7 =
    Event.try_pop 1
    ∷ Event.pop_next 1 false
    ∷ Event.pop_next 1 false
    ∷ Event.pop_next 1 false
    ∷ Event.pop_next 1 false
    ∷ []

-- 8 is about to be written.
abbrev push_8 : List Event
push_8 = Event.try_push 8 ∷ Event.push_next ∷ Event.push_next ∷ []

abbrev racing : Spmc
racing = or_new (run_from (run_from (run_from (some (new 1)) push_7) claim_7) push_8)

holds_seven : slot racing 0 ≡ some 7
unfolding step new push_step pop_step
holds_seven = refl

racing_same : 1 % racing.capacity ≡ 0 % racing.capacity
unfolding step new push_step pop_step
racing_same = refl

racing_takes : racing.consumers 1 ≡ Consumer.pop_take 0
unfolding step new push_step pop_step
racing_takes = refl

racing_writes : racing.producer ≡ Producer.push_write 8 1
unfolding step new push_step pop_step
racing_writes = refl

value_lost_example :
    (u : Spmc) × (run_from
        (some racing)
        (Event.push_next ∷ Event.pop_next 1 false ∷ Event.push_next ∷ [])
      ≡ some u)
    × (u.popped 1 ≡ some 8)
    × (u.pushed ≡ true)
    × (slot u 1 ≡ none)
value_lost_example = value_lost racing 1 0 1 8 racing_same racing_takes racing_writes
