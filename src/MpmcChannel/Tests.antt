-- ===== src/MpmcChannel/Tests.antt =====
-- Runs of a queue with three threads, and the theorems at concrete states.
use lmcore.Prelude.{
  ◌+◌, ◌-◌, ◌%◌, ◌≤◌, ◌<◌, ◌≡◌, ◌⊎◌, refl, arith, true, false, List, [], ◌∷◌, Option, none, some,
  length,
}
use lmcore.MpmcChannel.{
  Thread, Reply, Mpmc, new, slot, thread_step, Event, step, Reach, size, empty, full,
}
use lmcore.MpmcChannel.Bounds.{positions_lem}
use lmcore.MpmcChannel.Lost.{run_from, overwritten_lem}

abbrev or_new : Option Mpmc → Mpmc
or_new none = new 1
or_new (some s) = s

abbrev one_call : Mpmc
one_call = or_new (step (new 2) (Event.try_push 0 7))

one_call-Reach : Reach (new 2) 1 one_call
unfolding step new
one_call-Reach = Reach.next (Event.try_push 0 7) Reach.here refl

abbrev called_again : Mpmc
called_again = or_new (step one_call (Event.try_pop 1))

called_again-Reach : Reach one_call 1 called_again
unfolding step new
called_again-Reach = Reach.next (Event.try_pop 1) Reach.here refl

positions_lem_example :
    (called_again.head ≤ called_again.tail)
    × (called_again.tail ≤ called_again.head + called_again.capacity)
    × (called_again.tail - called_again.head ≤ size one_call called_again)
    × (size one_call called_again ≤ called_again.capacity)
    × ((empty one_call called_again ≡ false) ⊎ (called_again.tail ≡ called_again.head))
    × ((full one_call called_again ≡ true)
        ⊎ (called_again.tail < called_again.head + called_again.capacity))
positions_lem_example = positions_lem 2 1 1 (omega arith) one_call-Reach called_again-Reach

-- Thread 0 pushes 7 into a queue of one slot.
abbrev push_7 : List Event
push_7 =
    Event.try_push 0 7
    ∷ Event.next_step 0 false
    ∷ Event.next_step 0 false
    ∷ Event.next_step 0 false
    ∷ Event.next_step 0 false
    ∷ []

-- Thread 1 claims the slot.
abbrev claim_7 : List Event
claim_7 =
    Event.try_pop 1
    ∷ Event.next_step 1 false
    ∷ Event.next_step 1 false
    ∷ Event.next_step 1 false
    ∷ Event.next_step 1 false
    ∷ []

-- Thread 2 claims its position for 8.
abbrev claim_8 : List Event
claim_8 =
    Event.try_push 2 8
    ∷ Event.next_step 2 false
    ∷ Event.next_step 2 false
    ∷ Event.next_step 2 false
    ∷ []

abbrev racing : Mpmc
racing = or_new (run_from (run_from (run_from (some (new 1)) push_7) claim_7) claim_8)

holds_seven : slot racing 0 ≡ some 7
unfolding step new thread_step
holds_seven = refl

racing_inside : 0 % racing.capacity < length racing.buffer
unfolding step new thread_step
racing_inside = omega arith

racing_same : 1 % racing.capacity ≡ 0 % racing.capacity
unfolding step new thread_step
racing_same = refl

racing_takes : racing.threads 1 ≡ Thread.pop_take 0
unfolding step new thread_step
racing_takes = refl

racing_writes : racing.threads 2 ≡ Thread.push_write 8 1
unfolding step new thread_step
racing_writes = refl

overwritten_lem_example :
    (u : Mpmc) × (run_from (some racing) (Event.next_step 2 false ∷ Event.next_step 1 false ∷ [])
      ≡ some u)
    × (u.replies 1 ≡ Reply.popped (some 8))
    × (u.replies 2 ≡ Reply.pushed true)
    × (slot u 1 ≡ none)
overwritten_lem_example =
    overwritten_lem racing 1 2 0 1 8 (λ e. absurd (omega arith)) racing_inside racing_same
      racing_takes racing_writes
