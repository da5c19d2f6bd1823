-- ===== src/AsyncTimer/Tests.antt =====
-- Runs of a timer, and the theorems at concrete states.
use lmcore.Prelude.{
  ℕ, ◌+◌, ◌≤◌, ◌<◌, ◌≡◌, refl, arith, true, false, List, [], ◌∷◌, ◌++◌, Option, none, some, count,
}
use lmcore.AsyncTimer.{
  Phase, AsyncTimer, new, has, emplace, start, schedule, schedule_once, insert_task, cancel,
  execute_expired_timers, work, get_active_timer_count, Event, step, Run,
}
use lmcore.AsyncTimer.Table.{due}
use lmcore.AsyncTimer.Kept.{IsValid}
use lmcore.AsyncTimer.Valid.{Run-IsValid}
use lmcore.AsyncTimer.Expired.{expired_lem}
use lmcore.AsyncTimer.Cancel.{cancelled_lem, cancelled_counted}
use lmcore.AsyncTimer.Late.{elapsed, run_from, waits_on}

abbrev or_new : Option AsyncTimer → AsyncTimer
or_new none = new
or_new (some s) = s

abbrev started : AsyncTimer
started = or_new (step new Event.start_call)

-- Timer 1, due after a second.
abbrev scheduled : AsyncTimer
scheduled =
    or_new (run_from (some started) (Event.schedule_once_call true 1000 ∷ Event.insert_step 0 ∷ []))

scheduled-Run : Run new scheduled
unfolding step new start schedule_once schedule insert_task emplace
scheduled-Run =
    Run.next (Event.insert_step 0)
      (Run.next (Event.schedule_once_call true 1000) (Run.next Event.start_call Run.here refl) refl)
      refl

Run-IsValid_example : IsValid scheduled
Run-IsValid_example = Run-IsValid scheduled-Run

-- A second later.
abbrev later : AsyncTimer
later = or_new (step scheduled (Event.tick 1000000000))

later-Run : Run new later
unfolding step new start schedule_once schedule insert_task emplace
later-Run = Run.next (Event.tick 1000000000) scheduled-Run refl

later-open : later.pool_open ≡ true
unfolding step new start schedule_once schedule insert_task emplace
later-open = refl

expired_lem_example :
    (execute_expired_timers later).pool ≡ later.pool ++ due later.tasks later.now later.timer_tasks
expired_lem_example = expired_lem later-Run later-open

expired_one : due later.tasks later.now later.timer_tasks ≡ 1 ∷ []
unfolding step new start schedule_once schedule insert_task emplace
expired_one = refl

scheduled-has : has scheduled.timer_map 1 ≡ true
unfolding step new start schedule_once schedule insert_task emplace
scheduled-has = refl

cancelled_later :
    Run
      (cancel scheduled 1).1
      (record (cancel scheduled 1).1 { now = (cancel scheduled 1).1.now + 5 })
unfolding step
cancelled_later = Run.next (Event.tick 5) Run.here refl

cancelled_lem_example :
    ((cancel scheduled 1).0 ≡ true)
    × (count 1 (cancel scheduled 1).1.tested + count 1 (cancel scheduled 1).1.ran
        ≡ count 1 scheduled.tested + count 1 scheduled.ran)
cancelled_lem_example = cancelled_lem 1 scheduled-Run scheduled-has cancelled_later

cancelled_counted_example :
    (count 1 (cancel scheduled 1).1.timer_map ≡ 1)
    × (1
        ≤ get_active_timer_count
            (record (cancel scheduled 1).1 { now = (cancel scheduled 1).1.now + 5 }))
cancelled_counted_example = cancelled_counted 1 scheduled-Run scheduled-has cancelled_later

-- The worker waits for timer 1.
abbrev waiting : AsyncTimer
waiting = or_new (run_from (some scheduled) (Event.work_step ∷ Event.work_step ∷ []))

-- Timer 2 is due after a millisecond; half a second passes.
abbrev meanwhile : List Event
meanwhile = Event.schedule_once_call true 1 ∷ Event.insert_step 0 ∷ Event.tick 500000000 ∷ []

abbrev overdue : AsyncTimer
overdue = or_new (run_from (some waiting) meanwhile)

waiting-running : waiting.running ≡ true
unfolding step new start schedule_once schedule insert_task emplace work
waiting-running = refl

waiting-not_stopped : waiting.should_stop ≡ false
unfolding step new start schedule_once schedule insert_task emplace work
waiting-not_stopped = refl

waiting-phase : waiting.phase ≡ Phase.wait_until 1000000000
unfolding step new start schedule_once schedule insert_task emplace work
waiting-phase = refl

waiting-early : waiting.now + elapsed meanwhile < 1000000000
unfolding step new start schedule_once schedule insert_task emplace work
waiting-early = omega arith

waiting-run : run_from (some waiting) meanwhile ≡ some overdue
unfolding step new start schedule_once schedule insert_task emplace work
waiting-run = refl

waits_on_example :
    (overdue.phase ≡ Phase.wait_until 1000000000)
    × ((j : ℕ)
        → count j overdue.pool + count j overdue.tested + count j overdue.ran
          ≤ count j waiting.pool + count j waiting.tested + count j waiting.ran)
waits_on_example =
    waits_on waiting overdue 1000000000 meanwhile waiting-running waiting-not_stopped waiting-phase
      waiting-early (refl, (refl, (refl, tt))) waiting-run

overdue_is_due : due overdue.tasks overdue.now overdue.timer_tasks ≡ 2 ∷ []
unfolding step new start schedule_once schedule insert_task emplace work
overdue_is_due = refl
