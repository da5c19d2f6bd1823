-- ===== src/TaskQueue/Tests.antt =====
-- A queue with a task that is due, one that throws, and one that is canceled.
use lmcore.Prelude.{ℕ, ◌==◌, ◌≡◌, refl, true, false, if◌then◌else◌, [], ◌∷◌, none, All}
use lmcore.TaskQueue.{
  TaskState, TaskHandler, Phase, TaskQueue, uint64_max, new, start, enqueue_cleared, insert, take,
  check, begin_task, execute_begin, end_task, stop_end, cancel, get_result, step, Event, Reach,
}
use lmcore.TaskQueue.Sorted.{IsSorted, Reach-IsSorted}
use lmcore.TaskQueue.Cancel.{is_down, stop_end_lem}
use lmcore.TaskQueue.Stuck.{runs, is_busy, canceled_for_good, throw_blocks, executing_lem}

abbrev ready : ℕ → TaskHandler
ready t = record { state = TaskState.idle; result = none; periodic_time_us = uint64_max }

abbrev started : TaskQueue
started = start (new ready)

abbrev two_items : TaskQueue
two_items = record started {
  tasks =
      record { task = 1; execute_time_ns = 1000 }
      ∷ record { task = 2; execute_time_ns = 5000 }
      ∷ [];
}

stop_end_lem_example :
    ((stop_end two_items).tasks ≡ [])
    × All (λ x. is_down ((stop_end two_items).handlers x.task).state ≡ true) two_items.tasks
stop_end_lem_example = stop_end_lem two_items

abbrev one_queued : TaskQueue
one_queued = (enqueue_cleared started 1 false 0 0).1

abbrev one_taken : TaskQueue
one_taken = record one_queued { tasks = []; is_task_executing = true; phase = Phase.taken 1 }

Reach-one_taken : Reach (new ready) one_taken
unfolding step start new enqueue_cleared insert take
Reach-one_taken =
    Reach.next (Event.process 0 none)
      (Reach.next (Event.enqueue_call 1 false 0 0) (Reach.next Event.start_call Reach.here refl)
        refl)
      refl

Reach-IsSorted_example : IsSorted one_taken.tasks
Reach-IsSorted_example = Reach-IsSorted ready Reach-one_taken

executing_lem_example : one_taken.is_task_executing ≡ is_busy one_taken.phase
executing_lem_example = executing_lem ready Reach-one_taken

abbrev at_one : TaskQueue
at_one = begin_task (check one_taken 1) 1

throw_blocks_example :
    (get_result ((end_task at_one 1 none).handlers 1) ≡ none)
    × (runs (end_task at_one 1 none).phase 1 ≡ false)
unfolding begin_task check execute_begin enqueue_cleared start new
throw_blocks_example = throw_blocks at_one 1 refl Reach.here

-- Task 1 is canceled, and enqueued again.
abbrev canceled_one : TaskQueue
canceled_one = record started { handlers = λ u. if 1 == u then cancel (ready 1) else ready u }

abbrev back_again : TaskQueue
back_again = (enqueue_cleared canceled_one 1 false 0 0).1

canceled_for_good_example :
    ((back_again.handlers 1).state ≡ TaskState.canceled) × (runs back_again.phase 1 ≡ false)
unfolding step start new cancel
canceled_for_good_example =
    canceled_for_good {s = canceled_one} 1 refl refl
      (Reach.next (Event.enqueue_call 1 false 0 0) Reach.here refl)
