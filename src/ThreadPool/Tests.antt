-- ===== src/ThreadPool/Tests.antt =====
-- A pool of one worker, which runs tasks of the serial tag 7.
use lmcore.Prelude.{
  ℕ, ◌==◌, false, ◌+◌, ◌≤◌, ◌≡◌, refl, arith, true, false, ◌||◌, if◌then◌else◌, [], ◌∷◌,
}
use lmcore.ThreadPool.Tags.{pending, store}
use lmcore.ThreadPool.{
  Item, ThreadPool, new, is_empty, add_task, wake, finish, step, Event, Reach, queue_size,
}
use lmcore.ThreadPool.Serial.{count_tag, at_most_one}
use lmcore.ThreadPool.Waiting.{contains, never_forgotten}
use lmcore.ThreadPool.Order.{add_task_size}
use lmcore.ThreadPool.Held.{held, accepted, ended, held-run}

abbrev item : ℕ → Item
item n = record { task = n; tag = 7 }

abbrev start : ThreadPool
start = new 1 1

abbrev queued : ThreadPool
queued = add_task start (item 1)

abbrev parked : ThreadPool
parked = record queued { idle = 1 }

-- Task 1 is with the worker.
abbrev at_work : ThreadPool
at_work = wake parked

-- Task 2 waits for it.
abbrev waiting : ThreadPool
waiting = add_task at_work (item 2)

-- Task 1 has ended, and the worker is back in the wait.
abbrev between : ThreadPool
between = record waiting {
  idle = 1;
  executing = [];
  running_serial_tags = λ u. if 7 == u then false else waiting.running_serial_tags u;
  available_serial_tags = 7 ∷ [];
  free_items = 1;
}

waiting_pending : pending waiting.serial_tasks 7 ≡ item 2 ∷ []
unfolding add_task wake new pending store
waiting_pending = refl

Reach-waiting : Reach start waiting
unfolding step add_task wake new pending store
Reach-waiting =
    Reach.next (Event.add (item 2))
      (Reach.next Event.wake_up
        (Reach.next Event.park (Reach.next (Event.add (item 1)) Reach.here refl) refl) refl)
      refl

Reach-between : Reach start between
unfolding step finish add_task wake new pending store
Reach-between = Reach.next Event.park (Reach.next (Event.end_of 0) Reach-waiting refl) refl

at_most_one_example :
    (count_tag 7 waiting.executing ≤ 1)
    × (count_tag 7 waiting.tasks + count_tag 7 waiting.executing
        ≡ (if waiting.running_serial_tags 7 then 1 else 0))
at_most_one_example = at_most_one 1 1 7 Reach-waiting (omega arith)

never_forgotten_example :
    (is_empty (pending waiting.serial_tasks 7)
      || (waiting.running_serial_tags 7 || contains waiting.available_serial_tags 7))
    ≡ true
never_forgotten_example = never_forgotten 1 1 7 Reach-waiting

held-run_example :
    held (λ x. x.task) (wake between) + ended (λ x. x.task) between Event.wake_up
    ≡ held (λ x. x.task) between + accepted (λ x. x.task) between Event.wake_up
unfolding step add_task wake new
held-run_example = held-run (λ x. x.task) 1 1 Event.wake_up Reach-between refl

add_task_size_example :
    queue_size (add_task waiting (item 4))
    ≡ (if waiting.shutdown then queue_size waiting else queue_size waiting + 1)
add_task_size_example = add_task_size waiting (item 4)
