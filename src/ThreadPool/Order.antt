-- ===== src/ThreadPool/Order.antt =====
-- How many tasks a pool has queued.
use lmcore.Prelude.{◌+◌, ◌≡◌, arith, if◌then◌else◌, [], ◌∷◌, ◌++◌, length-append}
use lmcore.ThreadPool.Tags.{pending, total-store}
use lmcore.ThreadPool.{Item, ThreadPool, add_task, queue_size}

-- `AddTask` queues the task, normal or serial, unless the pool is shutting down.
pub add_task_size :
    (s : ThreadPool) (x : Item)
    → queue_size (add_task s x) ≡ (if s.shutdown then queue_size s else queue_size s + 1)
unfolding queue_size add_task
add_task_size s x = ground (
  arith,
  total-store s.serial_tasks x.tag (pending s.serial_tasks x.tag ++ (x ∷ [])),
  length-append (pending s.serial_tasks x.tag) (x ∷ []),
  length-append s.tasks (x ∷ []),
)
