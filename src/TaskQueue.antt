-- ===== src/TaskQueue.antt =====
-- src/task_queue.cpp, include/lmcore/task_queue.h: `TaskHandler` and `TaskQueue`, tasks with an
-- execution time that one thread runs.
-- A handler is named by a number, and several items of the queue may share it, so the handlers are
-- a store of their own. Each part of the code between a lock and its release is one event. Times are
-- arguments: the clock is not under the code's control. `Stop` is called to its end before `Start`
-- is called again.
pub mod Sorted
pub mod Cancel
pub mod Stuck
mod Tests
use lmcore.Prelude.{
  ℕ, zero, suc, ◌+◌, ◌-◌, ◌*◌, ◌^◌, ◌≡◌, Bool, true, false, if◌then◌else◌, ltb, leb, ◌==◌, ◌||◌,
  List, [], ◌∷◌, Option, none, some,
}

pub data TaskState : Type 0 where
  idle running canceled finished : TaskState

-- `TaskHandler<T>`, whose result is a number.
pub record TaskHandler : Type 0 where
  pub state : TaskState
  pub result : Option ℕ
  -- `attribute_.periodicTimeUs_`
  pub periodic_time_us : ℕ

abbrev pub uint64_max : ℕ
uint64_max = 2 ^ 64 - 1

abbrev pub is_idle : TaskState → Bool
is_idle TaskState.idle = true
is_idle _ = false

abbrev pub is_running : TaskState → Bool
is_running TaskState.running = true
is_running _ = false

abbrev pub is_canceled : TaskState → Bool
is_canceled TaskState.canceled = true
is_canceled _ = false

abbrev pub is_finished : TaskState → Bool
is_finished TaskState.finished = true
is_finished _ = false

-- `ClearResult`: the result that it returns, and the handler then.
pub clear_result : TaskHandler → Option ℕ × TaskHandler
clear_result h =
    if is_finished h.state
    then (h.result, record h { state = TaskState.idle; result = none })
    else (h.result, h)

-- `Clear`
pub clear : TaskHandler → TaskHandler
clear h = (clear_result h).1

-- `GetResult`; `none` where it waits.
pub get_result : TaskHandler → Option (Option ℕ × TaskHandler)
get_result h = if is_finished h.state || is_canceled h.state then some (clear_result h) else none

-- `Cancel`
pub cancel : TaskHandler → TaskHandler
cancel h = if is_running h.state then h else record h { state = TaskState.canceled }

-- `Execute` up to the call of the task, and whether it calls it.
pub execute_begin : TaskHandler → Bool × TaskHandler
execute_begin h =
    if is_idle h.state then (true, record h { state = TaskState.running }) else (false, h)

-- The rest of `Execute`, with what the task returned; nothing more happens where it threw.
pub execute_end : TaskHandler → Option ℕ → TaskHandler
execute_end h none = h
execute_end h (some v) = record h { state = TaskState.finished; result = some v }

-- `TaskHandlerItem`
pub record Item : Type 0 where
  pub task : ℕ
  pub execute_time_ns : ℕ

-- Where `TaskProcessor` is: it has not started or has returned; it is in its wait; it has taken a
-- task, found it not canceled, runs it, has run it, is to enqueue it
-- again, and has cleared it for that.
pub data Phase : Type 0 where
  off waiting : Phase
  taken checked at_work ended again cleared : ℕ → Phase

pub record TaskQueue : Type 0 where
  pub is_exit : Bool
  -- `thread_ != nullptr`
  pub has_thread : Bool
  pub tasks : List Item
  pub is_task_executing : Bool
  pub phase : Phase
  pub handlers : ℕ → TaskHandler

-- A queue over handlers that stand ready.
pub new : (ℕ → TaskHandler) → TaskQueue
new handlers = record {
  is_exit = true;
  has_thread = false;
  tasks = [];
  is_task_executing = false;
  phase = Phase.off;
  handlers = handlers;
}

abbrev pub update : (ℕ → TaskHandler) → ℕ → TaskHandler → ℕ → TaskHandler
update hs t h u = if t == u then h else hs u

abbrev pub set_handler : TaskQueue → ℕ → TaskHandler → TaskQueue
set_handler s t h = record s { handlers = update s.handlers t h }

pub start : TaskQueue → TaskQueue
start s =
    if s.has_thread
    then s
    else record s { is_exit = false; has_thread = true; phase = Phase.waiting }

-- `CancelNotExecutedTaskLocked`
pub cancel_all : List Item → (ℕ → TaskHandler) → ℕ → TaskHandler
cancel_all [] hs = hs
cancel_all (x ∷ xs) hs = cancel_all xs (update hs x.task (cancel (hs x.task)))

abbrev pub cancel_not_executed : TaskQueue → TaskQueue
cancel_not_executed s = record s { tasks = []; handlers = cancel_all s.tasks s.handlers }

-- `Stop` up to the join, and after it.
pub stop_begin : TaskQueue → TaskQueue
stop_begin s = if s.is_exit then s else record s { is_exit = true; has_thread = false }

pub stop_end : TaskQueue → TaskQueue
stop_end s = cancel_not_executed s

-- Before the first item that is due later.
pub insert : List Item → Item → List Item
insert [] x = x ∷ []
insert (y ∷ ys) x =
    let rest = insert ys x in
    if ltb x.execute_time_ns y.execute_time_ns then x ∷ y ∷ ys else y ∷ rest

abbrev pub max_delay_us : ℕ
max_delay_us = 10000000

-- `EnqueueTask` after `Clear`: whether it returns 0, and the queue.
pub enqueue_cleared : TaskQueue → ℕ → Bool → ℕ → ℕ → Bool × TaskQueue
enqueue_cleared s t cancel_others delay_us now =
    let s' = if cancel_others then cancel_not_executed s else s in
    let item : Item = record { task = t; execute_time_ns = delay_us * 1000 + now } in
    if leb max_delay_us delay_us
    then (false, s)
    else if s.is_exit
    then (false, s)
    else if leb (uint64_max - delay_us * 1000) now
    then (false, s')
    else (true, record s' { tasks = insert s'.tasks item })

pub clear_task : TaskQueue → ℕ → TaskQueue
clear_task s t = set_handler s t (clear (s.handlers t))

pub enqueue_task : TaskQueue → ℕ → Bool → ℕ → ℕ → Bool × TaskQueue
enqueue_task s t cancel_others delay_us now =
    enqueue_cleared (clear_task s t) t cancel_others delay_us now

abbrev pub take_due : TaskQueue → List Item → ℕ → Option TaskQueue
take_due s [] now = none
take_due s (x ∷ xs) now =
    if leb x.execute_time_ns now
    then some (record s { tasks = xs; is_task_executing = true; phase = Phase.taken x.task })
    else some s

-- The loop of `TaskProcessor`, from the return of its wait to the release of the lock.
pub take : TaskQueue → ℕ → Option TaskQueue
take s now = if s.is_exit then some (record s { phase = Phase.off }) else take_due s s.tasks now

pub check : TaskQueue → ℕ → TaskQueue
check s t =
    if is_canceled (s.handlers t).state
    then record s { is_task_executing = false; phase = Phase.waiting }
    else record s { phase = Phase.checked t }

pub begin_task : TaskQueue → ℕ → TaskQueue
begin_task s t =
    let r = execute_begin (s.handlers t) in
    record (set_handler s t r.1) { phase = (if r.0 then Phase.at_work t else Phase.ended t) }

pub end_task : TaskQueue → ℕ → Option ℕ → TaskQueue
end_task s t v = record (set_handler s t (execute_end (s.handlers t) v)) { phase = Phase.ended t }

pub finish : TaskQueue → ℕ → TaskQueue
finish s t = record s {
  is_task_executing = false;
  phase = (if (s.handlers t).periodic_time_us == uint64_max then Phase.waiting else Phase.again t);
}

-- The processor's call of `EnqueueTask`, of which it ignores the result.
pub again_clear : TaskQueue → ℕ → TaskQueue
again_clear s t = record (clear_task s t) { phase = Phase.cleared t }

pub again_task : TaskQueue → ℕ → ℕ → TaskQueue
again_task s t now = record (enqueue_cleared s t false (s.handlers t).periodic_time_us now).1 {
  phase = Phase.waiting;
}

-- A client's `EnqueueTask` is a `clear_call` and then an `enqueue_call`.
pub data Event : Type 0 where
  start_call stop_begin_call stop_end_call : Event
  clear_call cancel_call get_result_call : ℕ → Event
  enqueue_call : ℕ → Bool → ℕ → ℕ → Event
  -- A step of the processor: the time, and what the task returns where it is at the end of one.
  process : ℕ → Option ℕ → Event

abbrev pub process_from : Phase → TaskQueue → ℕ → Option ℕ → Option TaskQueue
process_from Phase.off s now v = none
process_from Phase.waiting s now v = take s now
process_from (Phase.taken t) s now v = some (check s t)
process_from (Phase.checked t) s now v = some (begin_task s t)
process_from (Phase.at_work t) s now v = some (end_task s t v)
process_from (Phase.ended t) s now v = some (finish s t)
process_from (Phase.again t) s now v = some (again_clear s t)
process_from (Phase.cleared t) s now v = some (again_task s t now)

abbrev pub store_result : TaskQueue → ℕ → Option (Option ℕ × TaskHandler) → Option TaskQueue
store_result s t none = none
store_result s t (some (v, h)) = some (set_handler s t h)

abbrev pub is_off : Phase → Bool
is_off Phase.off = true
is_off _ = false

-- `none`: the event cannot happen now. `Stop` has joined the thread when it goes on.
pub step : TaskQueue → Event → Option TaskQueue
step s Event.start_call = if s.has_thread || is_off s.phase then some (start s) else none
step s Event.stop_begin_call = some (stop_begin s)
step s Event.stop_end_call = if is_off s.phase then some (stop_end s) else none
step s (Event.clear_call t) = some (clear_task s t)
step s (Event.cancel_call t) = some (set_handler s t (cancel (s.handlers t)))
step s (Event.get_result_call t) = store_result s t (get_result (s.handlers t))
step s (Event.enqueue_call t c d now) = some (enqueue_cleared s t c d now).1
step s (Event.process now v) = process_from s.phase s now v

pub data Reach (s : TaskQueue) : TaskQueue → Type 0 where
  here : Reach s s
  next : {t u : TaskQueue} (e : Event) → Reach s t → step t e ≡ some u → Reach s u
