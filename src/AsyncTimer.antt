-- ===== src/AsyncTimer.antt =====
-- src/async_timer.cpp, include/lmcore/async_timer.h: `AsyncTimer`, whose thread hands callbacks to a
-- thread pool when they are due.
-- Each part of the code under the lock is one event. What `ScheduleOnce` and `ScheduleRepeating` do
-- before they take it, which is the tests, the id, the clock and the task object, is one event and what
-- they do under it another. `timerTasks_` and `timerMap_` point to the same task objects, which are a
-- store of their own here, by their ids. The clock is part of the state and moves by events; times are
-- nanoseconds, without a bound. The pool holds the wrapped callbacks that no worker has started; it
-- drops those that are added after its `Shutdown`. A wrapped callback is two events, its test of
-- `isCancelled` and the call, which no lock keeps together. `Stop` is called to its end before `Start` is
-- called again.
pub mod Table
pub mod Kept
pub mod Valid
pub mod Expired
pub mod Dead
pub mod Cancel
pub mod Late
mod Tests
use lmcore.Prelude.{
  ℕ, zero, suc, ◌+◌, ◌*◌, ◌≡◌, Bool, true, false, if◌then◌else◌, ltb, leb, ◌==◌, ◌&&◌, ◌||◌, not,
  List, [], ◌∷◌, ◌++◌, Option, none, some, length, erase,
}

-- `TimerTask`. The callback is named by the id.
pub record TimerTask : Type 0 where
  pub next_execution_time : ℕ
  pub interval : ℕ
  pub is_repeating : Bool
  pub is_cancelled : Bool

-- An entry of `timerTasks_`: its time, and the id of its task.
abbrev pub Entry : Type 0
Entry = ℕ × ℕ

-- Where `TimerWorker` is: it has not started or has returned; before the test of its loop; before it
-- takes the lock; in either of its waits.
pub data Phase : Type 0 where
  off testing locking wait_task : Phase
  wait_until : ℕ → Phase

pub record AsyncTimer : Type 0 where
  pub running : Bool
  pub should_stop : Bool
  pub next_timer_id : ℕ
  pub tasks : ℕ → TimerTask
  pub timer_tasks : List Entry
  pub timer_map : List ℕ
  -- The ids of the tasks that a call has made and not yet put into the tables.
  pub prepared : List ℕ
  pub phase : Phase
  pub pool : List ℕ
  pub pool_open : Bool
  -- The callbacks that a worker has found not to be cancelled and not yet called.
  pub tested : List ℕ
  pub now : ℕ
  -- The callbacks that were called, the last first.
  pub ran : List ℕ

-- What no id points to.
abbrev pub no_task : TimerTask
no_task = record {
  next_execution_time = 0;
  interval = 0;
  is_repeating = false;
  is_cancelled = false;
}

pub new : AsyncTimer
new = record {
  running = false;
  should_stop = false;
  next_timer_id = 1;
  tasks = λ i. no_task;
  timer_tasks = [];
  timer_map = [];
  prepared = [];
  phase = Phase.off;
  pool = [];
  pool_open = true;
  tested = [];
  now = 0;
  ran = [];
}

abbrev pub update : (ℕ → TimerTask) → ℕ → TimerTask → ℕ → TimerTask
update ts i t j = if i == j then t else ts j

-- `multimap::emplace`: behind the entries with a time that is no later.
pub emplace : List Entry → Entry → List Entry
emplace [] e = e ∷ []
emplace (f ∷ es) e = let rest = emplace es e in if ltb e.0 f.0 then e ∷ f ∷ es else f ∷ rest

pub start : AsyncTimer → AsyncTimer
start s =
    if s.running then s else record s { should_stop = false; running = true; phase = Phase.testing }

-- `Stop` up to the join, and after it.
pub stop_begin : AsyncTimer → AsyncTimer
stop_begin s = if s.running then record s { should_stop = true; running = false } else s

pub stop_end : AsyncTimer → AsyncTimer
stop_end s = record s { pool_open = false }

abbrev pub ns_of_ms : ℕ → ℕ
ns_of_ms ms = ms * 1000000

-- What both calls do with a task before they take the lock.
pub schedule : AsyncTimer → TimerTask → AsyncTimer
schedule s task =
    let id = s.next_timer_id in
    record s { next_timer_id = suc id; tasks = update s.tasks id task; prepared = id ∷ s.prepared }

-- `callback`: whether it can be called. The id that the call will return; 0 where it fails.
pub schedule_once : AsyncTimer → Bool → ℕ → ℕ × AsyncTimer
schedule_once s callback delay_ms =
    let task : TimerTask = record {
      next_execution_time = s.now + ns_of_ms delay_ms;
      interval = 0;
      is_repeating = false;
      is_cancelled = false;
    } in
    if not callback
    then (0, s)
    else if not s.running
    then (0, s)
    else (s.next_timer_id, schedule s task)

pub schedule_repeating : AsyncTimer → Bool → ℕ → ℕ → ℕ × AsyncTimer
schedule_repeating s callback interval_ms initial_delay_ms =
    let task : TimerTask = record {
      next_execution_time =
          s.now + ns_of_ms (if ltb 0 initial_delay_ms then initial_delay_ms else interval_ms);
      interval = ns_of_ms interval_ms;
      is_repeating = true;
      is_cancelled = false;
    } in
    if not callback
    then (0, s)
    else if interval_ms == 0
    then (0, s)
    else if not s.running
    then (0, s)
    else (s.next_timer_id, schedule s task)

abbrev pub has : List ℕ → ℕ → Bool
has [] i = false
has (x ∷ xs) i = (x == i) || has xs i

abbrev pub cancelled : TimerTask → TimerTask
cancelled t = record t { is_cancelled = true }

pub cancel : AsyncTimer → ℕ → Bool × AsyncTimer
cancel s id =
    if has s.timer_map id
    then (true, record s { tasks = update s.tasks id (cancelled (s.tasks id)) })
    else (false, s)

pub cancel_each : List ℕ → (ℕ → TimerTask) → ℕ → TimerTask
cancel_each [] ts = ts
cancel_each (i ∷ is) ts = cancel_each is (update ts i (cancelled (ts i)))

pub cancel_all : AsyncTimer → AsyncTimer
cancel_all s = record s { tasks = cancel_each s.timer_map s.tasks }

pub get_active_timer_count : AsyncTimer → ℕ
get_active_timer_count s = length s.timer_map

-- The first loop of `ExecuteExpiredTimers`: the expired tasks, and the entries that stay.
pub split_expired : (ℕ → TimerTask) → ℕ → List Entry → List ℕ × List Entry
split_expired ts now [] = ([], [])
split_expired ts now (e ∷ es) =
    let (expired, rest) = split_expired ts now es in
    if leb e.0 now
    then ((if (ts e.1).is_cancelled then expired else e.1 ∷ expired), rest)
    else ([], e ∷ es)

-- The second loop: the pool gets what is still not cancelled.
pub submit : AsyncTimer → List ℕ → AsyncTimer
submit s [] = s
submit s (i ∷ is) =
    submit
      (record s {
        pool = (if not (s.tasks i).is_cancelled && s.pool_open then s.pool ++ (i ∷ []) else s.pool);
      })
      is

-- The third loop.
abbrev pub reschedule_one : AsyncTimer → ℕ → AsyncTimer
reschedule_one s i =
    let task = s.tasks i in
    let time = s.now + task.interval in
    if not task.is_cancelled && task.is_repeating
    then record s {
      tasks = update s.tasks i (record task { next_execution_time = time });
      timer_tasks = emplace s.timer_tasks (time, i);
    }
    else if not task.is_repeating
    then record s { timer_map = erase i s.timer_map }
    else s

pub reschedule : AsyncTimer → List ℕ → AsyncTimer
reschedule s [] = s
reschedule s (i ∷ is) = reschedule (reschedule_one s i) is

pub execute_expired_timers : AsyncTimer → AsyncTimer
execute_expired_timers s =
    let (expired, rest) = split_expired s.tasks s.now s.timer_tasks in
    reschedule (submit (record s { timer_tasks = rest }) expired) expired

-- The body of the worker's loop, under the lock.
abbrev pub work_locked : AsyncTimer → List Entry → AsyncTimer
work_locked s [] = record s { phase = Phase.wait_task }
work_locked s (e ∷ es) =
    if leb e.0 s.now
    then record (execute_expired_timers s) { phase = Phase.testing }
    else record s { phase = Phase.wait_until e.0 }

abbrev pub is_empty : List Entry → Bool
is_empty [] = true
is_empty _ = false

-- A step of `TimerWorker`; `none` where it waits on.
pub work : AsyncTimer → Phase → Option AsyncTimer
work s Phase.off = none
work s Phase.testing =
    some (record s { phase = (if s.should_stop then Phase.off else Phase.locking) })
work s Phase.locking = some (work_locked s s.timer_tasks)
work s Phase.wait_task =
    if not (is_empty s.timer_tasks) || s.should_stop
    then some (record s { phase = Phase.testing })
    else none
work s (Phase.wait_until time) =
    if s.should_stop
    then some (record s { phase = Phase.off })
    else if leb time s.now
    then some (record s { phase = Phase.testing })
    else none

abbrev pub put_back : ℕ → Option (ℕ × List ℕ) → Option (ℕ × List ℕ)
put_back x none = none
put_back x (some (i, rest)) = some (i, x ∷ rest)

abbrev pub take_at : ℕ → List ℕ → Option (ℕ × List ℕ)
take_at k [] = none
take_at zero (x ∷ xs) = some (x, xs)
take_at (suc k) (x ∷ xs) = put_back x (take_at k xs)

-- What the calls that schedule do with a task under the lock.
abbrev pub insert_taken : AsyncTimer → Option (ℕ × List ℕ) → Option AsyncTimer
insert_taken s none = none
insert_taken s (some (i, rest)) = some (record s {
  prepared = rest;
  timer_tasks = emplace s.timer_tasks ((s.tasks i).next_execution_time, i);
  timer_map = i ∷ erase i s.timer_map;
})

pub insert_task : AsyncTimer → ℕ → Option AsyncTimer
insert_task s k = insert_taken s (take_at k s.prepared)

-- A worker of the pool starts the wrapped callback of a task: the test.
abbrev pub test_taken : AsyncTimer → Option (ℕ × List ℕ) → Option AsyncTimer
test_taken s none = none
test_taken s (some (i, rest)) = some (record s {
  pool = rest;
  tested = (if (s.tasks i).is_cancelled then s.tested else i ∷ s.tested);
})

pub test_callback : AsyncTimer → ℕ → Option AsyncTimer
test_callback s k = test_taken s (take_at k s.pool)

-- The worker goes on to call the callback.
abbrev pub call_taken : AsyncTimer → Option (ℕ × List ℕ) → Option AsyncTimer
call_taken s none = none
call_taken s (some (i, rest)) = some (record s { tested = rest; ran = i ∷ s.ran })

pub call_callback : AsyncTimer → ℕ → Option AsyncTimer
call_callback s k = call_taken s (take_at k s.tested)

pub data Event : Type 0 where
  start_call stop_begin_call stop_end_call cancel_all_call work_step : Event
  schedule_once_call : Bool → ℕ → Event
  schedule_repeating_call : Bool → ℕ → ℕ → Event
  cancel_call insert_step test_step call_step tick : ℕ → Event

abbrev pub is_off : Phase → Bool
is_off Phase.off = true
is_off _ = false

-- `none`: the event cannot happen now. `Stop` has joined the thread when it goes on.
pub step : AsyncTimer → Event → Option AsyncTimer
step s Event.start_call = if s.running || is_off s.phase then some (start s) else none
step s Event.stop_begin_call = some (stop_begin s)
step s Event.stop_end_call = if s.should_stop && is_off s.phase then some (stop_end s) else none
step s Event.cancel_all_call = some (cancel_all s)
step s Event.work_step = work s s.phase
step s (Event.schedule_once_call c d) = some (schedule_once s c d).1
step s (Event.schedule_repeating_call c i d) = some (schedule_repeating s c i d).1
step s (Event.cancel_call i) = some (cancel s i).1
step s (Event.insert_step k) = insert_task s k
step s (Event.test_step k) = test_callback s k
step s (Event.call_step k) = call_callback s k
step s (Event.tick d) = some (record s { now = s.now + d })

-- The events that lead from a state to another.
pub data Run (s : AsyncTimer) : AsyncTimer → Type 0 where
  here : Run s s
  next : {t u : AsyncTimer} (e : Event) → Run s t → step t e ≡ some u → Run s u
