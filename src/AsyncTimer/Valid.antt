-- ===== src/AsyncTimer/Valid.antt =====
-- Every event keeps the tables valid.
use lmcore.Prelude.{
  ℕ, ◌≡◌, refl, sym, subst, arith, Bool, true, false, if◌then◌else◌, leb, ◌==◌, ◌&&◌, ◌||◌, not,
  List, [], ◌∷◌, ◌++◌, if-both, Option, none, some, IfSome, IfSome-some,
}
use lmcore.AsyncTimer.{
  TimerTask, Entry, Phase, AsyncTimer, new, update, start, stop_begin, stop_end, schedule_once,
  schedule_repeating, cancelled, cancel, has, cancel_each, cancel_all, split_expired, submit,
  execute_expired_timers, work_locked, work, is_empty, take_at, test_taken, test_callback,
  call_taken, call_callback, Event, is_off, step, Run,
}
use lmcore.AsyncTimer.Table.{count-split_expired, split_expired-IsSorted}
use lmcore.AsyncTimer.Kept.{
  IsWaiting, IsValid, new-IsValid, active_of_update, schedule-IsValid, insert_task-IsValid,
  reschedule-IsValid,
}

-- The pool is all that `submit` changes.
pub submit-frame :
    (s : AsyncTimer) (is : List ℕ) → submit s is ≡ record s { pool = (submit s is).pool }
unfolding submit
submit-frame s [] = refl
submit-frame s (i ∷ is) =
    submit-frame
      (record s {
        pool = (if not (s.tasks i).is_cancelled && s.pool_open then s.pool ++ (i ∷ []) else s.pool);
      })
      is

execute-IsValid : (s : AsyncTimer) → IsValid s → IsValid (execute_expired_timers s)
unfolding execute_expired_timers
execute-IsValid s v =
    let (expired, rest) = split_expired s.tasks s.now s.timer_tasks in
    let t = record s { timer_tasks = rest } in
    let split = λ (j : ℕ). count-split_expired s.tasks s.now s.timer_tasks j in
    reschedule-IsValid (submit t expired) expired (
      subst (λ u. IsWaiting u expired) (sym (submit-frame t expired))
        (record {
          sorted = split_expired-IsSorted s.tasks s.now s.timer_tasks v.sorted;
          mapped = λ j. omega (arith, (split j).1, v.mapped j);
          once = v.once;
          fresh = v.fresh;
          single = v.single;
          unused = v.unused;
          kept = λ j h. omega (arith, (split j).0 h, v.kept j h);
        }))

-- Tasks that no more are active where they were not before.
pub IsQuieter : (ℕ → TimerTask) → (ℕ → TimerTask) → Type 0
IsQuieter ts us = (j : ℕ) → (us j).is_cancelled ≡ false → (ts j).is_cancelled ≡ false

quieter-IsValid :
    (s : AsyncTimer) (us : ℕ → TimerTask)
    → IsQuieter s.tasks us
    → IsValid s
    → IsValid (record s { tasks = us })
unfolding IsQuieter
quieter-IsValid s us q v = record {
  sorted = v.sorted;
  mapped = v.mapped;
  once = v.once;
  fresh = v.fresh;
  single = v.single;
  unused = v.unused;
  kept = λ j h. v.kept j (q j h);
}

cancel_each-IsQuieter : (is : List ℕ) (ts : ℕ → TimerTask) → IsQuieter ts (cancel_each is ts)
unfolding IsQuieter cancel_each
cancel_each-IsQuieter [] ts j h = h
cancel_each-IsQuieter (i ∷ is) ts j h =
    active_of_update ts i j (cancel_each-IsQuieter is (update ts i (cancelled (ts i))) j h)

cancel-IsValid : (s : AsyncTimer) (i : ℕ) → IsValid s → IsValid (cancel s i).1
unfolding cancel IsQuieter
cancel-IsValid s i v =
    if-both (λ (r : Bool × AsyncTimer). IsValid r.1) (has s.timer_map i)
      (true, record s { tasks = update s.tasks i (cancelled (s.tasks i)) }) (false, s)
      (λ e.
        quieter-IsValid s (update s.tasks i (cancelled (s.tasks i))) (active_of_update s.tasks i) v)
      (λ e. v)

work_locked-IsValid : (s : AsyncTimer) (es : List Entry) → IsValid s → IsValid (work_locked s es)
work_locked-IsValid s [] v = v
work_locked-IsValid s (e ∷ es) v =
    if-both IsValid (leb e.0 s.now) (record (execute_expired_timers s) { phase = Phase.testing })
      (record s { phase = Phase.wait_until e.0 }) (λ h. execute-IsValid s v) (λ h. v)

work-IsValid : (s : AsyncTimer) (p : Phase) → IsValid s → IfSome IsValid (work s p)
unfolding work
work-IsValid s Phase.off v = tt
work-IsValid s Phase.testing v = v
work-IsValid s Phase.locking v = work_locked-IsValid s s.timer_tasks v
work-IsValid s Phase.wait_task v =
    if-both (IfSome IsValid) (not (is_empty s.timer_tasks) || s.should_stop)
      (some (record s { phase = Phase.testing })) none (λ h. v) (λ h. tt)
work-IsValid s (Phase.wait_until time) v =
    if-both (IfSome IsValid) s.should_stop (some (record s { phase = Phase.off }))
      (if leb time s.now then some (record s { phase = Phase.testing }) else none) (λ h. v)
      (λ h.
        if-both (IfSome IsValid) (leb time s.now) (some (record s { phase = Phase.testing })) none
          (λ k. v) (λ k. tt))

schedule_once-IsValid :
    (s : AsyncTimer) (c : Bool) (d : ℕ) → IsValid s → IsValid (schedule_once s c d).1
unfolding schedule_once
schedule_once-IsValid s c d v =
    let IsFine : ℕ × AsyncTimer → Type 0 = λ r. IsValid r.1 in
    if-both IsFine (not c) _ _ (λ e. v)
      (λ e. if-both IsFine (not s.running) _ _ (λ f. v) (λ f. schedule-IsValid s _ v))

schedule_repeating-IsValid :
    (s : AsyncTimer) (c : Bool) (i d : ℕ) → IsValid s → IsValid (schedule_repeating s c i d).1
unfolding schedule_repeating
schedule_repeating-IsValid s c i d v =
    let IsFine : ℕ × AsyncTimer → Type 0 = λ r. IsValid r.1 in
    if-both IsFine (not c) _ _ (λ e. v)
      (λ e.
        if-both IsFine (i == 0) _ _ (λ f. v)
          (λ f. if-both IsFine (not s.running) _ _ (λ g. v) (λ g. schedule-IsValid s _ v)))

test_taken-IsValid :
    (s : AsyncTimer) (o : Option (ℕ × List ℕ)) → IsValid s → IfSome IsValid (test_taken s o)
test_taken-IsValid s none v = tt
test_taken-IsValid s (some (i, rest)) v = v

call_taken-IsValid :
    (s : AsyncTimer) (o : Option (ℕ × List ℕ)) → IsValid s → IfSome IsValid (call_taken s o)
call_taken-IsValid s none v = tt
call_taken-IsValid s (some (i, rest)) v = v

pub step-IsValid : (s : AsyncTimer) (e : Event) → IsValid s → IfSome IsValid (step s e)
unfolding step start stop_begin stop_end cancel_all test_callback call_callback
step-IsValid s Event.start_call v =
    if-both (IfSome IsValid) (s.running || is_off s.phase) _ _
      (λ _. if-both IsValid s.running _ _ (λ _. v) (λ _. v)) (λ _. tt)
step-IsValid s Event.stop_begin_call v = if-both IsValid s.running _ _ (λ _. v) (λ _. v)
step-IsValid s Event.stop_end_call v =
    if-both (IfSome IsValid) (s.should_stop && is_off s.phase) _ _ (λ _. v) (λ _. tt)
step-IsValid s Event.cancel_all_call v =
    quieter-IsValid s (cancel_each s.timer_map s.tasks) (cancel_each-IsQuieter s.timer_map s.tasks)
      v
step-IsValid s Event.work_step v = work-IsValid s s.phase v
step-IsValid s (Event.schedule_once_call c d) v = schedule_once-IsValid s c d v
step-IsValid s (Event.schedule_repeating_call c i d) v = schedule_repeating-IsValid s c i d v
step-IsValid s (Event.cancel_call i) v = cancel-IsValid s i v
step-IsValid s (Event.insert_step k) v = insert_task-IsValid s k v
step-IsValid s (Event.test_step k) v = test_taken-IsValid s (take_at k s.pool) v
step-IsValid s (Event.call_step k) v = call_taken-IsValid s (take_at k s.tested) v
step-IsValid s (Event.tick d) v = v

-- Whatever calls clients make and however the worker's and the pool's steps fall between them,
-- `timerTasks_` is sorted, `timerMap_` has each of its tasks once, and a task of `timerMap_` that is
-- not cancelled is scheduled, once.
pub Run-IsValid : {s : AsyncTimer} → Run new s → IsValid s
Run-IsValid Run.here = new-IsValid
Run-IsValid (Run.next {t} {u} e r h) = IfSome-some IsValid h (step-IsValid t e (Run-IsValid r))
