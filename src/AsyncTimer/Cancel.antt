-- ===== src/AsyncTimer/Cancel.antt =====
-- What becomes of a timer that is cancelled.
use lmcore.Prelude.{
  if◌then◌else◌, ◌+◌, ℕ, ◌≤◌, ◌≡◌, refl, arith, Bool, true, false, leb, ◌==◌, ◌&&◌, ◌||◌, not, List,
  [], ◌∷◌, length, Bool-cases, inl, inr, count, count-erase, if-both, Option, none, some, IfSome,
  IfSome-some,
}
use lmcore.AsyncTimer.{
  TimerTask, Phase, AsyncTimer, new, update, start, stop_begin, stop_end, schedule, schedule_once,
  schedule_repeating, cancelled, cancel, has, cancel_each, cancel_all, work, is_empty, take_at,
  insert_taken, insert_task, test_taken, test_callback, call_taken, call_callback,
  get_active_timer_count, Event, is_off, step, Run,
}
use lmcore.AsyncTimer.Table.{count-take_at}
use lmcore.AsyncTimer.Valid.{Run-IsValid}
use lmcore.AsyncTimer.Dead.{IsDead, work_locked-IsDead}

work-IsDead : (i n : ℕ) (s : AsyncTimer) (p : Phase) → IsDead i n s → IfSome (IsDead i n) (work s p)
unfolding work
work-IsDead i n s Phase.off d = tt
work-IsDead i n s Phase.testing d = d
work-IsDead i n s Phase.locking d = work_locked-IsDead i n s s.timer_tasks d
work-IsDead i n s Phase.wait_task d =
    if-both (IfSome (IsDead i n)) (not (is_empty s.timer_tasks) || s.should_stop) _ _ (λ _. d)
      (λ _. tt)
work-IsDead i n s (Phase.wait_until time) d =
    if-both (IfSome (IsDead i n)) s.should_stop _ _ (λ _. d)
      (λ _. if-both (IfSome (IsDead i n)) (leb time s.now) _ _ (λ _. d) (λ _. tt))

cancelled-update :
    (ts : ℕ → TimerTask) (i k : ℕ)
    → (ts i).is_cancelled ≡ true
    → (update ts k (cancelled (ts k)) i).is_cancelled ≡ true
cancelled-update ts i k h = ground arith

cancelled-cancel_each :
    (ts : ℕ → TimerTask) (i : ℕ) (is : List ℕ)
    → (ts i).is_cancelled ≡ true
    → (cancel_each is ts i).is_cancelled ≡ true
unfolding cancel_each
cancelled-cancel_each ts i [] h = h
cancelled-cancel_each ts i (k ∷ is) h =
    cancelled-cancel_each (update ts k (cancelled (ts k))) i is (cancelled-update ts i k h)

schedule-IsDead :
    (i n : ℕ) (s : AsyncTimer) (t : TimerTask) → IsDead i n s → IsDead i n (schedule s t)
unfolding schedule
schedule-IsDead i n s t d =
    let other : (s.next_timer_id == i) ≡ false = ground (arith, d.given) in
    record {
      stopped = rw other d.stopped;
      given = omega (arith, d.given);
      mapped = d.mapped;
      unprepared = ground (arith, other, d.unprepared);
      calls = d.calls;
    }

-- The task that is put into the tables is another one.
insert_taken-IsDead :
    (i n : ℕ) (s : AsyncTimer) (o : Option (ℕ × List ℕ))
    → IsDead i n s
    → IfSome (λ r. (if r.0 == i then 1 else 0) + count i r.1 ≡ count i s.prepared) o
    → IfSome (IsDead i n) (insert_taken s o)
insert_taken-IsDead i n s none d h = tt
insert_taken-IsDead i n s (some (k, rest)) d h = record {
  stopped = d.stopped;
  given = d.given;
  mapped = ground (arith, h, d.unprepared, d.mapped, count-erase i k s.timer_map);
  unprepared = omega (arith, h, d.unprepared);
  calls = d.calls;
}

-- A wrapped callback does nothing where its task is cancelled.
test_taken-IsDead :
    (i n : ℕ) (s : AsyncTimer) (o : Option (ℕ × List ℕ))
    → IsDead i n s
    → IfSome (IsDead i n) (test_taken s o)
test_taken-IsDead i n s none d = tt
test_taken-IsDead i n s (some (k, rest)) d = record {
  stopped = d.stopped;
  given = d.given;
  mapped = d.mapped;
  unprepared = d.unprepared;
  calls =
      if-both (λ (r : List ℕ). count i r + count i s.ran ≡ n) (s.tasks k).is_cancelled s.tested
        (k ∷ s.tested) (λ _. d.calls)
        (λ c. elim (Bool-cases (k == i)) [
          | inl q ↦
              let same : k ≡ i = ground arith in let stopped = d.stopped in absurd (grind arith)
          | inr q ↦ ground (arith, d.calls)
        ]);
}

call_taken-IsDead :
    (i n : ℕ) (s : AsyncTimer) (o : Option (ℕ × List ℕ))
    → IsDead i n s
    → IfSome (λ r. (if r.0 == i then 1 else 0) + count i r.1 ≡ count i s.tested) o
    → IfSome (IsDead i n) (call_taken s o)
call_taken-IsDead i n s none d h = tt
call_taken-IsDead i n s (some (k, rest)) d h = record {
  stopped = d.stopped;
  given = d.given;
  mapped = d.mapped;
  unprepared = d.unprepared;
  calls = omega (arith, h, d.calls);
}

step-IsDead : (i n : ℕ) (s : AsyncTimer) (e : Event) → IsDead i n s → IfSome (IsDead i n) (step s e)
unfolding step start stop_begin stop_end cancel cancel_all schedule_once schedule_repeating
    insert_task test_callback call_callback
step-IsDead i n s Event.start_call d =
    if-both (IfSome (IsDead i n)) (s.running || is_off s.phase) _ _
      (λ _. if-both (IsDead i n) s.running _ _ (λ _. d) (λ _. d)) (λ _. tt)
step-IsDead i n s Event.stop_begin_call d = if-both (IsDead i n) s.running _ _ (λ _. d) (λ _. d)
step-IsDead i n s Event.stop_end_call d =
    if-both (IfSome (IsDead i n)) (s.should_stop && is_off s.phase) _ _ (λ _. d) (λ _. tt)
step-IsDead i n s Event.cancel_all_call d = record {
  stopped = cancelled-cancel_each s.tasks i s.timer_map d.stopped;
  given = d.given;
  mapped = d.mapped;
  unprepared = d.unprepared;
  calls = d.calls;
}
step-IsDead i n s Event.work_step d = work-IsDead i n s s.phase d
step-IsDead i n s (Event.schedule_once_call c m) d =
    let IsFine : ℕ × AsyncTimer → Type 0 = λ r. IsDead i n r.1 in
    if-both IsFine (not c) _ _ (λ e. d)
      (λ e. if-both IsFine (not s.running) _ _ (λ f. d) (λ f. schedule-IsDead i n s _ d))
step-IsDead i n s (Event.schedule_repeating_call c k m) d =
    let IsFine : ℕ × AsyncTimer → Type 0 = λ r. IsDead i n r.1 in
    if-both IsFine (not c) _ _ (λ e. d)
      (λ e.
        if-both IsFine (k == 0) _ _ (λ f. d)
          (λ f. if-both IsFine (not s.running) _ _ (λ g. d) (λ g. schedule-IsDead i n s _ d)))
step-IsDead i n s (Event.cancel_call k) d =
    if-both (λ (r : Bool × AsyncTimer). IsDead i n r.1) (has s.timer_map k) _ _
      (λ _. record {
        stopped = cancelled-update s.tasks i k d.stopped;
        given = d.given;
        mapped = d.mapped;
        unprepared = d.unprepared;
        calls = d.calls;
      })
      (λ _. d)
step-IsDead i n s (Event.insert_step k) d =
    insert_taken-IsDead i n s (take_at k s.prepared) d (count-take_at i k s.prepared)
step-IsDead i n s (Event.test_step k) d = test_taken-IsDead i n s (take_at k s.pool) d
step-IsDead i n s (Event.call_step k) d =
    call_taken-IsDead i n s (take_at k s.tested) d (count-take_at i k s.tested)
step-IsDead i n s (Event.tick m) d = d

Run-IsDead : (i n : ℕ) {s t : AsyncTimer} → Run s t → IsDead i n s → IsDead i n t
Run-IsDead i n Run.here d = d
Run-IsDead i n (Run.next {t} {u} e r h) d =
    IfSome-some (IsDead i n) h (step-IsDead i n t e (Run-IsDead i n r d))

count-has : (i : ℕ) (m : List ℕ) → has m i ≡ true → 1 ≤ count i m
count-has i [] h = absurd (ground arith)
count-has i (x ∷ m) h = elim (Bool-cases (x == i)) [
  | inl e ↦ ground arith
  | inr e ↦ ground (arith, count-has i m)
]

cancel-IsDead :
    (s : AsyncTimer) (i : ℕ)
    → Run new s
    → has s.timer_map i ≡ true
    → IsDead i (count i s.tested + count i s.ran) (cancel s i).1
unfolding cancel
cancel-IsDead s i r h =
    let v = Run-IsValid r in
    let there = count-has i s.timer_map h in
    rw h (record {
      stopped = ground arith;
      given = ground (arith, v.fresh i);
      mapped = omega (arith, v.once i);
      unprepared = omega (arith, v.single i);
      calls = refl;
    })

-- Once a timer is cancelled no worker goes on to its callback, even where the pool already holds it:
-- `Cancel` returns true in any reachable state in which the map has the id, and whatever happens after
-- it, the calls made and those of workers that have passed the test are together as many as at the
-- call, so only a worker that had passed the test by then still makes its call.
pub cancelled_lem :
    {s t : AsyncTimer} (i : ℕ)
    → Run new s
    → has s.timer_map i ≡ true
    → Run (cancel s i).1 t
    → ((cancel s i).0 ≡ true)
      × (count i t.tested + count i t.ran ≡ count i s.tested + count i s.ran)
unfolding cancel
cancelled_lem {s} {t} i r h q =
    (rw h refl, (Run-IsDead i (count i s.tested + count i s.ran) q (cancel-IsDead s i r h)).calls)

-- `timerMap_` keeps a cancelled timer for ever, so `GetActiveTimerCount` counts it.
pub cancelled_counted :
    {s t : AsyncTimer} (i : ℕ)
    → Run new s
    → has s.timer_map i ≡ true
    → Run (cancel s i).1 t
    → (count i t.timer_map ≡ 1) × (1 ≤ get_active_timer_count t)
unfolding get_active_timer_count
cancelled_counted {s} {t} i r h q =
    let m = (Run-IsDead i (count i s.tested + count i s.ran) q (cancel-IsDead s i r h)).mapped in
    (m, omega (arith, count_le i t.timer_map))
  where
    count_le : (i : ℕ) (xs : List ℕ) → count i xs ≤ length xs
    count_le i [] = omega arith
    count_le i (x ∷ xs) = ground (arith, count_le i xs)
