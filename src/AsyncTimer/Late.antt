-- ===== src/AsyncTimer/Late.antt =====
-- What the worker's second wait does not see.
use lmcore.Prelude.{
  ℕ, ◌+◌, ◌≤◌, ◌<◌, ◌≡◌, arith, Bool, true, false, if◌then◌else◌, leb, ◌==◌, ◌||◌, not, List, [],
  ◌∷◌, count, if-both, Option, none, some, IfSome, IfSome-some, All,
}
use lmcore.AsyncTimer.{
  Phase, AsyncTimer, start, stop_end, schedule, schedule_once, schedule_repeating, cancel, has,
  cancel_all, work, take_at, insert_taken, insert_task, test_taken, test_callback, call_taken,
  call_callback, Event, is_off, step,
}
use lmcore.AsyncTimer.Table.{count-take_at}

-- Some events in a row; `none` where one of them cannot happen.
abbrev pub run_from : Option AsyncTimer → List Event → Option AsyncTimer
run_from none es = none
run_from (some s) [] = some s
run_from (some s) (e ∷ es) = run_from (step s e) es

abbrev pub is_stop : Event → Bool
is_stop Event.stop_begin_call = true
is_stop _ = false

abbrev pub ticks : Event → ℕ
ticks (Event.tick d) = d
ticks _ = 0

-- The time that passes in some events.
abbrev pub elapsed : List Event → ℕ
elapsed [] = 0
elapsed (e ∷ es) = ticks e + elapsed es

-- The worker waits until a time, and callbacks were handed over as often as given at most.
pub record IsSleep (time : ℕ) (limit : ℕ → ℕ) (running should_stop : Bool) (phase : Phase)
    (pool tested ran : List ℕ) : Type 0 where
  pub is_running : running ≡ true
  pub goes_on : should_stop ≡ false
  pub waits : phase ≡ Phase.wait_until time
  pub nothing_new : (j : ℕ) → count j pool + count j tested + count j ran ≤ limit j

abbrev pub IsAsleep : ℕ → (ℕ → ℕ) → AsyncTimer → Type 0
IsAsleep time limit s = IsSleep time limit s.running s.should_stop s.phase s.pool s.tested s.ran

-- What an event may do then.
abbrev SleepsOn : ℕ → (ℕ → ℕ) → ℕ → AsyncTimer → Type 0
SleepsOn time limit now u = IsAsleep time limit u × (u.now ≤ now)

test_callback-SleepsOn :
    (time : ℕ) (limit : ℕ → ℕ) (k : ℕ) (s : AsyncTimer)
    → IsAsleep time limit s
    → IfSome (SleepsOn time limit (s.now + 0)) (test_callback s k)
unfolding test_callback
test_callback-SleepsOn time limit k s v = from (take_at k s.pool) (λ j. count-take_at j k s.pool)
  where
    from :
        (o : Option (ℕ × List ℕ))
        → ((j : ℕ) → IfSome (λ r. (if r.0 == j then 1 else 0) + count j r.1 ≡ count j s.pool) o)
        → IfSome (SleepsOn time limit (s.now + 0)) (test_taken s o)
    from none h = tt
    from (some (i, rest)) h = (
      record {
        is_running = v.is_running;
        goes_on = v.goes_on;
        waits = v.waits;
        nothing_new = λ j.
            if-both (λ (r : List ℕ). count j rest + count j r + count j s.ran ≤ limit j)
              (s.tasks i).is_cancelled s.tested (i ∷ s.tested)
              (λ _. omega (arith, h j, v.nothing_new j)) (λ _. omega (arith, h j, v.nothing_new j));
      },
      omega arith,
    )

call_callback-SleepsOn :
    (time : ℕ) (limit : ℕ → ℕ) (k : ℕ) (s : AsyncTimer)
    → IsAsleep time limit s
    → IfSome (SleepsOn time limit (s.now + 0)) (call_callback s k)
unfolding call_callback
call_callback-SleepsOn time limit k s v =
    from (take_at k s.tested) (λ j. count-take_at j k s.tested)
  where
    from :
        (o : Option (ℕ × List ℕ))
        → ((j : ℕ) → IfSome (λ r. (if r.0 == j then 1 else 0) + count j r.1 ≡ count j s.tested) o)
        → IfSome (SleepsOn time limit (s.now + 0)) (call_taken s o)
    from none h = tt
    from (some (i, rest)) h = (
      record {
        is_running = v.is_running;
        goes_on = v.goes_on;
        waits = v.waits;
        nothing_new = λ j. omega (arith, h j, v.nothing_new j);
      },
      omega arith,
    )

insert_task-SleepsOn :
    (time : ℕ) (limit : ℕ → ℕ) (k : ℕ) (s : AsyncTimer)
    → IsAsleep time limit s
    → IfSome (SleepsOn time limit (s.now + 0)) (insert_task s k)
unfolding insert_task
insert_task-SleepsOn time limit k s v = from (take_at k s.prepared)
  where
    from : (o : Option (ℕ × List ℕ)) → IfSome (SleepsOn time limit (s.now + 0)) (insert_taken s o)
    from none = tt
    from (some (i, rest)) = (v, omega arith)

step-SleepsOn :
    (time : ℕ) (limit : ℕ → ℕ) (s : AsyncTimer) (e : Event)
    → s.now < time
    → is_stop e ≡ false
    → IsAsleep time limit s
    → IfSome (SleepsOn time limit (s.now + ticks e)) (step s e)
unfolding step start stop_end cancel cancel_all schedule schedule_once schedule_repeating work
step-SleepsOn time limit s Event.start_call early h v =
    if-both (IfSome (SleepsOn time limit (s.now + 0))) (s.running || is_off s.phase) _ _
      (λ _.
        if-both (SleepsOn time limit (s.now + 0)) s.running _ _ (λ _. (v, omega arith))
          (λ e. absurd (ground (arith, v.is_running))))
      (λ _. tt)
step-SleepsOn time limit s Event.stop_begin_call early h v = absurd (ground arith)
step-SleepsOn time limit s Event.stop_end_call early h v = rw v.goes_on tt
step-SleepsOn time limit s Event.cancel_all_call early h v = (v, omega arith)
step-SleepsOn time limit s Event.work_step early h v =
    let late : leb time s.now ≡ false = ground arith in rw (v.waits, v.goes_on, late) tt
step-SleepsOn time limit s (Event.schedule_once_call c m) early h v =
    let Goal : ℕ × AsyncTimer → Type 0 = λ r. SleepsOn time limit (s.now + 0) r.1 in
    if-both Goal (not c) _ _ (λ _. (v, omega arith))
      (λ _. if-both Goal (not s.running) _ _ (λ _. (v, omega arith)) (λ _. (v, omega arith)))
step-SleepsOn time limit s (Event.schedule_repeating_call c k m) early h v =
    let Goal : ℕ × AsyncTimer → Type 0 = λ r. SleepsOn time limit (s.now + 0) r.1 in
    if-both Goal (not c) _ _ (λ _. (v, omega arith))
      (λ _.
        if-both Goal (k == 0) _ _ (λ _. (v, omega arith))
          (λ _. if-both Goal (not s.running) _ _ (λ _. (v, omega arith)) (λ _. (v, omega arith))))
step-SleepsOn time limit s (Event.cancel_call k) early h v =
    if-both (λ (r : Bool × AsyncTimer). SleepsOn time limit (s.now + 0) r.1) (has s.timer_map k) _ _
      (λ _. (v, omega arith)) (λ _. (v, omega arith))
step-SleepsOn time limit s (Event.insert_step k) early h v = insert_task-SleepsOn time limit k s v
step-SleepsOn time limit s (Event.test_step k) early h v = test_callback-SleepsOn time limit k s v
step-SleepsOn time limit s (Event.call_step k) early h v = call_callback-SleepsOn time limit k s v
step-SleepsOn time limit s (Event.tick m) early h v = (v, omega arith)

run_from-IsAsleep :
    (time : ℕ) (limit : ℕ → ℕ) (now : ℕ) (o : Option AsyncTimer) (es : List Event)
    → IfSome (SleepsOn time limit now) o
    → now + elapsed es < time
    → All (λ e. is_stop e ≡ false) es
    → IfSome (IsAsleep time limit) (run_from o es)
run_from-IsAsleep time limit now none es h early a = tt
run_from-IsAsleep time limit now (some s) [] h early a = h.0
run_from-IsAsleep time limit now (some s) (e ∷ es) h early a =
    run_from-IsAsleep time limit (now + ticks e) (step s e) es
      (widen (step s e) (step-SleepsOn time limit s e (omega (arith, h.1)) a.0 h.0)) (omega arith)
      a.1
  where
    widen :
        (o : Option AsyncTimer)
        → IfSome (SleepsOn time limit (s.now + ticks e)) o
        → IfSome (SleepsOn time limit (now + ticks e)) o
    widen none k = tt
    widen (some u) k = (k.0, omega (arith, h.1, k.1))

-- While the worker waits for the time of the first timer, whatever is scheduled, run or cancelled,
-- but for a `Stop`, it waits on to that time, and no callback is handed over: one that was scheduled
-- meanwhile for an earlier time is late.
pub waits_on :
    (s u : AsyncTimer) (time : ℕ) (es : List Event)
    → s.running ≡ true
    → s.should_stop ≡ false
    → s.phase ≡ Phase.wait_until time
    → s.now + elapsed es < time
    → All (λ e. is_stop e ≡ false) es
    → run_from (some s) es ≡ some u
    → (u.phase ≡ Phase.wait_until time)
      × ((j : ℕ)
          → count j u.pool + count j u.tested + count j u.ran
            ≤ count j s.pool + count j s.tested + count j s.ran)
waits_on s u time es r g w early a h =
    let limit : ℕ → ℕ = λ j. count j s.pool + count j s.tested + count j s.ran in
    let first : SleepsOn time limit s.now s = (
      record { is_running = r; goes_on = g; waits = w; nothing_new = λ j. omega arith },
      omega arith,
    ) in
    let v =
      IfSome-some (IsAsleep time limit) h
        (run_from-IsAsleep time limit s.now (some s) es first early a) in
    (v.waits, v.nothing_new)
