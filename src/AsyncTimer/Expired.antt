-- ===== src/AsyncTimer/Expired.antt =====
-- What `ExecuteExpiredTimers` hands to the pool.
use lmcore.Prelude.{
  ℕ, ◌≡◌, refl, sym, ap, ◌∙◌, true, false, if◌then◌else◌, leb, ◌&&◌, not, List, [], ◌∷◌, ◌++◌,
  append_assoc, append-nil, All, if-both,
}
use lmcore.AsyncTimer.{
  TimerTask, Entry, AsyncTimer, new, split_expired, submit, reschedule_one, reschedule,
  execute_expired_timers, Run,
}
use lmcore.AsyncTimer.Table.{due, expired_of, split_expired_lem}
use lmcore.AsyncTimer.Valid.{Run-IsValid}

-- The wait list has tasks that are not cancelled.
abbrev AreActive : (ℕ → TimerTask) → List ℕ → Type 0
AreActive ts is = All (λ i. (ts i).is_cancelled ≡ false) is

split_expired-AreActive :
    (ts : ℕ → TimerTask) (now : ℕ) (es : List Entry) → AreActive ts (split_expired ts now es).0
unfolding split_expired
split_expired-AreActive ts now [] = tt
split_expired-AreActive ts now (e ∷ es) =
    let h = split_expired-AreActive ts now es in
    let (expired, rest) = split_expired ts now es in
    if-both (λ (r : List ℕ × List Entry). AreActive ts r.0) (leb e.0 now)
      (expired_of ts e expired, rest) ([], e ∷ es)
      (λ b.
        if-both (AreActive ts) (ts e.1).is_cancelled expired (e.1 ∷ expired) (λ c. h) (λ c. (c, h)))
      (λ b. tt)

pool-submit :
    (s : AsyncTimer) (is : List ℕ)
    → s.pool_open ≡ true
    → AreActive s.tasks is
    → (submit s is).pool ≡ s.pool ++ is
unfolding submit
pool-submit s [] o a = sym (append-nil s.pool)
pool-submit s (i ∷ is) o a =
    let t = record s {
      pool = (if not (s.tasks i).is_cancelled && s.pool_open then s.pool ++ (i ∷ []) else s.pool);
    } in
    pool-submit t is o a.1 ∙ ap (λ p. p ++ is) (rw (a.0, o) refl) ∙ append_assoc s.pool (i ∷ []) is

pool-reschedule : (s : AsyncTimer) (is : List ℕ) → (reschedule s is).pool ≡ s.pool
unfolding reschedule
pool-reschedule s [] = refl
pool-reschedule s (i ∷ is) =
    pool-reschedule (reschedule_one s i) is
    ∙ if-both (λ (u : AsyncTimer). u.pool ≡ s.pool)
        (not (s.tasks i).is_cancelled && (s.tasks i).is_repeating) _ _ (λ _. refl)
        (λ _.
          if-both (λ (u : AsyncTimer). u.pool ≡ s.pool) (not (s.tasks i).is_repeating) _ _
            (λ _. refl) (λ _. refl))

-- In every state that is reached before `Stop` closes the pool, `ExecuteExpiredTimers` hands to the
-- pool the tasks that are due and not cancelled, all of them and no others, in the order of their
-- times.
pub expired_lem :
    {s : AsyncTimer}
    → Run new s
    → s.pool_open ≡ true
    → (execute_expired_timers s).pool ≡ s.pool ++ due s.tasks s.now s.timer_tasks
unfolding execute_expired_timers
expired_lem {s} r o =
    let (expired, rest) = split_expired s.tasks s.now s.timer_tasks in
    let v = Run-IsValid r in
    pool-reschedule (submit (record s { timer_tasks = rest }) expired) expired
    ∙ pool-submit (record s { timer_tasks = rest }) expired o
        (split_expired-AreActive s.tasks s.now s.timer_tasks)
    ∙ ap (λ k. s.pool ++ k) (split_expired_lem s.tasks s.now s.timer_tasks v.sorted).0
