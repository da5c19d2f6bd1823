-- ===== src/AsyncTimer/Dead.antt =====
-- A cancelled timer, and what `ExecuteExpiredTimers` does with it.
use lmcore.Prelude.{
  ◌+◌, ℕ, ◌<◌, ◌≡◌, refl, sym, subst, ◌∙◌, arith, true, false, leb, ◌==◌, ◌&&◌, not, List, [], ◌∷◌,
  Bool-cases, inl, inr, count, count-erase, if-both,
}
use lmcore.AsyncTimer.{
  TimerTask, Entry, AsyncTimer, split_expired, submit, reschedule_one, reschedule,
  execute_expired_timers, work_locked,
}
use lmcore.AsyncTimer.Table.{expired_of}
use lmcore.AsyncTimer.Valid.{submit-frame}

-- The task of an id is cancelled and in the map, and its callback was called, or will be by workers
-- that have passed the test, some number of times.
pub record IsGone (i n : ℕ) (ts : ℕ → TimerTask) (next : ℕ) (m ps tested ran : List ℕ)
    : Type 0 where
  pub stopped : (ts i).is_cancelled ≡ true
  pub given : i < next
  pub mapped : count i m ≡ 1
  pub unprepared : count i ps ≡ 0
  pub calls : count i tested + count i ran ≡ n

abbrev pub IsDead : ℕ → ℕ → AsyncTimer → Type 0
IsDead i n s = IsGone i n s.tasks s.next_timer_id s.timer_map s.prepared s.tested s.ran

pub split_expired-cancelled :
    (ts : ℕ → TimerTask) (now : ℕ) (es : List Entry) (i : ℕ)
    → (ts i).is_cancelled ≡ true
    → count i (split_expired ts now es).0 ≡ 0
unfolding split_expired
split_expired-cancelled ts now [] i c = refl
split_expired-cancelled ts now (e ∷ es) i c =
    let h = split_expired-cancelled ts now es i c in
    let (expired, rest) = split_expired ts now es in
    if-both (λ (r : List ℕ × List Entry). count i r.0 ≡ 0) (leb e.0 now)
      (expired_of ts e expired, rest) ([], e ∷ es)
      (λ b.
        if-both (λ k. count i k ≡ 0) (ts e.1).is_cancelled expired (e.1 ∷ expired) (λ d. h)
          (λ d. elim (Bool-cases (e.1 == i)) [
            | inl q ↦ let same : e.1 ≡ i = ground arith in absurd (grind arith)
            | inr q ↦ ground arith
          ]))
      (λ b. refl)

pub reschedule_one-IsDead :
    (i n k : ℕ) (s : AsyncTimer) → (k == i) ≡ false → IsDead i n s → IsDead i n (reschedule_one s k)
reschedule_one-IsDead i n k s other d =
    if-both (IsDead i n) (not (s.tasks k).is_cancelled && (s.tasks k).is_repeating) _ _
      (λ _. record {
        stopped = rw other d.stopped;
        given = d.given;
        mapped = d.mapped;
        unprepared = d.unprepared;
        calls = d.calls;
      })
      (λ _.
        if-both (IsDead i n) (not (s.tasks k).is_repeating) _ _
          (λ _. record {
            stopped = d.stopped;
            given = d.given;
            mapped = count-erase i k s.timer_map ∙ rw other d.mapped;
            unprepared = d.unprepared;
            calls = d.calls;
          })
          (λ _. d))

pub reschedule-IsDead :
    (i n : ℕ) (is : List ℕ) (s : AsyncTimer)
    → count i is ≡ 0
    → IsDead i n s
    → IsDead i n (reschedule s is)
unfolding reschedule
reschedule-IsDead i n [] s h d = d
reschedule-IsDead i n (k ∷ is) s h d =
    reschedule-IsDead i n is (reschedule_one s k) (ground arith)
      (reschedule_one-IsDead i n k s (ground arith) d)

pub execute-IsDead :
    (i n : ℕ) (s : AsyncTimer) → IsDead i n s → IsDead i n (execute_expired_timers s)
unfolding execute_expired_timers
execute-IsDead i n s d =
    let (expired, rest) = split_expired s.tasks s.now s.timer_tasks in
    let t = record s { timer_tasks = rest } in
    reschedule-IsDead i n expired (submit t expired)
      (split_expired-cancelled s.tasks s.now s.timer_tasks i d.stopped)
      (subst (IsDead i n) (sym (submit-frame t expired)) d)

pub work_locked-IsDead :
    (i n : ℕ) (s : AsyncTimer) (es : List Entry) → IsDead i n s → IsDead i n (work_locked s es)
work_locked-IsDead i n s [] d = d
work_locked-IsDead i n s (e ∷ es) d =
    if-both (IsDead i n) (leb e.0 s.now) _ _ (λ _. execute-IsDead i n s d) (λ _. d)
