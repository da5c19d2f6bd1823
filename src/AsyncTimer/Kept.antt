-- ===== src/AsyncTimer/Kept.antt =====
-- How `timerTasks_` and `timerMap_` belong together, and what schedules a task.
use lmcore.Prelude.{
  IfSome, Option, none, some, ℕ, ◌+◌, ◌≤◌, ◌≡◌, refl, sym, ap, ◌∙◌, arith, true, false,
  if◌then◌else◌, ◌==◌, ◌&&◌, not, List, [], ◌∷◌, Bool-cases, inl, inr, count, erase, count-erase,
  if-both,
}
use lmcore.AsyncTimer.{
  TimerTask, Entry, AsyncTimer, new, update, emplace, schedule, insert_taken, insert_task, take_at,
  cancelled, reschedule_one, reschedule,
}
use lmcore.AsyncTimer.Table.{ids, IsSorted, count-emplace, emplace-IsSorted, count-take_at}

-- The tables, where some expired tasks wait to be scheduled again.
pub record IsTable (next : ℕ) (ts : ℕ → TimerTask) (es : List Entry) (m : List ℕ) (ps is : List ℕ)
    : Type 0 where
  pub sorted : IsSorted es
  pub mapped : (j : ℕ) → count j (ids es) + count j is ≤ count j m
  pub once : (j : ℕ) → count j m ≤ 1
  pub fresh : (j : ℕ) → next ≤ j → count j m ≡ 0
  -- An id that is not yet in the tables is that of one task.
  pub single : (j : ℕ) → count j ps + count j m ≤ 1
  pub unused : (j : ℕ) → next ≤ j → count j ps ≡ 0
  pub kept : (j : ℕ) → (ts j).is_cancelled ≡ false → count j (ids es) + count j is ≡ count j m

abbrev pub IsWaiting : AsyncTimer → List ℕ → Type 0
IsWaiting s is = IsTable s.next_timer_id s.tasks s.timer_tasks s.timer_map s.prepared is

-- `timerTasks_` is sorted, its tasks are in `timerMap_`, once, and those of `timerMap_` that are not
-- cancelled are in it.
abbrev pub IsValid : AsyncTimer → Type 0
IsValid s = IsWaiting s []

pub new-IsValid : IsValid new
unfolding new
new-IsValid = record {
  sorted = tt;
  mapped = λ j. omega arith;
  once = λ j. omega arith;
  fresh = λ j h. refl;
  single = λ j. omega arith;
  unused = λ j h. refl;
  kept = λ j h. refl;
}

-- The test that an update does not change.
pub update-is_cancelled :
    (ts : ℕ → TimerTask) (i : ℕ) (t : TimerTask) (j : ℕ)
    → t.is_cancelled ≡ (ts i).is_cancelled
    → (update ts i t j).is_cancelled ≡ (ts j).is_cancelled
update-is_cancelled ts i t j h = elim (Bool-cases (i == j)) [
  | inl b ↦ let same : i ≡ j = ground arith in rw b (h ∙ ap (λ k. (ts k).is_cancelled) same)
  | inr b ↦ rw b refl
]

pub active_of_update :
    (ts : ℕ → TimerTask) (i : ℕ) (j : ℕ)
    → (update ts i (cancelled (ts i)) j).is_cancelled ≡ false
    → (ts j).is_cancelled ≡ false
active_of_update ts i j h = ground arith

pub update_other :
    (ts : ℕ → TimerTask) (i : ℕ) (t : TimerTask) (j : ℕ)
    → (i == j) ≡ false
    → (update ts i t j).is_cancelled ≡ false
    → (ts j).is_cancelled ≡ false
update_other ts i t j h k = ground arith

pub schedule-IsValid : (s : AsyncTimer) (t : TimerTask) → IsValid s → IsValid (schedule s t)
unfolding schedule
schedule-IsValid s t v =
    let id = s.next_timer_id in
    record {
      sorted = v.sorted;
      mapped = v.mapped;
      once = v.once;
      fresh = λ j h. v.fresh j (omega arith);
      single = λ j. elim (Bool-cases (id == j)) [
        | inl b ↦
            let same : id ≡ j = ground arith in
            ground (arith, v.fresh j (omega arith), v.unused j (omega arith))
        | inr b ↦ ground (arith, v.single j)
      ];
      unused = λ j h. ground (arith, v.unused j (omega arith));
      kept = λ j h. elim (Bool-cases (id == j)) [
        | inl b ↦
            let same : id ≡ j = ground arith in omega (arith, v.mapped j, v.fresh j (omega arith))
        | inr b ↦ v.kept j (update_other s.tasks id t j b h)
      ];
    }

-- The task of an id that is in no table yet.
insert_taken-IsValid :
    (s : AsyncTimer) (o : Option (ℕ × List ℕ))
    → IsValid s
    → ((j : ℕ) → IfSome (λ r. (if r.0 == j then 1 else 0) + count j r.1 ≡ count j s.prepared) o)
    → IfSome IsValid (insert_taken s o)
insert_taken-IsValid s none v h = tt
insert_taken-IsValid s (some (i, rest)) v h =
    let time = (s.tasks i).next_execution_time in
    let added = λ (j : ℕ). count-emplace j s.timer_tasks (time, i) in
    let erased = λ (j : ℕ). count-erase j i s.timer_map in
    record {
      sorted = emplace-IsSorted s.timer_tasks (time, i) v.sorted;
      mapped = λ j. ground (arith, added j, erased j, v.mapped j, h j, v.single j);
      once = λ j. ground (arith, erased j, v.once j);
      fresh = λ j k. ground (arith, erased j, v.fresh j k, v.unused j k, h j);
      single = λ j. ground (arith, erased j, v.single j, h j);
      unused = λ j k. omega (arith, v.unused j k, h j);
      kept = λ j k. ground (arith, added j, erased j, v.mapped j, v.kept j k, h j, v.single j);
    }

pub insert_task-IsValid : (s : AsyncTimer) (k : ℕ) → IsValid s → IfSome IsValid (insert_task s k)
unfolding insert_task
insert_task-IsValid s k v =
    insert_taken-IsValid s (take_at k s.prepared) v (λ j. count-take_at j k s.prepared)

pub reschedule_one-IsWaiting :
    (s : AsyncTimer) (i : ℕ) (is : List ℕ)
    → IsWaiting s (i ∷ is)
    → IsWaiting (reschedule_one s i) is
reschedule_one-IsWaiting s i is v =
    let task = s.tasks i in
    let time = s.now + task.interval in
    let added = λ (j : ℕ). count-emplace j s.timer_tasks (time, i) in
    let erased = λ (j : ℕ). count-erase j i s.timer_map in
    let again = record task { next_execution_time = time } in
    let repeated = record s {
      tasks = update s.tasks i again;
      timer_tasks = emplace s.timer_tasks (time, i);
    } in
    let erased_once = record s { timer_map = erase i s.timer_map } in
    if-both (λ u. IsWaiting u is) (not task.is_cancelled && task.is_repeating) repeated
      (if not task.is_repeating then erased_once else s)
      (λ e. record {
        sorted = emplace-IsSorted s.timer_tasks (time, i) v.sorted;
        mapped = λ j. omega (arith, added j, v.mapped j);
        once = v.once;
        fresh = v.fresh;
        single = v.single;
        unused = v.unused;
        kept = λ j h.
            omega (arith, added j, v.kept j (sym (update-is_cancelled s.tasks i again j refl) ∙ h));
      })
      (λ e.
        if-both (λ u. IsWaiting u is) (not task.is_repeating) erased_once s
          (λ f. record {
            sorted = v.sorted;
            mapped = λ j. ground (arith, erased j, v.mapped j, v.once j);
            once = λ j. ground (arith, erased j, v.once j);
            fresh = λ j h. ground (arith, erased j, v.fresh j h);
            single = λ j. ground (arith, erased j, v.single j);
            unused = v.unused;
            kept = λ j h. ground (arith, erased j, v.mapped j, v.once j, v.kept j h);
          })
          (λ f.
            let c : (s.tasks i).is_cancelled ≡ true = ground arith in
            record {
              sorted = v.sorted;
              mapped = λ j. ground (arith, v.mapped j);
              once = v.once;
              fresh = v.fresh;
              single = v.single;
              unused = v.unused;
              kept = λ j h. elim (Bool-cases (i == j)) [
                | inl b ↦ let same : i ≡ j = ground arith in absurd (grind arith)
                | inr b ↦ ground (arith, v.kept j h)
              ];
            }))

pub reschedule-IsValid : (s : AsyncTimer) (is : List ℕ) → IsWaiting s is → IsValid (reschedule s is)
unfolding reschedule
reschedule-IsValid s [] v = v
reschedule-IsValid s (i ∷ is) v =
    reschedule-IsValid (reschedule_one s i) is (reschedule_one-IsWaiting s i is v)
