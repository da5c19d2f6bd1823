-- ===== src/TaskQueue/Sorted.antt =====
-- The order of the queue.
use lmcore.Prelude.{
  ℕ, ◌+◌, ◌-◌, ◌*◌, ◌≤◌, arith, Bool, true, false, if◌then◌else◌, ltb, leb, ◌||◌, List, [], ◌∷◌,
  Option, none, some, Bool-cases, inl, inr, All, if-both, IfSome, IfSome-some,
}
use lmcore.TaskQueue.{
  TaskHandler, is_canceled, Item, Phase, TaskQueue, new, start, cancel_not_executed, stop_begin,
  stop_end, insert, max_delay_us, uint64_max, enqueue_cleared, clear_task, take_due, take, check,
  begin_task, end_task, finish, again_clear, again_task, Event, is_off, process_from, store_result,
  get_result, step, Reach,
}

-- Each item is due no later than those behind it.
abbrev pub IsSorted : List Item → Type 0
IsSorted [] = Unit
IsSorted (x ∷ xs) = All (λ y. x.execute_time_ns ≤ y.execute_time_ns) xs × IsSorted xs

insert-All :
    (n : ℕ) (xs : List Item) (x : Item)
    → n ≤ x.execute_time_ns
    → All (λ y. n ≤ y.execute_time_ns) xs
    → All (λ y. n ≤ y.execute_time_ns) (insert xs x)
unfolding insert
insert-All n [] x h a = (h, tt)
insert-All n (y ∷ ys) x h a = elim (Bool-cases (ltb x.execute_time_ns y.execute_time_ns)) [
  | inl e ↦ rw e (h, a)
  | inr e ↦ rw e (a.0, insert-All n ys x h a.1)
]

All-le :
    (m n : ℕ) (xs : List Item)
    → m ≤ n
    → All (λ y. n ≤ y.execute_time_ns) xs
    → All (λ y. m ≤ y.execute_time_ns) xs
All-le m n [] h a = tt
All-le m n (x ∷ xs) h a = (omega (arith, a.0), All-le m n xs h a.1)

insert-IsSorted : (xs : List Item) (x : Item) → IsSorted xs → IsSorted (insert xs x)
unfolding insert
insert-IsSorted [] x s = (tt, tt)
insert-IsSorted (y ∷ ys) x s = elim (Bool-cases (ltb x.execute_time_ns y.execute_time_ns)) [
  | inl e ↦
      let l : x.execute_time_ns ≤ y.execute_time_ns = ground arith in
      rw e ((l, All-le x.execute_time_ns y.execute_time_ns ys l s.0), s)
  | inr e ↦ rw e (insert-All y.execute_time_ns ys x (ground arith) s.0, insert-IsSorted ys x s.1)
]

abbrev IsOrdered : TaskQueue → Type 0
IsOrdered s = IsSorted s.tasks

abbrev IsOrderedThen : Bool × TaskQueue → Type 0
IsOrderedThen r = IsSorted r.1.tasks

enqueue_cleared-IsSorted :
    (s : TaskQueue) (t : ℕ) (c : Bool) (d now : ℕ)
    → IsOrdered s
    → IsOrderedThen (enqueue_cleared s t c d now)
unfolding enqueue_cleared
enqueue_cleared-IsSorted s t c d now h =
    let s' = if c then cancel_not_executed s else s in
    let sorted : IsOrdered s' = if-both IsOrdered c (cancel_not_executed s) s (λ _. tt) (λ _. h) in
    let item : Item = record { task = t; execute_time_ns = d * 1000 + now } in
    if-both IsOrderedThen (leb max_delay_us d) _ _ (λ _. h)
      (λ _.
        if-both IsOrderedThen s.is_exit _ _ (λ _. h)
          (λ _.
            if-both IsOrderedThen (leb (uint64_max - d * 1000) now) (false, s')
              (true, record s' { tasks = insert s'.tasks item }) (λ _. sorted)
              (λ _. insert-IsSorted s'.tasks item sorted)))

take_due-IsSorted :
    (s : TaskQueue) (xs : List Item) (now : ℕ)
    → IsOrdered s
    → IsSorted xs
    → IfSome IsOrdered (take_due s xs now)
take_due-IsSorted s [] now h k = tt
take_due-IsSorted s (x ∷ xs) now h k =
    if-both (IfSome IsOrdered) (leb x.execute_time_ns now) _ _ (λ _. k.1) (λ _. h)

process-IsSorted :
    (s : TaskQueue) (p : Phase) (now : ℕ) (v : Option ℕ)
    → IsOrdered s
    → IfSome IsOrdered (process_from p s now v)
unfolding take check begin_task end_task finish again_clear clear_task again_task
process-IsSorted s Phase.off now v h = tt
process-IsSorted s Phase.waiting now v h =
    if-both (IfSome IsOrdered) s.is_exit _ _ (λ _. h) (λ _. take_due-IsSorted s s.tasks now h h)
process-IsSorted s (Phase.taken t) now v h =
    if-both IsOrdered (is_canceled (s.handlers t).state) _ _ (λ _. h) (λ _. h)
process-IsSorted s (Phase.checked t) now v h = h
process-IsSorted s (Phase.at_work t) now v h = h
process-IsSorted s (Phase.ended t) now v h = h
process-IsSorted s (Phase.again t) now v h = h
process-IsSorted s (Phase.cleared t) now v h =
    enqueue_cleared-IsSorted s t false (s.handlers t).periodic_time_us now h

step-IsSorted : (s : TaskQueue) (e : Event) → IsOrdered s → IfSome IsOrdered (step s e)
unfolding step start stop_begin stop_end clear_task
step-IsSorted s Event.start_call h =
    if-both (IfSome IsOrdered) (s.has_thread || is_off s.phase) _ _
      (λ _. if-both IsOrdered s.has_thread _ _ (λ _. h) (λ _. h)) (λ _. tt)
step-IsSorted s Event.stop_begin_call h = if-both IsOrdered s.is_exit _ _ (λ _. h) (λ _. h)
step-IsSorted s Event.stop_end_call h =
    if-both (IfSome IsOrdered) (is_off s.phase) _ _ (λ _. tt) (λ _. tt)
step-IsSorted s (Event.clear_call t) h = h
step-IsSorted s (Event.cancel_call t) h = h
step-IsSorted s (Event.get_result_call t) h = got (get_result (s.handlers t))
  where
    got : (r : Option (Option ℕ × TaskHandler)) → IfSome IsOrdered (store_result s t r)
    got none = tt
    got (some (v, k)) = h
step-IsSorted s (Event.enqueue_call t c d now) h = enqueue_cleared-IsSorted s t c d now h
step-IsSorted s (Event.process now v) h = process-IsSorted s s.phase now v h

-- Whatever calls clients make and however the processor's steps fall between them, the queue stays
-- ordered by the times at which its items are due.
pub Reach-IsSorted :
    (handlers : ℕ → TaskHandler) {s : TaskQueue} → Reach (new handlers) s → IsSorted s.tasks
unfolding new
Reach-IsSorted handlers Reach.here = tt
Reach-IsSorted handlers (Reach.next {t} {u} e r h) =
    IfSome-some IsOrdered h (step-IsSorted t e (Reach-IsSorted handlers r))
