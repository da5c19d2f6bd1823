-- ===== src/TaskQueue/Stuck.antt =====
-- Handlers that nothing sets going again, and what `IsTaskExecuting` reports.
use lmcore.Prelude.{
  ℕ, ◌+◌, ◌-◌, ◌*◌, ◌≡◌, refl, sym, ap, subst, ◌∙◌, arith, Bool, true, false, if◌then◌else◌, leb,
  ◌==◌, ◌||◌, List, [], ◌∷◌, Option, none, some, if-both, IfSome, IfSome-some,
}
use lmcore.TaskQueue.{
  TaskState, TaskHandler, Item, Phase, TaskQueue, is_finished, is_running, is_canceled, new, start,
  update, cancel_all, cancel_not_executed, stop_begin, stop_end, max_delay_us, uint64_max,
  enqueue_cleared, clear_task, set_handler, insert, clear_result, clear, cancel, execute_begin,
  execute_end, is_off, take_due, take, check, begin_task, end_task, finish, again_clear, again_task,
  Event, process_from, store_result, get_result, step, Reach,
}

-- The processor runs the task.
abbrev pub runs : Phase → ℕ → Bool
runs (Phase.at_work u) t = u == t
runs _ t = false

-- The handler is in this state, and its task does not run.
abbrev IsAt : TaskState → ℕ → TaskQueue → Type 0
IsAt st t s = ((s.handlers t).state ≡ st) × (runs s.phase t ≡ false)

-- A state from which only the end of a run leads on.
abbrev pub is_inert : TaskState → Bool
is_inert st = is_running st || is_canceled st

inert_fields :
    (st : TaskState) (r : Option ℕ) (p : ℕ)
    → is_inert st ≡ true
    → let h : TaskHandler = record { state = st; result = r; periodic_time_us = p } in
      ((clear h).state ≡ st) × ((cancel h).state ≡ st) × (execute_begin h ≡ (false, h))
unfolding clear clear_result cancel execute_begin
inert_fields TaskState.idle r p h = absurd (ground arith)
inert_fields TaskState.running r p h = (refl, refl, refl)
inert_fields TaskState.canceled r p h = (refl, refl, refl)
inert_fields TaskState.finished r p h = absurd (ground arith)

inert_lem :
    (h : TaskHandler)
    → is_inert h.state ≡ true
    → ((clear h).state ≡ h.state) × ((cancel h).state ≡ h.state) × (execute_begin h ≡ (false, h))
inert_lem h i = inert_fields h.state h.result h.periodic_time_us i

module _ (st : TaskState) (t : ℕ) (inert : is_inert st ≡ true) where
  update_at :
      (hs : ℕ → TaskHandler) (u : ℕ) (k : TaskHandler)
      → (hs t).state ≡ st
      → ((u ≡ t) → k.state ≡ st)
      → (update hs u k t).state ≡ st
  update_at hs u k h f =
      if-both (λ (r : TaskHandler). r.state ≡ st) (u == t) k (hs t) (λ e. f (ground arith)) (λ _. h)

  clear_at :
      (hs : ℕ → TaskHandler) (u : ℕ) → (hs t).state ≡ st → (update hs u (clear (hs u)) t).state ≡ st
  clear_at hs u h = update_at hs u (clear (hs u)) h (λ e.
      subst (λ w. (clear (hs w)).state ≡ st) (sym e)
        ((inert_lem (hs t) (ap is_inert h ∙ inert)).0 ∙ h))

  cancel_at :
      (hs : ℕ → TaskHandler) (u : ℕ)
      → (hs t).state ≡ st
      → (update hs u (cancel (hs u)) t).state ≡ st
  cancel_at hs u h = update_at hs u (cancel (hs u)) h (λ e.
      subst (λ w. (cancel (hs w)).state ≡ st) (sym e)
        ((inert_lem (hs t) (ap is_inert h ∙ inert)).1 ∙ h))

  cancel_all_at :
      (xs : List Item) (hs : ℕ → TaskHandler) → (hs t).state ≡ st → (cancel_all xs hs t).state ≡ st
  unfolding cancel_all
  cancel_all_at [] hs h = h
  cancel_all_at (x ∷ xs) hs h =
      cancel_all_at xs (update hs x.task (cancel (hs x.task))) (cancel_at hs x.task h)

  abbrev IsAtThen : Bool × TaskQueue → Type 0
  IsAtThen r = IsAt st t r.1

  enqueue_cleared-IsAt :
      (s : TaskQueue) (u : ℕ) (c : Bool) (d now : ℕ)
      → IsAt st t s
      → IsAtThen (enqueue_cleared s u c d now)
  unfolding enqueue_cleared
  enqueue_cleared-IsAt s u c d now h =
      let s' = if c then cancel_not_executed s else s in
      let at : IsAt st t s' =
        if-both (IsAt st t) c (cancel_not_executed s) s
          (λ _. (cancel_all_at s.tasks s.handlers h.0, h.1)) (λ _. h) in
      let item : Item = record { task = u; execute_time_ns = d * 1000 + now } in
      if-both IsAtThen (leb max_delay_us d) _ _ (λ _. h)
        (λ _.
          if-both IsAtThen s.is_exit _ _ (λ _. h)
            (λ _.
              if-both IsAtThen (leb (uint64_max - d * 1000) now) (false, s')
                (true, record s' { tasks = insert s'.tasks item }) (λ _. at) (λ _. at)))

  take_due-IsAt :
      (s : TaskQueue) (xs : List Item) (now : ℕ)
      → IsAt st t s
      → IfSome (IsAt st t) (take_due s xs now)
  take_due-IsAt s [] now h = tt
  take_due-IsAt s (x ∷ xs) now h =
      if-both (IfSome (IsAt st t)) (leb x.execute_time_ns now) _ _ (λ _. (h.0, refl)) (λ _. h)

  begin_task-IsAt : (s : TaskQueue) (u : ℕ) → IsAt st t s → IsAt st t (begin_task s u)
  unfolding begin_task
  begin_task-IsAt s u h = begun (execute_begin (s.handlers u)) (λ q.
      ap (λ w. execute_begin (s.handlers w)) q
      ∙ (inert_lem (s.handlers t) (ap is_inert h.0 ∙ inert)).2)
    where
      runs_if :
          (b : Bool)
          → ((u ≡ t) → b ≡ false)
          → runs (if b then Phase.at_work u else Phase.ended u) t ≡ false
      runs_if true f = ground (arith, f)
      runs_if false f = refl

      begun :
          (r : Bool × TaskHandler)
          → ((u ≡ t) → r ≡ (false, s.handlers t))
          → IsAt st t (record (set_handler s u r.1) {
            phase = (if r.0 then Phase.at_work u else Phase.ended u);
          })
      begun r f = (
        update_at s.handlers u r.1 h.0
            (λ q. ap (λ (k : Bool × TaskHandler). k.1.state) (f q) ∙ h.0),
        runs_if r.0 (λ q. ap (λ (k : Bool × TaskHandler). k.0) (f q)),
      )

  process-IsAt :
      (s : TaskQueue) (p : Phase) (now : ℕ) (v : Option ℕ)
      → s.phase ≡ p
      → IsAt st t s
      → IfSome (IsAt st t) (process_from p s now v)
  unfolding take check end_task finish again_clear clear_task again_task
  process-IsAt s Phase.off now v e h = tt
  process-IsAt s Phase.waiting now v e h =
      if-both (IfSome (IsAt st t)) s.is_exit _ _ (λ _. (h.0, refl))
        (λ _. take_due-IsAt s s.tasks now h)
  process-IsAt s (Phase.taken u) now v e h =
      if-both (IsAt st t) (is_canceled (s.handlers u).state) _ _ (λ _. (h.0, refl))
        (λ _. (h.0, refl))
  process-IsAt s (Phase.checked u) now v e h = begin_task-IsAt s u h
  process-IsAt s (Phase.at_work u) now v e h = (
    update_at s.handlers u (execute_end (s.handlers u) v) h.0
        (λ q. absurd (ground (arith, ap (λ k. runs k t) e))),
    refl,
  )
  process-IsAt s (Phase.ended u) now v e h =
      (h.0, after ((s.handlers u).periodic_time_us == uint64_max))
    where
      after : (b : Bool) → runs (if b then Phase.waiting else Phase.again u) t ≡ false
      after true = refl
      after false = refl
  process-IsAt s (Phase.again u) now v e h = (clear_at s.handlers u h.0, refl)
  process-IsAt s (Phase.cleared u) now v e h =
      ((enqueue_cleared-IsAt s u false (s.handlers u).periodic_time_us now h).0, refl)

  got_result-IsAt :
      (s : TaskQueue) (u : ℕ)
      → IsAt st t s
      → IfSome (IsAt st t) (store_result s u (get_result (s.handlers u)))
  unfolding get_result
  got_result-IsAt s u h =
      let k = s.handlers u in
      if-both (λ o. IfSome (IsAt st t) (store_result s u o))
        (is_finished k.state || is_canceled k.state) (some (clear_result k)) none
        (λ _. (unfold clear in clear_at s.handlers u h.0, h.1)) (λ _. tt)

  step-IsAt : (s : TaskQueue) (e : Event) → IsAt st t s → IfSome (IsAt st t) (step s e)
  unfolding step start stop_begin stop_end clear_task
  step-IsAt s Event.start_call h =
      if-both (IfSome (IsAt st t)) (s.has_thread || is_off s.phase) _ _
        (λ _. if-both (IsAt st t) s.has_thread _ _ (λ _. h) (λ _. (h.0, refl))) (λ _. tt)
  step-IsAt s Event.stop_begin_call h = if-both (IsAt st t) s.is_exit _ _ (λ _. h) (λ _. h)
  step-IsAt s Event.stop_end_call h =
      if-both (IfSome (IsAt st t)) (is_off s.phase) _ _
        (λ _. (cancel_all_at s.tasks s.handlers h.0, h.1)) (λ _. tt)
  step-IsAt s (Event.clear_call u) h = (clear_at s.handlers u h.0, h.1)
  step-IsAt s (Event.cancel_call u) h = (cancel_at s.handlers u h.0, h.1)
  step-IsAt s (Event.get_result_call u) h = got_result-IsAt s u h
  step-IsAt s (Event.enqueue_call u c d now) h = enqueue_cleared-IsAt s u c d now h
  step-IsAt s (Event.process now v) h = process-IsAt s s.phase now v refl h

  Reach-IsAt : {s u : TaskQueue} → IsAt st t s → Reach s u → IsAt st t u
  Reach-IsAt v Reach.here = v
  Reach-IsAt v (Reach.next {t = a} {u = b} e r h) =
      IfSome-some (IsAt st t) h (step-IsAt a e (Reach-IsAt v r))

-- A task that is canceled while it does not run stays canceled and never runs, however often it is
-- enqueued again.
pub canceled_for_good :
    {s u : TaskQueue} (t : ℕ)
    → (s.handlers t).state ≡ TaskState.canceled
    → runs s.phase t ≡ false
    → Reach s u
    → ((u.handlers t).state ≡ TaskState.canceled) × (runs u.phase t ≡ false)
canceled_for_good t c n r = Reach-IsAt TaskState.canceled t refl (c, n) r

-- When a task throws, its handler stays in the state of a running one: from then on the task never
-- runs again, and `GetResult` never returns.
pub throw_blocks :
    (s : TaskQueue) {u : TaskQueue} (t : ℕ)
    → (s.handlers t).state ≡ TaskState.running
    → Reach (end_task s t none) u
    → (get_result (u.handlers t) ≡ none) × (runs u.phase t ≡ false)
unfolding get_result
throw_blocks s {u} t h r =
    let (a, b) = Reach-IsAt TaskState.running t refl at_throw r in (rw a refl, b)
  where
    at_throw : IsAt TaskState.running t (end_task s t none)
    at_throw =
        unfold end_task execute_end in
        (update_at TaskState.running t refl s.handlers t (s.handlers t) h (λ _. h), refl)

-- The processor has taken a task and not yet put it down.
abbrev pub is_busy : Phase → Bool
is_busy (Phase.taken t) = true
is_busy (Phase.checked t) = true
is_busy (Phase.at_work t) = true
is_busy (Phase.ended t) = true
is_busy _ = false

abbrev IsMarked : TaskQueue → Type 0
IsMarked s = s.is_task_executing ≡ is_busy s.phase

enqueue_cleared_frame :
    (s : TaskQueue) (u : ℕ) (c : Bool) (d now : ℕ)
    → ((enqueue_cleared s u c d now).1.is_task_executing ≡ s.is_task_executing)
      × ((enqueue_cleared s u c d now).1.phase ≡ s.phase)
unfolding enqueue_cleared
enqueue_cleared_frame s u true d now = ground arith
enqueue_cleared_frame s u false d now = ground arith

process-IsMarked :
    (s : TaskQueue) (p : Phase) (now : ℕ) (v : Option ℕ)
    → s.phase ≡ p
    → IsMarked s
    → IfSome IsMarked (process_from p s now v)
unfolding take check begin_task end_task finish again_clear clear_task again_task
process-IsMarked s Phase.off now v e h = tt
process-IsMarked s Phase.waiting now v e h =
    if-both (IfSome IsMarked) s.is_exit _ _ (λ _. h ∙ ap is_busy e) (λ _. due s.tasks)
  where
    due : (xs : List Item) → IfSome IsMarked (take_due s xs now)
    due [] = tt
    due (x ∷ xs) = if-both (IfSome IsMarked) (leb x.execute_time_ns now) _ _ (λ _. refl) (λ _. h)
process-IsMarked s (Phase.taken t) now v e h =
    if-both IsMarked (is_canceled (s.handlers t).state)
      (record s { is_task_executing = false; phase = Phase.waiting })
      (record s { phase = Phase.checked t }) (λ _. refl) (λ _. h ∙ ap is_busy e)
process-IsMarked s (Phase.checked t) now v e h =
    (h ∙ ap is_busy e) ∙ begun (execute_begin (s.handlers t)).0
  where
    begun : (b : Bool) → true ≡ is_busy (if b then Phase.at_work t else Phase.ended t)
    begun true = refl
    begun false = refl
process-IsMarked s (Phase.at_work t) now v e h = h ∙ ap is_busy e
process-IsMarked s (Phase.ended t) now v e h =
    put_down ((s.handlers t).periodic_time_us == uint64_max)
  where
    put_down : (b : Bool) → false ≡ is_busy (if b then Phase.waiting else Phase.again t)
    put_down true = refl
    put_down false = refl
process-IsMarked s (Phase.again t) now v e h = h ∙ ap is_busy e
process-IsMarked s (Phase.cleared t) now v e h =
    (enqueue_cleared_frame s t false (s.handlers t).periodic_time_us now).0 ∙ h ∙ ap is_busy e

step-IsMarked : (s : TaskQueue) (e : Event) → IsMarked s → IfSome IsMarked (step s e)
unfolding step start stop_begin stop_end clear_task
step-IsMarked s Event.start_call h =
    if-both (IfSome IsMarked) (s.has_thread || is_off s.phase) (some (start s)) none
      (λ e.
        if-both IsMarked s.has_thread s
          (record s { is_exit = false; has_thread = true; phase = Phase.waiting }) (λ _. h)
          (λ f. h ∙ off_idle s.phase (ground arith)))
      (λ _. tt)
  where
    off_idle : (p : Phase) → is_off p ≡ true → is_busy p ≡ false
    off_idle Phase.off q = refl
    off_idle Phase.waiting q = refl
    off_idle (Phase.again t) q = refl
    off_idle (Phase.cleared t) q = refl
    off_idle (Phase.taken t) q = absurd (ground arith)
    off_idle (Phase.checked t) q = absurd (ground arith)
    off_idle (Phase.at_work t) q = absurd (ground arith)
    off_idle (Phase.ended t) q = absurd (ground arith)
step-IsMarked s Event.stop_begin_call h = if-both IsMarked s.is_exit _ _ (λ _. h) (λ _. h)
step-IsMarked s Event.stop_end_call h =
    if-both (IfSome IsMarked) (is_off s.phase) _ _ (λ _. h) (λ _. tt)
step-IsMarked s (Event.clear_call u) h = h
step-IsMarked s (Event.cancel_call u) h = h
step-IsMarked s (Event.get_result_call u) h = got (get_result (s.handlers u))
  where
    got : (r : Option (Option ℕ × TaskHandler)) → IfSome IsMarked (store_result s u r)
    got none = tt
    got (some (v, k)) = h
step-IsMarked s (Event.enqueue_call u c d now) h =
    let f = enqueue_cleared_frame s u c d now in f.0 ∙ h ∙ ap is_busy (sym f.1)
step-IsMarked s (Event.process now v) h = process-IsMarked s s.phase now v refl h

-- In every reachable state `IsTaskExecuting` tells whether the processor has taken a task and not
-- yet put it down.
pub executing_lem :
    (handlers : ℕ → TaskHandler) {s : TaskQueue}
    → Reach (new handlers) s
    → s.is_task_executing ≡ is_busy s.phase
unfolding new
executing_lem handlers Reach.here = refl
executing_lem handlers (Reach.next {t} {u} e r h) =
    IfSome-some IsMarked h (step-IsMarked t e (executing_lem handlers r))
