-- ===== src/TaskQueue/Cancel.antt =====
-- What `EnqueueTask` and `Stop` do to the queue.
use lmcore.Prelude.{
  ℕ, ◌≡◌, refl, arith, Bool, true, if◌then◌else◌, leb, ◌==◌, ◌||◌, List, [], ◌∷◌, if-both, All,
}
use lmcore.TaskQueue.{
  TaskState, TaskHandler, Item, TaskQueue, is_running, is_canceled, update, cancel, cancel_all,
  stop_end,
}

-- The items that are due at a time or before, and the others.
abbrev pub due_by : ℕ → List Item → List Item
due_by n [] = []
due_by n (x ∷ xs) = if leb x.execute_time_ns n then x ∷ due_by n xs else due_by n xs

abbrev pub due_after : ℕ → List Item → List Item
due_after n [] = []
due_after n (x ∷ xs) = if leb x.execute_time_ns n then due_after n xs else x ∷ due_after n xs

-- A handler's task is under way, or it is canceled.
abbrev pub is_down : TaskState → Bool
is_down st = is_running st || is_canceled st

cancel_down : (h : TaskHandler) → is_down (cancel h).state ≡ true
unfolding cancel
cancel_down h = ground arith

cancel_keeps : (h : TaskHandler) → is_down h.state ≡ true → is_down (cancel h).state ≡ true
cancel_keeps h e = cancel_down h

stays_down :
    (xs : List Item) (hs : ℕ → TaskHandler) (t : ℕ)
    → is_down (hs t).state ≡ true
    → is_down (cancel_all xs hs t).state ≡ true
unfolding cancel_all
stays_down [] hs t h = h
stays_down (x ∷ xs) hs t h = stays_down xs (update hs x.task (cancel (hs x.task))) t (
    if-both (λ (k : TaskHandler). is_down k.state ≡ true) (x.task == t) (cancel (hs x.task)) (hs t)
      (λ _. cancel_down (hs x.task)) (λ _. h))

cancel_all_lem :
    (xs : List Item) (hs : ℕ → TaskHandler)
    → All (λ x. is_down (cancel_all xs hs x.task).state ≡ true) xs
unfolding cancel_all
cancel_all_lem [] hs = tt
cancel_all_lem (x ∷ xs) hs = (
  stays_down xs (update hs x.task (cancel (hs x.task))) x.task
      (let e : (x.task == x.task) ≡ true = ground arith in rw e (cancel_down (hs x.task))),
  cancel_all_lem xs (update hs x.task (cancel (hs x.task))),
)

-- When `Stop` returns, nothing is queued, and the task of each item that was is canceled, or was
-- running when the item was dropped.
pub stop_end_lem :
    (s : TaskQueue)
    → ((stop_end s).tasks ≡ [])
      × All (λ x. is_down ((stop_end s).handlers x.task).state ≡ true) s.tasks
unfolding stop_end
stop_end_lem s = (refl, cancel_all_lem s.tasks s.handlers)
