-- ===== src/CircularQueue/Tests.antt =====
-- `CircularQueue<int>` with three slots, run as in tests/unit/test_circular_queue.cpp.
use lmcore.Prelude.{ℕ, ◌≤◌, ◌≡◌, refl, arith, true, false, List, [], ◌∷◌}
use lmcore.CircularQueue.Spec.{Op, Reply, spec_run}
use lmcore.CircularQueue.{
  CircularQueue, new, push, try_push, force_push, pop, try_pop, clear, call, run,
}
use lmcore.CircularQueue.Inv.{IsValid, contents}
use lmcore.CircularQueue.Refine.{new-IsValid, call-IsValid, run_refines}

abbrev moved : ℕ → ℕ
moved x = x

-- 8 and 9, going round the end of the storage.
abbrev wrapped : CircularQueue ℕ
wrapped = record { capacity = 3; buffer = 9 ∷ 7 ∷ 8 ∷ []; head = 2; tail = 1; size = 2 }

wrapped-IsValid : IsValid wrapped
wrapped-IsValid = omega arith

abbrev script : List (Op ℕ)
script =
    Op.try_push 1
    ∷ Op.try_push 2
    ∷ Op.force_push 3
    ∷ Op.full
    ∷ Op.pop
    ∷ Op.try_pop
    ∷ Op.size
    ∷ Op.clear
    ∷ Op.pop
    ∷ []

run-wrapped :
    run 0 moved wrapped script
    ≡ Reply.flag true
      ∷ Reply.flag false
      ∷ Reply.flag true
      ∷ Reply.flag true
      ∷ Reply.value 9
      ∷ Reply.value 1
      ∷ Reply.number 1
      ∷ Reply.done
      ∷ Reply.blocked
      ∷ []
unfolding run call push try_push force_push pop try_pop clear
run-wrapped = refl

new-IsValid_example :
    IsValid (new 0 moved 5)
    × (contents 0 (new 0 moved 5) ≡ [])
    × (1 ≤ (new 0 moved 5).capacity)
    × (5 ≤ (new 0 moved 5).capacity)
new-IsValid_example = new-IsValid 0 moved 5 (omega arith)

call-IsValid_example : IsValid (call 0 moved wrapped (Op.force_push 1)).0
call-IsValid_example = call-IsValid 0 moved (Op.force_push 1) wrapped-IsValid

run_refines_example : run 0 moved wrapped script ≡ spec_run 3 (8 ∷ 9 ∷ []) script
run_refines_example = run_refines 0 moved script wrapped-IsValid
