-- ===== src/CircularQueue/Refine.antt =====
-- A valid `CircularQueue` behaves as the bounded queue of its contents, call by call and over any
-- interleaving of calls.
use lmcore.Prelude.{
  ℕ, suc, ◌+◌, ◌^◌, ◌≤◌, ◌<◌, ◌≡◌, refl, sym, ap, ap₂, ◌∙◌, arith, List, [], ◌∷◌, ◌++◌, length, set,
  length-set, length-replicate, get_or, sub64, u64,
}
use native.Mathlib.Nat.{mod-eq_of_lt}
use lmcore.Window.{window, length-window, window_congr}
use lmcore.CircularQueue.Spec.{Op, spec_call, spec_run, push_out}
use lmcore.CircularQueue.{
  CircularQueue, advance, new, write_tail, take_head, grow, push, try_push, force_push, pop,
  try_pop, clear, call, run,
}
use lmcore.CircularQueue.Inv.{
  IsValid, contents, window-push, window-pop, advance_tail, advance-lt, advance-shift, next-mod,
}

module _ {A : Type 0} (d : A) (moved : A → A) where
  -- The constructor gives an empty valid queue of the capacity asked for, or of one slot for zero.
  pub new-IsValid :
      (n : ℕ)
      → n < 2 ^ 63
      → IsValid (new d moved n)
        × (contents d (new d moved n) ≡ [])
        × (1 ≤ (new d moved n).capacity)
        × (n ≤ (new d moved n).capacity)
  unfolding new
  new-IsValid n h = ground (arith, length-replicate n d)

  length-contents : (q : CircularQueue A) → length (contents d q) ≡ q.size
  length-contents q = length-window d q.capacity q.buffer q.head q.size

  pushed-IsValid :
      {q : CircularQueue A} (v : A)
      → IsValid q
      → q.size < q.capacity
      → IsValid (grow d moved (write_tail d moved q v))
  pushed-IsValid {q} v h room =
      ground (arith, length-set q.buffer q.tail v, advance_tail q.capacity q.head q.size q.tail)

  contents-pushed :
      {q : CircularQueue A} (v : A)
      → IsValid q
      → q.size < q.capacity
      → contents d (grow d moved (write_tail d moved q v)) ≡ contents d q ++ (v ∷ [])
  contents-pushed {q} v h room =
      let e : u64 (q.size + 1) ≡ suc q.size = omega arith in
      ap (window d q.capacity (set q.buffer q.tail v) q.head) e
      ∙ window-push d q.capacity q.buffer q.head q.size q.tail v h.storage h.positive room h.tail_at

  take_head-IsValid :
      {q : CircularQueue A} → IsValid q → 0 < q.size → IsValid (take_head d moved q).1
  take_head-IsValid {q} h some_left = ground (
    arith,
    length-set q.buffer q.head (moved (get_or q.buffer q.head d)),
    advance-shift q.capacity q.head (sub64 q.size 1),
    advance-lt q.capacity q.head,
  )

  contents-take_head :
      {q : CircularQueue A}
      → IsValid q
      → 0 < q.size
      → let (x, q') = take_head d moved q in contents d q ≡ x ∷ contents d q'
  contents-take_head {q} h some_left =
      let x = get_or q.buffer q.head d in
      let e : q.size ≡ suc (sub64 q.size 1) = omega arith in
      ap (window d q.capacity q.buffer q.head) e
      ∙ window-pop d q.capacity q.buffer q.head (advance q.capacity q.head) (sub64 q.size 1)
          (moved x) h.small h.head_in (omega arith) refl

  -- What overwriting does first: the oldest value is given up where it lies.
  abbrev drop_head : CircularQueue A → CircularQueue A
  drop_head q = record q { head = advance q.capacity q.head; size = sub64 q.size 1 }

  drop_head-IsValid : {q : CircularQueue A} → IsValid q → 0 < q.size → IsValid (drop_head q)
  drop_head-IsValid {q} h some_left =
      ground (arith, advance-shift q.capacity q.head (sub64 q.size 1), advance-lt q.capacity q.head)

  contents-drop_head :
      {q : CircularQueue A}
      → IsValid q
      → 0 < q.size
      → contents d q ≡ get_or q.buffer q.head d ∷ contents d (drop_head q)
  contents-drop_head {q} h some_left =
      let e : q.size ≡ suc (sub64 q.size 1) = omega arith in
      ap (window d q.capacity q.buffer q.head) e
      ∙ ap₂ ◌∷◌ (ap (λ i. get_or q.buffer i d) (mod-eq_of_lt h.head_in)) (
          window_congr d q.capacity q.buffer (suc q.head) (advance q.capacity q.head)
            (sub64 q.size 1) (next-mod q.capacity q.head h.small h.head_in))

  overwrite-eq :
      {q : CircularQueue A} (v : A)
      → IsValid q
      → 0 < q.size
      → write_tail d moved (record q { head = advance q.capacity q.head }) v
        ≡ grow d moved (write_tail d moved (drop_head q) v)
  overwrite-eq {q} v h some_left =
      let e : q.size ≡ u64 (sub64 q.size 1 + 1) = omega arith in
      λ i. record q {
        buffer = set q.buffer q.tail v;
        head = advance q.capacity q.head;
        tail = advance q.capacity q.tail;
        size = e i;
      }

  overwrite_lem :
      {q : CircularQueue A} (v : A)
      → IsValid q
      → q.capacity ≤ q.size
      → let q' = write_tail d moved (record q { head = advance q.capacity q.head }) v in
        IsValid q' × (contents d q' ≡ push_out q.capacity (contents d q) v)
  overwrite_lem {q} v h full =
      let some_left : 0 < q.size = omega arith in
      let hd = drop_head-IsValid h some_left in
      let room : (drop_head q).size < q.capacity = omega arith in
      (
        rw (overwrite-eq v h some_left) (pushed-IsValid {q = drop_head q} v hd room),
        ap (contents d) (overwrite-eq v h some_left)
            ∙ contents-pushed {q = drop_head q} v hd room
            ∙ sym (ap (λ xs. push_out q.capacity xs v) (contents-drop_head h some_left)),
      )

  -- Each call keeps the invariant.
  pub call-IsValid : (op : Op A) {q : CircularQueue A} → IsValid q → IsValid (call d moved q op).0
  unfolding call push try_push force_push pop try_pop clear
  call-IsValid (Op.push v) {q} h = ground (arith, pushed-IsValid v h)
  call-IsValid (Op.try_push v) {q} h = ground (arith, pushed-IsValid v h)
  call-IsValid (Op.force_push v) {q} h = ground (arith, pushed-IsValid v h, overwrite_lem v h)
  call-IsValid Op.pop {q} h = ground (arith, take_head-IsValid h)
  call-IsValid Op.try_pop {q} h = ground (arith, take_head-IsValid h)
  call-IsValid Op.clear {q} h = ground arith
  call-IsValid Op.capacity h = h
  call-IsValid Op.size h = h
  call-IsValid Op.empty h = h
  call-IsValid Op.full h = h

  capacity-call : (op : Op A) (q : CircularQueue A) → (call d moved q op).0.capacity ≡ q.capacity
  unfolding call push try_push force_push pop try_pop clear
  capacity-call (Op.push v) q = ground arith
  capacity-call (Op.try_push v) q = ground arith
  capacity-call (Op.force_push v) q = ground arith
  capacity-call Op.pop q = ground arith
  capacity-call Op.try_pop q = ground arith
  capacity-call _ q = refl

  -- Each call replies as the bounded queue does, and leaves the values that it leaves.
  pub call_refines :
      (op : Op A) {q : CircularQueue A}
      → IsValid q
      → let (q', r, _) = call d moved q op in
        (contents d q', r) ≡ spec_call q.capacity (contents d q) op
  unfolding call push try_push force_push pop try_pop clear spec_call
  call_refines (Op.push v) {q} h = ground (arith, contents-pushed v h, length-contents q)
  call_refines (Op.try_push v) {q} h = ground (arith, contents-pushed v h, length-contents q)
  call_refines (Op.force_push v) {q} h =
      ground (arith, contents-pushed v h, overwrite_lem v h, length-contents q)
  call_refines Op.pop {q} h = ground (arith, contents-take_head h, length-contents q)
  call_refines Op.try_pop {q} h = ground (arith, contents-take_head h, length-contents q)
  call_refines Op.clear {q} h = refl
  call_refines Op.capacity {q} h = refl
  call_refines Op.size {q} h = ground (arith, length-contents q)
  call_refines Op.empty {q} h = ground (arith, length-contents q)
  call_refines Op.full {q} h = ground (arith, length-contents q)

  -- No interleaving of calls tells a valid queue from the bounded queue of its contents.
  pub run_refines :
      (ops : List (Op A)) {q : CircularQueue A}
      → IsValid q
      → run d moved q ops ≡ spec_run q.capacity (contents d q) ops
  unfolding run spec_run
  run_refines [] h = refl
  run_refines (op ∷ ops) {q} h =
      let e = call_refines op h in
      ap₂ ◌∷◌ (λ i. (e i).1)
        (run_refines ops (call-IsValid op h) ∙ λ i. spec_run (capacity-call op q i) (e i).0 ops)
