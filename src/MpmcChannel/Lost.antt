-- ===== src/MpmcChannel/Lost.antt =====
-- A consumer claims its slot by `head_` before it takes the value out, so a producer may write the
-- slot first.
use lmcore.Prelude.{
  ℕ, ◌%◌, ◌<◌, ◌≡◌, ◌≢◌, ap, ◌∙◌, arith, true, false, if◌then◌else◌, ◌==◌, List, [], ◌∷◌, Option,
  none, some, length, get_or, set, get_or-set_self, length-set,
}
use lmcore.MpmcChannel.{Thread, Reply, Mpmc, reply, slot, take_slot, thread_step, Event, step}

-- Some events in a row; `none` where one of them cannot happen.
abbrev pub run_from : Option Mpmc → List Event → Option Mpmc
run_from none es = none
run_from (some s) [] = some s
run_from (some s) (e ∷ es) = run_from (step s e) es

-- Where a producer is about to write the slot that a consumer has claimed and not emptied yet, and
-- does so first, both calls succeed and the consumer gets the new value: the one that the slot held is
-- lost, and the slot of the producer's position is left empty.
pub overwritten_lem :
    (s : Mpmc) (i j h t v : ℕ)
    → i ≢ j
    → h % s.capacity < length s.buffer
    → t % s.capacity ≡ h % s.capacity
    → s.threads i ≡ Thread.pop_take h
    → s.threads j ≡ Thread.push_write v t
    → (u : Mpmc) × (run_from (some s) (Event.next_step j false ∷ Event.next_step i false ∷ [])
        ≡ some u)
      × (u.replies i ≡ Reply.popped (some v))
      × (u.replies j ≡ Reply.pushed true)
      × (slot u t ≡ none)
unfolding step thread_step
overwritten_lem s i j h t v apart inside same takes writes =
    let s1 =
      reply (record s { buffer = set s.buffer (t % s.capacity) (some v) }) j (Reply.pushed true) in
    let s2 =
      reply (record s1 { buffer = set s1.buffer (h % s.capacity) none }) i
        (Reply.popped (some v)) in
    let other : (j == i) ≡ false = ground arith in
    let another : (i == j) ≡ false = ground arith in
    let own : (i == i) ≡ true = ground arith in
    let mine : (j == j) ≡ true = ground arith in
    let held : slot s1 h ≡ some v =
      ap (λ k. get_or (set s.buffer k (some v)) (h % s.capacity) none) same
      ∙ get_or-set_self s.buffer (h % s.capacity) (some v) none inside in
    (
      s2,
      ap (λ th. run_from (thread_step s j false th) (Event.next_step i false ∷ [])) writes
          ∙ ap
              (λ b.
                run_from (thread_step s1 i false (if b then Thread.outside else s.threads i)) [])
              other
          ∙ ap (λ th. run_from (thread_step s1 i false th) []) takes
          ∙ ap (λ o. run_from (take_slot s1 i h o) []) held,
      ap (λ b. if b then Reply.popped (some v) else s1.replies i) own,
      ap (λ b. if b then Reply.popped (some v) else s1.replies j) another
          ∙ ap (λ b. if b then Reply.pushed true else s.replies j) mine,
      ap (λ k. get_or (set s1.buffer (h % s.capacity) none) k none) same
          ∙ get_or-set_self s1.buffer (h % s.capacity) none none
              (omega (arith, length-set s.buffer (t % s.capacity) (some v))),
    )
