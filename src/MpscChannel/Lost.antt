-- ===== src/MpscChannel/Lost.antt =====
-- The race of the assignment to `slot` with a producer.
use lmcore.Prelude.{ℕ, ◌≡◌, true, none}
use lmcore.MpscChannel.{Consumer, Mpsc, slot}

-- The call of the producer has succeeded and the slot that it has written is empty.
abbrev pub Erased : Mpsc → Mpsc → ℕ → ℕ → Type 0
Erased s u i h =
    (u.pushed i ≡ true)
    × (slot u h ≡ none)
    × (u.head ≡ s.head)
    × (u.received ≡ s.received)
    × (u.consumer ≡ Consumer.pop_test 0 h)
