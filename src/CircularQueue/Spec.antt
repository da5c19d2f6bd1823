-- ===== src/CircularQueue/Spec.antt =====
-- The calls that a client of `CircularQueue` makes and what it sees of each, and the bounded queue
-- that it may take the class for: a list of at most `cap` values, the oldest first.
use lmcore.Prelude.{ℕ, Bool, true, false, if◌then◌else◌, ltb, ◌==◌, List, [], ◌∷◌, ◌++◌, length}

pub data Op {ℓ} (A : Type ℓ) : Type ℓ where
  push : A → Op A
  try_push : A → Op A
  force_push : A → Op A
  pop try_pop clear capacity size empty full : Op A

-- `blocked`: the caller is left waiting on its condition variable.
pub data Reply {ℓ} (A : Type ℓ) : Type ℓ where
  blocked done absent : Reply A
  flag : Bool → Reply A
  value : A → Reply A
  number : ℕ → Reply A

module _ {ℓ} {A : Type ℓ} (cap : ℕ) where
  -- The oldest value makes room.
  abbrev pub push_out : List A → A → List A
  push_out [] v = v ∷ []
  push_out (x ∷ xs) v = xs ++ v ∷ []

  unfoldable pub spec_call : List A → Op A → List A × Reply A
  spec_call xs (Op.push v) =
      if ltb (length xs) cap then (xs ++ v ∷ [], Reply.done) else (xs, Reply.blocked)
  spec_call xs (Op.try_push v) =
      if ltb (length xs) cap then (xs ++ v ∷ [], Reply.flag true) else (xs, Reply.flag false)
  spec_call xs (Op.force_push v) =
      if ltb (length xs) cap
      then (xs ++ v ∷ [], Reply.flag false)
      else (push_out xs v, Reply.flag true)
  spec_call [] Op.pop = ([], Reply.blocked)
  spec_call (x ∷ xs) Op.pop = (xs, Reply.value x)
  spec_call [] Op.try_pop = ([], Reply.absent)
  spec_call (x ∷ xs) Op.try_pop = (xs, Reply.value x)
  spec_call xs Op.clear = ([], Reply.done)
  spec_call xs Op.capacity = (xs, Reply.number cap)
  spec_call xs Op.size = (xs, Reply.number (length xs))
  spec_call xs Op.empty = (xs, Reply.flag (length xs == 0))
  spec_call xs Op.full = (xs, Reply.flag (length xs == cap))

  unfoldable pub spec_run : List A → List (Op A) → List (Reply A)
  spec_run xs [] = []
  spec_run xs (op ∷ ops) = let (xs', r) = spec_call xs op in r ∷ spec_run xs' ops
