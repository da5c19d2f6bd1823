-- ===== src/Prelude/Count.antt =====
-- How often a number occurs in a list.
use Prim.Native.Nat.{ℕ, ◌+◌}
use mathlib.Core.Path.{◌≡◌}
use mathlib.Core.List.{List, [], ◌∷◌, ◌++◌}
use native.Mathlib.Omega.{arith}
use lmcore.Prelude.Tests.{◌==◌, if◌then◌else◌}

abbrev pub count : ℕ → List ℕ → ℕ
count i [] = 0
count i (x ∷ xs) = (if x == i then 1 else 0) + count i xs

pub count-append : (i : ℕ) (xs ys : List ℕ) → count i (xs ++ ys) ≡ count i xs + count i ys
count-append i [] ys = omega arith
count-append i (x ∷ xs) ys = omega (arith, count-append i xs ys)

abbrev pub erase : ℕ → List ℕ → List ℕ
erase i [] = []
erase i (x ∷ xs) = if x == i then erase i xs else x ∷ erase i xs

pub count-erase :
    (j i : ℕ) (xs : List ℕ) → count j (erase i xs) ≡ (if i == j then 0 else count j xs)
count-erase j i [] = ground arith
count-erase j i (x ∷ xs) = ground (arith, count-erase j i xs)
