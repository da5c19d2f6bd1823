-- ===== src/Prelude/ByteTable.antt =====
-- Facts about every byte, by evaluation of a Boolean test at each of the 256 values.
use Prim.Native.Nat.{ℕ, zero, suc, ◌<◌}
use Prim.Native.Char.{code}
use Prim.Native.String.{String}
use mathlib.Core.Path.{◌≡◌}
use mathlib.Core.List.{List, [], ◌∷◌}
use mathlib.Core.Bool.{Bool, true, ◌&&◌}
use native.Mathlib.Omega.{arith}

abbrev pub Bytes : Type 0
Bytes = List ℕ

abbrev pub IsByte : ℕ → Type 0
IsByte b = b < 256

-- The codes of a literal: its bytes, where the text is ASCII.
abbrev pub codes : String → Bytes
codes String.[] = []
codes (String.◌∷◌ c s) = code c ∷ codes s

-- The test passes at `k - 1`, …, `1`, `0`.
unfoldable pub passes : (ℕ → Bool) → ℕ → Bool
passes test zero = true
passes test (suc k) = test k && passes test k

pub passes_at : (test : ℕ → Bool) (k b : ℕ) → b < k → passes test k ≡ true → test b ≡ true
unfolding passes
passes_at test zero b small all = absurd (omega arith)
passes_at test (suc k) b small all = ground (arith, passes_at test k b)
