-- ===== src/Prelude/Tables.antt =====
-- Laws over a small range, checked at every value by evaluation.
use audio_tool_api.Prelude.Tests.{if◌then◌else◌}
use Prim.Native.Nat.{ℕ, zero, suc, ◌<◌}
use mathlib.Core.Path.{◌≡◌}
use mathlib.Core.Bool.{Bool, true, false}
use native.Mathlib.Omega.{arith}

-- The law at every number below the bound.
unfoldable pub table : (ℕ → Bool) → ℕ → Bool
table law zero = true
table law (suc bound) = let below = table law bound in if law bound then below else false

pub table_lem : (law : ℕ → Bool) (bound n : ℕ) → table law bound ≡ true → n < bound → law n ≡ true
unfolding table
table_lem law zero n checked inside = absurd (omega arith)
table_lem law (suc bound) n checked inside = ground (arith, table_lem law bound n)
