-- ===== src/Common/Int.antt =====
-- C's signed `int`, as the integer that it stands for.
use Prim.Native.Nat.{ℕ}
use mathlib.Core.Bool.{Bool, true, false}
use circle_stdlib.Common.Tests.{◌==◌}

-- `negsuc n` is -(n + 1).
pub data ℤ : Type 0 where
  pos : ℕ → ℤ
  negsuc : ℕ → ℤ

abbrev pub is_negative : ℤ → Bool
is_negative (pos n) = false
is_negative (negsuc n) = true

-- The test `z == n` against a number that is not negative.
abbrev pub eq_ℕ : ℤ → ℕ → Bool
eq_ℕ (pos m) n = m == n
eq_ℕ (negsuc m) n = false
