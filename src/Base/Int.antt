-- ===== src/Base/Int.antt =====
-- Signed integers over the native numbers, as far as Go's durations need them.
use Prim.Native.Nat.{ℕ, suc, ◌+◌, ◌-◌}
use mathlib.Core.Bool.{Bool, false}
use sovereignite.Base.Tests.{ltb, ◌==◌}

-- `negsuc n` is -(n + 1).
pub data ℤ : Type 0 where
  pos negsuc : ℕ → ℤ

abbrev pub is_positive : ℤ → Bool
is_positive (pos n) = ltb 0 n
is_positive (negsuc n) = false

abbrev pub is_zero : ℤ → Bool
is_zero (pos n) = n == 0
is_zero (negsuc n) = false

-- A time moved by a duration; the zero time is the earliest.
abbrev pub shifted : ℕ → ℤ → ℕ
shifted t (pos n) = t + n
shifted t (negsuc n) = t - suc n
