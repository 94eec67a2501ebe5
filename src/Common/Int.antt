-- ===== src/Common/Int.antt =====
-- C's `int` as a signed number (`negsuc n` is -(n + 1)), with the tests that the sources make.
use Prim.Native.Nat.{ℕ, zero, suc}
use mathlib.Core.Bool.{Bool, true, false}

pub data ℤ : Type 0 where
  pos : ℕ → ℤ
  negsuc : ℕ → ℤ

-- `return -1`.
abbrev pub minus_one : ℤ
minus_one = negsuc 0

-- `ret < 0`, and `ret == 0`.
abbrev pub is_negative : ℤ → Bool
is_negative (pos n) = false
is_negative (negsuc n) = true

abbrev pub is_zero : ℤ → Bool
is_zero (pos zero) = true
is_zero (pos (suc n)) = false
is_zero (negsuc n) = false
