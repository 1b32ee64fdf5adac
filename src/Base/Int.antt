-- ===== src/Base/Int.antt =====
-- Signed integers over the native numbers, as far as a difference of two heights needs them.
use Prim.Native.Nat.{ℕ, ◌-◌}
use mathlib.Core.Bool.{Bool, false}
use doge_sdk.Base.Tests.{ltb, leb, if◌then◌else◌}

-- `negsuc n` is -(n + 1).
pub data ℤ : Type 0 where
  pos : ℕ → ℤ
  negsuc : ℕ → ℤ

-- a - b, as an integer.
abbrev pub sub_ℕ : ℕ → ℕ → ℤ
sub_ℕ a b = if leb b a then pos (a - b) else negsuc (b - a - 1)

-- `z > 1` and `z < -1`.
abbrev pub gt_one : ℤ → Bool
gt_one (pos n) = ltb 1 n
gt_one (negsuc n) = false

abbrev pub lt_neg_one : ℤ → Bool
lt_neg_one (pos n) = false
lt_neg_one (negsuc n) = ltb 0 n
