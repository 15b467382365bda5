-- ===== src/Base/Int.antt =====
-- Signed integers over the native numbers, for Go's int32, with the order and the increment.
use Prim.Native.Nat.{ℕ, zero, suc, ◌+◌, ◌≤◌, ◌<◌}
use mathlib.Core.Bool.{Bool}
use native.Mathlib.Decide.{ℕ_discrete}
use sandbox_fleet.Base.Tests.{ltb, if◌then◌else◌}
use sandbox_fleet.Base.Equality.{Key}

-- `negsuc n` is -(n + 1).
pub data ℤ : Type 0 where
  pos : ℕ → ℤ
  negsuc : ℕ → ℤ

abbrev pub pos_part : ℤ → ℕ
pos_part (pos n) = n
pos_part (negsuc n) = 0

abbrev pub neg_part : ℤ → ℕ
neg_part (pos n) = 0
neg_part (negsuc n) = suc n

infix 50 ◌<ℤ◌ ◌≤ℤ◌
abbrev pub ◌≤ℤ◌ : ℤ → ℤ → Type 0
a ≤ℤ b = pos_part a + neg_part b ≤ pos_part b + neg_part a

abbrev pub ◌<ℤ◌ : ℤ → ℤ → Type 0
a <ℤ b = pos_part a + neg_part b < pos_part b + neg_part a

abbrev pub ltb_ℤ : ℤ → ℤ → Bool
ltb_ℤ a b = ltb (pos_part a + neg_part b) (pos_part b + neg_part a)

unfoldable pub ℤ-discrete : Discrete ℤ
unfolding ℕ_discrete
ℤ-discrete = hlevel ℕ_discrete

instance unfoldable pub int_key : Key ℤ
unfolding ℤ-discrete
int_key = record { same = ℤ-discrete }

abbrev pub max_int32 : ℕ
max_int32 = 2147483647

-- `x++` on an int32: the largest value wraps to -2^31.
unfoldable pub incr32 : ℤ → ℤ
incr32 (pos n) = if ltb n max_int32 then pos (suc n) else negsuc max_int32
incr32 (negsuc zero) = pos 0
incr32 (negsuc (suc n)) = negsuc n
