-- ===== src/MathUtils/Rounding.antt =====
-- How `preciseMul`, `preciseDiv`, `preciseMulCeilInt`, `preciseDivCeilInt` and `divDown` of
-- utils/common/mathUtils.ts round, for arguments of either sign.
use index.Base.{Returns}
use index.Base.Int.{ℤ, ◌*ℤ◌}
use index.BigNumber.{BigNumber, IsBigNumber, eq_reference}
use index.Constants.{precise_unit}
use index.MathUtils.{precise_mul, precise_mul_ceil_int, precise_div, precise_div_ceil_int, div_down}
use index.MathUtils.Spec.{RoundsToZero, RoundsFromZero, RoundsDown, Divides}
use index.MathUtils.ToZero.{precise_mul-RoundsToZero_reference, precise_div-RoundsToZero_reference}
use index.MathUtils.FromZero.{
  precise_mul_ceil_int-RoundsFromZero_reference, precise_div_ceil_int-RoundsFromZero_reference,
}
use index.MathUtils.Down.{div_down-RoundsDown_reference}

-- `divDown` throws a division by zero exactly when the divisor is zero, and else returns the quotient
-- rounded down, whatever the signs of the two arguments.
pub div_down-RoundsDown :
    ⦃bn : BigNumber⦄ (h : IsBigNumber bn) (a b : ℤ) → Divides b (div_down a b) (RoundsDown a b)
div_down-RoundsDown h a b = rw (eq_reference h) (div_down-RoundsDown_reference a b)

-- For arguments of either sign: `preciseMul` and `preciseMulCeilInt` return the product over the unit,
-- rounded towards zero and away from it; `preciseDiv` and `preciseDivCeilInt` throw a division by zero
-- exactly when the divisor is zero, and else return `a` times the unit over the divisor, rounded towards
-- zero and away from it.
pub precise_operations_round :
    ⦃bn : BigNumber⦄ (h : IsBigNumber bn) (a b : ℤ)
    → Returns (precise_mul a b) (RoundsToZero (a *ℤ b) precise_unit)
      × Returns (precise_mul_ceil_int a b) (RoundsFromZero (a *ℤ b) precise_unit)
      × Divides b (precise_div a b) (RoundsToZero (a *ℤ precise_unit) b)
      × Divides b (precise_div_ceil_int a b) (RoundsFromZero (a *ℤ precise_unit) b)
precise_operations_round h a b = rw (eq_reference h) (
  precise_mul-RoundsToZero_reference a b,
  precise_mul_ceil_int-RoundsFromZero_reference a b,
  precise_div-RoundsToZero_reference a b,
  precise_div_ceil_int-RoundsFromZero_reference a b,
)
