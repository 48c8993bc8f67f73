-- ===== src/MathUtils/ToZero.antt =====
-- `preciseMul` and `preciseDiv` of utils/common/mathUtils.ts.
use index.Base.{suc, zero, refl, Returns, arith}
use index.Base.Int.{ℤ, pos, negsuc, ◌*ℤ◌, tdiv}
use index.BigNumber.{reference}
use index.Constants.{precise_unit}
use index.MathUtils.{precise_mul, precise_div}
use index.MathUtils.Spec.{RoundsToZero, Divides}

pub precise_mul-RoundsToZero_reference :
    (a b : ℤ) → Returns (precise_mul a b) (RoundsToZero (a *ℤ b) precise_unit)
unfolding precise_mul ◌*ℤ◌ tdiv
precise_mul-RoundsToZero_reference a b = ground arith

pub precise_div-RoundsToZero_reference :
    (a b : ℤ) → Divides b (precise_div a b) (RoundsToZero (a *ℤ precise_unit) b)
unfolding precise_div ◌*ℤ◌ tdiv
precise_div-RoundsToZero_reference a (pos zero) = refl
precise_div-RoundsToZero_reference (pos a) (pos (suc b)) = ground arith
precise_div-RoundsToZero_reference (pos a) (negsuc b) = ground arith
precise_div-RoundsToZero_reference (negsuc a) (pos (suc b)) = ground arith
precise_div-RoundsToZero_reference (negsuc a) (negsuc b) = ground arith
