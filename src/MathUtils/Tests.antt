-- ===== src/MathUtils/Tests.antt =====
-- utils/common/mathUtils.ts at concrete inputs.
use index.Base.{◌≡◌, refl, ok, err, division_by_zero}
use index.Base.Int.{pos, negsuc, ◌+ℤ◌, ◌-ℤ◌, ◌*ℤ◌, tdiv, umod}
use index.BigNumber.{reference, reference-IsBigNumber}
use index.Constants.{precise_unit}
use index.MathUtils.{
  precise_mul, precise_mul_ceil, precise_mul_ceil_int, precise_div, precise_div_ceil, div_down,
}
use index.MathUtils.Spec.{RoundsToZero, RoundsDown, Divides}
use index.MathUtils.Rounding.{precise_operations_round, div_down-RoundsDown}

-- -0.5 times 3 units, in base units.
mul_signs :
    (precise_mul (negsuc 2) (pos 500_000_000_000_000_000) ≡ ok (negsuc 0))
    × (precise_mul_ceil_int (negsuc 2) (pos 500_000_000_000_000_000) ≡ ok (negsuc 1))
    × (precise_mul_ceil (pos 3) (pos 500_000_000_000_000_000) ≡ ok (pos 2))
unfolding precise_mul precise_mul_ceil_int precise_mul_ceil ◌*ℤ◌ ◌-ℤ◌ ◌+ℤ◌ tdiv
mul_signs = (refl, refl, refl)

div_signs :
    (div_down (negsuc 6) (pos 2) ≡ ok (negsuc 3))
    × (div_down (pos 7) (negsuc 1) ≡ ok (negsuc 3))
    × (precise_div (pos 1) (pos 0) ≡ err division_by_zero)
    × (precise_div_ceil (pos 1) (pos 0) ≡ ok (pos 0))
unfolding div_down precise_div precise_div_ceil ◌*ℤ◌ ◌-ℤ◌ ◌+ℤ◌ tdiv umod
div_signs = (refl, refl, refl, refl)

precise_operations_round_example :
    Divides
      (negsuc 2)
      (precise_div (pos 7) (negsuc 2))
      (RoundsToZero (pos 7 *ℤ precise_unit) (negsuc 2))
precise_operations_round_example =
    (precise_operations_round reference-IsBigNumber (pos 7) (negsuc 2)).2

div_down-RoundsDown_example :
    Divides (pos 2) (div_down (negsuc 6) (pos 2)) (RoundsDown (negsuc 6) (pos 2))
div_down-RoundsDown_example = div_down-RoundsDown reference-IsBigNumber (negsuc 6) (pos 2)
