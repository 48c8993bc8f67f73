-- ===== src/MathUtils.antt =====
-- utils/common/mathUtils.ts: products and quotients of fixed-point numbers with 18 decimals, on
-- `BigNumber`s. `ok` is the value returned, `err` the fault that a division by zero throws.
pub mod Closed
pub mod Spec
pub mod ToZero
pub mod FromZero
pub mod Down
pub mod Rounding
mod Tests
use index.Base.{Bool, true, false, not, ◌&&◌, ◌||◌, Result, ok, err, ◌>>=◌, if◌then◌else◌}
use index.Base.Int.{ℤ, pos, negsuc}
use index.BigNumber.{BigNumber}
use index.Constants.{precise_unit}

module _ ⦃bn : BigNumber⦄ where
  open bn use {add, sub, mul, div, mod_of, eq, lt, gt, is_zero}

  unfoldable pub precise_mul : ℤ → ℤ → Result ℤ
  precise_mul a b = div (mul a b) precise_unit

  unfoldable pub precise_mul_ceil : ℤ → ℤ → Result ℤ
  precise_mul_ceil a b =
      if eq a (pos 0) || eq b (pos 0)
      then ok (pos 0)
      else (do q ← div (sub (mul a b) (pos 1)) precise_unit; ok (add q (pos 1)))

  unfoldable pub precise_mul_ceil_int : ℤ → ℤ → Result ℤ
  precise_mul_ceil_int a b =
      if eq a (pos 0) || eq b (pos 0)
      then ok (pos 0)
      else if gt a (pos 0) && gt b (pos 0) || lt a (pos 0) && lt b (pos 0)
      then (do q ← div (sub (mul a b) (pos 1)) precise_unit; ok (add q (pos 1)))
      else (do q ← div (add (mul a b) (pos 1)) precise_unit; ok (sub q (pos 1)))

  unfoldable pub precise_div : ℤ → ℤ → Result ℤ
  precise_div a b = div (mul a precise_unit) b

  unfoldable pub precise_div_ceil : ℤ → ℤ → Result ℤ
  precise_div_ceil a b =
      if eq a (pos 0) || eq b (pos 0)
      then ok (pos 0)
      else (do q ← div (sub (mul a precise_unit) (pos 1)) b; ok (add q (pos 1)))

  pub precise_div_ceil_int : ℤ → ℤ → Result ℤ
  precise_div_ceil_int a b = do
    result ← div (mul a precise_unit) b
    if eq (mul result b) (mul a precise_unit)
        then ok result
        else if gt a (pos 0) && gt b (pos 0) || lt a (pos 0) && lt b (pos 0)
        then ok (add result (pos 1))
        else ok (sub result (pos 1))

  -- `&&` takes the remainder only where the signs differ.
  pub div_down : ℤ → ℤ → Result ℤ
  div_down a b = do
    result ← div a b
    if lt a (pos 0) && gt b (pos 0)
        then (do r ← mod_of a b; ok (if not (is_zero r) then sub result (pos 1) else result))
        else if gt a (pos 0) && lt b (pos 0)
        then (do
          r ← mod_of a (mul b (negsuc 0))
          ok (if not (is_zero r) then sub result (pos 1) else result))
        else ok result

  unfoldable pub min : ℤ → ℤ → ℤ
  min value_one value_two = if lt value_one value_two then value_one else value_two
