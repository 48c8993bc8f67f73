-- ===== src/MathUtils/FromZero.antt =====
-- `preciseMulCeilInt` and `preciseDivCeilInt` of utils/common/mathUtils.ts.
use index.Base.{◌≢◌, ℕ, suc, zero, ◌+◌, ◌-◌, ◌*◌, ◌/◌, ◌≤◌, ◌<◌, ◌≡◌, refl, Returns, arith}
use index.Base.Int.{ℤ, pos, negsuc, ◌*ℤ◌, int_laws}
use index.BigNumber.{reference}
use index.Constants.{precise_unit}
use index.Base.Signs.{opp, pos-*ℤ, pos-*ℤ-negsuc, negsuc-*ℤ-pos, negsuc-*ℤ}
use index.MathUtils.Closed.{
  precise_div_ceil_int-by_zero, round_up_bounds, precise_div_ceil_int-zero-pos,
  precise_div_ceil_int-zero-negsuc, precise_div_ceil_int-pos, precise_div_ceil_int-negsuc-pos,
  precise_div_ceil_int-pos-negsuc, precise_div_ceil_int-negsuc, precise_mul_ceil_int-zero,
  precise_mul_ceil_int-zero_right, unit, precise_mul_ceil_int-pos, precise_mul_ceil_int-pos-negsuc,
  precise_mul_ceil_int-negsuc, precise_mul_ceil_int-negsuc-negsuc,
}
use index.MathUtils.{precise_mul_ceil_int, precise_div_ceil_int}
use index.MathUtils.Spec.{RoundsFromZero, Divides}

-- A magnitude over the unit, rounded up, under either sign.
up-RoundsFromZero : (n : ℕ) → 0 < n → RoundsFromZero (pos n) precise_unit (pos ((n - 1) / unit + 1))
unfolding ◌*ℤ◌
up-RoundsFromZero n h = ground arith

up-RoundsFromZero-opp :
    (n : ℕ) → 0 < n → RoundsFromZero (opp n) precise_unit (opp ((n - 1) / unit + 1))
unfolding ◌*ℤ◌ opp
up-RoundsFromZero-opp n h = ground arith

zero-RoundsFromZero : (n : ℤ) → n ≡ pos 0 → RoundsFromZero n precise_unit (pos 0)
zero-RoundsFromZero n h = rw h (omega arith)

pub precise_mul_ceil_int-RoundsFromZero_reference :
    (a b : ℤ) → Returns (precise_mul_ceil_int a b) (RoundsFromZero (a *ℤ b) precise_unit)
precise_mul_ceil_int-RoundsFromZero_reference (pos zero) b =
    rw (precise_mul_ceil_int-zero b) (zero-RoundsFromZero (pos 0 *ℤ b) (omega int_laws))
precise_mul_ceil_int-RoundsFromZero_reference (pos (suc a)) (pos zero) =
    rw (precise_mul_ceil_int-zero_right (pos (suc a)))
      (zero-RoundsFromZero (pos (suc a) *ℤ pos 0) (omega int_laws))
precise_mul_ceil_int-RoundsFromZero_reference (pos (suc a)) (pos (suc b)) =
    rw (precise_mul_ceil_int-pos a b, pos-*ℤ) (up-RoundsFromZero (suc a * suc b) (grind arith))
precise_mul_ceil_int-RoundsFromZero_reference (pos (suc a)) (negsuc b) =
    rw (precise_mul_ceil_int-pos-negsuc a b, pos-*ℤ-negsuc)
      (up-RoundsFromZero-opp (suc a * suc b) (grind arith))
precise_mul_ceil_int-RoundsFromZero_reference (negsuc a) (pos zero) =
    rw (precise_mul_ceil_int-zero_right (negsuc a))
      (zero-RoundsFromZero (negsuc a *ℤ pos 0) (omega int_laws))
precise_mul_ceil_int-RoundsFromZero_reference (negsuc a) (pos (suc b)) =
    rw (precise_mul_ceil_int-negsuc a b, negsuc-*ℤ-pos)
      (up-RoundsFromZero-opp (suc a * suc b) (grind arith))
precise_mul_ceil_int-RoundsFromZero_reference (negsuc a) (negsuc b) =
    rw (precise_mul_ceil_int-negsuc-negsuc a b, negsuc-*ℤ)
      (up-RoundsFromZero (suc a * suc b) (grind arith))

zero-RoundsFromZero_div : (d : ℤ) → d ≢ pos 0 → RoundsFromZero (pos 0) d (pos 0)
zero-RoundsFromZero_div (pos zero) h = absurd (h refl)
zero-RoundsFromZero_div (pos (suc d)) h = omega int_laws
zero-RoundsFromZero_div (negsuc d) h = omega int_laws

-- The four signs of a quotient whose magnitude is rounded up.
module _ (n d q : ℕ) (positive : 0 < n) (above : n ≤ q * suc d)
    (below : q * suc d < n + suc d) where
  ceil-pos : RoundsFromZero (pos n) (pos (suc d)) (pos q)
  unfolding ◌*ℤ◌
  ceil-pos = ground arith

  ceil-opp-pos : RoundsFromZero (opp n) (pos (suc d)) (opp q)
  unfolding ◌*ℤ◌ opp
  ceil-opp-pos = ground arith

  ceil-pos-negsuc : RoundsFromZero (pos n) (negsuc d) (opp q)
  unfolding ◌*ℤ◌ opp
  ceil-pos-negsuc = ground arith

  ceil-opp-negsuc : RoundsFromZero (opp n) (negsuc d) (pos q)
  unfolding ◌*ℤ◌ opp
  ceil-opp-negsuc = ground arith

pub precise_div_ceil_int-RoundsFromZero_reference :
    (a b : ℤ) → Divides b (precise_div_ceil_int a b) (RoundsFromZero (a *ℤ precise_unit) b)
precise_div_ceil_int-RoundsFromZero_reference a (pos zero) = precise_div_ceil_int-by_zero a
precise_div_ceil_int-RoundsFromZero_reference (pos zero) (pos (suc b)) =
    rw (precise_div_ceil_int-zero-pos b, pos-*ℤ)
      (zero-RoundsFromZero_div (pos (suc b)) (ground arith))
precise_div_ceil_int-RoundsFromZero_reference (pos zero) (negsuc b) =
    rw (precise_div_ceil_int-zero-negsuc b, pos-*ℤ)
      (zero-RoundsFromZero_div (negsuc b) (ground arith))
precise_div_ceil_int-RoundsFromZero_reference (pos (suc a)) (pos (suc b)) =
    rw (precise_div_ceil_int-pos a b, pos-*ℤ)
      (let (above, below) = round_up_bounds (suc a * unit) b in
        ceil-pos (suc a * unit) b _ (omega arith) above below)
precise_div_ceil_int-RoundsFromZero_reference (pos (suc a)) (negsuc b) =
    rw (precise_div_ceil_int-pos-negsuc a b, pos-*ℤ)
      (let (above, below) = round_up_bounds (suc a * unit) b in
        ceil-pos-negsuc (suc a * unit) b _ (omega arith) above below)
precise_div_ceil_int-RoundsFromZero_reference (negsuc a) (pos (suc b)) =
    rw (precise_div_ceil_int-negsuc-pos a b, negsuc-*ℤ-pos)
      (let (above, below) = round_up_bounds (suc a * unit) b in
        ceil-opp-pos (suc a * unit) b _ (omega arith) above below)
precise_div_ceil_int-RoundsFromZero_reference (negsuc a) (negsuc b) =
    rw (precise_div_ceil_int-negsuc a b, negsuc-*ℤ-pos)
      (let (above, below) = round_up_bounds (suc a * unit) b in
        ceil-opp-negsuc (suc a * unit) b _ (omega arith) above below)
