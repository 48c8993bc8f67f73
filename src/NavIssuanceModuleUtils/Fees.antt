-- ===== src/NavIssuanceModuleUtils/Fees.antt =====
-- `getExpectedPostFeeQuantity` over numbers: the fees are what the two percentages take.
use native.Mathlib.Nat.{le_refl, mul-le-mul}
use index.Base.{ap, ℕ, ◌+◌, ◌-◌, ◌*◌, ◌/◌, ◌≤◌, ◌<◌, ◌≡◌, ok, arith}
use index.Base.Int.{pos}
use index.Base.Signs.{pos--ℤ}
use index.BigNumber.{reference}
use index.MathUtils.Closed.{unit, precise_mul-pos}
use index.NavIssuanceModuleUtils.{get_expected_post_fee_quantity}

-- What is left of a quantity after the two fees.
unfoldable pub net : ℕ → ℕ → ℕ → ℕ
net q m p = q - q * m / unit - q * p / unit

pub fees-le : (q m p : ℕ) → m + p ≤ unit → q * m / unit + q * p / unit ≤ q
fees-le q m p h = omega (arith, mul-le-mul (le_refl q) h)

pub post_fee-net :
    (q m p : ℕ)
    → m + p ≤ unit
    → get_expected_post_fee_quantity (pos q) (pos m) (pos p) ≡ ok (pos (net q m p))
unfolding get_expected_post_fee_quantity net
post_fee-net q m p h = simp (
  precise_mul-pos,
  pos--ℤ q (q * m / unit) (omega (arith, fees-le q m p h)),
  pos--ℤ (q - q * m / unit) (q * p / unit) (omega (arith, fees-le q m p h)),
)

-- The fees are rounded down: what is left is at least the exact remainder, by less than two units.
pub net_bounds :
    (q m p d : ℕ)
    → m + p + d ≡ unit
    → (q * d ≤ net q m p * unit) × (net q m p * unit < q * d + 2 * unit) × (net q m p ≤ q)
unfolding net
net_bounds q m p d e = omega (arith, fees-le q m p (omega arith), ap (λ (t : ℕ). q * t) e)

pub net-le : (q m p : ℕ) → net q m p ≤ q
unfolding net
net-le q m p = omega arith
