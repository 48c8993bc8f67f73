-- ===== src/NavIssuanceModuleUtils/Multiplier.antt =====
-- The position multipliers over numbers.
use native.Mathlib.Nat.{le_refl, mul-le-mul}
use index.Base.{
  ℕ, suc, ◌+◌, ◌-◌, ◌*◌, ◌/◌, ◌≤◌, ◌<◌, ◌≡◌, ok, err, division_by_zero, ap, arith, le-or-lt, inl,
  inr,
}
use index.Base.Int.{pos}
use index.Base.Signs.{pos--ℤ, pos-+ℤ}
use index.BigNumber.{reference}
use index.MathUtils.Closed.{
  unit, precise_mul-pos, precise_div-pos, precise_div-by_zero, precise_div_ceil-zero,
  precise_div_ceil-ℕ,
}
use index.NavIssuanceModuleUtils.{
  get_expected_issue_position_multiplier, get_expected_redeem_position_multiplier,
}

-- A multiplier after two roundings, the first of them against a supply `c`.
pub chain-le : (r m k c p : ℕ) → r * unit ≤ m * k → k * c ≤ unit * p → r * c ≤ m * p
chain-le r m k c p h g = omega (arith, mul-le-mul h (le_refl c), mul-le-mul (le_refl m) g)

pub chain-lt :
    (r m k c p : ℕ)
    → 0 < c
    → m * k < r * unit + unit
    → unit * p < k * c + c
    → m * p * unit < (r * unit + unit + m) * c
chain-lt r m k c p pc h g = omega (arith, mul-le-mul h (le_refl c), mul-le-mul (le_refl m) g)

pub div_le : (n k c : ℕ) → n ≤ k * suc c + c → n / suc c ≤ k
div_le n k c h = elim (le-or-lt (n / suc c) k) [
  | inl e ↦ e
  | inr e ↦ absurd (omega (arith, mul-le-mul e (le_refl (suc c))))
]

-- What the inflation of a supply from `p` to `c` leaves.
pub kept : ℕ → ℕ → ℕ
kept p c = unit - ((suc c - p) * unit + c) / suc c

pub kept_bounds :
    (p c : ℕ)
    → p ≤ suc c
    → (((suc c - p) * unit + c) / suc c ≤ unit)
      × (kept p c * suc c ≤ unit * p)
      × (unit * p < kept p c * suc c + suc c)
unfolding kept
kept_bounds p c h =
    let x = ((suc c - p) * unit + c) / suc c in
    let small : x ≤ unit = div_le ((suc c - p) * unit + c) unit c (omega arith) in
    let e : kept p c + x ≡ unit = omega arith in
    let scaled : (kept p c + x) * suc c ≡ unit * suc c = ap (λ (t : ℕ). t * suc c) e in
    (small, omega arith, omega arith)

pub issue_multiplier-pos :
    (m p c : ℕ)
    → p ≤ suc c
    → get_expected_issue_position_multiplier (pos m) (pos p) (pos (suc c))
      ≡ ok (pos (m * kept p c / unit))
unfolding get_expected_issue_position_multiplier kept
issue_multiplier-pos m p c h = simp (
  pos--ℤ (suc c) p h,
  precise_div_ceil-ℕ,
  pos--ℤ unit (((suc c - p) * unit + c) / suc c) (kept_bounds p c h).0,
  precise_mul-pos,
)

pub redeem_multiplier-pos :
    (m p c : ℕ)
    → suc c ≤ p
    → get_expected_redeem_position_multiplier (pos m) (pos p) (pos (suc c))
      ≡ ok (pos (m * (unit + (p - suc c) * unit / suc c) / unit))
unfolding get_expected_redeem_position_multiplier
redeem_multiplier-pos m p c h = simp (pos--ℤ p (suc c) h, precise_div-pos, pos-+ℤ, precise_mul-pos)

pub grown_bounds :
    (p c : ℕ)
    → suc c ≤ p
    → let k = unit + (p - suc c) * unit / suc c in
      (k * suc c ≤ unit * p) × (unit * p < k * suc c + suc c)
grown_bounds p c h = ground arith

pub redeem_multiplier-none :
    (m p : ℕ)
    → get_expected_redeem_position_multiplier (pos m) (pos p) (pos 0) ≡ err division_by_zero
unfolding get_expected_redeem_position_multiplier
redeem_multiplier-none m p = simp precise_div-by_zero

pub issue_multiplier-none :
    (m p : ℕ) → get_expected_issue_position_multiplier (pos m) (pos p) (pos 0) ≡ ok (pos m)
unfolding get_expected_issue_position_multiplier
issue_multiplier-none m p =
    simp (precise_div_ceil-zero, pos--ℤ unit 0 (omega arith), precise_mul-pos)
      (ap (λ n. ok (pos n)) (omega arith))
