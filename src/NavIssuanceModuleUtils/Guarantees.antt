-- ===== src/NavIssuanceModuleUtils/Guarantees.antt =====
-- What the expectations of utils/common/navIssuanceModuleUtils.ts guarantee, for every `BigNumber`
-- as documented: nothing is given away that was not paid in, in issuance and in redemption.
use index.Base.{ℕ, suc, ◌+◌, ◌-◌, ◌*◌, ◌/◌, ◌≤◌, ◌<◌, ◌≡◌, ok, err, division_by_zero, arith}
use index.Base.Int.{pos}
use index.Base.Text.{Text}
use index.BigNumber.{BigNumber, IsBigNumber, eq_reference}
use index.Contracts.{SetToken}
use index.MathUtils.Closed.{unit}
use index.NavIssuanceModuleUtils.{
  SetValuer, get_expected_issue_position_multiplier, get_expected_issue_position_unit,
  get_expected_post_fee_quantity, get_expected_redeem_position_multiplier,
  get_expected_redeem_position_unit, get_expected_reserve_redeem_quantity,
  get_expected_set_token_issue_quantity,
}
use index.NavIssuanceModuleUtils.Fees.{net, net_bounds, post_fee-net}
use index.NavIssuanceModuleUtils.Multiplier.{
  chain-le, chain-lt, kept, kept_bounds, issue_multiplier-pos, redeem_multiplier-pos, grown_bounds,
  issue_multiplier-none, redeem_multiplier-none,
}
use index.NavIssuanceModuleUtils.Units.{
  issue_unit, issue_unit-covered, issue_position_unit-pos, after_premium, reserve_redeem-pos,
  redeem_unit, redeem_unit-covered, redeem_position_unit-pos, premium_left-le, paid-le,
  issue_quantity-pos, quotient-le, minted-bound, contribution-le,
}

-- Where the two percentages and a rest make 100%, what is left of a quantity is at least the rest's
-- share of it, exceeds that share by less than two units, and is at most the quantity.
pub post_fee_bounds :
    ⦃bn : BigNumber⦄ (h : IsBigNumber bn) (q m p d : ℕ)
    → m + p + d ≡ unit
    → (r : ℕ) × (get_expected_post_fee_quantity (pos q) (pos m) (pos p) ≡ ok (pos r))
      × (q * d ≤ r * unit)
      × (r * unit < q * d + 2 * unit)
      × (r ≤ q)
post_fee_bounds h q m p d e = rw (eq_reference h) (
    let (least, most, whole) = net_bounds q m p d e in
    (net q m p, post_fee-net q m p (omega arith), least, most, whole))

-- When the supply has grown to a positive `c`, the multiplier after an issuance times the new supply is at
-- most the old multiplier times the old supply, and less than one rounding of each of the two
-- divisions short of it.
pub issue_multiplier_dilutes :
    ⦃bn : BigNumber⦄ (h : IsBigNumber bn) (m p c : ℕ)
    → p ≤ suc c
    → (r : ℕ) × (get_expected_issue_position_multiplier (pos m) (pos p) (pos (suc c)) ≡ ok (pos r))
      × (r * suc c ≤ m * p)
      × (m * p * unit < (r * unit + unit + m) * suc c)
issue_multiplier_dilutes h m p c le = rw (eq_reference h) (
    let (small, below, above) = kept_bounds p c le in
    let r = m * kept p c / unit in
    (
      r,
      issue_multiplier-pos m p c le,
      chain-le r m (kept p c) (suc c) p (omega arith) below,
      chain-lt r m (kept p c) (suc c) p (omega arith) (omega arith) above,
    ))

-- When the supply has shrunk to a positive `c`, the multiplier after a redemption times the new supply
-- is at most the old multiplier times the old supply, and less than one rounding of each of the two
-- divisions short of it.
pub redeem_multiplier_concentrates :
    ⦃bn : BigNumber⦄ (h : IsBigNumber bn) (m p c : ℕ)
    → suc c ≤ p
    → (r : ℕ) × (get_expected_redeem_position_multiplier (pos m) (pos p) (pos (suc c)) ≡ ok (pos r))
      × (r * suc c ≤ m * p)
      × (m * p * unit < (r * unit + unit + m) * suc c)
redeem_multiplier_concentrates h m p c le = rw (eq_reference h) (
    let k = unit + (p - suc c) * unit / suc c in
    let (below, above) = grown_bounds p c le in
    let r = m * k / unit in
    (
      r,
      redeem_multiplier-pos m p c le,
      chain-le r m k (suc c) p (omega arith) below,
      chain-lt r m k (suc c) p (omega arith) (omega arith) above,
    ))

-- For fees of at most 100%, a positive new supply and a positive multiplier, the unit expected after an issuance, over the whole new supply, is
-- covered by the reserve that the old supply held and the quantity that is left after fees.
pub issue_unit_is_covered :
    ⦃bn : BigNumber⦄ (h : IsBigNumber bn) (u q p c m f g : ℕ)
    → f + g ≤ unit
    → (n w : ℕ) × (get_expected_post_fee_quantity (pos q) (pos f) (pos g) ≡ ok (pos n))
      × (get_expected_issue_position_unit
            (pos u)
            (pos q)
            (pos p)
            (pos (suc c))
            (pos (suc m))
            (pos f)
            (pos g)
          ≡ ok (pos w))
      × (w * suc c ≤ p * u + n * unit)
issue_unit_is_covered h u q p c m f g le = rw (eq_reference h) (
    let n = net q f g in
    (
      n,
      issue_unit u n p c m,
      post_fee-net q f g le,
      issue_position_unit-pos u q p c m f g le,
      issue_unit-covered u n p c m,
    ))

-- Where fees and premium are at most 100% each, the old supply holds the value redeemed, and the new
-- supply and the multiplier are positive,
-- both expectations of a redemption exist; and the unit expected after it, over the whole new
-- supply, together with the reserve paid out is covered by what the old supply held.
pub redemption_is_covered :
    ⦃bn : BigNumber⦄ (h : IsBigNumber bn) (u q v b p c m f g e : ℕ)
    → f + g ≤ unit
    → e ≤ unit
    → v * q / unit * b ≤ p * u
    → (x w : ℕ) × (get_expected_reserve_redeem_quantity
          (pos q)
          (pos v)
          (pos b)
          (pos f)
          (pos g)
          (pos e)
        ≡ ok (pos x))
      × (get_expected_redeem_position_unit
            (pos u)
            (pos q)
            (pos v)
            (pos b)
            (pos p)
            (pos (suc c))
            (pos (suc m))
            (pos f)
            (pos g)
            (pos e)
          ≡ ok (pos w))
      × (w * suc c + x * unit ≤ p * u)
redemption_is_covered h u q v b p c m f g e le small enough = rw (eq_reference h) (
    let r = after_premium (v * q / unit) e in
    let o = r * b / unit in
    let held = premium_left-le (v * q / unit) e b (p * u) enough in
    (
      net r f g * b / unit,
      redeem_unit u o p c m,
      reserve_redeem-pos q v b f g e le small,
      redeem_position_unit-pos u q v b p c m e (pos f) (pos g) small held,
      omega (arith, redeem_unit-covered u o p c m held, paid-le r f g b),
    ))

-- Where the contracts answer with a supply `s` and a valuation `v` of which the product is at least one,
-- the base units of the asset are positive, and fees and premium are at most 100%, the tokens that an issuance is expected to mint are worth,
-- at that valuation, at most the reserve that was paid: `x * v * b ≤ q` up to the scales.
pub issuance_is_paid_for :
    ⦃bn : BigNumber⦄ (h : IsBigNumber bn) (token : SetToken) (valuer : SetValuer) (asset : Text)
    (s v q b f g e : ℕ)
    → token.total_supply ≡ ok (pos s)
    → valuer.calculate_set_token_valuation token.address asset ≡ ok (pos v)
    → f + g ≤ unit
    → e ≤ unit
    → unit ≤ s * v
    → (x : ℕ) × (get_expected_set_token_issue_quantity token valuer asset
          (pos (suc b))
          (pos q)
          (pos f)
          (pos g)
          (pos e)
        ≡ ok (pos x))
      × (x * (s * v / unit) * suc b ≤ q * unit * s)
issuance_is_paid_for h token valuer asset s v q b f g e supplied valued le small some_value =
    rw (eq_reference h) (
      let a = net q f g in
      let k = a - a * e / unit in
      let n = k * unit / suc b in
      let t = s * v / unit in
      let d = t + a * unit / suc b - n in
      let smaller = quotient-le (k * unit) (a * unit) b (omega arith) in
      let worth : 0 < t = omega arith in
      let left : t ≤ d = omega arith in
      let positive : 0 < d = omega arith in
      (
        n * s / unit * unit / d,
        issue_quantity-pos token valuer asset s v supplied valued q b f g e le small positive,
        minted-bound n s d t b q positive left (contribution-le q f g e b),
      ))

-- With no supply left, a redemption has no multiplier: the division throws. An issuance, which
-- divides rounding up, does not throw there and keeps the multiplier as it was.
pub multipliers_at_no_supply :
    ⦃bn : BigNumber⦄ (h : IsBigNumber bn) (m p : ℕ)
    → (get_expected_redeem_position_multiplier (pos m) (pos p) (pos 0) ≡ err division_by_zero)
      × (get_expected_issue_position_multiplier (pos m) (pos p) (pos 0) ≡ ok (pos m))
multipliers_at_no_supply h m p =
    rw (eq_reference h) (redeem_multiplier-none m p, issue_multiplier-none m p)
