-- ===== src/FeeModuleUtils/Fees.antt =====
-- What `getStreamingFee` and `getStreamingFeeInflationAmount` of utils/common/feeModuleUtils.ts
-- guarantee.
use index.Base.{
  List, Returns, ℕ, suc, ◌+◌, ◌-◌, ◌*◌, ◌≤◌, ◌<◌, ◌≡◌, Option, ok, get_or, arith, refl, ◌/◌, ◌∙◌,
}
use index.Base.Int.{◌*ℤ◌, ℤ, pos}
use index.Base.Text.{Text}
use index.BigNumber.{BigNumber, IsBigNumber, eq_reference}
use index.MathUtils.Closed.{unit}
use index.FeeModuleUtils.{
  FeeModule, StreamingFeeState, get_streaming_fee, get_streaming_fee_inflation_amount,
  get_post_fee_position_units,
}
use index.Constants.{precise_unit}
use index.MathUtils.Spec.{RoundsDown}
use index.FeeModuleUtils.PostFee.{Pointwise, post_fee_units-Pointwise}
use index.FeeModuleUtils.Inflation.{
  inflation_amount-pos, mint_share, streaming_fee-pos, share_split,
}

-- For an inflation below 100%, the amount minted is the largest whose share of the supply after the
-- mint is at most the inflation.
pub inflation_amount_is_largest :
    ⦃bn : BigNumber⦄ (h : IsBigNumber bn) (p s : ℕ)
    → p < unit
    → (m : ℕ) × (get_streaming_fee_inflation_amount (pos p) (pos s) ≡ ok (pos m))
      × (m * unit ≤ p * (s + m))
      × (p * (s + suc m) < suc m * unit)
inflation_amount_is_largest h p s below = rw (eq_reference h) (
    let (fair, most) = mint_share p s (unit - p) (omega arith) (omega arith) in
    (p * s / (unit - p), inflation_amount-pos p s below, fair, most))

-- Whether the rate is given or read from the module: a fee is the part of the yearly rate that the
-- time is of a year, rounded down, and a fee taken in two steps is at most the fee taken in one, and falls short of it by
-- at most one unit.
pub streaming_fee_splits :
    ⦃bn : BigNumber⦄ (h : IsBigNumber bn) (fm : FeeModule) (a : Text) (o : Option ℤ)
    (st : StreamingFeeState) (f t₀ t₁ t₂ : ℕ)
    → fm.fee_states a ≡ ok st
    → get_or o st.streaming_fee_percentage ≡ pos f
    → t₀ ≤ t₁
    → t₁ ≤ t₂
    → (x y z : ℕ) × (get_streaming_fee fm a (pos t₀) (pos t₁) o ≡ ok (pos x))
      × (get_streaming_fee fm a (pos t₁) (pos t₂) o ≡ ok (pos y))
      × (get_streaming_fee fm a (pos t₀) (pos t₂) o ≡ ok (pos z))
      × (x + y ≤ z)
      × (z ≤ x + y + 1)
      × (z * 31_557_600 ≤ (t₂ - t₀) * f)
      × ((t₂ - t₀) * f < (z + 1) * 31_557_600)
streaming_fee_splits h fm a o st f t₀ t₁ t₂ read rate le₀ le₁ = rw (eq_reference h) (
    let fee = streaming_fee-pos fm a o st f read rate in
    let (above, below) = share_split (t₁ - t₀) (t₂ - t₁) f in
    let whole : t₂ - t₀ ≡ (t₁ - t₀) + (t₂ - t₁) = omega arith in
    (
      (t₁ - t₀) * f / 31_557_600,
      (t₂ - t₁) * f / 31_557_600,
      ((t₁ - t₀) + (t₂ - t₁)) * f / 31_557_600,
      fee t₀ t₁ le₀,
      fee t₁ t₂ le₁,
      fee t₀ t₂ (omega arith) ∙ rw whole refl,
      above,
      below,
      rw whole (omega arith),
      rw whole (omega arith),
    ))

-- For a fee of at most 100%, every new unit is the old one times what the fee leaves, rounded down:
-- what holders own is never rounded up, and what they owe never down. Nothing is thrown.
pub post_fee-RoundsDown :
    ⦃bn : BigNumber⦄ (h : IsBigNumber bn) (us : List ℤ) (p : ℕ)
    → p ≤ unit
    → Returns
        (get_post_fee_position_units us (pos p))
        (Pointwise (λ u. RoundsDown (u *ℤ pos (unit - p)) precise_unit) us)
post_fee-RoundsDown h us p below =
    rw (eq_reference h) (post_fee_units-Pointwise us p (unit - p) (omega arith))
