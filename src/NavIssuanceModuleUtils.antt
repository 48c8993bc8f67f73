-- ===== src/NavIssuanceModuleUtils.antt =====
-- utils/common/navIssuanceModuleUtils.ts: what the NAV issuance module is expected to mint, to pay
-- out and to leave in the position of the reserve asset. Supplies and valuations are read from
-- contracts, and each such call may be rejected.
pub mod Fees
pub mod Multiplier
pub mod Units
pub mod Guarantees
mod Tests
use index.Base.{Result, ok, err, ◌>>=◌}
use index.Base.Int.{ℤ, pos}
use index.Base.Text.{Text}
use index.BigNumber.{BigNumber}
use index.Contracts.{SetToken}
use index.Constants.{precise_unit}
use index.MathUtils.{precise_mul, precise_mul_ceil, precise_div, precise_div_ceil}

-- The contract that values a SetToken in the reserve asset.
pub record SetValuer : Type 0 where
  pub calculate_set_token_valuation : Text → Text → Result ℤ

module _ ⦃bn : BigNumber⦄ where
  open bn use {add, sub}

  pub get_expected_issue_position_multiplier : ℤ → ℤ → ℤ → Result ℤ
  get_expected_issue_position_multiplier previous_position_multiplier previous_supply
        current_supply =
      do
        inflation ← precise_div_ceil (sub current_supply previous_supply) current_supply
        precise_mul previous_position_multiplier (sub precise_unit inflation)

  pub get_expected_post_fee_quantity : ℤ → ℤ → ℤ → Result ℤ
  get_expected_post_fee_quantity quantity manager_fee_percentage protocol_direct_fee_percentage = do
    manager_fees ← precise_mul quantity manager_fee_percentage
    protocol_direct_fees ← precise_mul quantity protocol_direct_fee_percentage
    ok (sub (sub quantity manager_fees) protocol_direct_fees)

  pub get_expected_set_token_issue_quantity :
      SetToken → SetValuer → Text → ℤ → ℤ → ℤ → ℤ → ℤ → Result ℤ
  get_expected_set_token_issue_quantity set_token set_valuer reserve_asset reserve_asset_base_units
        reserve_asset_quantity manager_fee_percentage protocol_direct_fee_percentage
        premium_percentage =
      do
        set_token_valuation ←
            set_valuer.calculate_set_token_valuation set_token.address reserve_asset
        set_token_supply ← set_token.total_supply
        reserve_quantity_sub_fees ←
            get_expected_post_fee_quantity reserve_asset_quantity manager_fee_percentage
              protocol_direct_fee_percentage
        premium ← precise_mul reserve_quantity_sub_fees premium_percentage
        let reserve_quantity_sub_fees_and_premium = sub reserve_quantity_sub_fees premium
        normalized_sub_fees ← precise_div reserve_quantity_sub_fees reserve_asset_base_units
        normalized_sub_fees_and_premium ←
            precise_div reserve_quantity_sub_fees_and_premium reserve_asset_base_units
        total_value ← precise_mul set_token_supply set_token_valuation
        let denominator = sub (add total_value normalized_sub_fees) normalized_sub_fees_and_premium
        numerator ← precise_mul normalized_sub_fees_and_premium set_token_supply
        precise_div numerator denominator

  pub get_expected_issue_position_unit : ℤ → ℤ → ℤ → ℤ → ℤ → ℤ → ℤ → Result ℤ
  get_expected_issue_position_unit previous_units issue_quantity previous_supply current_supply
        new_position_multiplier manager_fee_percentage protocol_direct_fee_percentage =
      do
        issue_quantity_sub_fees ←
            get_expected_post_fee_quantity issue_quantity manager_fee_percentage
              protocol_direct_fee_percentage
        previous_total ← precise_mul previous_supply previous_units
        let numerator = add previous_total issue_quantity_sub_fees
        new_position_unit ← precise_div numerator current_supply
        round_down_position_unit ← precise_mul new_position_unit new_position_multiplier
        precise_div round_down_position_unit new_position_multiplier

  pub get_expected_reserve_redeem_quantity : ℤ → ℤ → ℤ → ℤ → ℤ → ℤ → Result ℤ
  get_expected_reserve_redeem_quantity set_token_quantity_to_redeem set_token_valuation
        reserve_asset_base_units manager_fee_percentage protocol_direct_fee_percentage
        premium_percentage =
      do
        total_notional ← precise_mul set_token_valuation set_token_quantity_to_redeem
        total_premium ← precise_mul_ceil total_notional premium_percentage
        total_notional_sub_fees ←
            get_expected_post_fee_quantity (sub total_notional total_premium) manager_fee_percentage
              protocol_direct_fee_percentage
        precise_mul total_notional_sub_fees reserve_asset_base_units

  pub get_expected_redeem_position_multiplier : ℤ → ℤ → ℤ → Result ℤ
  get_expected_redeem_position_multiplier previous_position_multiplier previous_supply
        current_supply =
      do
        deflation ← precise_div (sub previous_supply current_supply) current_supply
        precise_mul previous_position_multiplier (add precise_unit deflation)

  -- The two fee percentages are parameters of the source that its body does not use.
  pub get_expected_redeem_position_unit : ℤ → ℤ → ℤ → ℤ → ℤ → ℤ → ℤ → ℤ → ℤ → ℤ → Result ℤ
  get_expected_redeem_position_unit previous_units set_token_quantity_to_redeem set_token_valuation
        reserve_asset_base_units previous_supply current_supply new_position_multiplier _ _
        premium_percentage =
      do
        total_notional ← precise_mul set_token_valuation set_token_quantity_to_redeem
        total_premium ← precise_mul_ceil total_notional premium_percentage
        total_reserve_balance ←
            precise_mul (sub total_notional total_premium) reserve_asset_base_units
        previous_total ← precise_mul previous_supply previous_units
        let numerator = sub previous_total total_reserve_balance
        new_position_unit ← precise_div numerator current_supply
        round_down_position_unit ← precise_mul new_position_unit new_position_multiplier
        precise_div round_down_position_unit new_position_multiplier
