-- ===== src/PerpV2Utils.antt =====
-- utils/common/perpV2Utils.ts: what the leverage modules of the perpetual protocol are expected to
-- move in and out, in collateral with 18 decimals and in USDC.
pub mod Fixture
pub mod Quotes
mod Signed
mod Growth
pub mod Transfers
pub mod Funding
mod Tests
use index.Base.{ℕ, Bool, true, false, not, List, [], ◌∷◌, Result, ok, err, ◌>>=◌, if◌then◌else◌}
use index.Base.Int.{ℤ, pos, negsuc}
use index.Base.Text.{Text}
use index.BigNumber.{BigNumber}
use index.Constants.{one_day_in_seconds}
use index.Contracts.{SetToken}
use index.MathUtils.{precise_mul, precise_div}
use index.PerpV2Utils.Fixture.{
  AccountInfo, PositionUnitInfo, PositionNotionalInfo, PerpModule, PerpFixture, Trader,
}

module _ ⦃bn : BigNumber⦄ where
  open bn use {add, sub, mul, div, abs, pow, gt, gte, lt}

  unfoldable pub to_usdc_decimals : ℤ → Result ℤ
  to_usdc_decimals quantity = div quantity (pow (pos 10) 12)

  -- The state `W` of the chain after the trade is returned beside the unit.
  unfoldable pub lever_up :
      {W : Type 0}
      → SetToken
      → PerpModule
      → Trader W
      → PerpFixture
      → Text
      → ℤ
      → Bool
      → Bool
      → Result (ℤ × W)
  lever_up set_token perp_module trader fixture base_token leverage_ratio is_long track_funding = do
    spot_price ← fixture.get_spot_price base_token
    total_supply ← set_token.total_supply
    info ← perp_module.get_account_info set_token.address
    notional ← precise_div (mul info.collateral_balance leverage_ratio) spot_price
    unsigned ← precise_div notional total_supply
    let unit = if is_long then unsigned else mul unsigned (negsuc 0)
    estimate ← precise_mul notional spot_price
    let quote_estimate = abs estimate
    allowed_slippage ← precise_mul quote_estimate (pos 20_000_000_000_000_000)
    let adjusted =
        if is_long then add quote_estimate allowed_slippage else sub quote_estimate allowed_slippage
    receive ← precise_div adjusted total_supply
    after ←
        (if track_funding
          then trader.trade_and_track_funding set_token.address base_token unit receive
          else trader.trade set_token.address base_token unit receive)
    ok (unit, after)

  -- A round of the loop: what a position adds to the amount so far.
  unfoldable pub position_in : PerpFixture → ℤ → PositionUnitInfo → ℤ → Result ℤ
  position_in fixture set_quantity position amount = do
    base ← precise_mul position.base_unit set_quantity
    let is_long = gte base (pos 0)
    delta_quote ← fixture.get_swap_quote position.base_token (abs base) is_long
    spot_price ← fixture.get_spot_price position.base_token
    ideal_quote ← precise_mul base spot_price
    let slippage =
        if is_long then sub delta_quote ideal_quote else sub (abs ideal_quote) delta_quote
    ok (add (add amount ideal_quote) slippage)

  unfoldable pub positions_in : PerpFixture → ℤ → List PositionUnitInfo → ℤ → Result ℤ
  positions_in fixture set_quantity [] amount = ok amount
  positions_in fixture set_quantity (position ∷ positions) amount = do
    next ← position_in fixture set_quantity position amount
    positions_in fixture set_quantity positions next

  unfoldable pub calculate_usdc_transfer_in_precise_units :
      SetToken → ℤ → PerpModule → PerpFixture → Bool → Result ℤ
  calculate_usdc_transfer_in_precise_units set_token set_quantity perp_module fixture
        include_funding =
      do
        info ← perp_module.get_account_info set_token.address
        let base_value =
            add (add info.collateral_balance info.owed_realized_pnl) info.net_quote_balance
        let total_value =
            if include_funding then add base_value info.pending_funding_payments else base_value
        total_supply ← set_token.total_supply
        value_unit ← precise_div total_value total_supply
        amount ← precise_mul value_unit set_quantity
        positions ← perp_module.get_position_unit_info set_token.address
        positions_in fixture set_quantity positions amount

  unfoldable pub calculate_usdc_transfer_in : SetToken → ℤ → PerpModule → PerpFixture → Result ℤ
  calculate_usdc_transfer_in set_token set_quantity perp_module fixture = do
    amount ←
        calculate_usdc_transfer_in_precise_units set_token set_quantity perp_module fixture true
    to_usdc_decimals amount

  -- A round of the loop: what closing a share of a position realizes.
  unfoldable pub position_out : PerpFixture → ℤ → ℤ → PositionNotionalInfo → ℤ → Result ℤ
  position_out fixture total_supply set_quantity position total_pnl = do
    base_unit ← precise_div position.base_balance total_supply
    base ← precise_mul base_unit set_quantity
    let is_long = gte base_unit (pos 0)
    close_ratio ← precise_div (abs base) (abs position.base_balance)
    reduced_open_notional ← precise_mul position.quote_balance close_ratio
    delta_quote ← fixture.get_swap_quote position.base_token (abs base) (not is_long)
    let realized_pnl =
        if is_long
        then add reduced_open_notional delta_quote
        else sub reduced_open_notional delta_quote
    ok (add total_pnl realized_pnl)

  unfoldable pub positions_out : PerpFixture → ℤ → ℤ → List PositionNotionalInfo → ℤ → Result ℤ
  positions_out fixture total_supply set_quantity [] total_pnl = ok total_pnl
  positions_out fixture total_supply set_quantity (position ∷ positions) total_pnl = do
    next ← position_out fixture total_supply set_quantity position total_pnl
    positions_out fixture total_supply set_quantity positions next

  unfoldable pub calculate_usdc_transfer_out_precise_units :
      SetToken → ℤ → PerpModule → PerpFixture → Bool → Result ℤ
  calculate_usdc_transfer_out_precise_units set_token set_quantity perp_module fixture
        include_funding =
      do
        positions ← perp_module.get_position_notional_info set_token.address
        info ← perp_module.get_account_info set_token.address
        let settled = add info.collateral_balance info.owed_realized_pnl
        let balance = if include_funding then add settled info.pending_funding_payments else settled
        total_supply ← set_token.total_supply
        collateral_unit ← precise_div balance total_supply
        collateral_notional ← precise_mul collateral_unit set_quantity
        total_pnl ← positions_out fixture total_supply set_quantity positions (pos 0)
        ok (abs (add collateral_notional total_pnl))

  unfoldable pub calculate_usdc_transfer_out : SetToken → ℤ → PerpModule → PerpFixture → Result ℤ
  calculate_usdc_transfer_out set_token set_quantity perp_module fixture = do
    amount ←
        calculate_usdc_transfer_out_precise_units set_token set_quantity perp_module fixture true
    to_usdc_decimals amount

  unfoldable pub calculate_external_position_unit : SetToken → PerpModule → Result ℤ
  calculate_external_position_unit set_token perp_module = do
    info ← perp_module.get_account_info set_token.address
    total_supply ← set_token.total_supply
    unit ← precise_div info.collateral_balance total_supply
    to_usdc_decimals unit

  unfoldable pub get_net_funding_growth : Text → ℤ → PerpFixture → Result ℤ
  get_net_funding_growth base_token base_balance fixture = do
    twaps ← fixture.get_funding_growth_global_and_twaps base_token
    tw_premium ← div (mul twaps.tw_premium_x96 (pos 1_000_000_000_000_000_000)) (pow (pos 2) 96)
    daily ← div tw_premium one_day_in_seconds
    growth ← precise_mul base_balance daily
    let funding_growth = abs growth
    let is_long = gt base_balance (pos 0)
    ok (
        if lt twaps.mark_twap twaps.index_twap
        then (if is_long then funding_growth else mul funding_growth (negsuc 0))
        else (if is_long then mul funding_growth (negsuc 0) else funding_growth))

  unfoldable pub get_usdc_delta_due_to_funding_growth :
      SetToken → ℤ → Text → ℤ → PerpFixture → Result ℤ
  get_usdc_delta_due_to_funding_growth set_token set_quantity base_token base_balance fixture = do
    net_funding_growth ← get_net_funding_growth base_token base_balance fixture
    total_supply ← set_token.total_supply
    growth_unit ← precise_div net_funding_growth total_supply
    precise_mul growth_unit set_quantity

  unfoldable pub leverage_ratios :
      PerpFixture → ℤ → List PositionNotionalInfo → Result (List Text × List ℤ)
  leverage_ratios fixture total_collateral_value [] = ok ([], [])
  leverage_ratios fixture total_collateral_value (position ∷ positions) = do
    v_token ← fixture.get_v_token_instance position.base_token
    token_price ← v_token.get_index_price (pos 0)
    position_value ← precise_mul token_price position.base_balance
    ratio ←
        precise_div position_value
          (add (add position_value total_collateral_value) position.quote_balance)
    rest ← leverage_ratios fixture total_collateral_value positions
    ok (v_token.address ∷ rest.0, ratio ∷ rest.1)

  unfoldable pub calculate_leverage_ratios :
      Text → PerpModule → PerpFixture → Result (List Text × List ℤ)
  calculate_leverage_ratios set_token perp_module fixture = do
    info ← perp_module.get_account_info set_token
    positions ← perp_module.get_position_notional_info set_token
    leverage_ratios fixture
        (add (add info.collateral_balance info.owed_realized_pnl) info.pending_funding_payments)
        positions

  unfoldable pub calculate_max_issue_quantity : SetToken → ℤ → PerpModule → PerpFixture → Result ℤ
  calculate_max_issue_quantity set_token slippage perp_module fixture = do
    total_supply ← set_token.total_supply
    im_ratio ← fixture.get_im_ratio
    info ← perp_module.get_account_info set_token.address
    unrealized_pnl ← fixture.get_unrealized_pnl set_token.address
    total_debt_value ← fixture.get_total_debt_value set_token.address
    let value =
        add (add info.collateral_balance info.owed_realized_pnl) info.pending_funding_payments
    let margin = if gte unrealized_pnl (pos 0) then value else add value unrealized_pnl
    debt ← div (mul margin (pos 1_000_000)) im_ratio
    let available_debt = sub debt total_debt_value
    slipped ← precise_mul available_debt slippage
    slipped_debt ← div (mul slipped (pos 1_000_000)) im_ratio
    total_abs_position_value ← fixture.get_total_abs_position_value set_token.address
    ratio ← precise_div (sub available_debt slipped_debt) total_abs_position_value
    precise_mul ratio total_supply
