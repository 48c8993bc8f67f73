-- ===== src/PerpV2Utils/Fixture.antt =====
-- What utils/common/perpV2Utils.ts reads of a leverage module, of the fixture that wraps the perpetual
-- protocol (utils/fixtures/perpV2Fixture.ts) and of the contracts behind it, and the trades it sends.
-- Any call may be rejected.
use index.Base.{Bool, List, Result}
use index.Base.Int.{ℤ}
use index.Base.Text.{Text}

pub record AccountInfo : Type 0 where
  pub collateral_balance : ℤ
  pub owed_realized_pnl : ℤ
  pub pending_funding_payments : ℤ
  pub net_quote_balance : ℤ

pub record PositionUnitInfo : Type 0 where
  pub base_token : Text
  pub base_unit : ℤ
  pub quote_unit : ℤ

pub record PositionNotionalInfo : Type 0 where
  pub base_token : Text
  pub base_balance : ℤ
  pub quote_balance : ℤ

pub record PerpModule : Type 0 where
  pub get_account_info : Text → Result AccountInfo
  pub get_position_unit_info : Text → Result (List PositionUnitInfo)
  pub get_position_notional_info : Text → Result (List PositionNotionalInfo)

-- The two trades of a module, each of which gives the state of the chain after it.
pub record Trader (W : Type 0) : Type 0 where
  pub trade : Text → Text → ℤ → ℤ → Result W
  pub trade_and_track_funding : Text → Text → ℤ → ℤ → Result W

pub record VToken : Type 0 where
  pub address : Text
  pub get_index_price : ℤ → Result ℤ

pub record FundingTwaps : Type 0 where
  pub tw_premium_x96 : ℤ
  pub mark_twap : ℤ
  pub index_twap : ℤ

-- `get_swap_quote` gives the `deltaQuote` of the quote.
pub record PerpFixture : Type 0 where
  pub get_spot_price : Text → Result ℤ
  pub get_swap_quote : Text → ℤ → Bool → Result ℤ
  pub get_v_token_instance : Text → Result VToken
  pub get_funding_growth_global_and_twaps : Text → Result FundingTwaps
  pub get_im_ratio : Result ℤ
  pub get_unrealized_pnl : Text → Result ℤ
  pub get_total_debt_value : Text → Result ℤ
  pub get_total_abs_position_value : Text → Result ℤ
