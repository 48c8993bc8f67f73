-- ===== src/FeeModuleUtils.antt =====
-- utils/common/feeModuleUtils.ts: what the streaming fee module is expected to charge. The state of
-- the fee module is read by `feeStates`, a call of a contract, which may be rejected.
pub mod Inflation
pub mod PostFee
pub mod Fees
mod Tests
use index.Base.{
  get_or, Bool, Option, none, some, List, [], ◌∷◌, Result, ok, err, ◌>>=◌, if◌then◌else◌,
}
use index.Base.Int.{ℤ, pos}
use index.Base.Text.{Text}
use index.BigNumber.{BigNumber}
use index.Constants.{precise_unit, one_year_in_seconds}
use index.MathUtils.{precise_mul, precise_mul_ceil_int}

-- `StreamingFeeState` of utils/types.ts
pub record StreamingFeeState : Type 0 where
  pub fee_recipient : Text
  pub streaming_fee_percentage : ℤ
  pub max_streaming_fee_percentage : ℤ
  pub last_streaming_fee_timestamp : ℤ

-- The contract that `getStreamingFee` reads.
pub record FeeModule : Type 0 where
  pub fee_states : Text → Result StreamingFeeState

module _ ⦃bn : BigNumber⦄ where
  open bn use {add, sub, mul, div, gte}

  -- An object is truthy, so the fee given counts where there is one. The state is read in any case.
  pub get_streaming_fee : FeeModule → Text → ℤ → ℤ → Option ℤ → Result ℤ
  get_streaming_fee fee_module set_token previous recent streaming_fee = do
    fee_state ← fee_module.fee_states set_token
    let accrual_rate = get_or streaming_fee fee_state.streaming_fee_percentage
    let time_elapsed = sub recent previous
    div (mul time_elapsed accrual_rate) one_year_in_seconds

  pub get_streaming_fee_inflation_amount : ℤ → ℤ → Result ℤ
  get_streaming_fee_inflation_amount inflation_percent total_supply =
      let a = mul inflation_percent total_supply in
      let b = sub precise_unit inflation_percent in div a b

  pub post_fee_unit : ℤ → ℤ → Result ℤ
  post_fee_unit unit inflation_percent =
      if gte unit (pos 0)
      then precise_mul unit (sub precise_unit inflation_percent)
      else precise_mul_ceil_int unit (sub precise_unit inflation_percent)

  -- The loop pushes the new units in order; a throw ends it.
  pub get_post_fee_position_units : List ℤ → ℤ → Result (List ℤ)
  unfolding post_fee_unit
  get_post_fee_position_units [] inflation_percent = ok []
  get_post_fee_position_units (unit ∷ units) inflation_percent = do
    new_unit ← post_fee_unit unit inflation_percent
    rest ← get_post_fee_position_units units inflation_percent
    ok (new_unit ∷ rest)
