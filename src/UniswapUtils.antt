-- ===== src/UniswapUtils.antt =====
-- utils/common/uniswapUtils.ts: what is expected of a pool of the exchange and of the staking of its
-- tokens. The code compares `BigNumber`s with the operators of the language: `<` and `>` compare the
-- texts that `toString` gives, and `==` and `!=` ask whether two objects are the same one.
mod Digits
mod Order
mod Sqrt
pub mod Sorting
pub mod Rebalance
mod Leading
mod Smallest
mod Pools
mod Trades
pub mod Shares
mod Tests
use index.Base.{
  ℕ, zero, suc, Bool, true, false, not, List, length, [], ◌∷◌, Result, ok, err, unfinished, ◌>>=◌,
  ◌^◌, if◌then◌else◌,
}
use index.Base.Int.{ℤ, pos}
use index.Base.Text.{Text, text_lt, eqb}
use index.BigNumber.{BigNumber}
use index.Constants.{precise_unit}
use index.Contracts.{SetToken}
use index.MathUtils.{precise_mul, precise_div}

-- A `BigNumber` as `==` sees it: the constant `ZERO` of utils/constants.ts, or an object of its own.
pub data Object : Type 0 where
  zero_constant : Object
  created : ℤ → Object

abbrev pub value_of : Object → ℤ
value_of zero_constant = pos 0
value_of (created value) = value

abbrev pub is_zero_constant : Object → Bool
is_zero_constant zero_constant = true
is_zero_constant (created value) = false

pub record Reserves : Type 0 where
  pub reserve0 : ℤ
  pub reserve1 : ℤ

-- The contracts that are read.
pub record UniswapV2Pair : Type 0 where
  pub get_reserves : Result Reserves
  pub total_supply : Result Object

pub record Token : Type 0 where
  pub address : Text
  pub balance_of : Text → Result ℤ

pub record StakingRewards : Type 0 where
  pub balance_of : Text → Result ℤ

pub record UniswapV2Router : Type 0 where
  pub get_amounts_out : ℤ → List Text → Result (List ℤ)

abbrev pub minimum_liquidity : ℤ
minimum_liquidity = pos 1000

unfoldable pub get_reserves_safe : Text → Text → UniswapV2Pair → Result (ℤ × ℤ)
get_reserves_safe asset_one asset_two lp_token =
    let first_asset = if text_lt asset_one asset_two then asset_one else asset_two in
    do
      reserves ← lp_token.get_reserves
      if eqb asset_one first_asset
          then ok (reserves.reserve0, reserves.reserve1)
          else ok (reserves.reserve1, reserves.reserve0)

module _ ⦃bn : BigNumber⦄ where
  open bn use {add, sub, mul, div, gt, to_string}

  unfoldable pub min : ℤ → ℤ → ℤ
  min value_one value_two =
      if text_lt (to_string value_one) (to_string value_two) then value_one else value_two

  -- The `while` loop, on fuel.
  unfoldable pub sqrt_loop : ℕ → ℤ → ℤ → ℤ → Result ℤ
  sqrt_loop zero value x z = err unfinished
  sqrt_loop (suc fuel) value x z = elim (text_lt (to_string x) (to_string z)) [
    | true ↦ (do q ← div value x; next ← div (add q x) (pos 2); sqrt_loop fuel value next x)
    | false ↦ ok z
  ]

  -- Enough rounds for a sequence of texts no longer than that of the value, each before the last.
  unfoldable pub sqrt_fuel : ℤ → ℕ
  sqrt_fuel value = 100 ^ suc (length (to_string value))

  unfoldable pub sqrt : Object → Result ℤ
  sqrt value =
      if text_lt (to_string (pos 3)) (to_string (value_of value))
      then (do
        half ← div (value_of value) (pos 2)
        sqrt_loop (sqrt_fuel (value_of value)) (value_of value) (add half (pos 1)) (value_of value))
      else if not (is_zero_constant value)
      then ok (pos 1)
      else ok (value_of value)

  unfoldable pub calculate_lp_tokens_issued : UniswapV2Pair → ℤ → ℤ → Result ℤ
  calculate_lp_tokens_issued pool amount_one amount_two = do
    reserves ← pool.get_reserves
    total_supply ← pool.total_supply
    if is_zero_constant total_supply
        then (do root ← sqrt (created (mul amount_one amount_two)); ok (sub root minimum_liquidity))
        else do
          one ← div (mul amount_one (value_of total_supply)) reserves.reserve0
          two ← div (mul amount_two (value_of total_supply)) reserves.reserve1
          ok (min one two)

  unfoldable pub calculate_tokens_in_reserve :
      SetToken → Token → Token → UniswapV2Pair → StakingRewards → Result (ℤ × ℤ)
  calculate_tokens_in_reserve set_token asset_one asset_two lp_token staking_rewards = do
    reserves ← get_reserves_safe asset_one.address asset_two.address lp_token
    total_supply ← lp_token.total_supply
    lp_token_balance ← staking_rewards.balance_of set_token.address
    ratio_one ← precise_div reserves.0 (value_of total_supply)
    one ← precise_mul ratio_one lp_token_balance
    ratio_two ← precise_div reserves.1 (value_of total_supply)
    two ← precise_mul ratio_two lp_token_balance
    ok (one, two)

  unfoldable pub calculate_engage_quantities :
      SetToken → Token → Token → UniswapV2Pair → StakingRewards → ℤ → ℤ → ℤ → Result (ℤ × ℤ)
  calculate_engage_quantities set_token asset_one asset_two lp_token staking_rewards
        reserve_percentage extra_asset_one extra_asset_two =
      do
        reserves ←
            calculate_tokens_in_reserve set_token asset_one asset_two lp_token staking_rewards
        balance_one ← asset_one.balance_of set_token.address
        balance_two ← asset_two.balance_of set_token.address
        wanted_one ← precise_mul reserves.0 reserve_percentage
        held_one ←
            precise_mul (add balance_one extra_asset_one) (sub precise_unit reserve_percentage)
        wanted_two ← precise_mul reserves.1 reserve_percentage
        held_two ←
            precise_mul (add balance_two extra_asset_two) (sub precise_unit reserve_percentage)
        ok (sub wanted_one held_one, sub wanted_two held_two)

  unfoldable pub balancing_trade : Token → Token → ℤ → ℤ → ℤ → Result (ℤ × Text × Text)
  balancing_trade asset_one asset_two asset_one_to_two_price balance_one value_two =
      if gt balance_one value_two
      then (do
        quantity ← div (sub balance_one value_two) (pos 2)
        ok (quantity, asset_one.address, asset_two.address))
      else (do
        half ← div (sub value_two balance_one) (pos 2)
        quantity ← precise_mul half asset_one_to_two_price
        ok (quantity, asset_two.address, asset_one.address))

  unfoldable pub calculate_rebalance_quantity :
      ℤ → SetToken → Token → Token → ℤ → ℤ → ℤ → Result (ℤ × Text × Text)
  calculate_rebalance_quantity sell_token_quantity set_token asset_one asset_two
        asset_one_to_two_price extra_asset_one extra_asset_two =
      do
        balance_one ← asset_one.balance_of set_token.address
        balance_two ← asset_two.balance_of set_token.address
        value_two ← precise_div (add balance_two extra_asset_two) asset_one_to_two_price
        trade ←
            balancing_trade asset_one asset_two asset_one_to_two_price
              (add balance_one extra_asset_one) value_two
        ok (
          if text_lt (to_string (pos 0)) (to_string sell_token_quantity)
              then sell_token_quantity
              else trade.0,
          trade.1,
          trade.2,
        )

  unfoldable pub calculate_rebalance_flows :
      SetToken → UniswapV2Router → ℤ → Token → Token → ℤ → ℤ → ℤ → Result (List ℤ)
  calculate_rebalance_flows set_token router sell_token_quantity asset_one asset_two
        asset_one_to_two_price extra_asset_one extra_asset_two =
      do
        trade ←
            calculate_rebalance_quantity sell_token_quantity set_token asset_one asset_two
              asset_one_to_two_price extra_asset_one extra_asset_two
        router.get_amounts_out trade.0 (trade.1 ∷ trade.2 ∷ [])
