-- ===== src/Fixtures/Perp/Liquidity.antt =====
-- utils/fixtures/perpV2Fixture.ts: the methods that fill a pool and read prices from it.
use index.Base.{◌^◌, [], ◌∷◌}
use index.Base.Int.{ℤ, pos, negsuc, ◌*ℤ◌, tdiv}
use index.Base.Text.{Text}
use index.BigNumber.{BigNumber}
use index.MathUtils.{precise_mul, precise_div}
use index.Chain.{
  Script, give, ◌>>=◌, ◌>>◌, request, read_number, Contract, send, attach, defined, lift, address,
  number, flag, text, simulate,
}
use index.Constants.{max_uint_256, zero_bytes}
use index.Deploys.ExternalPerp.{get_v_token}
use index.Fixtures.Perp.{PerpV2Fixture, at_address}
use index.Base.{false, not, Bool}

-- The largest and smallest tick of a positive spacing; their quotients round towards zero.
unfoldable pub get_min_tick : ℤ → ℤ
get_min_tick tick_spacing = tdiv (negsuc 887_271) tick_spacing *ℤ tick_spacing

unfoldable pub get_max_tick : ℤ → ℤ
get_max_tick tick_spacing = tdiv (pos 887_272) tick_spacing *ℤ tick_spacing

-- The integers of the library JSBI are exact, and its quotient rounds towards zero.
unfoldable pub get_price_from_sqrt_price_x96 : ℤ → ℤ
get_price_from_sqrt_price_x96 sqrt_price_x96 =
    let squared_price = sqrt_price_x96 *ℤ sqrt_price_x96 in
    tdiv (squared_price *ℤ pos 1_000_000_000_000_000_000) (pos (2 ^ 192))

-- `encode_price_sqrt` is `encodeSqrtRatioX96` of the Uniswap SDK, at two whole amounts.
module _ (this : PerpV2Fixture) (encode_price_sqrt : ℤ → ℤ → ℤ) where
  -- In the language `2 ^ 16` is an exclusive or, 18.
  unfoldable pub initialize_pool_with_liquidity_within_ticks :
      Contract → ℤ → ℤ → ℤ → ℤ → Script Unit
  initialize_pool_with_liquidity_within_ticks base_token base_token_amount quote_token_amount
        lower_tick upper_tick =
      do
        pool ← defined (at_address base_token.at this.pools)
        send pool "initialize"
            (number (encode_price_sqrt quote_token_amount base_token_amount) ∷ [])
        send pool "increaseObservationCardinalityNext" (number (pos 17) ∷ [])
        market_registry ← defined this.market_registry
        send market_registry "addPool" (address base_token.at ∷ number this.fee_tier ∷ [])
        send market_registry "setFeeRatio" (address base_token.at ∷ number this.fee_tier ∷ [])
        clearing_house ← defined this.clearing_house
        maker ← defined this.maker
        send (attach maker clearing_house.at) "addLiquidity" (
            address base_token.at
            ∷ number base_token_amount
            ∷ number quote_token_amount
            ∷ number lower_tick
            ∷ number upper_tick
            ∷ number (pos 0)
            ∷ number (pos 0)
            ∷ flag false
            ∷ number max_uint_256
            ∷ [])
        give tt

  unfoldable pub initialize_pool_with_liquidity_wide : Contract → ℤ → ℤ → Script Unit
  initialize_pool_with_liquidity_wide base_token base_token_amount quote_token_amount = do
    pool ← defined (at_address base_token.at this.pools)
    send pool "initialize" (number (encode_price_sqrt quote_token_amount base_token_amount) ∷ [])
    send pool "increaseObservationCardinalityNext" (number (pos 17) ∷ [])
    tick_spacing ← request (read_number pool.at "tickSpacing" [])
    market_registry ← defined this.market_registry
    send market_registry "addPool" (address base_token.at ∷ number this.fee_tier ∷ [])
    send market_registry "setFeeRatio" (address base_token.at ∷ number this.fee_tier ∷ [])
    clearing_house ← defined this.clearing_house
    maker ← defined this.maker
    send (attach maker clearing_house.at) "addLiquidity" (
        address base_token.at
        ∷ number base_token_amount
        ∷ number quote_token_amount
        ∷ number (get_min_tick tick_spacing)
        ∷ number (get_max_tick tick_spacing)
        ∷ number (pos 0)
        ∷ number (pos 0)
        ∷ flag false
        ∷ number max_uint_256
        ∷ [])
    give tt

module _ (this : PerpV2Fixture) where
  unfoldable pub set_base_token_oracle_price : Contract → ℤ → Script Unit
  set_base_token_oracle_price base_token price = do
    feed ← defined (at_address base_token.at this.price_feeds)
    send feed "setRoundData"
        (number (pos 0) ∷ number price ∷ number (pos 0) ∷ number (pos 0) ∷ number (pos 0) ∷ [])
    give tt

  -- Of the pool's first slot, the price is read.
  unfoldable pub get_spot_price : Text → Script ℤ
  get_spot_price base_token = do
    pool ← defined (at_address base_token this.pools)
    sqrt_price_x96 ← request (read_number pool.at "slot0" [])
    give (get_price_from_sqrt_price_x96 sqrt_price_x96)

  abbrev get_v_token_instance : Text → Contract
  get_v_token_instance token = get_v_token this.deployer.external token

-- A position's token and balances.
pub record PositionInfo : Type 0 where
  pub base_token : Text
  pub base_balance : ℤ
  pub quote_balance : ℤ

pub record SwapQuote : Type 0 where
  pub delta_base : ℤ
  pub delta_quote : ℤ

-- The call is simulated, not sent. The fields of what `openPosition` is given stand in the order of the
-- source.
unfoldable pub get_swap_quote : PerpV2Fixture → Text → ℤ → Bool → Script SwapQuote
get_swap_quote this base_token base_quantity is_buy = do
  clearing_house ← defined this.clearing_house
  other_trader ← defined this.other_trader
  deltas ← request (
      simulate other_trader clearing_house.at "openPosition" (
        address base_token
        ∷ flag (not is_buy)
        ∷ flag (not is_buy)
        ∷ number base_quantity
        ∷ number (pos 0)
        ∷ number max_uint_256
        ∷ number (pos 0)
        ∷ text zero_bytes
        ∷ []))
  give (record { delta_base = deltas.0; delta_quote = deltas.1 })

module _ ⦃bn : BigNumber⦄ where
  unfoldable pub get_current_leverage : PerpV2Fixture → PositionInfo → ℤ → Script ℤ
  get_current_leverage this position_info collateral_balance = do
    price ← get_spot_price this position_info.base_token
    base_position_value ← lift (precise_mul position_info.base_balance price)
    base_position_net_value ← lift (precise_mul position_info.base_balance price)
    lift (
        precise_div (bn.abs base_position_value)
          (bn.add (bn.add base_position_net_value position_info.quote_balance) collateral_balance))
