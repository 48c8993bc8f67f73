-- ===== src/Fixtures/UniswapV3.antt =====
-- utils/fixtures/uniswapV3Fixture.ts: the contracts of Uniswap V3, and pools of tokens in their order.
pub mod Wide
use index.Base.{ℕ, suc, ◌+◌, ◌-◌, ◌/◌, Bool, Option, none, some, List, [], ◌∷◌, if◌then◌else◌}
use index.Base.Int.{ℤ, pos, negsuc, neg_ℤ, ◌-ℤ◌, ◌*ℤ◌}
use index.Base.Text.{Text, text_lt}
use index.BigNumber.{BigNumber}
use index.Chain.{
  Script, give, ◌>>=◌, ◌>>◌, request, read_address, read_number, Contract, send, attach, defined,
  lift, address, number,
}
use index.Constants.{max_uint_256}
use index.Units.{ether}
use index.Deploys.{DeployHelper, new_deploy_helper}
use index.Deploys.ExternalExchanges.{
  deploy_uniswap_v3_factory, deploy_swap_router, deploy_nft_position_manager, deploy_quoter,
  deploy_nft_descriptor,
}

pub record UniswapV3Fixture : Type 0 where
  pub owner_address : Text
  pub deployer : DeployHelper
  pub factory : Option Contract
  pub swap_router : Option Contract
  pub nft_position_manager : Option Contract
  pub nft_descriptor : Option Contract
  pub quoter : Option Contract
  pub weth_dai_pool : Option Contract
  pub weth_wbtc_pool : Option Contract

abbrev pub new_uniswap_v3_fixture : Text → UniswapV3Fixture
new_uniswap_v3_fixture owner_address = record {
  owner_address = owner_address;
  deployer = new_deploy_helper owner_address;
  factory = none;
  swap_router = none;
  nft_position_manager = none;
  nft_descriptor = none;
  quoter = none;
  weth_dai_pool = none;
  weth_wbtc_pool = none;
}

-- The fee tiers that a pool can have, as the code's comments list them.
pub data FeeTier : Type 0 where
  fee_500 : FeeTier
  fee_3000 : FeeTier
  fee_10000 : FeeTier

abbrev pub fee_of : FeeTier → ℕ
fee_of fee_500 = 500
fee_of fee_3000 = 3000
fee_of fee_10000 = 10000

abbrev pub max_tick : ℕ
max_tick = 887_272

-- `_fee / 50`, which is a whole number for each tier.
abbrev pub tick_spacing : FeeTier → ℕ
tick_spacing fee = fee_of fee / 50

-- `Math.floor` and `Math.ceil` of a quotient by a number that is not zero.
abbrev pub floor_div : ℤ → ℕ → ℤ
floor_div (pos n) d = pos (n / d)
floor_div (negsuc n) d = neg_ℤ (pos ((n + d) / d))

abbrev pub ceil_div : ℤ → ℕ → ℤ
ceil_div (pos n) d = pos ((n + d - 1) / d)
ceil_div (negsuc n) d = neg_ℤ (pos (suc n / d))

abbrev pub max_valid_tick : ℕ → ℤ
unfolding ◌*ℤ◌
max_valid_tick spacing = floor_div (pos max_tick) spacing *ℤ pos spacing

abbrev pub min_valid_tick : ℕ → ℤ
unfolding ◌*ℤ◌
min_valid_tick spacing = ceil_div (neg_ℤ (pos max_tick)) spacing *ℤ pos spacing

-- `lower_case` is the language's `toLowerCase`.
module _ (lower_case : Text → Text) where
  abbrev comes_before : Contract → Contract → Bool
  comes_before a b = text_lt (lower_case a.at) (lower_case b.at)

  abbrev pub get_token_order : Contract → Contract → Contract × Contract
  get_token_order token0 token1 =
      if comes_before token0 token1 then (token0, token1) else (token1, token0)

  unfoldable pub get_pool : UniswapV3Fixture → Contract → Contract → ℤ → Script Contract
  get_pool this token0 token1 fee = do
    factory ← defined this.factory
    let ordered = get_token_order token0 token1
    pool_address ← request (
        read_address factory.at "getPool"
          (address ordered.0.at ∷ address ordered.1.at ∷ number fee ∷ []))
    give (attach this.owner_address pool_address)

  -- The fields of what `mint` is given stand in the order of the source.
  unfoldable pub add_liquidity_wide :
      UniswapV3Fixture → Contract → Contract → FeeTier → ℤ → ℤ → Text → Script Unit
  add_liquidity_wide this token0 token1 fee amount0 amount1 recipient = do
    let swapped = comes_before token1 token0
    let token0_ordered = if swapped then token1 else token0
    let token1_ordered = if swapped then token0 else token1
    let amount0_ordered = if swapped then amount1 else amount0
    let amount1_ordered = if swapped then amount0 else amount1
    nft_position_manager ← defined this.nft_position_manager
    send (attach this.owner_address nft_position_manager.at) "mint" (
        number (pos (fee_of fee))
        ∷ address token0_ordered.at
        ∷ address token1_ordered.at
        ∷ number (min_valid_tick (tick_spacing fee))
        ∷ number (max_valid_tick (tick_spacing fee))
        ∷ number amount0_ordered
        ∷ number amount1_ordered
        ∷ number (pos 0)
        ∷ number (pos 0)
        ∷ number max_uint_256
        ∷ address recipient
        ∷ [])
    give tt

  -- Prices are floating-point numbers: `shifted` multiplies one by a power of ten, `inverse` and `over`
  -- divide, and `root_in_wei` reads the root, written with 18 decimals, as ethers' `parseEther` does.
  module _ ⦃bn : BigNumber⦄ {Price : Type 0} (shifted : Price → ℤ → Price) (inverse : Price → Price)
      (over : Price → Price → Price) (root_in_wei : Price → ℤ) where
    open bn use {mul, div, pow}

    abbrev get_sqrt_price_x96 : Price → Script ℤ
    get_sqrt_price_x96 ratio = lift (div (mul (root_in_wei ratio) (pow (pos 2) 96)) (ether 1))

    unfoldable pub create_new_pair :
        UniswapV3Fixture → Contract → Contract → ℤ → Price → Script Contract
    create_new_pair this token0 token1 fee ratio = do
      decimals1 ← request (read_number token1.at "decimals" [])
      decimals0 ← request (read_number token0.at "decimals" [])
      let scaled = shifted ratio (decimals1 -ℤ decimals0)
      let ordered = get_token_order token0 token1
      sqrt_price ←
          get_sqrt_price_x96 (if comes_before token1 token0 then inverse scaled else scaled)
      nft_position_manager ← defined this.nft_position_manager
      send nft_position_manager "createAndInitializePoolIfNecessary"
          (address ordered.0.at ∷ address ordered.1.at ∷ number fee ∷ number sqrt_price ∷ [])
      get_pool this token0 token1 fee

    unfoldable pub initialize :
        UniswapV3Fixture → Contract → Price → Contract → Price → Contract → Script UniswapV3Fixture
    unfolding create_new_pair get_pool
    initialize this weth weth_price wbtc wbtc_price dai = do
      factory ← deploy_uniswap_v3_factory this.deployer.external
      swap_router ← deploy_swap_router this.deployer.external factory.at weth.at
      nft_descriptor ← deploy_nft_descriptor this.deployer.external
      nft_position_manager ←
          deploy_nft_position_manager this.deployer.external factory.at weth.at nft_descriptor.at
      quoter ← deploy_quoter this.deployer.external factory.at weth.at
      let fixture = record this {
        factory = some factory;
        swap_router = some swap_router;
        nft_descriptor = some nft_descriptor;
        nft_position_manager = some nft_position_manager;
        quoter = some quoter;
      }
      weth_dai_pool ← create_new_pair fixture weth dai (pos 3000) weth_price
      weth_wbtc_pool ← create_new_pair fixture weth wbtc (pos 3000) (over weth_price wbtc_price)
      give (record fixture {
        weth_dai_pool = some weth_dai_pool;
        weth_wbtc_pool = some weth_wbtc_pool;
      })
