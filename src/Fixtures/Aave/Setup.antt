-- ===== src/Fixtures/Aave/Setup.antt =====
-- utils/fixtures/aaveV2Fixture.ts: the method that sets the protocol up, in the parts that follow one another.
use index.Base.{Option, none, some, get_or, [], ◌∷◌, true}
use index.Base.Int.{ℤ, pos, ◌*ℤ◌, tdiv}
use index.Base.Text.{Text, codes}
use index.Chain.{
  Script, give, ◌>>=◌, ◌>>◌, request, read_address, send, attach, address, number, text,
}
use index.Constants.{max_uint_256}
use index.ProtocolUtils.{address_zero}
use index.Units.{ether, ether_decimal}
use index.Deploys.ExternalAave.{
  deploy_general_logic, deploy_reserve_logic, deploy_validation_logic,
  deploy_aave_v2_lending_pool_configurator, deploy_aave_v2_lending_pool_collateral_manager,
  deploy_aave_v2_lending_pool, deploy_aave_v2_lending_pool_addresses_provider,
  deploy_aave_v2_protocol_data_provider, deploy_aave_v2_default_reserve_interest_rate_strategy,
  deploy_aave_v2_lending_rate_oracle, deploy_aave_v2_price_oracle, deploy_aave_v2_oracle,
  deploy_executor, deploy_aave_token_v2_mintable, deploy_governance_strategy,
  deploy_aave_governance_v2, deploy_aave_v2_staked_token_incentives_controller,
}
use index.Fixtures.Aave.{
  AaveV2Fixture, create_and_enable_reserve, set_asset_price_in_oracle, set_market_borrow_rate,
}

-- The libraries, the lending pool with what belongs to it, and the oracles. `treasury` is the random address
-- that the code takes.
unfoldable pub deploy_contracts : AaveV2Fixture → Text → Option Text → Text → Script AaveV2Fixture
deploy_contracts this weth market_id treasury = do
  general_logic ← deploy_general_logic this.deployer.external
  reserve_logic ← deploy_reserve_logic this.deployer.external
  validation_logic ← deploy_validation_logic this.deployer.external general_logic.at
  configurator ← deploy_aave_v2_lending_pool_configurator this.deployer.external
  collateral_manager ← deploy_aave_v2_lending_pool_collateral_manager this.deployer.external
  lending_pool ←
      deploy_aave_v2_lending_pool this.deployer.external validation_logic.at reserve_logic.at
  provider ←
      deploy_aave_v2_lending_pool_addresses_provider this.deployer.external
        (get_or market_id (codes "Commons"))
  data_provider ← deploy_aave_v2_protocol_data_provider this.deployer.external provider.at
  strategy ←
      deploy_aave_v2_default_reserve_interest_rate_strategy this.deployer.external provider.at none
        none none none none none
  lending_rate_oracle ← deploy_aave_v2_lending_rate_oracle this.deployer.external
  fallback_oracle ← deploy_aave_v2_price_oracle this.deployer.external
  price_oracle ← deploy_aave_v2_oracle this.deployer.external [] [] fallback_oracle.at weth
  send provider "setPriceOracle" (address price_oracle.at ∷ [])
  send provider "setLendingRateOracle" (address lending_rate_oracle.at ∷ [])
  send provider "setPoolAdmin" (address this.owner_address ∷ [])
  send provider "setLendingPoolCollateralManager" (address collateral_manager.at ∷ [])
  send provider "setAddress" (
      text (codes "0x0100000000000000000000000000000000000000000000000000000000000000")
      ∷ address data_provider.at
      ∷ [])
  send provider "setLendingPoolImpl" (address lending_pool.at ∷ [])
  proxy_pool ← request (read_address provider.at "getLendingPool" [])
  send provider "setLendingPoolConfiguratorImpl" (address configurator.at ∷ [])
  proxy_configurator ← request (read_address provider.at "getLendingPoolConfigurator" [])
  give (record this {
    generic_logic_library_address = some general_logic.at;
    reserve_logic_address = some reserve_logic.at;
    validation_logic_address = some validation_logic.at;
    market_id = some (get_or market_id (codes "Commons"));
    lending_pool = some (attach lending_pool.signer proxy_pool);
    protocol_data_provider = some data_provider;
    lending_pool_configurator = some (attach configurator.signer proxy_configurator);
    lending_pool_collateral_manager = some collateral_manager;
    lending_pool_addresses_provider = some provider;
    reserve_interest_rate_strategy = some strategy;
    price_oracle = some price_oracle;
    fallback_oracle = some fallback_oracle;
    lending_rate_oracle = some lending_rate_oracle;
    treasury_address = some treasury;
    incentives_controller_address = some address_zero;
  })

-- Prices, rates in rays, and the two reserves.
unfoldable pub enable_reserves : AaveV2Fixture → Text → Text → Option ℤ → Script AaveV2Fixture
enable_reserves this weth dai dai_price_in_eth = do
  set_asset_price_in_oracle this dai (get_or dai_price_in_eth (ether_decimal 1 3))
  let one_ray = pos 1_000_000_000_000_000_000_000_000_000
  set_market_borrow_rate this weth (tdiv (one_ray *ℤ pos 3) (pos 100))
  set_market_borrow_rate this dai (tdiv (one_ray *ℤ pos 39) (pos 1000))
  weth_reserve_tokens ←
      create_and_enable_reserve this weth (codes "WETH")
        (record {
          decimals = pos 18;
          base_ltv = pos 8000;
          liquidation_threshold = pos 8250;
          liquidation_bonus = pos 10_500;
          reserve_factor = pos 1000;
        })
        true true none none none
  dai_reserve_tokens ←
      create_and_enable_reserve this dai (codes "DAI")
        (record {
          decimals = pos 18;
          base_ltv = pos 7500;
          liquidation_threshold = pos 8000;
          liquidation_bonus = pos 10_500;
          reserve_factor = pos 1000;
        })
        true true none none none
  give (record this {
    weth_reserve_tokens = some weth_reserve_tokens;
    dai_reserve_tokens = some dai_reserve_tokens;
  })

-- Two random addresses get tokens; those transfers are not awaited, and a rejection of one is one that
-- nothing handles. The incentives controller is deployed twice, and the first one is dropped.
unfoldable pub initialize_governance : AaveV2Fixture → Text → Text → Script AaveV2Fixture
initialize_governance this random0 random1 = do
  executor ←
      deploy_executor this.deployer.external this.owner_address (pos 0) (pos 0) (pos 0) max_uint_256
        (pos 50) (pos 100) (pos 50) (ether 100)
  aave_token ← deploy_aave_token_v2_mintable this.deployer.external
  send aave_token "mint" (address this.owner_address ∷ number (ether 100_000) ∷ [])
  stk_aave_token ← deploy_aave_token_v2_mintable this.deployer.external
  send stk_aave_token "mint" (address this.owner_address ∷ number (ether 100_000) ∷ [])
  governance_strategy ←
      deploy_governance_strategy this.deployer.external aave_token.at stk_aave_token.at
  aave_governance_v2 ←
      deploy_aave_governance_v2 this.deployer.external governance_strategy.at (pos 0)
        this.owner_address (executor.at ∷ [])
  send (attach this.owner_address aave_token.at) "transfer"
      (address random0 ∷ number (pos 100) ∷ [])
  send (attach this.owner_address stk_aave_token.at) "transfer"
      (address random1 ∷ number (pos 100) ∷ [])
  deploy_aave_v2_staked_token_incentives_controller this.deployer.external stk_aave_token.at
      executor.at
  controller ←
      deploy_aave_v2_staked_token_incentives_controller this.deployer.external stk_aave_token.at
        executor.at
  give (record this {
    executor = some executor;
    aave_token = some aave_token;
    stk_aave_token = some stk_aave_token;
    governance_strategy = some governance_strategy;
    aave_governance_v2 = some aave_governance_v2;
    incentives_controller_address = some controller.at;
  })

-- The three random addresses of the run are given.
unfoldable pub initialize :
    AaveV2Fixture → Text → Text → Option Text → Option ℤ → Text → Text → Text → Script AaveV2Fixture
initialize fixture weth dai market_id dai_price_in_eth treasury random0 random1 = do
  deployed ← deploy_contracts fixture weth market_id treasury
  this ← enable_reserves deployed weth dai dai_price_in_eth
  initialize_governance this random0 random1
