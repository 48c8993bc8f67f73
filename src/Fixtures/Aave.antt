-- ===== src/Fixtures/Aave.antt =====
-- utils/fixtures/aaveV2Fixture.ts: the Aave protocol with two reserves, and its governance. The owner's
-- signer has the owner's address.
pub mod Setup
use index.Base.{Option, none, some, List, [], ◌∷◌, ◌++◌, Bool, if◌then◌else◌, get_elem?}
use index.Base.Int.{ℤ, pos}
use index.Base.Text.{Text, codes}
use index.Chain.{
  Script, give, ◌>>=◌, ◌>>◌, request, read_addresses, Contract, send, attach, defined, address_or,
  address, number, text, flag,
}
use index.Dependencies.{main_address}
use index.Deploys.{DeployHelper, new_deploy_helper}
use index.Deploys.ExternalAave.{
  deploy_aave_v2_a_token, deploy_aave_v2_stable_debt_token, deploy_aave_v2_variable_debt_token,
  get_forked_aave_lending_pool_addresses_provider, get_forked_aave_v2_protocol_data_provider,
}

pub record ReserveTokens : Type 0 where
  pub a_token : Contract
  pub stable_debt_token : Contract
  pub variable_debt_token : Contract

pub record AaveV2Fixture : Type 0 where
  pub owner_address : Text
  pub deployer : DeployHelper
  pub weth_reserve_tokens : Option ReserveTokens
  pub dai_reserve_tokens : Option ReserveTokens
  pub generic_logic_library_address : Option Text
  pub reserve_logic_address : Option Text
  pub validation_logic_address : Option Text
  pub market_id : Option Text
  pub lending_pool : Option Contract
  pub protocol_data_provider : Option Contract
  pub lending_pool_configurator : Option Contract
  pub lending_pool_collateral_manager : Option Contract
  pub lending_pool_addresses_provider : Option Contract
  pub reserve_interest_rate_strategy : Option Contract
  pub price_oracle : Option Contract
  pub fallback_oracle : Option Contract
  pub lending_rate_oracle : Option Contract
  pub treasury_address : Option Text
  pub incentives_controller_address : Option Text
  pub aave_token : Option Contract
  pub stk_aave_token : Option Contract
  pub aave_governance_v2 : Option Contract
  pub executor : Option Contract
  pub governance_strategy : Option Contract

abbrev pub new_aave_v2_fixture : Text → AaveV2Fixture
new_aave_v2_fixture owner_address = record {
  owner_address = owner_address;
  deployer = new_deploy_helper owner_address;
  weth_reserve_tokens = none;
  dai_reserve_tokens = none;
  generic_logic_library_address = none;
  reserve_logic_address = none;
  validation_logic_address = none;
  market_id = none;
  lending_pool = none;
  protocol_data_provider = none;
  lending_pool_configurator = none;
  lending_pool_collateral_manager = none;
  lending_pool_addresses_provider = none;
  reserve_interest_rate_strategy = none;
  price_oracle = none;
  fallback_oracle = none;
  lending_rate_oracle = none;
  treasury_address = none;
  incentives_controller_address = none;
  aave_token = none;
  stk_aave_token = none;
  aave_governance_v2 = none;
  executor = none;
  governance_strategy = none;
}

-- A value that is given, or else the property.
abbrev given_or : {A : Type 0} → Option A → Option A → Script A
given_or none property = defined property
given_or (some a) property = give a

-- The numbers of a reserve: decimals, the loan to value, the threshold and bonus of a liquidation, the factor.
pub record ReserveNumbers : Type 0 where
  pub decimals : ℤ
  pub base_ltv : ℤ
  pub liquidation_threshold : ℤ
  pub liquidation_bonus : ℤ
  pub reserve_factor : ℤ

module _ (this : AaveV2Fixture) where
  -- The three last arguments are by default the fixture's treasury, controller and strategy.
  unfoldable pub create_and_enable_reserve :
      Text
      → Text
      → ReserveNumbers
      → Bool
      → Bool
      → Option Text
      → Option Text
      → Option Text
      → Script ReserveTokens
  create_and_enable_reserve asset symbol n borrowing_enabled stable_borrowing_enabled treasury
        controller strategy =
      do
        treasury_address ← given_or treasury this.treasury_address
        incentives_controller_address ← given_or controller this.incentives_controller_address
        interest_rate_strategy_address ← address_or strategy this.reserve_interest_rate_strategy
        a_token ← deploy_aave_v2_a_token this.deployer.external
        stable_debt_token ← deploy_aave_v2_stable_debt_token this.deployer.external
        variable_debt_token ← deploy_aave_v2_variable_debt_token this.deployer.external
        lending_pool_configurator ← defined this.lending_pool_configurator
        send lending_pool_configurator "batchInitReserve" (
            address a_token.at
            ∷ address stable_debt_token.at
            ∷ address variable_debt_token.at
            ∷ number n.decimals
            ∷ address interest_rate_strategy_address
            ∷ address asset
            ∷ address treasury_address
            ∷ address incentives_controller_address
            ∷ text symbol
            ∷ text (codes "Aave interest bearing " ++ symbol)
            ∷ text (codes "a" ++ symbol)
            ∷ text (codes "Aave variable debt bearing " ++ symbol)
            ∷ text (codes "variableDebt" ++ symbol)
            ∷ text (codes "Aave stable debt bearing " ++ symbol)
            ∷ text (codes "stableDebt" ++ symbol)
            ∷ text (codes "0x")
            ∷ [])
        send lending_pool_configurator "configureReserveAsCollateral" (
            address asset
            ∷ number n.base_ltv
            ∷ number n.liquidation_threshold
            ∷ number n.liquidation_bonus
            ∷ [])
        (if borrowing_enabled
            then (send lending_pool_configurator "enableBorrowingOnReserve"
                  (address asset ∷ flag stable_borrowing_enabled ∷ [])
                >> give tt)
            else give tt)
        send lending_pool_configurator "setReserveFactor"
            (address asset ∷ number n.reserve_factor ∷ [])
        protocol_data_provider ← defined this.protocol_data_provider
        proxies ← request (
            read_addresses protocol_data_provider.at "getReserveTokensAddresses"
              (address asset ∷ []))
        a_token_proxy ← defined (get_elem? proxies 0)
        stable_debt_token_proxy ← defined (get_elem? proxies 1)
        variable_debt_token_proxy ← defined (get_elem? proxies 2)
        give (record {
          a_token = attach a_token.signer a_token_proxy;
          stable_debt_token = attach stable_debt_token.signer stable_debt_token_proxy;
          variable_debt_token = attach variable_debt_token.signer variable_debt_token_proxy;
        })

  unfoldable pub set_asset_price_in_oracle : Text → ℤ → Script Unit
  set_asset_price_in_oracle asset price_in_eth = do
    fallback_oracle ← defined this.fallback_oracle
    send fallback_oracle "setAssetPrice" (address asset ∷ number price_in_eth ∷ [])
    give tt

  unfoldable pub set_market_borrow_rate : Text → ℤ → Script Unit
  set_market_borrow_rate asset rate = do
    lending_rate_oracle ← defined this.lending_rate_oracle
    send lending_rate_oracle "setMarketBorrowRate" (address asset ∷ number rate ∷ [])
    give tt

  -- The two contracts of the main network.
  abbrev get_forked_lending_pool_addresses_provider : Contract
  get_forked_lending_pool_addresses_provider =
      get_forked_aave_lending_pool_addresses_provider this.deployer.external
        (main_address (codes "AAVE_LENDING_POOL_ADDRESSES_PROVIDER"))

  abbrev get_forked_protocol_data_provider : Contract
  get_forked_protocol_data_provider =
      get_forked_aave_v2_protocol_data_provider this.deployer.external
        (main_address (codes "AAVE_PROTOCOL_DATA_PROVIDER"))
