-- ===== src/Fixtures/System.antt =====
-- utils/fixtures/systemFixture.ts: the core of the protocol with its modules, tokens and oracles.
pub mod SetTokens
pub mod Scope
pub mod Issuance
pub mod Progress
use index.Base.{ℕ, Option, none, some, List, [], ◌∷◌, Result, ok, err, thrown, get_elem?, get_or}
use index.Base.Int.{ℤ, pos}
use index.Base.Text.{Text, codes}
use index.Chain.{
  Script, give, fault, ◌>>=◌, ◌>>◌, request, list_accounts, read_logs, transact, read_addresses,
  Contract, send, attach, defined, lift, address, addresses, number, numbers, text,
}
use index.Constants.{max_uint_256}
use index.Units.{ether}
use index.ProtocolUtils.{Provider, get_created_set_token_address}
use index.Deploys.{DeployHelper, new_deploy_helper}
use index.Deploys.Core.{
  deploy_controller, deploy_integration_registry, deploy_set_token_creator, deploy_price_oracle,
  deploy_set_valuer, deploy_set_token,
}
use index.Deploys.Modules.{
  deploy_basic_issuance_module, deploy_streaming_fee_module,
  deploy_custom_oracle_nav_issuance_module,
}
use index.Deploys.MockTokens.{deploy_token_mock, get_token_mock}
use index.Deploys.Mocks.{deploy_oracle_mock}
use index.Deploys.ExternalCompound.{deploy_weth}

-- The prices are in `prices`, of the four components in their order.
pub record SystemFixture : Type 0 where
  pub owner_address : Text
  pub deployer : DeployHelper
  pub fee_recipient : Option Text
  pub controller : Option Contract
  pub factory : Option Contract
  pub price_oracle : Option Contract
  pub integration_registry : Option Contract
  pub set_valuer : Option Contract
  pub issuance_module : Option Contract
  pub streaming_fee_module : Option Contract
  pub nav_issuance_module : Option Contract
  pub weth : Option Contract
  pub usdc : Option Contract
  pub wbtc : Option Contract
  pub dai : Option Contract
  pub eth_usd_oracle : Option Contract
  pub usd_usd_oracle : Option Contract
  pub btc_usd_oracle : Option Contract
  pub dai_usd_oracle : Option Contract

abbrev pub new_system_fixture : Text → SystemFixture
new_system_fixture owner_address = record {
  owner_address = owner_address;
  deployer = new_deploy_helper owner_address;
  fee_recipient = none;
  controller = none;
  factory = none;
  price_oracle = none;
  integration_registry = none;
  set_valuer = none;
  issuance_module = none;
  streaming_fee_module = none;
  nav_issuance_module = none;
  weth = none;
  usdc = none;
  wbtc = none;
  dai = none;
  eth_usd_oracle = none;
  usd_usd_oracle = none;
  btc_usd_oracle = none;
  dai_usd_oracle = none;
}

-- The prices of the components.
abbrev component1_price : ℤ
component1_price = ether 230

abbrev component2_price : ℤ
component2_price = ether 1

abbrev component3_price : ℤ
component3_price = ether 9000

abbrev component4_price : ℤ
component4_price = ether 1

unfoldable pub initialize_standard_components : SystemFixture → Script SystemFixture
initialize_standard_components this = do
  weth ← deploy_weth this.deployer.external
  usdc ←
      deploy_token_mock this.deployer.mocks this.owner_address (some (ether 10_000)) (some (pos 6))
        none none
  wbtc ←
      deploy_token_mock this.deployer.mocks this.owner_address (some (ether 10_000)) (some (pos 8))
        none none
  dai ←
      deploy_token_mock this.deployer.mocks this.owner_address (some (ether 1_000_000))
        (some (pos 18)) none none
  eth_usd_oracle ← deploy_oracle_mock this.deployer.mocks component1_price
  usd_usd_oracle ← deploy_oracle_mock this.deployer.mocks component2_price
  btc_usd_oracle ← deploy_oracle_mock this.deployer.mocks component3_price
  dai_usd_oracle ← deploy_oracle_mock this.deployer.mocks component4_price
  request (transact weth.signer weth.at "deposit" (ether 5000) [])
  issuance_module ← defined this.issuance_module
  send weth "approve" (address issuance_module.at ∷ number (ether 10_000) ∷ [])
  send usdc "approve" (address issuance_module.at ∷ number (ether 10_000) ∷ [])
  send wbtc "approve" (address issuance_module.at ∷ number (ether 10_000) ∷ [])
  send dai "approve" (address issuance_module.at ∷ number (ether 10_000) ∷ [])
  give (record this {
    weth = some weth;
    usdc = some usdc;
    wbtc = some wbtc;
    dai = some dai;
    eth_usd_oracle = some eth_usd_oracle;
    usd_usd_oracle = some usd_usd_oracle;
    btc_usd_oracle = some btc_usd_oracle;
    dai_usd_oracle = some dai_usd_oracle;
  })

-- What follows the choice of the fee's recipient. The registry is deployed twice, and the first one is
-- dropped.
unfoldable pub initialize_for : SystemFixture → Text → Script SystemFixture
initialize_for fixture fee_recipient = do
  controller ← deploy_controller fixture.deployer.core fee_recipient
  issuance_module ← deploy_basic_issuance_module fixture.deployer.modules controller.at
  this ← initialize_standard_components (record fixture {
    fee_recipient = some fee_recipient;
    controller = some controller;
    issuance_module = some issuance_module;
  })
  weth ← defined this.weth
  usdc ← defined this.usdc
  wbtc ← defined this.wbtc
  dai ← defined this.dai
  eth_usd_oracle ← defined this.eth_usd_oracle
  usd_usd_oracle ← defined this.usd_usd_oracle
  btc_usd_oracle ← defined this.btc_usd_oracle
  dai_usd_oracle ← defined this.dai_usd_oracle
  deploy_integration_registry this.deployer.core controller.at
  factory ← deploy_set_token_creator this.deployer.core controller.at
  price_oracle ←
      deploy_price_oracle this.deployer.core controller.at usdc.at []
        (weth.at ∷ usdc.at ∷ wbtc.at ∷ dai.at ∷ []) (usdc.at ∷ usdc.at ∷ usdc.at ∷ usdc.at ∷ [])
        (eth_usd_oracle.at ∷ usd_usd_oracle.at ∷ btc_usd_oracle.at ∷ dai_usd_oracle.at ∷ [])
  integration_registry ← deploy_integration_registry this.deployer.core controller.at
  set_valuer ← deploy_set_valuer this.deployer.core controller.at
  streaming_fee_module ← deploy_streaming_fee_module this.deployer.modules controller.at
  nav_issuance_module ←
      deploy_custom_oracle_nav_issuance_module this.deployer.modules controller.at weth.at
  send controller "initialize" (
      addresses (factory.at ∷ [])
      ∷ addresses (issuance_module.at ∷ streaming_fee_module.at ∷ nav_issuance_module.at ∷ [])
      ∷ addresses (integration_registry.at ∷ price_oracle.at ∷ set_valuer.at ∷ [])
      ∷ numbers (pos 0 ∷ pos 1 ∷ pos 2 ∷ [])
      ∷ [])
  give (record this {
    factory = some factory;
    price_oracle = some price_oracle;
    integration_registry = some integration_registry;
    set_valuer = some set_valuer;
    streaming_fee_module = some streaming_fee_module;
    nav_issuance_module = some nav_issuance_module;
  })

unfoldable pub initialize : SystemFixture → Script SystemFixture
initialize this = do
  accounts ← request list_accounts
  fee_recipient ← defined (get_elem? accounts 3)
  initialize_for this fee_recipient
