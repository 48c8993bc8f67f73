-- ===== src/Fixtures/Compound.antt =====
-- utils/fixtures/compoundFixture.ts: the Compound protocol, its governance, and markets in it.
use index.Base.{Option, none, some, get_or, List, [], ◌∷◌}
use index.Base.Int.{ℤ, pos, ◌+ℤ◌, ◌*ℤ◌}
use index.Base.Text.{Text, codes}
use index.Chain.{
  Arg, Script, give, ◌>>=◌, ◌>>◌, Contract, send, attach, defined, address_or, address, addresses,
  number, numbers, text, texts,
}
use index.Constants.{one_day_in_seconds, zero_bytes}
use index.ProtocolUtils.{address_zero}
use index.Units.{ether, ether_decimal}
use index.TestingUtils.{get_last_block_timestamp, increase_time}
use index.Deploys.{DeployHelper, new_deploy_helper}
use index.Deploys.ExternalCompound.{
  deploy_compound_price_oracle_mock, deploy_price_oracle_proxy, deploy_unitroller,
  deploy_comptroller, deploy_white_paper_interest_rate_model, deploy_comp, deploy_compound_timelock,
  deploy_compound_governor_alpha, deploy_compound_governor_bravo_delegate,
  deploy_compound_governor_bravo_delegator, deploy_ce_rc20, deploy_c_ether,
}
use Prim.Native.String.{String}

pub record CompoundFixture : Type 0 where
  pub owner_address : Text
  pub deployer : DeployHelper
  pub unitroller : Option Contract
  pub comp : Option Contract
  pub compound_timelock : Option Contract
  pub compound_governor_alpha : Option Contract
  pub compound_governor_bravo_delegate : Option Contract
  pub compound_governor_bravo_delegator : Option Contract
  pub comptroller : Option Contract
  pub interest_rate_model : Option Contract
  pub price_oracle : Option Contract
  pub price_oracle_proxy : Option Contract

abbrev pub new_compound_fixture : Text → CompoundFixture
new_compound_fixture owner_address = record {
  owner_address = owner_address;
  deployer = new_deploy_helper owner_address;
  unitroller = none;
  comp = none;
  compound_timelock = none;
  compound_governor_alpha = none;
  compound_governor_bravo_delegate = none;
  compound_governor_bravo_delegator = none;
  comptroller = none;
  interest_rate_model = none;
  price_oracle = none;
  price_oracle_proxy = none;
}

unfoldable pub initialize : CompoundFixture → Script CompoundFixture
initialize this = do
  price_oracle ← deploy_compound_price_oracle_mock this.deployer.external
  price_oracle_proxy ←
      deploy_price_oracle_proxy this.deployer.external address_zero price_oracle.at address_zero
        address_zero address_zero address_zero address_zero
  unitroller ← deploy_unitroller this.deployer.external
  comptroller ← deploy_comptroller this.deployer.external
  send unitroller "_setPendingImplementation" (address comptroller.at ∷ [])
  send comptroller "_become"
      (address unitroller.at ∷ number (pos 0) ∷ addresses [] ∷ addresses [] ∷ [])
  send comptroller "_setPriceOracle" (address price_oracle.at ∷ [])
  send comptroller "_setMaxAssets" (number (pos 10) ∷ [])
  send comptroller "_setCloseFactor" (number (ether_decimal 5 1) ∷ [])
  send comptroller "_setLiquidationIncentive" (number (ether_decimal 108 2) ∷ [])
  interest_rate_model ←
      deploy_white_paper_interest_rate_model this.deployer.external (ether 1) (ether 1)
  comp ← deploy_comp this.deployer.external this.owner_address
  send comp "transfer" (address comptroller.at ∷ number (ether 400_000) ∷ [])
  compound_timelock ←
      deploy_compound_timelock this.deployer.external this.owner_address
        (one_day_in_seconds *ℤ pos 2)
  compound_governor_alpha ←
      deploy_compound_governor_alpha this.deployer.external compound_timelock.at comp.at
        this.owner_address
  give (record this {
    unitroller = some unitroller;
    comp = some comp;
    compound_timelock = some compound_timelock;
    compound_governor_alpha = some compound_governor_alpha;
    comptroller = some comptroller;
    interest_rate_model = some interest_rate_model;
    price_oracle = some price_oracle;
    price_oracle_proxy = some price_oracle_proxy;
  })

-- `encode_function_data` is that of ethers' interfaces, for the contract of each of the two methods.
unfoldable pub initialize_governor_bravo :
    (String → List Arg → Text) → CompoundFixture → Script CompoundFixture
initialize_governor_bravo encode_function_data this = do
  delegate ← deploy_compound_governor_bravo_delegate this.deployer.external
  timelock ← defined this.compound_timelock
  comp ← defined this.comp
  delegator ←
      deploy_compound_governor_bravo_delegator this.deployer.external timelock.at comp.at
        this.owner_address delegate.at (pos 10_000) (pos 1) (ether 100_000)
  let set_admin_data = encode_function_data "setPendingAdmin" (address delegator.at ∷ [])
  now ← get_last_block_timestamp
  let eta = now +ℤ one_day_in_seconds *ℤ pos 2 +ℤ pos 1
  send timelock "queueTransaction"
      (address timelock.at ∷ number (pos 0) ∷ text [] ∷ text set_admin_data ∷ number eta ∷ [])
  increase_time (one_day_in_seconds *ℤ pos 2 +ℤ pos 2)
  send timelock "executeTransaction"
      (address timelock.at ∷ number (pos 0) ∷ text [] ∷ text set_admin_data ∷ number eta ∷ [])
  send comp "delegate" (address this.owner_address ∷ [])
  governor_alpha ← defined this.compound_governor_alpha
  send (attach this.owner_address governor_alpha.at) "propose" (
      addresses (address_zero ∷ [])
      ∷ numbers (pos 0 ∷ [])
      ∷ texts ([] ∷ [])
      ∷ texts (zero_bytes ∷ [])
      ∷ text (codes "dummy prop")
      ∷ [])
  let initiate_call_data = encode_function_data "_initiate" (address governor_alpha.at ∷ [])
  send delegator "fallback" (text initiate_call_data ∷ [])
  give (record this {
    compound_governor_bravo_delegate = some delegate;
    compound_governor_bravo_delegator = some delegator;
  })

-- A market is supported, gets its price, and then the share of it that counts as a collateral.
unfoldable pub enable_market : CompoundFixture → Contract → ℤ → ℤ → Script Contract
enable_market this new_c_token collateral_factor current_price = do
  comptroller ← defined this.comptroller
  send comptroller "_supportMarket" (address new_c_token.at ∷ [])
  price_oracle ← defined this.price_oracle
  send price_oracle "setUnderlyingPrice" (address new_c_token.at ∷ number current_price ∷ [])
  send comptroller "_setCollateralFactor" (address new_c_token.at ∷ number collateral_factor ∷ [])
  give new_c_token

unfoldable pub create_and_enable_c_token :
    CompoundFixture
    → Text
    → ℤ
    → Option Text
    → Option Text
    → Option Text
    → Option Text
    → Option ℤ
    → ℤ
    → ℤ
    → Script Contract
create_and_enable_c_token this underlying initial_exchange_rate_mantissa comptroller
      interest_rate_model name symbol decimals collateral_factor current_price =
    do
      comptroller_at ← address_or comptroller this.unitroller
      model_at ← address_or interest_rate_model this.interest_rate_model
      new_c_token ←
          deploy_ce_rc20 this.deployer.external underlying comptroller_at model_at
            initial_exchange_rate_mantissa (get_or name (codes "CToken"))
            (get_or symbol (codes "CT")) (get_or decimals (pos 8))
      enable_market this new_c_token collateral_factor current_price

unfoldable pub create_and_enable_c_ether :
    CompoundFixture
    → ℤ
    → Option Text
    → Option Text
    → Option Text
    → Option Text
    → Option ℤ
    → ℤ
    → ℤ
    → Script Contract
create_and_enable_c_ether this initial_exchange_rate_mantissa comptroller interest_rate_model name
      symbol decimals collateral_factor current_price =
    do
      comptroller_at ← address_or comptroller this.unitroller
      model_at ← address_or interest_rate_model this.interest_rate_model
      new_c_token ←
          deploy_c_ether this.deployer.external comptroller_at model_at
            initial_exchange_rate_mantissa (get_or name (codes "CEther"))
            (get_or symbol (codes "CETH")) (get_or decimals (pos 8))
      enable_market this new_c_token collateral_factor current_price
