-- ===== src/Fixtures/Perp.antt =====
-- utils/fixtures/perpV2Fixture.ts: the perpetual protocol with its markets for vETH and vBTC.
pub mod Setup
pub mod Liquidity
use index.Base.{ℕ, Option, none, some, List, [], ◌∷◌, if◌then◌else◌}
use index.Base.Int.{ℤ, pos}
use index.Base.Text.{Text, codes, eqb}
use index.Chain.{
  Script, give, ◌>>=◌, ◌>>◌, request, read_address, read_number, Contract, send, attach, defined,
  address, number, text,
}
use index.Constants.{max_uint_256}
use index.Units.{ether, ether_decimal}
use index.Deploys.{DeployHelper, new_deploy_helper}
use index.Deploys.MockTokens.{deploy_token_mock}
use index.Deploys.ExternalExchanges.{deploy_uniswap_v3_factory}
use index.Deploys.ExternalPerp.{
  deploy_perp_v2_clearing_house_config, deploy_perp_v2_market_registry, deploy_perp_v2_order_book,
  deploy_perp_v2_insurance_fund, deploy_perp_v2_account_balance, deploy_perp_v2_exchange,
  deploy_perp_v2_vault, deploy_perp_v2_clearing_house, deploy_perp_v2_quoter,
  get_uniswap_v3_pool_instance, get_v_token,
}
use index.Fixtures.PerpTokens.{tokens_fixture, token0_fixture}

-- A property of an object that is used as a map from addresses; the latest value of an address counts.
abbrev pub Addressed : Type 0
Addressed = List (Text × Contract)

abbrev pub at_address : Text → Addressed → Option Contract
at_address name [] = none
at_address name (entry ∷ entries) =
    if eqb name entry.0 then some entry.1 else at_address name entries

-- Of the accounts of the maker and the other trader, the addresses are used; their wallets sign as those.
pub record PerpV2Fixture : Type 0 where
  pub owner_address : Text
  pub deployer : DeployHelper
  pub fee_tier : ℤ
  pub fee_tier_percent : ℤ
  pub usdc_decimals : Option ℤ
  pub price_feeds : Addressed
  pub pools : Addressed
  pub maker : Option Text
  pub other_trader : Option Text
  pub usdc : Option Contract
  pub clearing_house : Option Contract
  pub order_book : Option Contract
  pub account_balance : Option Contract
  pub market_registry : Option Contract
  pub clearing_house_config : Option Contract
  pub quoter : Option Contract
  pub exchange : Option Contract
  pub vault : Option Contract
  pub insurance_fund : Option Contract
  pub uni_v3_factory : Option Contract
  pub v_eth_pool : Option Contract
  pub v_btc_pool : Option Contract
  pub v_eth : Option Contract
  pub v_btc : Option Contract
  pub eth_price_feed : Option Contract
  pub btc_price_feed : Option Contract
  pub v_quote : Option Contract

abbrev pub new_perp_v2_fixture : Text → PerpV2Fixture
new_perp_v2_fixture owner_address = record {
  owner_address = owner_address;
  deployer = new_deploy_helper owner_address;
  fee_tier = pos 10_000;
  fee_tier_percent = ether_decimal 1 2;
  usdc_decimals = none;
  price_feeds = [];
  pools = [];
  maker = none;
  other_trader = none;
  usdc = none;
  clearing_house = none;
  order_book = none;
  account_balance = none;
  market_registry = none;
  clearing_house_config = none;
  quoter = none;
  exchange = none;
  vault = none;
  insurance_fund = none;
  uni_v3_factory = none;
  v_eth_pool = none;
  v_btc_pool = none;
  v_eth = none;
  v_btc = none;
  eth_price_feed = none;
  btc_price_feed = none;
  v_quote = none;
}

-- `parse_units` is ethers' `parseUnits` at a whole amount and a number of decimals.
module _ (parse_units : ℤ → ℤ → ℤ) where
  -- The sender is an account's address.
  unfoldable pub deposit : PerpV2Fixture → Text → ℤ → Contract → Script Unit
  deposit this sender amount token = do
    decimals ← request (read_number token.at "decimals" [])
    vault ← defined this.vault
    send (attach sender token.at) "approve"
        (address vault.at ∷ number (parse_units amount decimals) ∷ [])
    send (attach sender vault.at) "deposit"
        (address token.at ∷ number (parse_units amount decimals) ∷ [])
    give tt
