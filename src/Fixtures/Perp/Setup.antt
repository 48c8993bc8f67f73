-- ===== src/Fixtures/Perp/Setup.antt =====
-- utils/fixtures/perpV2Fixture.ts: the method that sets the protocol up, in the parts that follow one another.
use index.Base.{ℕ, none, some, [], ◌∷◌}
use index.Base.Int.{ℤ, pos}
use index.Base.Text.{Text}
use index.Chain.{Script, give, ◌>>=◌, ◌>>◌, request, read_address, Contract, send, address, number}
use index.Constants.{max_uint_256}
use index.Units.{ether}
use index.Deploys.MockTokens.{deploy_token_mock}
use index.Deploys.ExternalExchanges.{deploy_uniswap_v3_factory}
use index.Deploys.ExternalPerp.{
  deploy_perp_v2_clearing_house_config, deploy_perp_v2_market_registry, deploy_perp_v2_order_book,
  deploy_perp_v2_insurance_fund, deploy_perp_v2_account_balance, deploy_perp_v2_exchange,
  deploy_perp_v2_vault, deploy_perp_v2_clearing_house, deploy_perp_v2_quoter,
  get_uniswap_v3_pool_instance,
}
use index.Fixtures.Perp.{PerpV2Fixture, deposit}
use index.Fixtures.PerpTokens.{tokens_fixture, token0_fixture}

-- The contracts that the later parts use.
pub record Markets : Type 0 where
  pub usdc : Contract
  pub v_eth : Contract
  pub v_btc : Contract
  pub v_quote : Contract
  pub eth_price_feed : Contract
  pub btc_price_feed : Contract
  pub uni_v3_factory : Contract
  pub clearing_house_config : Contract

pub record Trading : Type 0 where
  pub market_registry : Contract
  pub order_book : Contract
  pub insurance_fund : Contract
  pub account_balance : Contract
  pub exchange : Contract
  pub vault : Contract
  pub v_eth_pool : Contract
  pub v_btc_pool : Contract

pub record Clearing : Type 0 where
  pub clearing_house : Contract
  pub quoter : Contract

module _ (this : PerpV2Fixture) where
  -- `fuel` bounds how many base tokens are created for the second market.
  unfoldable pub deploy_markets : (Text → Text) → ℕ → Script Markets
  deploy_markets lower_case fuel = do
    usdc ←
        deploy_token_mock this.deployer.mocks this.owner_address (some (ether 100_000_000_000_000))
          (some (pos 6)) none none
    tokens ← tokens_fixture lower_case this.deployer
    base ← token0_fixture lower_case fuel this.deployer tokens.token1.at
    uni_v3_factory ← deploy_uniswap_v3_factory this.deployer.external
    clearing_house_config ← deploy_perp_v2_clearing_house_config this.deployer.external
    send clearing_house_config "initialize" []
    send uni_v3_factory "createPool"
        (address tokens.token0.at ∷ address tokens.token1.at ∷ number this.fee_tier ∷ [])
    send uni_v3_factory "createPool"
        (address base.base_token.at ∷ address tokens.token1.at ∷ number this.fee_tier ∷ [])
    give (record {
      usdc = usdc;
      v_eth = tokens.token0;
      v_btc = base.base_token;
      v_quote = tokens.token1;
      eth_price_feed = tokens.mock_aggregator0;
      btc_price_feed = base.mock_aggregator;
      uni_v3_factory = uni_v3_factory;
      clearing_house_config = clearing_house_config;
    })

  -- The code does not await the exchange's `setAccountBalance`; the request is made at this place, and its
  -- rejection is one that nothing handles.
  unfoldable pub deploy_trading : Markets → Script Trading
  deploy_trading m = do
    market_registry ← deploy_perp_v2_market_registry this.deployer.external
    send market_registry "initialize" (address m.uni_v3_factory.at ∷ address m.v_quote.at ∷ [])
    order_book ← deploy_perp_v2_order_book this.deployer.external
    send order_book "initialize" (address market_registry.at ∷ [])
    insurance_fund ← deploy_perp_v2_insurance_fund this.deployer.external
    send insurance_fund "initialize" (address m.usdc.at ∷ [])
    account_balance ← deploy_perp_v2_account_balance this.deployer.external
    exchange ← deploy_perp_v2_exchange this.deployer.external
    send exchange "initialize" (
        address market_registry.at
        ∷ address order_book.at
        ∷ address m.clearing_house_config.at
        ∷ [])
    send exchange "setAccountBalance" (address account_balance.at ∷ [])
    send order_book "setExchange" (address exchange.at ∷ [])
    send account_balance "initialize"
        (address m.clearing_house_config.at ∷ address order_book.at ∷ [])
    vault ← deploy_perp_v2_vault this.deployer.external
    send vault "initialize" (
        address insurance_fund.at
        ∷ address m.clearing_house_config.at
        ∷ address account_balance.at
        ∷ address exchange.at
        ∷ [])
    send insurance_fund "setBorrower" (address vault.at ∷ [])
    send account_balance "setVault" (address vault.at ∷ [])
    pool_addr_a ← request (
        read_address m.uni_v3_factory.at "getPool"
          (address m.v_eth.at ∷ address m.v_quote.at ∷ number this.fee_tier ∷ []))
    pool_addr_b ← request (
        read_address m.uni_v3_factory.at "getPool"
          (address m.v_btc.at ∷ address m.v_quote.at ∷ number this.fee_tier ∷ []))
    send m.v_eth "addWhitelist" (address pool_addr_a ∷ [])
    send m.v_btc "addWhitelist" (address pool_addr_b ∷ [])
    send m.v_quote "addWhitelist" (address pool_addr_a ∷ [])
    send m.v_quote "addWhitelist" (address pool_addr_b ∷ [])
    give (record {
      market_registry = market_registry;
      order_book = order_book;
      insurance_fund = insurance_fund;
      account_balance = account_balance;
      exchange = exchange;
      vault = vault;
      v_eth_pool = get_uniswap_v3_pool_instance this.deployer.external pool_addr_a;
      v_btc_pool = get_uniswap_v3_pool_instance this.deployer.external pool_addr_b;
    })

  unfoldable pub deploy_clearing : Markets → Trading → Script Clearing
  deploy_clearing m t = do
    clearing_house ← deploy_perp_v2_clearing_house this.deployer.external
    send clearing_house "initialize" (
        address m.clearing_house_config.at
        ∷ address t.vault.at
        ∷ address m.v_quote.at
        ∷ address m.uni_v3_factory.at
        ∷ address t.exchange.at
        ∷ address t.account_balance.at
        ∷ address t.insurance_fund.at
        ∷ [])
    send m.clearing_house_config "setSettlementTokenBalanceCap" (number max_uint_256 ∷ [])
    quoter ← deploy_perp_v2_quoter this.deployer.external t.market_registry.at
    send m.v_quote "mintMaximumTo" (address clearing_house.at ∷ [])
    send m.v_eth "mintMaximumTo" (address clearing_house.at ∷ [])
    send m.v_btc "mintMaximumTo" (address clearing_house.at ∷ [])
    send m.v_quote "addWhitelist" (address clearing_house.at ∷ [])
    send m.v_eth "addWhitelist" (address clearing_house.at ∷ [])
    send m.v_btc "addWhitelist" (address clearing_house.at ∷ [])
    send t.market_registry "setClearingHouse" (address clearing_house.at ∷ [])
    send t.order_book "setClearingHouse" (address clearing_house.at ∷ [])
    send t.exchange "setClearingHouse" (address clearing_house.at ∷ [])
    send t.account_balance "setClearingHouse" (address clearing_house.at ∷ [])
    send t.vault "setClearingHouse" (address clearing_house.at ∷ [])
    give (record { clearing_house = clearing_house; quoter = quoter })

-- The object with what the parts deployed.
abbrev holding : PerpV2Fixture → Text → Text → Markets → Trading → Clearing → PerpV2Fixture
holding this maker other_trader m t c = record this {
  usdc_decimals = some (pos 6);
  price_feeds = (m.v_btc.at, m.btc_price_feed) ∷ (m.v_eth.at, m.eth_price_feed) ∷ this.price_feeds;
  pools = (m.v_btc.at, t.v_btc_pool) ∷ (m.v_eth.at, t.v_eth_pool) ∷ this.pools;
  maker = some maker;
  other_trader = some other_trader;
  usdc = some m.usdc;
  clearing_house = some c.clearing_house;
  order_book = some t.order_book;
  account_balance = some t.account_balance;
  market_registry = some t.market_registry;
  clearing_house_config = some m.clearing_house_config;
  quoter = some c.quoter;
  exchange = some t.exchange;
  vault = some t.vault;
  insurance_fund = some t.insurance_fund;
  uni_v3_factory = some m.uni_v3_factory;
  v_eth_pool = some t.v_eth_pool;
  v_btc_pool = some t.v_btc_pool;
  v_eth = some m.v_eth;
  v_btc = some m.v_btc;
  eth_price_feed = some m.eth_price_feed;
  btc_price_feed = some m.btc_price_feed;
  v_quote = some m.v_quote;
}

unfoldable pub initialize :
    (Text → Text) → (ℤ → ℤ → ℤ) → ℕ → PerpV2Fixture → Text → Text → Script PerpV2Fixture
initialize lower_case parse_units fuel fixture maker other_trader = do
  m ← deploy_markets fixture lower_case fuel
  t ← deploy_trading fixture m
  c ← deploy_clearing fixture m t
  let this = holding fixture maker other_trader m t c
  send m.usdc "mint" (address maker ∷ number (parse_units (pos 1_000_000) (pos 6)) ∷ [])
  deposit parse_units this maker (pos 1_000_000) m.usdc
  send m.usdc "mint" (address other_trader ∷ number (parse_units (pos 1_000_000) (pos 6)) ∷ [])
  deposit parse_units this other_trader (pos 1_000_000) m.usdc
  give this
