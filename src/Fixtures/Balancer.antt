-- ===== src/Fixtures/Balancer.antt =====
-- utils/fixtures/balancerFixture.ts: a factory of pools, three pools, and an exchange over their registry.
use index.Base.{
  ℕ, zero, suc, Option, none, some, List, [], ◌∷◌, ◌++◌, Bool, true, false, ◌||◌, if◌then◌else◌,
  get_elem?, thrown,
}
use index.Base.Int.{ℤ, pos}
use index.Base.Text.{Text, codes, eqb}
use index.Chain.{
  Script, give, fault, ◌>>=◌, ◌>>◌, request, receipt_topics, Contract, send, attach, defined,
  address, addresses, number, flag,
}
use index.Units.{ether, ether_decimal, bitcoin}
use index.Deploys.{DeployHelper, new_deploy_helper}
use index.Deploys.ExternalExchanges.{deploy_b_factory, deploy_b_registry, deploy_exchange_proxy}

-- Of the owner's account, the address is kept.
pub record BalancerFixture : Type 0 where
  pub owner_address : Text
  pub deployer : DeployHelper
  pub owner : Option Text
  pub factory : Option Contract
  pub exchange : Option Contract
  pub registry : Option Contract
  pub weth_dai_pool : Option Contract
  pub weth_wbtc_pool : Option Contract
  pub wbtc_dai_pool : Option Contract

abbrev pub new_balancer_fixture : Text → BalancerFixture
new_balancer_fixture owner_address = record {
  owner_address = owner_address;
  deployer = new_deploy_helper owner_address;
  owner = none;
  factory = none;
  exchange = none;
  registry = none;
  weth_dai_pool = none;
  weth_wbtc_pool = none;
  wbtc_dai_pool = none;
}

abbrev includes : Text → List Text → Bool
includes topic [] = false
includes topic (t ∷ topics) = eqb topic t || includes topic topics

abbrev logs_with : Text → List (List Text) → List (List Text)
logs_with topic [] = []
logs_with topic (log ∷ logs) =
    let others = logs_with topic logs in if includes topic log then log ∷ others else others

-- `substr` from a place on.
abbrev drop : ℕ → Text → Text
drop zero s = s
drop (suc n) [] = []
drop (suc n) (c ∷ s) = drop n s

abbrev pool_created : Text
pool_created = codes "0x8ccec77b0cb63ac2cafd0f5de8cdfadab91ce656d262240ba8a6343bccc5f945"

-- An empty list of logs is no reason to throw, and its first entry a fault.
unfoldable pub get_pool_address_from_transaction : Text → Script Text
get_pool_address_from_transaction hash = do
  receipt ← request (receipt_topics hash)
  elim receipt [
    | none ↦ fault (thrown "No logs")
    | some logs ↦ do
      log ← defined (get_elem? (logs_with pool_created logs) 0)
      topic ← defined (get_elem? log 2)
      give (codes "0x" ++ drop 26 topic)
  ]

unfoldable pub create_new_pool : BalancerFixture → Contract → Contract → ℤ → ℤ → Script Contract
create_new_pool this token_one token_two token_one_balance token_two_balance = do
  factory ← defined this.factory
  tx ← send factory "newBPool" []
  pool_address ← get_pool_address_from_transaction tx
  let pool = attach this.owner_address pool_address
  send (attach this.owner_address token_one.at) "approve"
      (address pool_address ∷ number token_one_balance ∷ [])
  send (attach this.owner_address pool.at) "bind"
      (address token_one.at ∷ number token_one_balance ∷ number (ether 5) ∷ [])
  send (attach this.owner_address token_two.at) "approve"
      (address pool_address ∷ number token_two_balance ∷ [])
  send pool "bind" (address token_two.at ∷ number token_two_balance ∷ number (ether 5) ∷ [])
  send pool "setPublicSwap" (flag true ∷ [])
  give pool

unfoldable pub initialize :
    BalancerFixture → Text → Contract → Contract → Contract → Script BalancerFixture
initialize fixture owner weth wbtc dai = do
  factory ← deploy_b_factory fixture.deployer.external
  let this = record fixture { owner = some owner; factory = some factory }
  weth_dai_pool ← create_new_pool this weth dai (ether 400) (ether 92_000)
  weth_wbtc_pool ← create_new_pool this wbtc weth (ether_decimal 3_913_043 4) (bitcoin 10)
  wbtc_dai_pool ← create_new_pool this wbtc dai (bitcoin 10) (ether 90_000)
  registry ← deploy_b_registry this.deployer.external factory.at
  exchange ← deploy_exchange_proxy this.deployer.external weth.at
  send registry "addPoolPair" (address weth_dai_pool.at ∷ address weth.at ∷ address dai.at ∷ [])
  send registry "addPoolPair" (address weth_wbtc_pool.at ∷ address weth.at ∷ address wbtc.at ∷ [])
  send registry "addPoolPair" (address wbtc_dai_pool.at ∷ address wbtc.at ∷ address dai.at ∷ [])
  send registry "sortPools" (addresses (weth.at ∷ dai.at ∷ []) ∷ number (pos 1) ∷ [])
  send registry "sortPools" (addresses (wbtc.at ∷ dai.at ∷ []) ∷ number (pos 1) ∷ [])
  send registry "sortPools" (addresses (weth.at ∷ wbtc.at ∷ []) ∷ number (pos 1) ∷ [])
  send exchange "setRegistry" (address registry.at ∷ [])
  give (record this {
    weth_dai_pool = some weth_dai_pool;
    weth_wbtc_pool = some weth_wbtc_pool;
    wbtc_dai_pool = some wbtc_dai_pool;
    registry = some registry;
    exchange = some exchange;
  })
