-- ===== src/Fixtures/Uniswap.antt =====
-- utils/fixtures/uniswapFixture.ts: the factory, the governance token and pools with staking rewards.
use index.Base.{Option, none, some, [], ◌∷◌, if◌then◌else◌}
use index.Base.Int.{pos, ◌+ℤ◌, ◌-ℤ◌, ◌*ℤ◌}
use index.Base.Text.{Text, codes, text_lt}
use index.Chain.{
  Script, give, ◌>>=◌, ◌>>◌, request, read_address, read_number, latest_block, Contract, send,
  attach, defined, address, number,
}
use index.Constants.{one_day_in_seconds}
use index.Units.{ether}
use index.Dependencies.{main_address}
use index.Deploys.{DeployHelper, new_deploy_helper}
use index.Deploys.ExternalExchanges.{
  deploy_uniswap_v2_factory, deploy_uniswap_v2_router02, deploy_uni, deploy_uniswap_timelock,
  deploy_uniswap_governor_alpha, deploy_staking_rewards, get_forked_uniswap_v2_router02,
}

-- Of the owner's account, the address is used; the wallet signs as that address.
pub record UniswapFixture : Type 0 where
  pub owner_address : Text
  pub deployer : DeployHelper
  pub owner : Option Text
  pub uni : Option Contract
  pub uniswap_governor_alpha : Option Contract
  pub uniswap_timelock : Option Contract
  pub factory : Option Contract
  pub router : Option Contract
  pub weth_dai_pool : Option Contract
  pub weth_dai_staking_rewards : Option Contract
  pub weth_wbtc_pool : Option Contract
  pub weth_wbtc_staking_rewards : Option Contract
  pub uni_weth_pool : Option Contract

abbrev pub new_uniswap_fixture : Text → UniswapFixture
new_uniswap_fixture owner_address = record {
  owner_address = owner_address;
  deployer = new_deploy_helper owner_address;
  owner = none;
  uni = none;
  uniswap_governor_alpha = none;
  uniswap_timelock = none;
  factory = none;
  router = none;
  weth_dai_pool = none;
  weth_dai_staking_rewards = none;
  weth_wbtc_pool = none;
  weth_wbtc_staking_rewards = none;
  uni_weth_pool = none;
}

-- The new pair is the last one of the factory.
unfoldable pub create_new_pair : UniswapFixture → Text → Text → Script Contract
create_new_pair this token_one token_two = do
  factory ← defined this.factory
  send factory "createPair" (address token_one ∷ address token_two ∷ [])
  pairs ← request (read_number factory.at "allPairsLength" [])
  pool_address ← request (read_address factory.at "allPairs" (number (pairs -ℤ pos 1) ∷ []))
  give (attach this.owner_address pool_address)

unfoldable pub create_new_staking_pair : UniswapFixture → Text → Text → Script (Contract × Contract)
create_new_staking_pair this token_one token_two = do
  pool_instance ← create_new_pair this token_one token_two
  owner ← defined this.owner
  uni ← defined this.uni
  staking_instance ← deploy_staking_rewards this.deployer.external owner uni.at pool_instance.at
  send (attach owner uni.at) "transfer"
      (address staking_instance.at ∷ number (ether 5_000_000) ∷ [])
  send (attach owner staking_instance.at) "notifyRewardAmount" (number (ether 5_000_000) ∷ [])
  give (pool_instance, staking_instance)

unfoldable pub initialize : UniswapFixture → Text → Text → Text → Text → Script UniswapFixture
initialize this owner weth wbtc dai = do
  factory ← deploy_uniswap_v2_factory this.deployer.external owner
  router ← deploy_uniswap_v2_router02 this.deployer.external factory.at weth
  last_block ← request latest_block
  uni ← deploy_uni this.deployer.external owner owner (last_block.timestamp +ℤ pos 2)
  uniswap_timelock ←
      deploy_uniswap_timelock this.deployer.external owner (one_day_in_seconds *ℤ pos 2)
  uniswap_governor_alpha ←
      deploy_uniswap_governor_alpha this.deployer.external uniswap_timelock.at uni.at
  let fixture = record this {
    owner = some owner;
    factory = some factory;
    router = some router;
    uni = some uni;
    uniswap_timelock = some uniswap_timelock;
    uniswap_governor_alpha = some uniswap_governor_alpha;
  }
  weth_dai ← create_new_staking_pair fixture weth dai
  weth_wbtc ← create_new_staking_pair fixture weth wbtc
  uni_weth_pool ← create_new_pair fixture weth uni.at
  give (record fixture {
    weth_dai_pool = some weth_dai.0;
    weth_dai_staking_rewards = some weth_dai.1;
    weth_wbtc_pool = some weth_wbtc.0;
    weth_wbtc_staking_rewards = some weth_wbtc.1;
    uni_weth_pool = some uni_weth_pool;
  })

-- The first argument gives the text in lower case.
abbrev get_token_order : (Text → Text) → Text → Text → Text × Text
get_token_order lower_case token_one token_two =
    if text_lt (lower_case token_one) (lower_case token_two)
    then (token_one, token_two)
    else (token_two, token_one)

-- The routers of the main network.
abbrev get_forked_uniswap_router : UniswapFixture → Contract
get_forked_uniswap_router this =
    get_forked_uniswap_v2_router02 this.deployer.external (main_address (codes "UNISWAP_ROUTER"))

abbrev get_forked_sushiswap_router : UniswapFixture → Contract
get_forked_sushiswap_router this =
    get_forked_uniswap_v2_router02 this.deployer.external (main_address (codes "SUSHISWAP_ROUTER"))
