-- ===== src/Fixtures/Kyber.antt =====
-- utils/fixtures/kyberV3DMMFixture.ts: a factory of amplified pools, with three pools.
use index.Base.{Option, none, some, [], ◌∷◌, if◌then◌else◌}
use index.Base.Int.{ℤ, pos, ◌-ℤ◌}
use index.Base.Text.{Text, text_lt}
use index.Chain.{
  Script, give, ◌>>=◌, ◌>>◌, request, read_address, read_number, Contract, send, attach, defined,
  address, number,
}
use index.Units.{ether}
use index.Deploys.{DeployHelper, new_deploy_helper}
use index.Deploys.ExternalExchanges.{deploy_dmm_factory, deploy_dmm_router02}
use index.Deploys.MockTokens.{deploy_token_mock}

-- Of the owner's account, the address is used.
pub record KyberV3DmmFixture : Type 0 where
  pub owner_address : Text
  pub deployer : DeployHelper
  pub owner : Option Text
  pub knc : Option Contract
  pub dmm_factory : Option Contract
  pub dmm_router : Option Contract
  pub knc_weth_pool : Option Contract
  pub weth_dai_pool : Option Contract
  pub weth_wbtc_pool : Option Contract

abbrev pub new_kyber_fixture : Text → KyberV3DmmFixture
new_kyber_fixture owner_address = record {
  owner_address = owner_address;
  deployer = new_deploy_helper owner_address;
  owner = none;
  knc = none;
  dmm_factory = none;
  dmm_router = none;
  knc_weth_pool = none;
  weth_dai_pool = none;
  weth_wbtc_pool = none;
}

-- The new pool is the last one of the factory.
unfoldable pub create_new_pool : KyberV3DmmFixture → Text → Text → ℤ → Script Contract
create_new_pool this token_a token_b amp_bps = do
  dmm_factory ← defined this.dmm_factory
  send dmm_factory "createPool" (address token_a ∷ address token_b ∷ number amp_bps ∷ [])
  pools ← request (read_number dmm_factory.at "allPoolsLength" [])
  pool_address ← request (read_address dmm_factory.at "allPools" (number (pools -ℤ pos 1) ∷ []))
  give (attach this.owner_address pool_address)

unfoldable pub initialize : KyberV3DmmFixture → Text → Text → Text → Text → Script KyberV3DmmFixture
initialize this owner weth wbtc dai = do
  dmm_factory ← deploy_dmm_factory this.deployer.external owner
  dmm_router ← deploy_dmm_router02 this.deployer.external dmm_factory.at weth
  knc ← deploy_token_mock this.deployer.mocks owner (some (ether 100_000)) (some (pos 18)) none none
  let fixture = record this {
    owner = some owner;
    dmm_factory = some dmm_factory;
    dmm_router = some dmm_router;
    knc = some knc;
  }
  knc_weth_pool ← create_new_pool fixture weth knc.at (pos 19_000)
  weth_dai_pool ← create_new_pool fixture weth dai (pos 10_000)
  weth_wbtc_pool ← create_new_pool fixture weth wbtc (pos 15_000)
  give (record fixture {
    knc_weth_pool = some knc_weth_pool;
    weth_dai_pool = some weth_dai_pool;
    weth_wbtc_pool = some weth_wbtc_pool;
  })

-- The first argument gives the text in lower case.
abbrev get_token_order : (Text → Text) → Text → Text → Text × Text
get_token_order lower_case token_one token_two =
    if text_lt (lower_case token_one) (lower_case token_two)
    then (token_one, token_two)
    else (token_two, token_one)
