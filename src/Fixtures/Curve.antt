-- ===== src/Fixtures/Curve.antt =====
-- utils/fixtures/curveFixture.ts: a pool of four tokens, the DAO that rewards it, and gauges.
pub mod Gauges
use index.Base.{Option, none, some, List, [], ◌∷◌}
use index.Base.Int.{ℤ, pos}
use index.Base.Text.{Text, codes}
use index.Chain.{Script, give, ◌>>=◌, ◌>>◌, Contract, send, defined, address, number, text}
use index.Units.{ether, ether_decimal}
use index.Deploys.{DeployHelper, new_deploy_helper}
use index.Deploys.ExternalCurve.{
  deploy_curve_pool_erc20, deploy_stableswap, deploy_curve_deposit, deploy_crv_token,
  deploy_gauge_controller, deploy_minter, deploy_liquidity_gauge, deploy_liquidity_gauge_reward,
  get_curve_st_eth_stableswap_mock, get_curve_weth_steth_stableswap_mock,
}

pub record CurveFixture : Type 0 where
  pub deployer : DeployHelper
  pub pool_token : Option Contract
  pub stable_swap : Option Contract
  pub deposit : Option Contract
  pub crv_token : Option Contract
  pub gauge_controller : Option Contract
  pub minter : Option Contract

abbrev pub new_curve_fixture : Text → CurveFixture
new_curve_fixture owner_address = record {
  deployer = new_deploy_helper owner_address;
  pool_token = none;
  stable_swap = none;
  deposit = none;
  crv_token = none;
  gauge_controller = none;
  minter = none;
}

-- Expects four tokens.
unfoldable pub initialize_pool : CurveFixture → List Text → Script CurveFixture
initialize_pool this tokens = do
  pool_token ←
      deploy_curve_pool_erc20 this.deployer.external (codes "Curve.fi DAI/USDC/USDT/sUSD")
        (codes "crvUSD") (some (pos 18)) (pos 0)
  stable_swap ← deploy_stableswap this.deployer.external tokens tokens pool_token.at none none
  deposit ← deploy_curve_deposit this.deployer.external tokens tokens stable_swap.at pool_token.at
  send pool_token "set_minter" (address stable_swap.at ∷ [])
  give (record this {
    pool_token = some pool_token;
    stable_swap = some stable_swap;
    deposit = some deposit;
  })

unfoldable pub initialize_dao : CurveFixture → Script CurveFixture
initialize_dao this = do
  crv_token ← deploy_crv_token this.deployer.external (codes "Curve DAO Token") (codes "CRV") none
  gauge_controller ← deploy_gauge_controller this.deployer.external crv_token.at crv_token.at
  send gauge_controller "add_type(string,uint256)"
      (text (codes "Liquidity") ∷ number (ether_decimal 5 1) ∷ [])
  minter ← deploy_minter this.deployer.external crv_token.at gauge_controller.at
  send crv_token "set_minter" (address minter.at ∷ [])
  give (record this {
    crv_token = some crv_token;
    gauge_controller = some gauge_controller;
    minter = some minter;
  })

unfoldable pub initialize_gauge : CurveFixture → Text → Script Contract
initialize_gauge this lp_token = do
  minter ← defined this.minter
  gauge ← deploy_liquidity_gauge this.deployer.external lp_token minter.at
  gauge_controller ← defined this.gauge_controller
  send gauge_controller "add_gauge(address,int128,uint256)"
      (address gauge.at ∷ number (pos 0) ∷ number (ether 1) ∷ [])
  give gauge

unfoldable pub initialize_gauge_rewards : CurveFixture → Text → Text → Text → Script Contract
initialize_gauge_rewards this lp_token reward_contract rewarded_token = do
  minter ← defined this.minter
  gauge ←
      deploy_liquidity_gauge_reward this.deployer.external lp_token minter.at reward_contract
        rewarded_token
  gauge_controller ← defined this.gauge_controller
  send gauge_controller "add_gauge(address,int128,uint256)"
      (address gauge.at ∷ number (pos 0) ∷ number (ether 1) ∷ [])
  give gauge

abbrev get_forked_curve_st_eth_stableswap_pool : CurveFixture → Contract
get_forked_curve_st_eth_stableswap_pool this =
    get_curve_st_eth_stableswap_mock this.deployer.external

abbrev get_forked_weth_steth_curve_stableswap_pool : CurveFixture → Contract
get_forked_weth_steth_curve_stableswap_pool this =
    get_curve_weth_steth_stableswap_mock this.deployer.external
