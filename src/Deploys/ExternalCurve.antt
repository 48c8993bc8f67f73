-- ===== src/Deploys/ExternalCurve.antt =====
-- The class of utils/deploys/deployExternal.ts that deploys the contracts of Curve.
use index.Base.{Option, get_or, List, [], ◌∷◌}
use index.Base.Int.{ℤ, pos}
use index.Base.Text.{Text, codes}
use index.Chain.{Script, Contract, address, addresses, text, number, deploy, attach}

abbrev pub deploy_curve_deposit : Text → List Text → List Text → Text → Text → Script Contract
deploy_curve_deposit signer coins underlying_coins curve token =
    deploy signer "CurveDeposit" []
      (addresses coins ∷ addresses underlying_coins ∷ address curve ∷ address token ∷ [])

abbrev pub deploy_curve_pool_erc20 : Text → Text → Text → Option ℤ → ℤ → Script Contract
deploy_curve_pool_erc20 signer name symbol decimals supply =
    deploy signer "CurvePoolERC20" []
      (text name ∷ text symbol ∷ number (get_or decimals (pos 18)) ∷ number supply ∷ [])

abbrev pub get_curve_st_eth_stableswap_mock : Text → Contract
get_curve_st_eth_stableswap_mock signer =
    attach signer (codes "0xDC24316b9AE028F1497c275EB9192a3Ea0f67022")

abbrev pub get_curve_weth_steth_stableswap_mock : Text → Contract
get_curve_weth_steth_stableswap_mock signer =
    attach signer (codes "0x828b154032950C8ff7CF8085D841723Db2696056")

abbrev pub deploy_stableswap :
    Text → List Text → List Text → Text → Option ℤ → Option ℤ → Script Contract
deploy_stableswap signer coins underlying_coins pool_token a_coefficient fee =
    deploy signer "Stableswap" [] (
      addresses coins
      ∷ addresses underlying_coins
      ∷ address pool_token
      ∷ number (get_or a_coefficient (pos 1))
      ∷ number (get_or fee (pos 0))
      ∷ [])

abbrev pub deploy_crv_token : Text → Text → Text → Option ℤ → Script Contract
deploy_crv_token signer name symbol decimals =
    deploy signer "CRVToken" [] (text name ∷ text symbol ∷ number (get_or decimals (pos 18)) ∷ [])

abbrev pub deploy_gauge_controller : Text → Text → Text → Script Contract
deploy_gauge_controller signer token voting_escrow =
    deploy signer "GaugeController" [] (address token ∷ address voting_escrow ∷ [])

abbrev pub deploy_liquidity_gauge_reward : Text → Text → Text → Text → Text → Script Contract
deploy_liquidity_gauge_reward signer lp_addr minter reward_contract rewarded_token =
    deploy signer "LiquidityGaugeReward" []
      (address lp_addr ∷ address minter ∷ address reward_contract ∷ address rewarded_token ∷ [])

abbrev pub deploy_liquidity_gauge : Text → Text → Text → Script Contract
deploy_liquidity_gauge signer lp_addr minter =
    deploy signer "LiquidityGauge" [] (address lp_addr ∷ address minter ∷ [])

abbrev pub deploy_minter : Text → Text → Text → Script Contract
deploy_minter signer token controller =
    deploy signer "Minter" [] (address token ∷ address controller ∷ [])
