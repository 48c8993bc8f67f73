-- ===== src/Deploys/Adapters.antt =====
-- The class of utils/deploys/deployAdapters.ts that deploys the adapters of exchanges, of wrapped tokens, of governance and of prices.
use index.Base.{List, [], ◌∷◌}
use index.Base.Int.{ℤ}
use index.Base.Text.{Text}
use index.Chain.{Script, Contract, address, addresses, text, number, deploy, attach}

abbrev deploy_kyber_exchange_adapter : Text → Text → Script Contract
deploy_kyber_exchange_adapter signer kyber_network_proxy =
    deploy signer "KyberExchangeAdapter" [] (address kyber_network_proxy ∷ [])

abbrev deploy_one_inch_exchange_adapter : Text → Text → Text → Text → Script Contract
deploy_one_inch_exchange_adapter signer approve_address exchange_address swap_function_signature =
    deploy signer "OneInchExchangeAdapter" []
      (address approve_address ∷ address exchange_address ∷ text swap_function_signature ∷ [])

abbrev deploy_uniswap_v2_amm_adapter : Text → Text → Script Contract
deploy_uniswap_v2_amm_adapter signer uniswap_v2_router =
    deploy signer "UniswapV2AmmAdapter" [] (address uniswap_v2_router ∷ [])

abbrev deploy_uniswap_v2_exchange_adapter : Text → Text → Script Contract
deploy_uniswap_v2_exchange_adapter signer uniswap_v2_router =
    deploy signer "UniswapV2ExchangeAdapter" [] (address uniswap_v2_router ∷ [])

abbrev deploy_uniswap_v2_transfer_fee_exchange_adapter : Text → Text → Script Contract
deploy_uniswap_v2_transfer_fee_exchange_adapter signer uniswap_v2_router =
    deploy signer "UniswapV2TransferFeeExchangeAdapter" [] (address uniswap_v2_router ∷ [])

abbrev deploy_uniswap_v2_exchange_adapter_v2 : Text → Text → Script Contract
deploy_uniswap_v2_exchange_adapter_v2 signer uniswap_v2_router =
    deploy signer "UniswapV2ExchangeAdapterV2" [] (address uniswap_v2_router ∷ [])

abbrev deploy_uniswap_v2_index_exchange_adapter : Text → Text → Script Contract
deploy_uniswap_v2_index_exchange_adapter signer uniswap_v2_router =
    deploy signer "UniswapV2IndexExchangeAdapter" [] (address uniswap_v2_router ∷ [])

abbrev deploy_aave_governance_v2_adapter : Text → Text → Text → Script Contract
deploy_aave_governance_v2_adapter signer aave_governance_v2 aave_token =
    deploy signer "AaveGovernanceV2Adapter" []
      (address aave_governance_v2 ∷ address aave_token ∷ [])

abbrev deploy_comp_claim_adapter : Text → Text → Script Contract
deploy_comp_claim_adapter signer comptroller_address =
    deploy signer "CompClaimAdapter" [] (address comptroller_address ∷ [])

abbrev deploy_balancer_v1_index_exchange_adapter : Text → Text → Script Contract
deploy_balancer_v1_index_exchange_adapter signer balancer_proxy =
    deploy signer "BalancerV1IndexExchangeAdapter" [] (address balancer_proxy ∷ [])

abbrev deploy_balancer_v2_exchange_adapter : Text → Text → Script Contract
deploy_balancer_v2_exchange_adapter signer vault =
    deploy signer "BalancerV2ExchangeAdapter" [] (address vault ∷ [])

abbrev deploy_compound_like_governance_adapter : Text → Text → Text → Script Contract
deploy_compound_like_governance_adapter signer governance_alpha governance_token =
    deploy signer "CompoundLikeGovernanceAdapter" []
      (address governance_alpha ∷ address governance_token ∷ [])

abbrev deploy_compound_bravo_governance_adapter : Text → Text → Text → Script Contract
deploy_compound_bravo_governance_adapter signer governor_bravo governance_token =
    deploy signer "CompoundBravoGovernanceAdapter" []
      (address governor_bravo ∷ address governance_token ∷ [])

abbrev deploy_curve_staking_adapter : Text → Text → Script Contract
deploy_curve_staking_adapter signer gauge_controller =
    deploy signer "CurveStakingAdapter" [] (address gauge_controller ∷ [])

abbrev deploy_rgt_migration_wrap_adapter : Text → Text → Script Contract
deploy_rgt_migration_wrap_adapter signer peg_exchanger =
    deploy signer "RgtMigrationWrapAdapter" [] (address peg_exchanger ∷ [])

abbrev deploy_uniswap_pair_price_adapter : Text → Text → Text → List Text → Script Contract
deploy_uniswap_pair_price_adapter signer controller uniswap_factory uniswap_pools =
    deploy signer "UniswapPairPriceAdapter" []
      (address controller ∷ address uniswap_factory ∷ addresses uniswap_pools ∷ [])

abbrev get_uniswap_pair_price_adapter : Text → Text → Contract
get_uniswap_pair_price_adapter signer uniswap_adapter_address =
    attach signer uniswap_adapter_address

abbrev deploy_uniswap_v3_index_exchange_adapter : Text → Text → Script Contract
deploy_uniswap_v3_index_exchange_adapter signer router =
    deploy signer "UniswapV3IndexExchangeAdapter" [] (address router ∷ [])

abbrev deploy_zero_ex_api_adapter : Text → Text → Text → Script Contract
deploy_zero_ex_api_adapter signer zero_ex_address weth_address =
    deploy signer "ZeroExApiAdapter" [] (address zero_ex_address ∷ address weth_address ∷ [])

abbrev deploy_snapshot_governance_adapter : Text → Text → Script Contract
deploy_snapshot_governance_adapter signer delegate_registry =
    deploy signer "SnapshotGovernanceAdapter" [] (address delegate_registry ∷ [])

abbrev deploy_synthetix_exchange_adapter : Text → Text → Script Contract
deploy_synthetix_exchange_adapter signer synthetix_exchanger_address =
    deploy signer "SynthetixExchangeAdapter" [] (address synthetix_exchanger_address ∷ [])

abbrev deploy_uniswap_v3_exchange_adapter : Text → Text → Script Contract
deploy_uniswap_v3_exchange_adapter signer swap_router =
    deploy signer "UniswapV3ExchangeAdapter" [] (address swap_router ∷ [])

abbrev deploy_uniswap_v3_exchange_adapter_v2 : Text → Text → Script Contract
deploy_uniswap_v3_exchange_adapter_v2 signer swap_router =
    deploy signer "UniswapV3ExchangeAdapterV2" [] (address swap_router ∷ [])

abbrev deploy_kyber_v3_index_exchange_adapter : Text → Text → Text → Script Contract
deploy_kyber_v3_index_exchange_adapter signer dmm_router dmm_factory =
    deploy signer "KyberV3IndexExchangeAdapter" [] (address dmm_router ∷ address dmm_factory ∷ [])

abbrev deploy_compound_wrap_v2_adapter : Text → Text → Text → Script Contract
deploy_compound_wrap_v2_adapter signer library_name library_address =
    deploy signer "CompoundWrapV2Adapter" ((library_name, library_address) ∷ []) []

abbrev deploy_yearn_wrap_v2_adapter : Text → Script Contract
deploy_yearn_wrap_v2_adapter signer = deploy signer "YearnWrapV2Adapter" [] []

abbrev deploy_aave_v2_wrap_v2_adapter : Text → Text → Script Contract
deploy_aave_v2_wrap_v2_adapter signer lending_pool =
    deploy signer "AaveV2WrapV2Adapter" [] (address lending_pool ∷ [])

abbrev deploy_erc4626_wrap_v2_adapter : Text → Script Contract
deploy_erc4626_wrap_v2_adapter signer = deploy signer "ERC4626WrapV2Adapter" [] []

abbrev deploy_curve_exchange_adapter : Text → Text → Text → ℤ → ℤ → Text → Script Contract
deploy_curve_exchange_adapter signer token_a token_b token_a_index tokenb_b_index exchange =
    deploy signer "CurveExchangeAdapter" [] (
      address token_a
      ∷ address token_b
      ∷ number token_a_index
      ∷ number tokenb_b_index
      ∷ address exchange
      ∷ [])

abbrev deploy_curve_st_eth_exchange_adapter : Text → Text → Text → Text → Script Contract
deploy_curve_st_eth_exchange_adapter signer weth steth exchange =
    deploy signer "CurveStEthExchangeAdapter" []
      (address weth ∷ address steth ∷ address exchange ∷ [])

abbrev deploy_constant_price_adapter : Text → Script Contract
deploy_constant_price_adapter signer = deploy signer "ConstantPriceAdapter" [] []

abbrev deploy_bounded_stepwise_linear_price_adapter : Text → Script Contract
deploy_bounded_stepwise_linear_price_adapter signer =
    deploy signer "BoundedStepwiseLinearPriceAdapter" [] []

abbrev deploy_bounded_stepwise_logarithmic_price_adapter : Text → Script Contract
deploy_bounded_stepwise_logarithmic_price_adapter signer =
    deploy signer "BoundedStepwiseLogarithmicPriceAdapter" [] []

abbrev deploy_bounded_stepwise_exponential_price_adapter : Text → Script Contract
deploy_bounded_stepwise_exponential_price_adapter signer =
    deploy signer "BoundedStepwiseExponentialPriceAdapter" [] []
