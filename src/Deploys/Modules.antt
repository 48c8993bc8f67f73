-- ===== src/Deploys/Modules.antt =====
-- The class of utils/deploys/deployModules.ts that deploys the modules, some of them with libraries linked.
use index.Base.{[], ◌∷◌}
use index.Base.Int.{ℤ}
use index.Base.Text.{Text}
use index.Chain.{Script, Contract, address, number, deploy, attach}

abbrev pub deploy_basic_issuance_module : Text → Text → Script Contract
deploy_basic_issuance_module signer controller =
    deploy signer "BasicIssuanceModule" [] (address controller ∷ [])

abbrev deploy_issuance_module : Text → Text → Script Contract
deploy_issuance_module signer controller =
    deploy signer "IssuanceModule" [] (address controller ∷ [])

abbrev deploy_debt_issuance_module : Text → Text → Script Contract
deploy_debt_issuance_module signer controller =
    deploy signer "DebtIssuanceModule" [] (address controller ∷ [])

abbrev deploy_debt_issuance_module_v2 : Text → Text → Script Contract
deploy_debt_issuance_module_v2 signer controller =
    deploy signer "DebtIssuanceModuleV2" [] (address controller ∷ [])

abbrev deploy_slippage_issuance_module : Text → Text → Script Contract
deploy_slippage_issuance_module signer controller =
    deploy signer "SlippageIssuanceModule" [] (address controller ∷ [])

abbrev deploy_amm_module : Text → Text → Script Contract
deploy_amm_module signer controller = deploy signer "AmmModule" [] (address controller ∷ [])

abbrev get_basic_issuance_module : Text → Text → Contract
get_basic_issuance_module signer basic_issuance_module = attach signer basic_issuance_module

abbrev pub deploy_streaming_fee_module : Text → Text → Script Contract
deploy_streaming_fee_module signer controller =
    deploy signer "StreamingFeeModule" [] (address controller ∷ [])

abbrev get_streaming_fee_module : Text → Text → Contract
get_streaming_fee_module signer streaming_fee_module = attach signer streaming_fee_module

abbrev deploy_airdrop_module : Text → Text → Script Contract
deploy_airdrop_module signer controller = deploy signer "AirdropModule" [] (address controller ∷ [])

abbrev deploy_trade_module : Text → Text → Script Contract
deploy_trade_module signer controller = deploy signer "TradeModule" [] (address controller ∷ [])

abbrev deploy_wrap_module : Text → Text → Text → Script Contract
deploy_wrap_module signer controller weth =
    deploy signer "WrapModule" [] (address controller ∷ address weth ∷ [])

abbrev deploy_claim_module : Text → Text → Script Contract
deploy_claim_module signer controller = deploy signer "ClaimModule" [] (address controller ∷ [])

abbrev deploy_staking_module : Text → Text → Script Contract
deploy_staking_module signer controller = deploy signer "StakingModule" [] (address controller ∷ [])

abbrev pub deploy_custom_oracle_nav_issuance_module : Text → Text → Text → Script Contract
deploy_custom_oracle_nav_issuance_module signer controller weth =
    deploy signer "CustomOracleNavIssuanceModule" [] (address controller ∷ address weth ∷ [])

abbrev deploy_single_index_module : Text → Text → Text → Text → Text → Text → Script Contract
deploy_single_index_module signer controller weth uniswap_router sushiswap_router balancer_proxy =
    deploy signer "SingleIndexModule" [] (
      address controller
      ∷ address weth
      ∷ address uniswap_router
      ∷ address sushiswap_router
      ∷ address balancer_proxy
      ∷ [])

abbrev deploy_general_index_module : Text → Text → Text → Script Contract
deploy_general_index_module signer controller weth =
    deploy signer "GeneralIndexModule" [] (address controller ∷ address weth ∷ [])

abbrev deploy_governance_module : Text → Text → Script Contract
deploy_governance_module signer controller =
    deploy signer "GovernanceModule" [] (address controller ∷ [])

abbrev deploy_compound_leverage_module :
    Text → Text → Text → Text → Text → Text → Text → Text → Script Contract
deploy_compound_leverage_module signer controller comp_token comptroller c_eth weth library_name
      library_address =
    deploy signer "CompoundLeverageModule" ((library_name, library_address) ∷ []) (
      address controller
      ∷ address comp_token
      ∷ address comptroller
      ∷ address c_eth
      ∷ address weth
      ∷ [])

abbrev deploy_aave_leverage_module : Text → Text → Text → Text → Text → Script Contract
deploy_aave_leverage_module signer controller lending_pool_addresses_provider library_name
      library_address =
    deploy signer "AaveLeverageModule" ((library_name, library_address) ∷ [])
      (address controller ∷ address lending_pool_addresses_provider ∷ [])

abbrev deploy_aave_v3_leverage_module : Text → Text → Text → Text → Text → Script Contract
deploy_aave_v3_leverage_module signer controller lending_pool_addresses_provider library_name
      library_address =
    deploy signer "AaveV3LeverageModule" ((library_name, library_address) ∷ [])
      (address controller ∷ address lending_pool_addresses_provider ∷ [])

abbrev deploy_notional_trade_module : Text → Text → Text → Text → Text → ℤ → Script Contract
deploy_notional_trade_module signer controller wrapped_fcash_factory weth notional_v2
      decoded_id_gas_limit =
    deploy signer "NotionalTradeModule" [] (
      address controller
      ∷ address wrapped_fcash_factory
      ∷ address weth
      ∷ address notional_v2
      ∷ number decoded_id_gas_limit
      ∷ [])

abbrev deploy_wrap_module_v2 : Text → Text → Text → Script Contract
deploy_wrap_module_v2 signer controller weth =
    deploy signer "WrapModuleV2" [] (address controller ∷ address weth ∷ [])

abbrev pub deploy_perp_v2_leverage_module_v2 :
    Text → Text → Text → Text → Text → ℤ → Text → Text → Text → Text → Text → Text → Script Contract
deploy_perp_v2_leverage_module_v2 signer controller perp_vault perp_quoter perp_market_registry
      max_perp_positions_per_set position_v2_library_name position_v2_library_address
      perp_v2_library_name perp_v2_library_address perp_v2_positions_library_name
      perp_v2_positions_library_address =
    deploy signer "PerpV2LeverageModuleV2"
      ((position_v2_library_name, position_v2_library_address)
        ∷ (perp_v2_library_name, perp_v2_library_address)
        ∷ (perp_v2_positions_library_name, perp_v2_positions_library_address)
        ∷ [])
      (address controller
        ∷ address perp_vault
        ∷ address perp_quoter
        ∷ address perp_market_registry
        ∷ number max_perp_positions_per_set
        ∷ [])

abbrev pub deploy_perp_v2_basis_trading_module :
    Text → Text → Text → Text → Text → ℤ → Text → Text → Text → Text → Text → Text → Script Contract
deploy_perp_v2_basis_trading_module signer controller perp_vault perp_quoter perp_market_registry
      max_perp_positions_per_set position_v2_library_name position_v2_library_address
      perp_v2_library_name perp_v2_library_address perp_v2_positions_library_name
      perp_v2_positions_library_address =
    deploy signer "PerpV2BasisTradingModule"
      ((position_v2_library_name, position_v2_library_address)
        ∷ (perp_v2_library_name, perp_v2_library_address)
        ∷ (perp_v2_positions_library_name, perp_v2_positions_library_address)
        ∷ [])
      (address controller
        ∷ address perp_vault
        ∷ address perp_quoter
        ∷ address perp_market_registry
        ∷ number max_perp_positions_per_set
        ∷ [])

abbrev deploy_auction_rebalance_module_v1 : Text → Text → Script Contract
deploy_auction_rebalance_module_v1 signer controller =
    deploy signer "AuctionRebalanceModuleV1" [] (address controller ∷ [])
