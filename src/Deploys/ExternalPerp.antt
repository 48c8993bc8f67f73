-- ===== src/Deploys/ExternalPerp.antt =====
-- The class of utils/deploys/deployExternal.ts that deploys the contracts of the perpetual protocol.
use index.Base.{[], ◌∷◌}
use index.Base.Text.{Text}
use index.Chain.{Script, Contract, address, deploy, attach}

abbrev pub get_uniswap_v3_pool_instance : Text → Text → Contract
get_uniswap_v3_pool_instance signer pool = attach signer pool

abbrev pub deploy_perp_v2_order_book : Text → Script Contract
deploy_perp_v2_order_book signer = deploy signer "PerpV2OrderBook" [] []

abbrev pub deploy_perp_v2_market_registry : Text → Script Contract
deploy_perp_v2_market_registry signer = deploy signer "PerpV2MarketRegistry" [] []

abbrev pub deploy_perp_v2_quoter : Text → Text → Script Contract
deploy_perp_v2_quoter signer market_registry =
    deploy signer "PerpV2Quoter" [] (address market_registry ∷ [])

abbrev pub deploy_perp_v2_quote_token : Text → Script Contract
deploy_perp_v2_quote_token signer = deploy signer "PerpV2QuoteToken" [] []

abbrev pub deploy_perp_v2_vault : Text → Script Contract
deploy_perp_v2_vault signer = deploy signer "PerpV2Vault" [] []

abbrev deploy_perp_v2_test_aggregator_v3 : Text → Script Contract
deploy_perp_v2_test_aggregator_v3 signer = deploy signer "PerpV2TestAggregatorV3" [] []

abbrev pub deploy_perp_v2_chainlink_price_feed : Text → Script Contract
deploy_perp_v2_chainlink_price_feed signer = deploy signer "PerpV2ChainlinkPriceFeed" [] []

abbrev pub deploy_perp_v2_base_token : Text → Script Contract
deploy_perp_v2_base_token signer = deploy signer "PerpV2BaseToken" [] []

abbrev pub deploy_perp_v2_clearing_house_config : Text → Script Contract
deploy_perp_v2_clearing_house_config signer = deploy signer "PerpV2ClearingHouseConfig" [] []

abbrev pub deploy_perp_v2_insurance_fund : Text → Script Contract
deploy_perp_v2_insurance_fund signer = deploy signer "PerpV2InsuranceFund" [] []

abbrev pub deploy_perp_v2_account_balance : Text → Script Contract
deploy_perp_v2_account_balance signer = deploy signer "PerpV2AccountBalance" [] []

abbrev pub deploy_perp_v2_exchange : Text → Script Contract
deploy_perp_v2_exchange signer = deploy signer "PerpV2Exchange" [] []

abbrev pub deploy_perp_v2_clearing_house : Text → Script Contract
deploy_perp_v2_clearing_house signer = deploy signer "PerpV2ClearingHouse" [] []

abbrev pub get_v_token : Text → Text → Contract
get_v_token signer token = attach signer token
