-- ===== src/Deploys/MockTokens.antt =====
-- The class of utils/deploys/deployMocks.ts that deploys mocks of tokens and of what trades and wraps them, whose optional parameters have defaults.
use index.Base.{Bool, Option, get_or, List, [], ◌∷◌}
use index.Base.Int.{ℤ, pos}
use index.Base.Text.{Text, codes}
use index.Chain.{Script, Contract, address, addresses, text, number, flag, deploy, attach}

abbrev deploy_staking_adapter_mock : Text → Text → Script Contract
deploy_staking_adapter_mock signer staking_asset =
    deploy signer "StakingAdapterMock" [] (address staking_asset ∷ [])

abbrev pub deploy_token_mock :
    Text → Text → Option ℤ → Option ℤ → Option Text → Option Text → Script Contract
deploy_token_mock signer initial_account initial_balance decimals name symbol =
    deploy signer "StandardTokenMock" [] (
      address initial_account
      ∷ number (get_or initial_balance (pos 1_000_000_000_000_000_000_000_000_000))
      ∷ text (get_or name (codes "Token"))
      ∷ text (get_or symbol (codes "Symbol"))
      ∷ number (get_or decimals (pos 18))
      ∷ [])

abbrev deploy_token_with_fee_mock :
    Text → Text → Option ℤ → Option ℤ → Option Text → Option Text → Script Contract
deploy_token_with_fee_mock signer initial_account initial_balance fee name symbol =
    deploy signer "StandardTokenWithFeeMock" [] (
      address initial_account
      ∷ number (get_or initial_balance (pos 1_000_000_000_000_000_000_000_000_000))
      ∷ text (get_or name (codes "Token"))
      ∷ text (get_or symbol (codes "Symbol"))
      ∷ number (get_or fee (pos 100_000_000_000_000_000))
      ∷ [])

abbrev deploy_token_with_error_mock :
    Text → Text → ℤ → ℤ → Option Text → Option Text → Option ℤ → Script Contract
deploy_token_with_error_mock signer initial_account initial_balance error name symbol decimals =
    deploy signer "StandardTokenWithRoundingErrorMock" [] (
      address initial_account
      ∷ number initial_balance
      ∷ number error
      ∷ text (get_or name (codes "Token"))
      ∷ text (get_or symbol (codes "Symbol"))
      ∷ number (get_or decimals (pos 18))
      ∷ [])

abbrev deploy_trade_adapter_mock : Text → Script Contract
deploy_trade_adapter_mock signer = deploy signer "TradeAdapterMock" [] []

abbrev deploy_amm_adapter_mock : Text → List Text → Script Contract
deploy_amm_adapter_mock signer underlying_tokens =
    deploy signer "AmmAdapterMock" [] (addresses underlying_tokens ∷ [])

abbrev deploy_wrap_adapter_mock : Text → Script Contract
deploy_wrap_adapter_mock signer = deploy signer "WrapAdapterMock" [] []

abbrev deploy_aave_lending_pool_core_mock : Text → Script Contract
deploy_aave_lending_pool_core_mock signer = deploy signer "AaveLendingPoolCoreMock" [] []

abbrev deploy_aave_lending_pool_mock : Text → Text → Script Contract
deploy_aave_lending_pool_mock signer aave_lending_pool_core =
    deploy signer "AaveLendingPoolMock" [] (address aave_lending_pool_core ∷ [])

abbrev deploy_aave_v2_mock : Text → Text → Text → Script Contract
deploy_aave_v2_mock signer library_name library_address =
    deploy signer "AaveV2Mock" ((library_name, library_address) ∷ []) []

abbrev deploy_perp_v2_mock : Text → Text → Text → Script Contract
deploy_perp_v2_mock signer library_name library_address =
    deploy signer "PerpV2Mock" ((library_name, library_address) ∷ []) []

abbrev deploy_perp_v2_library_v2_mock : Text → Text → Text → Script Contract
deploy_perp_v2_library_v2_mock signer library_name library_address =
    deploy signer "PerpV2LibraryV2Mock" ((library_name, library_address) ∷ []) []

abbrev deploy_perp_v2_positions_mock : Text → Text → Text → Script Contract
deploy_perp_v2_positions_mock signer library_name library_address =
    deploy signer "PerpV2PositionsMock" ((library_name, library_address) ∷ []) []

abbrev deploy_uniswap_v3_math_mock : Text → Script Contract
deploy_uniswap_v3_math_mock signer = deploy signer "UniswapV3MathMock" [] []

abbrev deploy_unit_conversion_utils_mock : Text → Script Contract
deploy_unit_conversion_utils_mock signer = deploy signer "UnitConversionUtilsMock" [] []

abbrev deploy_set_token_accessible_mock : Text → Text → Script Contract
deploy_set_token_accessible_mock signer controller =
    deploy signer "SetTokenAccessibleMock" [] (address controller ∷ [])

abbrev deploy_claim_adapter_mock : Text → Script Contract
deploy_claim_adapter_mock signer = deploy signer "ClaimAdapterMock" [] []

abbrev deploy_gauge_controller_mock : Text → Script Contract
deploy_gauge_controller_mock signer = deploy signer "GaugeControllerMock" [] []

abbrev deploy_contract_caller_mock : Text → Script Contract
deploy_contract_caller_mock signer = deploy signer "ContractCallerMock" [] []

abbrev deploy_debt_issuance_mock : Text → Script Contract
deploy_debt_issuance_mock signer = deploy signer "DebtIssuanceMock" [] []

abbrev deploy_comptroller_mock : Text → Text → ℤ → Text → Script Contract
deploy_comptroller_mock signer comp comp_amount c_token =
    deploy signer "ComptrollerMock" [] (address comp ∷ number comp_amount ∷ address c_token ∷ [])

abbrev deploy_compound_mock : Text → Text → Text → Script Contract
deploy_compound_mock signer library_name library_address =
    deploy signer "CompoundMock" ((library_name, library_address) ∷ []) []

abbrev deploy_synth_mock :
    Text → Text → Text → Option ℤ → Option Text → Option Text → Script Contract
deploy_synth_mock signer initial_account currency_key initial_balance name symbol =
    deploy signer "SynthMock" [] (
      address initial_account
      ∷ number (get_or initial_balance (pos 1_000_000_000_000_000_000_000_000_000))
      ∷ text (get_or name (codes "Token"))
      ∷ text (get_or symbol (codes "Symbol"))
      ∷ number (pos 18)
      ∷ text currency_key
      ∷ [])

-- The keys and the rates are objects without a type.
pub record CurrencyKeys : Type 0 where
  pub s_usd : Text
  pub s_eth : Text
  pub s_btc : Text

pub record Rates : Type 0 where
  pub usd_eth : ℤ
  pub eth_usd : ℤ
  pub usd_btc : ℤ
  pub btc_usd : ℤ

abbrev deploy_synthetix_exchanger_mock :
    Text → Text → Text → Text → CurrencyKeys → Rates → Script Contract
deploy_synthetix_exchanger_mock signer s_usd s_eth s_btc keys rates =
    deploy signer "SynthetixExchangerMock" [] (
      address s_usd
      ∷ address s_eth
      ∷ address s_btc
      ∷ text keys.s_usd
      ∷ text keys.s_eth
      ∷ text keys.s_btc
      ∷ number rates.usd_eth
      ∷ number rates.eth_usd
      ∷ number rates.usd_btc
      ∷ number rates.btc_usd
      ∷ [])

abbrev deploy_erc4626_mock : Text → Text → Text → Text → Script Contract
deploy_erc4626_mock signer name symbol asset =
    deploy signer "ERC4626Mock" [] (text name ∷ text symbol ∷ address asset ∷ [])

abbrev deploy_custom_set_valuer_mock : Text → Script Contract
deploy_custom_set_valuer_mock signer = deploy signer "CustomSetValuerMock" [] []

abbrev pub deploy_yearn_strategy_mock : Text → Text → Script Contract
deploy_yearn_strategy_mock signer vault = deploy signer "YearnStrategyMock" [] (address vault ∷ [])

abbrev pub deploy_force_funder_mock : Text → Script Contract
deploy_force_funder_mock signer = deploy signer "ForceFunderMock" [] []

abbrev deploy_wrap_v2_adapter_mock : Text → Script Contract
deploy_wrap_v2_adapter_mock signer = deploy signer "WrapV2AdapterMock" [] []

abbrev pub deploy_chainlink_aggregator_mock : Text → ℤ → Script Contract
deploy_chainlink_aggregator_mock signer decimals =
    deploy signer "ChainlinkAggregatorMock" [] (number decimals ∷ [])

abbrev deploy_tribe_peg_exchanger_mock : Text → Text → Text → Script Contract
deploy_tribe_peg_exchanger_mock signer rgt tribe =
    deploy signer "TribePegExchangerMock" [] (address rgt ∷ address tribe ∷ [])

abbrev deploy_string_array_utils_mock : Text → Script Contract
deploy_string_array_utils_mock signer = deploy signer "StringArrayUtilsMock" [] []

abbrev deploy_bytes_array_utils_mock : Text → Script Contract
deploy_bytes_array_utils_mock signer = deploy signer "BytesArrayUtilsMock" [] []

abbrev deploy_wrapped_fcash_mock : Text → Text → Text → Text → Bool → Script Contract
deploy_wrapped_fcash_mock signer asset_token underlying_token weth is_eth =
    deploy signer "WrappedfCashMock" []
      (address asset_token ∷ address underlying_token ∷ address weth ∷ flag is_eth ∷ [])

abbrev deploy_wrapped_fcash_factory_mock : Text → Script Contract
deploy_wrapped_fcash_factory_mock signer = deploy signer "WrappedfCashFactoryMock" [] []

abbrev deploy_notional_v2_mock : Text → Script Contract
deploy_notional_v2_mock signer = deploy signer "NotionalV2Mock" [] []

abbrev pub get_token_mock : Text → Text → Contract
get_token_mock signer token = attach signer token

abbrev get_forked_zero_ex_exchange : Text → Contract
get_forked_zero_ex_exchange signer =
    attach signer (codes "0xDef1C0ded9bec7F1a1670819833240f027b25EfF")
