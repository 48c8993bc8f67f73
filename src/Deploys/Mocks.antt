-- ===== src/Deploys/Mocks.antt =====
-- The class of utils/deploys/deployMocks.ts that deploys mocks of hooks, modules, exchanges and libraries.
use index.Base.{List, [], ◌∷◌}
use index.Base.Int.{ℤ}
use index.Base.Text.{Text}
use index.Chain.{Script, Contract, address, addresses, number, deploy}

abbrev deploy_explicit_erc20_mock : Text → Script Contract
deploy_explicit_erc20_mock signer = deploy signer "ExplicitERC20Mock" [] []

abbrev deploy_invoke_mock : Text → Script Contract
deploy_invoke_mock signer = deploy signer "InvokeMock" [] []

abbrev deploy_manager_issuance_hook_mock : Text → Script Contract
deploy_manager_issuance_hook_mock signer = deploy signer "ManagerIssuanceHookMock" [] []

abbrev deploy_module_issuance_hook_mock : Text → Script Contract
deploy_module_issuance_hook_mock signer = deploy signer "ModuleIssuanceHookMock" [] []

abbrev deploy_nav_issuance_hook_mock : Text → Script Contract
deploy_nav_issuance_hook_mock signer = deploy signer "NAVIssuanceHookMock" [] []

abbrev deploy_nav_issuance_caller : Text → Text → Script Contract
deploy_nav_issuance_caller signer nav_issuance_module =
    deploy signer "NAVIssuanceCaller" [] (address nav_issuance_module ∷ [])

abbrev deploy_address_array_utils_mock : Text → Script Contract
deploy_address_array_utils_mock signer = deploy signer "AddressArrayUtilsMock" [] []

abbrev deploy_uint256_array_utils_mock : Text → Script Contract
deploy_uint256_array_utils_mock signer = deploy signer "Uint256ArrayUtilsMock" [] []

abbrev deploy_kyber_network_proxy_mock : Text → Text → Script Contract
deploy_kyber_network_proxy_mock signer mock_weth_address =
    deploy signer "KyberNetworkProxyMock" [] (address mock_weth_address ∷ [])

abbrev deploy_module_base_mock : Text → Text → Script Contract
deploy_module_base_mock signer controller_address =
    deploy signer "ModuleBaseMock" [] (address controller_address ∷ [])

abbrev deploy_module_base_v2_mock : Text → Text → Script Contract
deploy_module_base_v2_mock signer controller_address =
    deploy signer "ModuleBaseV2Mock" [] (address controller_address ∷ [])

abbrev deploy_god_mode_mock : Text → Text → Script Contract
deploy_god_mode_mock signer controller_address =
    deploy signer "GodModeMock" [] (address controller_address ∷ [])

abbrev deploy_debt_module_mock : Text → Text → Script Contract
deploy_debt_module_mock signer controller_address =
    deploy signer "DebtModuleMock" [] (address controller_address ∷ [])

abbrev deploy_governance_adapter_mock : Text → ℤ → Script Contract
deploy_governance_adapter_mock signer initial_proposal_id =
    deploy signer "GovernanceAdapterMock" [] (number initial_proposal_id ∷ [])

abbrev deploy_curve_stableswap_mock : Text → List Text → Script Contract
deploy_curve_stableswap_mock signer coins =
    deploy signer "CurveStableswapMock" [] (addresses coins ∷ [])

abbrev deploy_one_inch_exchange_mock : Text → Text → Text → ℤ → ℤ → Script Contract
deploy_one_inch_exchange_mock signer send_token receive_token send_quantity receive_quantity =
    deploy signer "OneInchExchangeMock" [] (
      address send_token
      ∷ address receive_token
      ∷ number send_quantity
      ∷ number receive_quantity
      ∷ [])

abbrev deploy_zero_ex_mock : Text → Text → Text → ℤ → ℤ → Script Contract
deploy_zero_ex_mock signer send_token receive_token send_quantity receive_quantity =
    deploy signer "ZeroExMock" [] (
      address send_token
      ∷ address receive_token
      ∷ number send_quantity
      ∷ number receive_quantity
      ∷ [])

abbrev pub deploy_oracle_mock : Text → ℤ → Script Contract
deploy_oracle_mock signer initial_value = deploy signer "OracleMock" [] (number initial_value ∷ [])

abbrev deploy_yearn_vault_mock : Text → ℤ → Script Contract
deploy_yearn_vault_mock signer price_per_share =
    deploy signer "YearnVaultMock" [] (number price_per_share ∷ [])

abbrev deploy_oracle_adapter_mock : Text → Text → ℤ → Script Contract
deploy_oracle_adapter_mock signer asset dummy_price =
    deploy signer "OracleAdapterMock" [] (address asset ∷ number dummy_price ∷ [])

abbrev deploy_position_mock : Text → Script Contract
deploy_position_mock signer = deploy signer "PositionMock" [] []

abbrev deploy_position_v2_mock : Text → Text → Text → Script Contract
deploy_position_v2_mock signer library_name library_address =
    deploy signer "PositionV2Mock" ((library_name, library_address) ∷ []) []

abbrev deploy_precise_unit_math_mock : Text → Script Contract
deploy_precise_unit_math_mock signer = deploy signer "PreciseUnitMathMock" [] []

abbrev deploy_resource_identifier_mock : Text → Script Contract
deploy_resource_identifier_mock signer = deploy signer "ResourceIdentifierMock" [] []
