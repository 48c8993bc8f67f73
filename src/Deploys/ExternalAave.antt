-- ===== src/Deploys/ExternalAave.antt =====
-- The class of utils/deploys/deployExternal.ts that deploys the contracts of Aave, with the libraries that it links by identifier.
use index.Base.{Option, get_or, List, [], ◌∷◌}
use index.Base.Int.{ℤ, pos}
use index.Base.Text.{Text, codes}
use index.Chain.{Script, Contract, address, addresses, text, number, deploy, attach}

abbrev pub deploy_aave_v2_lending_pool_addresses_provider : Text → Text → Script Contract
deploy_aave_v2_lending_pool_addresses_provider signer market_id =
    deploy signer "AaveV2LendingPoolAddressesProvider" [] (text market_id ∷ [])

abbrev pub deploy_aave_v2_lending_pool : Text → Text → Text → Script Contract
deploy_aave_v2_lending_pool signer validation_logic_address reserve_logic_address =
    deploy signer "AaveV2LendingPool"
      ((codes "__$de8c0cf1a7d7c36c802af9a64fb9d86036$__", validation_logic_address)
        ∷ (codes "__$22cd43a9dda9ce44e9b92ba393b88fb9ac$__", reserve_logic_address)
        ∷ [])
      []

abbrev pub deploy_aave_v2_lending_pool_configurator : Text → Script Contract
deploy_aave_v2_lending_pool_configurator signer =
    deploy signer "AaveV2LendingPoolConfigurator" [] []

abbrev pub deploy_aave_v2_lending_pool_collateral_manager : Text → Script Contract
deploy_aave_v2_lending_pool_collateral_manager signer =
    deploy signer "AaveV2LendingPoolCollateralManager" [] []

abbrev pub deploy_aave_v2_lending_rate_oracle : Text → Script Contract
deploy_aave_v2_lending_rate_oracle signer = deploy signer "AaveV2LendingRateOracle" [] []

abbrev pub deploy_aave_v2_oracle : Text → List Text → List Text → Text → Text → Script Contract
deploy_aave_v2_oracle signer assets sources fall_back_oracle weth =
    deploy signer "AaveV2Oracle" []
      (addresses assets ∷ addresses sources ∷ address fall_back_oracle ∷ address weth ∷ [])

abbrev pub deploy_aave_v2_price_oracle : Text → Script Contract
deploy_aave_v2_price_oracle signer = deploy signer "AaveV2PriceOracle" [] []

abbrev pub deploy_aave_v2_default_reserve_interest_rate_strategy :
    Text → Text → Option ℤ → Option ℤ → Option ℤ → Option ℤ → Option ℤ → Option ℤ → Script Contract
deploy_aave_v2_default_reserve_interest_rate_strategy signer addresses_provider
      optimal_utilization_rate base_variable_borrow_rate variable_rate_slope1 variable_rate_slope2
      stable_rate_slope1 stable_rate_slope2 =
    deploy signer "AaveV2DefaultReserveInterestRateStrategy" [] (
      address addresses_provider
      ∷ number (get_or optimal_utilization_rate (pos 1_000_000_000_000_000_000))
      ∷ number (get_or base_variable_borrow_rate (pos 1_000_000_000_000_000_000))
      ∷ number (get_or variable_rate_slope1 (pos 1_000_000_000_000_000_000))
      ∷ number (get_or variable_rate_slope2 (pos 1_000_000_000_000_000_000))
      ∷ number (get_or stable_rate_slope1 (pos 1_000_000_000_000_000_000))
      ∷ number (get_or stable_rate_slope2 (pos 1_000_000_000_000_000_000))
      ∷ [])

abbrev pub deploy_aave_v2_protocol_data_provider : Text → Text → Script Contract
deploy_aave_v2_protocol_data_provider signer address_provider =
    deploy signer "AaveV2ProtocolDataProvider" [] (address address_provider ∷ [])

abbrev pub deploy_aave_v2_a_token : Text → Script Contract
deploy_aave_v2_a_token signer = deploy signer "AaveV2AToken" [] []

abbrev pub deploy_aave_v2_stable_debt_token : Text → Script Contract
deploy_aave_v2_stable_debt_token signer = deploy signer "AaveV2StableDebtToken" [] []

abbrev pub deploy_aave_v2_variable_debt_token : Text → Script Contract
deploy_aave_v2_variable_debt_token signer = deploy signer "AaveV2VariableDebtToken" [] []

abbrev pub deploy_aave_v2_staked_token_incentives_controller : Text → Text → Text → Script Contract
deploy_aave_v2_staked_token_incentives_controller signer stake_token emission_manager =
    deploy signer "AaveV2StakedTokenIncentivesController" []
      (address stake_token ∷ address emission_manager ∷ [])

abbrev pub get_forked_aave_lending_pool_addresses_provider : Text → Text → Contract
get_forked_aave_lending_pool_addresses_provider signer mainnet_addresses_provider =
    attach signer mainnet_addresses_provider

abbrev pub get_forked_aave_v2_protocol_data_provider : Text → Text → Contract
get_forked_aave_v2_protocol_data_provider signer mainnet_addresses_provider =
    attach signer mainnet_addresses_provider

abbrev pub deploy_general_logic : Text → Script Contract
deploy_general_logic signer = deploy signer "GenericLogic" [] []

abbrev pub deploy_validation_logic : Text → Text → Script Contract
deploy_validation_logic signer generic_logic_library_address =
    deploy signer "ValidationLogic"
      ((codes "__$52a8a86ab43135662ff256bbc95497e8e3$__", generic_logic_library_address) ∷ []) []

abbrev pub deploy_reserve_logic : Text → Script Contract
deploy_reserve_logic signer = deploy signer "ReserveLogic" [] []

abbrev pub deploy_aave_governance_v2 : Text → Text → ℤ → Text → List Text → Script Contract
deploy_aave_governance_v2 signer governance_strategy voting_delay guardian executors =
    deploy signer "AaveGovernanceV2" [] (
      address governance_strategy
      ∷ number voting_delay
      ∷ address guardian
      ∷ addresses executors
      ∷ [])

abbrev pub deploy_executor : Text → Text → ℤ → ℤ → ℤ → ℤ → ℤ → ℤ → ℤ → ℤ → Script Contract
deploy_executor signer admin delay grace_period minimum_delay maximum_delay proposition_threshold
      vote_duration vote_differential minmum_quorum =
    deploy signer "Executor" [] (
      address admin
      ∷ number delay
      ∷ number grace_period
      ∷ number minimum_delay
      ∷ number maximum_delay
      ∷ number proposition_threshold
      ∷ number vote_duration
      ∷ number vote_differential
      ∷ number minmum_quorum
      ∷ [])

abbrev pub deploy_governance_strategy : Text → Text → Text → Script Contract
deploy_governance_strategy signer aave stkaave =
    deploy signer "GovernanceStrategy" [] (address aave ∷ address stkaave ∷ [])

abbrev pub deploy_aave_token_v2_mintable : Text → Script Contract
deploy_aave_token_v2_mintable signer = deploy signer "AaveTokenV2Mintable" [] []
