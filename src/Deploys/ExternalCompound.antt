-- ===== src/Deploys/ExternalCompound.antt =====
-- The class of utils/deploys/deployExternal.ts that deploys the contracts of Compound, and wrapped ether.
use index.Base.{[], ◌∷◌}
use index.Base.Int.{ℤ}
use index.Base.Text.{Text}
use index.Chain.{Script, Contract, address, text, number, deploy}

abbrev pub deploy_comp : Text → Text → Script Contract
deploy_comp signer account = deploy signer "Comp" [] (address account ∷ [])

abbrev pub deploy_compound_timelock : Text → Text → ℤ → Script Contract
deploy_compound_timelock signer admin delay =
    deploy signer "CompoundTimelock" [] (address admin ∷ number delay ∷ [])

abbrev pub deploy_compound_governor_alpha : Text → Text → Text → Text → Script Contract
deploy_compound_governor_alpha signer timelock comp guardian =
    deploy signer "CompoundGovernorAlpha" []
      (address timelock ∷ address comp ∷ address guardian ∷ [])

abbrev pub deploy_compound_governor_bravo_delegate : Text → Script Contract
deploy_compound_governor_bravo_delegate signer = deploy signer "CompoundGovernorBravoDelegate" [] []

abbrev pub deploy_compound_governor_bravo_delegator :
    Text → Text → Text → Text → Text → ℤ → ℤ → ℤ → Script Contract
deploy_compound_governor_bravo_delegator signer timelock comp admin implementation voting_period
      voting_delay proposal_threshold =
    deploy signer "CompoundGovernorBravoDelegator" [] (
      address timelock
      ∷ address comp
      ∷ address admin
      ∷ address implementation
      ∷ number voting_period
      ∷ number voting_delay
      ∷ number proposal_threshold
      ∷ [])

abbrev pub deploy_ce_rc20 : Text → Text → Text → Text → ℤ → Text → Text → ℤ → Script Contract
deploy_ce_rc20 signer underlying comptroller interest_rate_model initial_exchange_rate_mantissa name
      symbol decimals =
    deploy signer "CERc20" [] (
      address underlying
      ∷ address comptroller
      ∷ address interest_rate_model
      ∷ number initial_exchange_rate_mantissa
      ∷ text name
      ∷ text symbol
      ∷ number decimals
      ∷ [])

abbrev pub deploy_c_ether : Text → Text → Text → ℤ → Text → Text → ℤ → Script Contract
deploy_c_ether signer comptroller interest_rate_model initial_exchange_rate_mantissa name symbol
      decimals =
    deploy signer "CEther" [] (
      address comptroller
      ∷ address interest_rate_model
      ∷ number initial_exchange_rate_mantissa
      ∷ text name
      ∷ text symbol
      ∷ number decimals
      ∷ [])

abbrev pub deploy_compound_price_oracle_mock : Text → Script Contract
deploy_compound_price_oracle_mock signer = deploy signer "CompoundPriceOracleMock" [] []

abbrev pub deploy_price_oracle_proxy :
    Text → Text → Text → Text → Text → Text → Text → Text → Script Contract
deploy_price_oracle_proxy signer guardian v1_price_oracle c_eth_address c_usdc_address c_sai_address
      c_dai_address c_usdt_address =
    deploy signer "PriceOracleProxy" [] (
      address guardian
      ∷ address v1_price_oracle
      ∷ address c_eth_address
      ∷ address c_usdc_address
      ∷ address c_sai_address
      ∷ address c_dai_address
      ∷ address c_usdt_address
      ∷ [])

abbrev pub deploy_comptroller : Text → Script Contract
deploy_comptroller signer = deploy signer "Comptroller" [] []

abbrev pub deploy_unitroller : Text → Script Contract
deploy_unitroller signer = deploy signer "Unitroller" [] []

abbrev pub deploy_white_paper_interest_rate_model : Text → ℤ → ℤ → Script Contract
deploy_white_paper_interest_rate_model signer base_rate multiplier =
    deploy signer "WhitePaperInterestRateModel" [] (number base_rate ∷ number multiplier ∷ [])

abbrev pub deploy_weth : Text → Script Contract
deploy_weth signer = deploy signer "WETH9" [] []
