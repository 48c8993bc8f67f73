-- ===== src/Deploys/Core.antt =====
-- The class of utils/deploys/deployCoreContracts.ts that deploys the core of the protocol.
use index.Base.{List, [], ◌∷◌}
use index.Base.Int.{ℤ}
use index.Base.Text.{Text}
use index.Chain.{Script, Contract, address, addresses, text, numbers, deploy, attach}

abbrev pub deploy_controller : Text → Text → Script Contract
deploy_controller signer fee_recipient = deploy signer "Controller" [] (address fee_recipient ∷ [])

abbrev get_controller : Text → Text → Contract
get_controller signer controller_address = attach signer controller_address

abbrev pub deploy_set_token_creator : Text → Text → Script Contract
deploy_set_token_creator signer controller =
    deploy signer "SetTokenCreator" [] (address controller ∷ [])

abbrev get_set_token_creator : Text → Text → Contract
get_set_token_creator signer set_token_creator_address = attach signer set_token_creator_address

abbrev pub deploy_set_token :
    Text → List Text → List ℤ → List Text → Text → Text → Text → Text → Script Contract
deploy_set_token signer components units modules controller manager name symbol =
    deploy signer "SetToken" [] (
      addresses components
      ∷ numbers units
      ∷ addresses modules
      ∷ address controller
      ∷ address manager
      ∷ text name
      ∷ text symbol
      ∷ [])

abbrev get_set_token : Text → Text → Contract
get_set_token signer set_token_address = attach signer set_token_address

abbrev pub deploy_price_oracle :
    Text → Text → Text → List Text → List Text → List Text → List Text → Script Contract
deploy_price_oracle signer controller master_quote_asset adapters asset_ones asset_twos oracles =
    deploy signer "PriceOracle" [] (
      address controller
      ∷ address master_quote_asset
      ∷ addresses adapters
      ∷ addresses asset_ones
      ∷ addresses asset_twos
      ∷ addresses oracles
      ∷ [])

abbrev get_price_oracle : Text → Text → Contract
get_price_oracle signer price_oracle_address = attach signer price_oracle_address

abbrev pub deploy_integration_registry : Text → Text → Script Contract
deploy_integration_registry signer controller =
    deploy signer "IntegrationRegistry" [] (address controller ∷ [])

abbrev get_integration_registry : Text → Text → Contract
get_integration_registry signer integration_registry_address =
    attach signer integration_registry_address

abbrev pub deploy_set_valuer : Text → Text → Script Contract
deploy_set_valuer signer controller = deploy signer "SetValuer" [] (address controller ∷ [])
