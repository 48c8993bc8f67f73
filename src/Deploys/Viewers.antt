-- ===== src/Deploys/Viewers.antt =====
-- The class of utils/deploys/deployViewers.ts that deploys viewers.
use index.Base.{[], ◌∷◌}
use index.Base.Text.{Text}
use index.Chain.{Script, Contract, address, deploy}

abbrev deploy_protocol_viewer : Text → Script Contract
deploy_protocol_viewer signer = deploy signer "ProtocolViewer" [] []

abbrev deploy_perp_v2_leverage_module_viewer : Text → Text → Text → Text → Text → Script Contract
deploy_perp_v2_leverage_module_viewer signer perp_module perp_account_balance
      perp_clearing_house_config v_quote_token =
    deploy signer "PerpV2LeverageModuleViewer" [] (
      address perp_module
      ∷ address perp_account_balance
      ∷ address perp_clearing_house_config
      ∷ address v_quote_token
      ∷ [])
