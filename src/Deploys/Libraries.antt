-- ===== src/Deploys/Libraries.antt =====
-- The class of utils/deploys/deployLibraries.ts that deploys the libraries that modules link.
use index.Base.{[]}
use index.Base.Text.{Text}
use index.Chain.{Script, Contract, deploy}

abbrev deploy_compound : Text → Script Contract
deploy_compound signer = deploy signer "Compound" [] []

abbrev deploy_aave_v2 : Text → Script Contract
deploy_aave_v2 signer = deploy signer "AaveV2" [] []

abbrev deploy_aave_v3 : Text → Script Contract
deploy_aave_v3 signer = deploy signer "AaveV3" [] []

abbrev deploy_perp_v2 : Text → Script Contract
deploy_perp_v2 signer = deploy signer "PerpV2" [] []

abbrev deploy_position_v2 : Text → Script Contract
deploy_position_v2 signer = deploy signer "PositionV2" [] []

abbrev deploy_perp_v2_library_v2 : Text → Script Contract
deploy_perp_v2_library_v2 signer = deploy signer "PerpV2LibraryV2" [] []

abbrev deploy_perp_v2_positions : Text → Script Contract
deploy_perp_v2_positions signer = deploy signer "PerpV2Positions" [] []
