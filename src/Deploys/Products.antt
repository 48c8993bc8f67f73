-- ===== src/Deploys/Products.antt =====
-- The class of utils/deploys/deployProduct.ts that deploys products.
use index.Base.{List, [], ◌∷◌}
use index.Base.Int.{ℤ}
use index.Base.Text.{Text}
use index.Chain.{Script, Contract, address, addresses, numbers, deploy, attach}

abbrev deploy_asset_limit_hook : Text → List Text → List ℤ → Script Contract
deploy_asset_limit_hook signer assets limits =
    deploy signer "AssetLimitHook" [] (addresses assets ∷ numbers limits ∷ [])

abbrev get_asset_limit_hook : Text → Text → Contract
get_asset_limit_hook signer asset_limit_hook_address = attach signer asset_limit_hook_address

abbrev deploy_amm_splitter : Text → Text → Text → Text → Text → Script Contract
deploy_amm_splitter signer uni_router sushi_router uni_factory sushi_factory =
    deploy signer "AMMSplitter" []
      (address uni_router ∷ address sushi_router ∷ address uni_factory ∷ address sushi_factory ∷ [])
