-- ===== src/Deploys/Oracles.antt =====
-- The class of utils/deploys/deployOracles.ts that deploys oracles.
use index.Base.{[], ◌∷◌}
use index.Base.Int.{ℤ}
use index.Base.Text.{Text}
use index.Chain.{Script, Contract, address, text, number, deploy}

abbrev deploy_c_token_oracle : Text → Text → Text → ℤ → ℤ → Text → Script Contract
deploy_c_token_oracle signer c_token underlying_oracle c_token_full_unit underlying_full_unit
      data_description =
    deploy signer "CTokenOracle" [] (
      address c_token
      ∷ address underlying_oracle
      ∷ number c_token_full_unit
      ∷ number underlying_full_unit
      ∷ text data_description
      ∷ [])

abbrev deploy_yearn_vault_oracle : Text → Text → Text → ℤ → Text → Script Contract
deploy_yearn_vault_oracle signer vault underlying_oracle underlying_full_unit data_description =
    deploy signer "YearnVaultOracle" [] (
      address vault
      ∷ address underlying_oracle
      ∷ number underlying_full_unit
      ∷ text data_description
      ∷ [])
