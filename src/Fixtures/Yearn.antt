-- ===== src/Fixtures/Yearn.antt =====
-- utils/fixtures/yearnFixture.ts: a registry, and vaults with a mock of a strategy.
use index.Base.{Option, none, some, [], ◌∷◌}
use index.Base.Int.{ℤ, pos}
use index.Base.Text.{Text}
use index.Chain.{
  Script, give, ◌>>=◌, ◌>>◌, request, read_address, Contract, send, defined, address, number, text,
}
use index.Deploys.{DeployHelper, new_deploy_helper}
use index.Deploys.ExternalExchanges.{deploy_registry, deploy_vault, get_vault}
use index.Deploys.MockTokens.{deploy_yearn_strategy_mock}

pub record YearnFixture : Type 0 where
  pub owner_address : Text
  pub deployer : DeployHelper
  pub registry : Option Contract

abbrev pub new_yearn_fixture : Text → YearnFixture
new_yearn_fixture owner_address = record {
  owner_address = owner_address;
  deployer = new_deploy_helper owner_address;
  registry = none;
}

unfoldable pub initialize : YearnFixture → Script YearnFixture
initialize this = do
  registry ← deploy_registry this.deployer.external
  give (record this { registry = some registry })

-- The registry makes the vault of a release; the empty vault is the release.
unfoldable pub create_and_enable_vault_with_strategy_mock :
    YearnFixture → Text → Text → Text → Text → Text → Text → ℤ → Script Contract
create_and_enable_vault_with_strategy_mock this underlying governance guardian rewards name symbol
      deposit_limit =
    do
      empty_vault ← deploy_vault this.deployer.external
      send empty_vault "initialize(address,address,address,string,string,address)" (
          address underlying
          ∷ address governance
          ∷ address rewards
          ∷ text name
          ∷ text symbol
          ∷ address guardian
          ∷ [])
      send empty_vault "setGovernance" (address this.owner_address ∷ [])
      send empty_vault "acceptGovernance" []
      registry ← defined this.registry
      send registry "newRelease" (address empty_vault.at ∷ [])
      send registry "newVault(address,address,address,string,string)"
          (address underlying ∷ address guardian ∷ address rewards ∷ text name ∷ text symbol ∷ [])
      vault_address ← request (read_address registry.at "latestVault" (address underlying ∷ []))
      let vault = get_vault this.deployer.external vault_address
      send vault "setDepositLimit" (number deposit_limit ∷ [])
      send vault "setManagementFee" (number (pos 0) ∷ [])
      strategy ← deploy_yearn_strategy_mock this.deployer.mocks vault.at
      send vault "addStrategy" (
          address strategy.at
          ∷ number (pos 9800)
          ∷ number (pos 0)
          ∷ number (pos 1000)
          ∷ number (pos 0)
          ∷ [])
      send strategy "setKeeper" (address this.owner_address ∷ [])
      send strategy "setRewards" (address rewards ∷ [])
      give vault
