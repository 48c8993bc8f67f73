-- ===== src/Deploys.antt =====
-- utils/deploys: a class per kind of contract, with a method for each contract that it creates or finds.
-- A method is a function of the account that signs, which is the class's `_deployerSigner`.
pub mod Linking
pub mod Core
pub mod Libraries
pub mod Modules
pub mod Adapters
pub mod Mocks
pub mod MockTokens
pub mod ExternalCompound
pub mod ExternalAave
pub mod ExternalCurve
pub mod ExternalExchanges
pub mod ExternalPerp
pub mod Products
pub mod Viewers
pub mod Oracles
use index.Base.Text.{Text}

-- The account that each of the classes signs with.
pub record DeployHelper : Type 0 where
  pub libraries : Text
  pub mocks : Text
  pub modules : Text
  pub core : Text
  pub external : Text
  pub adapters : Text
  pub viewers : Text
  pub product : Text
  pub oracles : Text

abbrev pub new_deploy_helper : Text → DeployHelper
new_deploy_helper deployer_signer = record {
  libraries = deployer_signer;
  mocks = deployer_signer;
  modules = deployer_signer;
  core = deployer_signer;
  external = deployer_signer;
  adapters = deployer_signer;
  viewers = deployer_signer;
  product = deployer_signer;
  oracles = deployer_signer;
}
