-- ===== src/Fixtures/System/SetTokens.antt =====
-- utils/fixtures/systemFixture.ts: the methods that create a SetToken and issue it.
use index.Base.{Option, get_or, List, [], ◌∷◌, Result, thrown}
use index.Base.Int.{ℤ}
use index.Base.Text.{Text, codes}
use index.Chain.{
  Script, fault, give, ◌>>=◌, ◌>>◌, request, read_logs, read_addresses, Contract, send, attach,
  defined, lift, address, addresses, number, numbers, text,
}
use index.Constants.{max_uint_256}
use index.ProtocolUtils.{parse_entry, created_query, last}
use index.Deploys.Core.{deploy_set_token}
use index.Deploys.MockTokens.{get_token_mock}
use index.Fixtures.System.{SystemFixture}

-- utils/common/protocolUtils.ts, over the node: an empty hash is not truthy, and nothing is asked then.
-- The first two arguments are the hash that topics are, and the decoding of an entry of the log.
unfoldable pub get_created_address : (Text → Text) → (Text → Result Text) → Text → Script Text
get_created_address id parse_log [] = fault (thrown "Invalid transaction hash")
get_created_address id parse_log (c ∷ txn_hash) = do
  logs ← request (read_logs (created_query id))
  lift (parse_entry parse_log (last logs))

module _ (this : SystemFixture) where
  unfoldable pub create_set_token :
      (Text → Text)
      → (Text → Result Text)
      → List Text
      → List ℤ
      → List Text
      → Option Text
      → Option Text
      → Option Text
      → Script Contract
  create_set_token id parse_log components units modules manager name symbol = do
    factory ← defined this.factory
    tx_hash ← send factory "create" (
        addresses components
        ∷ numbers units
        ∷ addresses modules
        ∷ address (get_or manager this.owner_address)
        ∷ text (get_or name (codes "SetToken"))
        ∷ text (get_or symbol (codes "SET"))
        ∷ [])
    retrieved_set_address ← get_created_address id parse_log tx_hash
    give (attach this.owner_address retrieved_set_address)

  unfoldable pub create_non_controller_enabled_set_token :
      List Text → List ℤ → List Text → Option Text → Option Text → Option Text → Script Contract
  create_non_controller_enabled_set_token components units modules manager name symbol = do
    controller ← defined this.controller
    deploy_set_token this.deployer.core components units modules controller.at
        (get_or manager this.owner_address) (get_or name (codes "SetToken"))
        (get_or symbol (codes "SET"))

  -- The module is looked up anew for each component.
  unfoldable pub approve_components : List Text → Script Unit
  approve_components [] = give tt
  approve_components (component ∷ components) = do
    let component_instance = get_token_mock this.deployer.mocks component
    issuance_module ← defined this.issuance_module
    send component_instance "approve" (address issuance_module.at ∷ number max_uint_256 ∷ [])
    approve_components components

  -- Of the positions that `getPositions` answers with, the components are read.
  unfoldable pub approve_and_issue_set_token : Contract → ℤ → Option Text → Script Unit
  approve_and_issue_set_token set_token issue_quantity to = do
    positions ← request (read_addresses set_token.at "getPositions" [])
    approve_components positions
    issuance_module ← defined this.issuance_module
    send issuance_module "issue"
        (address set_token.at ∷ number issue_quantity ∷ address (get_or to this.owner_address) ∷ [])
    give tt
