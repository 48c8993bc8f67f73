-- ===== src/Fixtures/System/Issuance.antt =====
-- The order in which components are approved and a SetToken is issued: utils/fixtures/systemFixture.ts.
use index.Base.{List, [], ◌∷◌, ◌++◌, ◌≡◌, refl, ◌∙◌, Option, some, map, get_or}
use mathlib.Core.List.{append_assoc}
use index.Base.Int.{ℤ, pos}
use index.Base.Text.{Text}
use index.Constants.{max_uint_256}
use index.Chain.{
  Request, Answer, read_addresses, transact, address, number, Contract, Script, Node, run, ◌>>=◌,
}
use index.Chain.Order.{Keeps, Follows, Ordered, run-Follows}
use index.Fixtures.System.{SystemFixture}
use index.Fixtures.System.SetTokens.{approve_components, approve_and_issue_set_token}

abbrev pub positions_request : Contract → Request
positions_request set_token = read_addresses set_token.at "getPositions" []

-- The approval of a component: all of it, to the module.
abbrev pub approval : Text → Contract → Text → Request
approval signer issuance_module component =
    transact signer component "approve" (pos 0)
      (address issuance_module.at ∷ number max_uint_256 ∷ [])

abbrev pub issue_request : Contract → Contract → ℤ → Text → Request
issue_request issuance_module set_token quantity to =
    transact issuance_module.signer issuance_module.at "issue" (pos 0)
      (address set_token.at ∷ number quantity ∷ address to ∷ [])

-- The SetToken's positions are of these components.
abbrev pub HasComponents : List Text → (r : Request) → Answer r → Type 0
HasComponents components (read_addresses to method args) positions = positions ≡ components
HasComponents components _ answer = Unit

approve_components-Follows :
    (this : SystemFixture) (issuance_module : Contract) (positions components : List Text)
    (plan trace later : List Request) (f : Unit → Script Unit)
    → this.issuance_module ≡ some issuance_module
    → trace ++ (map (approval this.deployer.mocks issuance_module) components ++ later) ≡ plan
    → ((asked : List Request)
        → asked ++ later ≡ plan
        → Follows (HasComponents positions) plan (λ _. Unit) asked (f tt))
    → Follows
        (HasComponents positions)
        plan
        (λ _. Unit)
        trace
        (approve_components this components >>= f)
unfolding approve_components
approve_components-Follows this m positions [] plan trace later f set whole then = then trace whole
approve_components-Follows this m positions (component ∷ components) plan trace later f set whole
      then =
    rw set (
      (_, whole),
      λ a _.
          approve_components-Follows this m positions components plan
            (trace ++ approval this.deployer.mocks m component ∷ []) later f set
            (append_assoc trace (approval this.deployer.mocks m component ∷ []) _ ∙ whole) then,
    )

-- For a fixture with its issuance module set, and at a node that answers the SetToken's
-- positions with these components if it answers: whatever else the node answers or rejects,
-- approving and issuing asks the positions, then approves each component to the module, in
-- their order and with the largest amount, and then issues; a request that is rejected ends
-- this, so that nothing is issued before every component is approved; and if it returns, all of
-- this was asked.
pub approvals_come_first :
    (node : Node) (this : SystemFixture) (issuance_module set_token : Contract)
    (positions : List Text) (quantity : ℤ) (to : Option Text)
    → this.issuance_module ≡ some issuance_module
    → Keeps (HasComponents positions) node
    → Ordered
        (positions_request set_token ∷ map (approval this.deployer.mocks issuance_module) positions
          ++ issue_request issuance_module set_token quantity (get_or to this.owner_address) ∷ [])
        (λ _. Unit)
        (run node [] (approve_and_issue_set_token this set_token quantity to))
unfolding approve_and_issue_set_token
approvals_come_first node this m set_token positions quantity to set keeps =
    run-Follows (HasComponents positions) _ (λ _. Unit) node [] _ keeps
      (
        (_, refl),
        λ answer same. rw same (
            approve_components-Follows this m positions positions _
              (positions_request set_token ∷ []) _ _ set refl
              (λ asked whole. rw set ((_, whole), λ hash _. (whole, tt)))),
      )
