-- ===== src/Fixtures/System/Progress.antt =====
-- Whether the set-up of the protocol returns: utils/fixtures/systemFixture.ts.
use index.Base.{
  ℕ, zero, suc, ◌≤◌, ◌<◌, List, [], ◌∷◌, Option, none, some, All, get_elem?, length, Result, ok,
  err, arith,
}
use index.Base.Text.{Text}
use index.Chain.{Contract, Node, Event, run, Request, Answer, list_accounts, defined, Script, ◌>>=◌}
use index.Chain.Histories.{Obliges, Leads, Ends, run-Leads}
use index.Fixtures.System.{
  SystemFixture, new_system_fixture, initialize, initialize_for, initialize_standard_components,
}

-- A test node has accounts to choose from.
abbrev pub HasAccounts : List Event → (r : Request) → Answer r → Type 0
HasAccounts past list_accounts accounts = 4 ≤ length accounts
HasAccounts past _ answer = Unit

abbrev IsDefined : {A : Type 0} → Option A → Type 0
IsDefined none = ⊥
IsDefined (some a) = Unit

abbrev contracts : SystemFixture → List (Option Contract)
contracts this =
    this.controller ∷ this.factory ∷ this.price_oracle ∷ this.integration_registry ∷ this.set_valuer
    ∷ this.issuance_module ∷ this.streaming_fee_module ∷ this.nav_issuance_module ∷ this.weth
    ∷ this.usdc ∷ this.wbtc ∷ this.dai ∷ this.eth_usd_oracle ∷ this.usd_usd_oracle
    ∷ this.btc_usd_oracle ∷ this.dai_usd_oracle ∷ []

abbrev pub IsComplete : List Event → Result SystemFixture → Type 0
IsComplete past (err e) = ⊥
IsComplete past (ok this) = IsDefined this.fee_recipient × All IsDefined (contracts this)

IsDefined-get_elem? :
    {A : Type 0} (xs : List A) (i : ℕ) → i < length xs → IsDefined (get_elem? xs i)
IsDefined-get_elem? [] i h = absurd (omega (arith, h))
IsDefined-get_elem? (x ∷ xs) zero h = tt
IsDefined-get_elem? (x ∷ xs) (suc i) h = IsDefined-get_elem? xs i (omega (arith, h))

Leads-defined :
    {A B : Type 0} (Promise : List Event → (r : Request) → Answer r → Type 0)
    (Q : List Event → Result B → Type 0) (past : List Event) (o : Option A) (f : A → Script B)
    → IsDefined o
    → ((a : A) → Leads Promise Q past (f a))
    → Leads Promise Q past (defined o >>= f)
Leads-defined Promise Q past none f set each = absurd set
Leads-defined Promise Q past (some a) f set each = each a

initialize_for-Leads :
    (owner fee : Text) (past : List Event)
    → Leads HasAccounts IsComplete past (initialize_for (new_system_fixture owner) fee)
unfolding initialize_for initialize_standard_components
initialize_for-Leads owner fee past = search depth 100 parts 40

-- At a node that rejects nothing and lists at least four accounts, the set-up by a new fixture
-- returns, with the fee's recipient and every contract of the fixture set: no step uses a
-- property before it is set.
pub initialize_sets_all :
    (node : Node) (owner : Text)
    → Obliges HasAccounts node
    → Ends IsComplete (run node [] (initialize (new_system_fixture owner)))
unfolding initialize
initialize_sets_all node owner obliges =
    run-Leads HasAccounts IsComplete node [] (initialize (new_system_fixture owner)) obliges
      (λ accounts enough.
        Leads-defined HasAccounts IsComplete _ (get_elem? accounts 3) _
          (IsDefined-get_elem? accounts 3 enough) (λ fee. initialize_for-Leads owner fee _))
