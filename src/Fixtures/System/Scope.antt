-- ===== src/Fixtures/System/Scope.antt =====
-- Which addresses the set-up of the protocol uses: utils/fixtures/systemFixture.ts.
use index.Base.{
  ℕ, zero, suc, ◌≡◌, refl, inl, inr, List, [], ◌∷◌, ◌++◌, Option, none, some, All, get_elem?,
}
use index.Base.Text.{Text}
use index.Chain.{Contract, Node, run, defined, Script, ◌>>=◌}
use index.Chain.Scoping.{In, Scoped, run-Scoped, Outcome}
use index.Fixtures.System.{
  SystemFixture, new_system_fixture, initialize, initialize_for, initialize_standard_components,
}

In-here : (a : Text) (xs : List Text) → In (a ∷ xs) a
In-here a xs = inl refl

In-there : (a b : Text) (xs : List Text) → In xs a → In (b ∷ xs) a
In-there a b xs h = inr h

ruleset known_names = (In-here, In-there)

In-get_elem? : (a : Text) (xs ys : List Text) (i : ℕ) → get_elem? xs i ≡ some a → In (xs ++ ys) a
In-get_elem? a [] ys i h = absurd cc
In-get_elem? a (x ∷ xs) ys zero h = inl cc
In-get_elem? a (x ∷ xs) ys (suc i) h = inr (In-get_elem? a xs ys i h)

In-append : (a : Text) (xs ys : List Text) → In ys a → In (xs ++ ys) a
In-append a [] ys h = h
In-append a (x ∷ xs) ys h = inr (In-append a xs ys h)

Scoped-defined :
    {A B : Type 0} (P : List Text → B → Type 0) (names : List Text) (o : Option A)
    (f : A → Script B)
    → ((a : A) → o ≡ some a → Scoped P names (f a))
    → Scoped P names (defined o >>= f)
Scoped-defined P names none f each = tt
Scoped-defined P names (some a) f each = each a refl

abbrev address_of : Option Contract → List Text
address_of none = []
address_of (some contract) = contract.at ∷ []

-- The contracts of a fixture that are set.
abbrev contracts_of : SystemFixture → List Text
contracts_of this =
    address_of this.controller
    ++ address_of this.factory
    ++ address_of this.price_oracle
    ++ address_of this.integration_registry
    ++ address_of this.set_valuer
    ++ address_of this.issuance_module
    ++ address_of this.streaming_fee_module
    ++ address_of this.nav_issuance_module
    ++ address_of this.weth
    ++ address_of this.usdc
    ++ address_of this.wbtc
    ++ address_of this.dai
    ++ address_of this.eth_usd_oracle
    ++ address_of this.usd_usd_oracle
    ++ address_of this.btc_usd_oracle
    ++ address_of this.dai_usd_oracle

abbrev pub IsAnswered : List Text → SystemFixture → Type 0
IsAnswered names this = All (In names) (contracts_of this)

initialize-Scoped :
    (owner fee : Text) (names : List Text)
    → In names owner
    → In names fee
    → Scoped IsAnswered names (initialize_for (new_system_fixture owner) fee)
unfolding initialize_for initialize_standard_components
initialize-Scoped owner fee names o f = (
  search known_names depth 60,
  λ controller. (
    search known_names depth 60,
    λ issuance_module. (
      search known_names depth 60,
      λ weth. (
        search known_names depth 60,
        λ usdc. (
          search known_names depth 60,
          λ wbtc. (
            search known_names depth 60,
            λ dai. (
              search known_names depth 60,
              λ eth_usd_oracle. (
                search known_names depth 60,
                λ usd_usd_oracle. (
                  search known_names depth 60,
                  λ btc_usd_oracle. (
                    search known_names depth 60,
                    λ dai_usd_oracle. (
                      search known_names depth 60,
                      λ deposit. (
                        search known_names depth 60,
                        λ weth_approval. (
                          search known_names depth 60,
                          λ usdc_approval. (
                            search known_names depth 60,
                            λ wbtc_approval. (
                              search known_names depth 60,
                              λ dai_approval. (
                                search known_names depth 60,
                                λ first_registry. (
                                  search known_names depth 60,
                                  λ factory. (
                                    search known_names depth 60,
                                    λ price_oracle. (
                                      search known_names depth 60,
                                      λ integration_registry. (
                                        search known_names depth 60,
                                        λ set_valuer. (
                                          search known_names depth 60,
                                          λ streaming_fee_module. (
                                            search known_names depth 60,
                                            λ nav_issuance_module. (
                                              search known_names depth 60,
                                              λ initialization.
                                                  search known_names depth 60 parts 60,
                                            ),
                                          ),
                                        ),
                                      ),
                                    ),
                                  ),
                                ),
                              ),
                            ),
                          ),
                        ),
                      ),
                    ),
                  ),
                ),
              ),
            ),
          ),
        ),
      ),
    ),
  ),
)

-- Whatever the node answers or rejects, every request of the set-up by a new fixture uses, as
-- the account that signs, the contract that is called, a linked library or an argument, only
-- the owner's address and addresses that the node has answered before; and if the set-up
-- returns, so were those of all the contracts that the fixture then holds.
pub initialize_uses_known_addresses :
    (node : Node) (owner : Text)
    → Outcome (owner ∷ []) IsAnswered (run node [] (initialize (new_system_fixture owner)))
unfolding initialize
initialize_uses_known_addresses node owner =
    run-Scoped IsAnswered node (owner ∷ []) [] (initialize (new_system_fixture owner))
      (
        tt,
        λ accounts. Scoped-defined IsAnswered _ (get_elem? accounts 3) _ (λ fee found.
            initialize-Scoped owner fee _ (In-append owner accounts (owner ∷ []) (inl refl))
              (In-get_elem? fee accounts (owner ∷ []) 3 found)),
      )
      tt
