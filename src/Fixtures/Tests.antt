-- ===== src/Fixtures/Tests.antt =====
-- The fixtures at a concrete node.
use index.Base.{ap, ◌≡◌, refl, List, [], ◌∷◌, ◌++◌, map, none, some, ok, arith}
use index.Base.Int.{pos}
use index.Base.Text.{Text, codes, eqb}
use Prim.Native.String.{String}
use index.Deploys.{new_deploy_helper}
use index.Fixtures.PerpTokens.{tokens_fixture, token0_fixture}
use index.Fixtures.PerpTokens.Order.{NotReversed, PrecedesOr, virtual_tokens_are_in_order}
use index.Fixtures.Uniswap
use index.Fixtures.Kyber
use index.Fixtures.Compound
use index.Fixtures.Completion.{UniswapIsComplete, KyberIsComplete, CompoundIsComplete, set_ups_end}
use index.Chain.{
  Arg, create, transact, read_address, read_addresses, read_number, list_accounts, block_number,
  block_at, latest_block, send_rpc, simulate, read_logs, receipt_topics, Node, Contract, attach,
  run, ◌>>=◌,
}
use index.Chain.Samples.{agreeable, agreeable-Obliges}
use index.Chain.Histories.{Obliges, Ends}
use index.Chain.Order.{Keeps, Ordered}
use index.Chain.Scoping.{Outcome}
use index.Fixtures.System.{SystemFixture, new_system_fixture, initialize}
use index.Fixtures.System.SetTokens.{approve_and_issue_set_token}
use index.Fixtures.System.Scope.{IsAnswered, initialize_uses_known_addresses}
use index.Fixtures.System.Progress.{HasAccounts, IsComplete, initialize_sets_all}
use index.Fixtures.System.Issuance.{
  HasComponents, positions_request, approval, issue_request, approvals_come_first,
}
use index.Fixtures.Curve.{new_curve_fixture, initialize_pool, initialize_dao, initialize_gauge}
use index.Fixtures.Curve.Gauges.{NoGauge, GaugeIsRegistered, gauges_need_dao}
use index.Fixtures.Uniswap.{UniswapFixture, new_uniswap_fixture, create_new_pair}
use index.Fixtures.UniswapV3.{
  UniswapV3Fixture, new_uniswap_v3_fixture, add_liquidity_wide, fee_3000,
}
use index.Fixtures.UniswapV3.Wide.{wide_positions_in_either_order}
use index.Fixtures.Pairs.{created, new_pair_is_created}

abbrev owner : Text
owner = codes "0xA1"

initialize_uses_known_addresses_example :
    Outcome (owner ∷ []) IsAnswered (run agreeable [] (initialize (new_system_fixture owner)))
initialize_uses_known_addresses_example = initialize_uses_known_addresses agreeable owner

has_accounts : Obliges HasAccounts agreeable
has_accounts past (create signer artifact links args) = tt
has_accounts past (transact signer to method value args) = tt
has_accounts past (read_address to method args) = tt
has_accounts past (read_addresses to method args) = tt
has_accounts past (read_number to method args) = tt
has_accounts past list_accounts = omega arith
has_accounts past block_number = tt
has_accounts past (block_at height) = tt
has_accounts past latest_block = tt
has_accounts past (read_logs query) = tt
has_accounts past (receipt_topics hash) = tt
has_accounts past (simulate signer to method args) = tt
has_accounts past (send_rpc method args) = tt

initialize_sets_all_example :
    Ends IsComplete (run agreeable [] (initialize (new_system_fixture owner)))
initialize_sets_all_example = initialize_sets_all agreeable owner has_accounts

abbrev components : List Text
components = (1 ∷ []) ∷ (2 ∷ []) ∷ []

has_components : Keeps (HasComponents components) agreeable
has_components past (create signer artifact links args) = tt
has_components past (transact signer to method value args) = tt
has_components past (read_address to method args) = tt
has_components past (read_addresses to method args) = refl
has_components past (read_number to method args) = tt
has_components past list_accounts = tt
has_components past block_number = tt
has_components past (block_at height) = tt
has_components past latest_block = tt
has_components past (read_logs query) = tt
has_components past (receipt_topics hash) = tt
has_components past (simulate signer to method args) = tt
has_components past (send_rpc method args) = tt

abbrev issuance_module : Contract
issuance_module = attach owner (codes "0xB1")

abbrev set_token : Contract
set_token = attach owner (codes "0xB2")

abbrev fixture : SystemFixture
fixture = record (new_system_fixture owner) { issuance_module = some issuance_module }

approvals_come_first_example :
    Ordered
      (positions_request set_token ∷ map (approval owner issuance_module) components
        ++ issue_request issuance_module set_token (pos 5) owner ∷ [])
      (λ _. Unit)
      (run agreeable [] (approve_and_issue_set_token fixture set_token (pos 5) none))
approvals_come_first_example =
    approvals_come_first agreeable fixture issuance_module set_token components (pos 5) none refl
      has_components

gauges_need_dao_example :
    Ends NoGauge (
      run agreeable [] (
        initialize_pool (new_curve_fixture owner) components >>= λ this.
        initialize_gauge this (codes "0xC1")))
    × Ends (GaugeIsRegistered owner (codes "0xC1")) (
        run agreeable [] (
          initialize_dao (new_curve_fixture owner) >>= λ this.
          initialize_gauge this (codes "0xC1")))
gauges_need_dao_example =
    gauges_need_dao agreeable owner (codes "0xC1") components agreeable-Obliges

-- A node with factories that keep their pairs.
abbrev exchange : Node
exchange past (read_number to method args) = ok (pos (created to past))
exchange past r = agreeable past r

abbrev factory : Contract
factory = attach owner (codes "0xD1")

abbrev uniswap : UniswapFixture
uniswap = record (new_uniswap_fixture owner) { factory = some factory }

new_pair_is_created_example :
    (run exchange [] (create_new_pair uniswap (codes "0xE1") (codes "0xE2"))).1
    ≡ ok (attach owner (0 ∷ []))
new_pair_is_created_example =
    new_pair_is_created exchange [] uniswap factory (λ n. n ∷ []) (codes "0xE1") (codes "0xE2")
      (0 ∷ []) refl (λ past. (refl, λ i below. refl)) refl

virtual_tokens_are_in_order_example :
    Ends
      (NotReversed (λ t. t))
      (run agreeable [] (tokens_fixture (λ t. t) (new_deploy_helper owner)))
    × Ends
        (PrecedesOr (λ t. t) 3 (2 ∷ []))
        (run agreeable [] (token0_fixture (λ t. t) 3 (new_deploy_helper owner) (2 ∷ [])))
virtual_tokens_are_in_order_example =
    virtual_tokens_are_in_order (λ t. t) agreeable 3 (new_deploy_helper owner) (2 ∷ [])
      agreeable-Obliges

abbrev encode : String → List Arg → Text
encode method args = codes method

set_ups_end_example :
    Ends UniswapIsComplete (
      run agreeable []
        (Uniswap.initialize (Uniswap.new_uniswap_fixture owner) owner (1 ∷ []) (2 ∷ []) (3 ∷ [])))
    × Ends KyberIsComplete (
        run agreeable []
          (Kyber.initialize (Kyber.new_kyber_fixture owner) owner (1 ∷ []) (2 ∷ []) (3 ∷ [])))
    × Ends CompoundIsComplete (
        run agreeable [] (
          Compound.initialize (Compound.new_compound_fixture owner)
          >>= Compound.initialize_governor_bravo encode))
set_ups_end_example =
    set_ups_end agreeable owner owner (1 ∷ []) (2 ∷ []) (3 ∷ []) encode agreeable-Obliges

abbrev two_tokens : Contract × Contract
two_tokens = (attach owner (codes "0xB1"), attach owner (codes "0xA2"))

abbrev manager : UniswapV3Fixture
manager = record (new_uniswap_v3_fixture owner) {
  factory = some (attach owner (1 ∷ []));
  nft_position_manager = some (attach owner (2 ∷ []));
}

wide_positions_in_either_order_example :
    add_liquidity_wide (λ t. t) manager two_tokens.0 two_tokens.1 fee_3000 (pos 5) (pos 7) owner
    ≡ add_liquidity_wide (λ t. t) manager two_tokens.1 two_tokens.0 fee_3000 (pos 7) (pos 5) owner
wide_positions_in_either_order_example =
    (wide_positions_in_either_order (λ t. t) two_tokens.0 two_tokens.1 manager fee_3000 (pos 500)
      (pos 5) (pos 7) owner (λ e. absurd (let h = ap (eqb (codes "0xB1")) e in cc))).0
