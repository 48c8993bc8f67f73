-- ===== src/Fixtures/Curve/Gauges.antt =====
-- Gauges before and after the DAO is set up: utils/fixtures/curveFixture.ts.
use index.Base.{◌≡◌, List, [], ◌∷◌, Option, none, some, Result, ok, err, type_error, if◌then◌else◌}
use index.Base.Int.{pos}
use index.Base.Text.{Text, codes, eqb}
use index.Units.{ether}
use index.Chain.{
  address, number, Request, create, transact, Answer, Contract, ◌>>=◌, Event, Node, run,
}
use index.Chain.Histories.{Obliges, Anything, Ends, run-Leads}
use index.Fixtures.Curve.{new_curve_fixture, initialize_pool, initialize_dao, initialize_gauge}
use Prim.Native.String.{String}

abbrev created_by : String → (r : Request) → Answer r → Option Text → Option Text
created_by artifact (create signer name links args) at before =
    if eqb (codes name) (codes artifact) then some at else before
created_by artifact _ answer before = before

-- The address of the contract of a kind that was created last.
abbrev latest : String → List Event → Option Text
latest artifact [] = none
latest artifact (e ∷ past) = created_by artifact e.asked e.answer (latest artifact past)

-- The gauge is for the token and the minter, and is added to the controller.
abbrev Registers : Text → Text → Request → Request → Text → Option Text → Option Text → Type 0
Registers owner lp_token creation addition gauge (some minter) (some controller) =
    (creation ≡ create owner "LiquidityGauge" [] (address lp_token ∷ address minter ∷ []))
    × (addition
        ≡ transact owner controller "add_gauge(address,int128,uint256)" (pos 0)
            (address gauge ∷ number (pos 0) ∷ number (ether 1) ∷ []))
Registers owner lp_token creation addition gauge _ _ = ⊥

abbrev pub GaugeIsRegistered : Text → Text → List Event → Result Contract → Type 0
GaugeIsRegistered owner lp_token (addition ∷ creation ∷ past) (ok gauge) =
    (latest "LiquidityGauge" (creation ∷ past) ≡ some gauge.at)
    × Registers owner lp_token creation.asked addition.asked gauge.at (latest "Minter" past)
        (latest "GaugeController" past)
GaugeIsRegistered owner lp_token _ _ = ⊥

abbrev pub NoGauge : List Event → Result Contract → Type 0
NoGauge past result = (result ≡ err type_error) × (latest "LiquidityGauge" past ≡ none)

-- At a node that rejects nothing: a gauge of a new fixture that has only its pool set up is a
-- fault, and no gauge is deployed; once the DAO is set up, the gauge is deployed for the token
-- and the DAO's minter, the last request adds that gauge to the DAO's controller, and the gauge
-- is returned.
pub gauges_need_dao :
    (node : Node) (owner lp_token : Text) (tokens : List Text)
    → Obliges Anything node
    → Ends NoGauge (
        run node [] (
          initialize_pool (new_curve_fixture owner) tokens >>= λ this.
          initialize_gauge this lp_token))
      × Ends (GaugeIsRegistered owner lp_token) (
          run node []
            (initialize_dao (new_curve_fixture owner) >>= λ this. initialize_gauge this lp_token))
unfolding initialize_pool initialize_dao initialize_gauge
gauges_need_dao node owner lp_token tokens answers = (
  run-Leads Anything NoGauge node [] _ answers (search depth 30 parts 10),
  run-Leads Anything (GaugeIsRegistered owner lp_token) node [] _ answers
      (search depth 30 parts 10),
)
