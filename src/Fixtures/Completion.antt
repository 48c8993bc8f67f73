-- ===== src/Fixtures/Completion.antt =====
-- Whether the set-ups of utils/fixtures/uniswapFixture.ts, kyberV3DMMFixture.ts and compoundFixture.ts
-- return.
use index.Base.{List, [], ◌∷◌, Option, none, some, All, Result, ok, err}
use index.Base.Text.{Text}
use Prim.Native.String.{String}
use index.TestingUtils.{get_last_block_timestamp, increase_time, mine_block}
use index.Chain.{Arg, Event, Node, run, ◌>>=◌}
use index.Chain.Histories.{Obliges, Anything, Ends, run-Leads}
use index.Fixtures.Uniswap
use index.Fixtures.Kyber
use index.Fixtures.Compound

abbrev IsDefined : {A : Type 0} → Option A → Type 0
IsDefined none = ⊥
IsDefined (some a) = Unit

abbrev pub UniswapIsComplete : List Event → Result Uniswap.UniswapFixture → Type 0
UniswapIsComplete past (err e) = ⊥
UniswapIsComplete past (ok this) =
    IsDefined this.owner
    × All IsDefined (
        this.uni ∷ this.uniswap_governor_alpha ∷ this.uniswap_timelock ∷ this.factory ∷ this.router
        ∷ this.weth_dai_pool ∷ this.weth_dai_staking_rewards ∷ this.weth_wbtc_pool
        ∷ this.weth_wbtc_staking_rewards ∷ this.uni_weth_pool ∷ [])

abbrev pub KyberIsComplete : List Event → Result Kyber.KyberV3DmmFixture → Type 0
KyberIsComplete past (err e) = ⊥
KyberIsComplete past (ok this) =
    IsDefined this.owner
    × All IsDefined (
        this.knc ∷ this.dmm_factory ∷ this.dmm_router ∷ this.knc_weth_pool ∷ this.weth_dai_pool
        ∷ this.weth_wbtc_pool ∷ [])

-- The two contracts of Governor Bravo are set by a method of their own.
abbrev pub CompoundIsComplete : List Event → Result Compound.CompoundFixture → Type 0
CompoundIsComplete past (err e) = ⊥
CompoundIsComplete past (ok this) = All IsDefined (
    this.unitroller ∷ this.comp ∷ this.compound_timelock ∷ this.compound_governor_alpha
    ∷ this.compound_governor_bravo_delegate ∷ this.compound_governor_bravo_delegator
    ∷ this.comptroller ∷ this.interest_rate_model ∷ this.price_oracle ∷ this.price_oracle_proxy
    ∷ [])

-- At a node that rejects nothing, the set-ups of a new Uniswap fixture and of a new Kyber
-- fixture return, and so does that of a new Compound fixture with its second governor after it;
-- each with its contracts, and in the first two the owner, set.
pub set_ups_end :
    (node : Node) (owner_address owner weth wbtc dai : Text) (encode : String → List Arg → Text)
    → Obliges Anything node
    → Ends UniswapIsComplete (
        run node []
          (Uniswap.initialize (Uniswap.new_uniswap_fixture owner_address) owner weth wbtc dai))
      × Ends KyberIsComplete (
          run node []
            (Kyber.initialize (Kyber.new_kyber_fixture owner_address) owner weth wbtc dai))
      × Ends CompoundIsComplete (
          run node [] (
            Compound.initialize (Compound.new_compound_fixture owner_address)
            >>= Compound.initialize_governor_bravo encode))
unfolding Uniswap.initialize Uniswap.create_new_staking_pair Uniswap.create_new_pair
    Kyber.initialize Kyber.create_new_pool Compound.initialize Compound.initialize_governor_bravo
    get_last_block_timestamp increase_time mine_block
set_ups_end node owner_address owner weth wbtc dai encode answers = (
  run-Leads Anything UniswapIsComplete node [] _ answers
      (λ _ _ _ _ _ _ _ _ _ _ _ _ _ _ _ _ _ _ _ _ _ _ _ _ _ _ _ _ _ _ _ _ _ _ _ _ _ _ _ _ _ _.
        search parts 20),
  run-Leads Anything KyberIsComplete node [] _ answers (search depth 100 parts 40),
  run-Leads Anything CompoundIsComplete node [] _ answers
      (λ _ _ _ _ _ _ _ _ _ _ _ _ _ _ _ _ _ _ _ _ _ _ _ _ _ _ _ _ _ _ _ _ _ _ _ _ _ _ _ _ _ _ _ _ _ _
          _ _ _ _.
        search parts 20),
)
