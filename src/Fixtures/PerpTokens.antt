-- ===== src/Fixtures/PerpTokens.antt =====
-- utils/fixtures/perpV2Fixture.ts: the virtual tokens of its markets. Of a pool's two tokens the base
-- token has the smaller address, so tokens are exchanged, or created again, until they have that order.
pub mod Order
use index.Base.{ℕ, zero, suc, Option, some, none, List, [], ◌∷◌, Bool, if◌then◌else◌, unfinished}
use index.Base.Int.{pos}
use index.Base.Text.{Text, codes, text_lt}
use index.Chain.{Script, give, fault, ◌>>=◌, ◌>>◌, Contract, send, address, text}
use index.Deploys.{DeployHelper}
use index.Deploys.MockTokens.{deploy_chainlink_aggregator_mock}
use index.Deploys.ExternalPerp.{
  deploy_perp_v2_quote_token, deploy_perp_v2_chainlink_price_feed, deploy_perp_v2_base_token,
}

pub record BaseTokenFixture : Type 0 where
  pub base_token : Contract
  pub mock_aggregator : Contract

pub record TokensFixture : Type 0 where
  pub token0 : Contract
  pub token1 : Contract
  pub mock_aggregator0 : Contract
  pub mock_aggregator1 : Contract

unfoldable pub create_quote_token_fixture : DeployHelper → Text → Text → Script Contract
create_quote_token_fixture deployer name symbol = do
  quote_token ← deploy_perp_v2_quote_token deployer.external
  send quote_token "initialize" (text name ∷ text symbol ∷ [])
  give quote_token

unfoldable pub create_base_token_fixture : DeployHelper → Text → Text → Script BaseTokenFixture
create_base_token_fixture deployer name symbol = do
  mock_aggregator ← deploy_chainlink_aggregator_mock deployer.mocks (pos 6)
  chainlink_price_feed ← deploy_perp_v2_chainlink_price_feed deployer.external
  send chainlink_price_feed "initialize" (address mock_aggregator.at ∷ [])
  base_token ← deploy_perp_v2_base_token deployer.external
  send base_token "initialize" (text name ∷ text symbol ∷ address chainlink_price_feed.at ∷ [])
  give (record { base_token = base_token; mock_aggregator = mock_aggregator })

-- `lower_case` is the language's `toLowerCase`.
module _ (lower_case : Text → Text) where
  abbrev pub is_ascending_token_order : Text → Text → Bool
  is_ascending_token_order addr0 addr1 = text_lt (lower_case addr0) (lower_case addr1)

  unfoldable pub tokens_fixture : DeployHelper → Script TokensFixture
  tokens_fixture deployer = do
    random0 ← create_base_token_fixture deployer (codes "RandomTestToken0") (codes "randomToken0")
    random1 ← create_base_token_fixture deployer (codes "RandomTestToken1") (codes "randomToken1")
    give (
        if is_ascending_token_order random0.base_token.at random1.base_token.at
        then record {
          token0 = random0.base_token;
          mock_aggregator0 = random0.mock_aggregator;
          token1 = random1.base_token;
          mock_aggregator1 = random1.mock_aggregator;
        }
        else record {
          token0 = random1.base_token;
          mock_aggregator0 = random1.mock_aggregator;
          token1 = random0.base_token;
          mock_aggregator1 = random0.mock_aggregator;
        })

  -- What follows a token, if it is not taken.
  abbrev pub retry : Bool → BaseTokenFixture → Script BaseTokenFixture → Script BaseTokenFixture
  retry ascending token again = if ascending then give token else again

  -- The fuel is the number of tokens that are created at most.
  unfoldable pub token0_fixture : ℕ → DeployHelper → Text → Script BaseTokenFixture
  token0_fixture zero deployer token1 = fault unfinished
  token0_fixture (suc fuel) deployer token1 = do
    let again = token0_fixture fuel deployer token1
    token0 ← create_base_token_fixture deployer (codes "RandomTestToken0") (codes "randomToken0")
    retry (is_ascending_token_order token0.base_token.at token1) token0 again
