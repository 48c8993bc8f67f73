-- ===== src/PerpV2Utils/Funding.antt =====
-- What `getNetFundingGrowth` of utils/common/perpV2Utils.ts guarantees.
use index.Base.{ℕ, suc, ◌≡◌, ok, if◌then◌else◌}
use index.Base.Int.{pos, negsuc, ltb_ℤ}
use index.Base.Signs.{opp}
use index.Base.Text.{Text}
use index.BigNumber.{BigNumber, IsBigNumber, eq_reference}
use index.PerpV2Utils.{get_net_funding_growth}
use index.PerpV2Utils.Fixture.{PerpFixture, FundingTwaps}
use index.PerpV2Utils.Growth.{growth, growth-long, growth-short}

-- Where the twaps are read, a long position and a short one of the same size grow by opposite amounts: the
-- long one gains where the mark price is below the index price, and else the short one does.
pub funding_is_opposite :
    ⦃bn : BigNumber⦄ (h : IsBigNumber bn) (token : Text) (fixture : PerpFixture) (t : FundingTwaps)
    (n : ℕ)
    → fixture.get_funding_growth_global_and_twaps token ≡ ok t
    → (m : ℕ) × (get_net_funding_growth token (pos (suc n)) fixture
        ≡ ok (if ltb_ℤ t.mark_twap t.index_twap then pos m else opp m))
      × (get_net_funding_growth token (negsuc n) fixture
          ≡ ok (if ltb_ℤ t.mark_twap t.index_twap then opp m else pos m))
funding_is_opposite h token fixture t n read =
    rw (eq_reference h)
      (growth t n, growth-long token fixture t n read, growth-short token fixture t n read)
