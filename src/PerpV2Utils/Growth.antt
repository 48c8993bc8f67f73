-- ===== src/PerpV2Utils/Growth.antt =====
-- The growth of funding on the reference numbers.
use index.Base.{ℕ, suc, ◌*◌, ◌/◌, ◌≡◌, refl, sym, ap, ◌∙◌, ok, arith, lt→ltb, if◌then◌else◌}
use index.Base.Int.{ℤ, pos, negsuc, ◌*ℤ◌, tdiv, nat_abs, ltb_ℤ}
use index.Base.Signs.{
  opp, opp_parts, pos-*ℤ, pos-*ℤ-negsuc, negsuc-*ℤ-pos, negsuc-*ℤ, pos-tdiv, opp-tdiv,
}
use index.Base.Text.{Text}
use index.BigNumber.{reference, div_ℤ, pow_ℤ}
use index.MathUtils.{precise_mul}
use index.MathUtils.Closed.{unit}
use index.PerpV2Utils.{get_net_funding_growth}
use index.PerpV2Utils.Fixture.{PerpFixture, FundingTwaps}

-- 2 to the power of 96
abbrev q96 : ℤ
q96 = pos 79_228_162_514_264_337_593_543_950_336

div-pow : (a : ℤ) → div_ℤ a (pow_ℤ (pos 2) 96) ≡ ok (tdiv a q96)
unfolding ◌*ℤ◌
div-pow a = refl

precise_mul-tdiv : (a b : ℤ) → precise_mul a b ≡ ok (tdiv (a *ℤ b) (pos unit))
unfolding precise_mul
precise_mul-tdiv a b = refl

-- Positions of the same size grow alike.
same-size :
    (n : ℕ) (d : ℤ)
    → nat_abs (tdiv (negsuc n *ℤ d) (pos unit)) ≡ nat_abs (tdiv (pos (suc n) *ℤ d) (pos unit))
same-size n (pos m) =
    simp (negsuc-*ℤ-pos, pos-*ℤ, pos-tdiv, opp-tdiv) (opp_parts (suc n * m / unit)).2
same-size n (negsuc m) =
    simp (negsuc-*ℤ, pos-*ℤ-negsuc, pos-tdiv, opp-tdiv) (sym (opp_parts (suc n * suc m / unit)).2)

minus : (m : ℕ) → pos m *ℤ negsuc 0 ≡ opp m
minus m = pos-*ℤ-negsuc m 0 ∙ ap opp (omega arith)

-- What a position of `suc n` grows by, whatever its side.
pub growth : FundingTwaps → ℕ → ℕ
growth t n = nat_abs (
    tdiv
      (pos (suc n)
        *ℤ tdiv (tdiv (t.tw_premium_x96 *ℤ pos 1_000_000_000_000_000_000) q96) (pos 86_400))
      (pos unit))

pub growth-long :
    (token : Text) (fixture : PerpFixture) (t : FundingTwaps) (n : ℕ)
    → fixture.get_funding_growth_global_and_twaps token ≡ ok t
    → get_net_funding_growth token (pos (suc n)) fixture
      ≡ ok (if ltb_ℤ t.mark_twap t.index_twap then pos (growth t n) else opp (growth t n))
unfolding get_net_funding_growth growth
growth-long token fixture t n read =
    simp (read, div-pow, precise_mul-tdiv, minus, lt→ltb 0 (suc n) (omega arith)) refl

pub growth-short :
    (token : Text) (fixture : PerpFixture) (t : FundingTwaps) (n : ℕ)
    → fixture.get_funding_growth_global_and_twaps token ≡ ok t
    → get_net_funding_growth token (negsuc n) fixture
      ≡ ok (if ltb_ℤ t.mark_twap t.index_twap then opp (growth t n) else pos (growth t n))
unfolding get_net_funding_growth growth
growth-short token fixture t n read = simp (read, div-pow, precise_mul-tdiv, minus, same-size) refl
