-- ===== src/PerpV2Utils/Quotes.antt =====
-- What moving collateral in comes to, without spot prices: every position adds the quote of its swap,
-- bought if it is long and sold if it is short.
use index.Base.{ℕ, [], ◌∷◌, List, Result, ok, ◌>>=◌, if◌then◌else◌}
use index.Base.Int.{ℤ, pos, ◌+ℤ◌, ◌-ℤ◌, nat_abs, leb_ℤ}
use index.Base.Text.{Text}
use index.BigNumber.{BigNumber}
use index.MathUtils.{precise_mul}
use index.PerpV2Utils.Fixture.{PositionUnitInfo, PerpFixture}

-- What a position of the notional size `base` adds.
unfoldable pub quote_of : PerpFixture → Text → ℤ → ℤ → Result ℤ
quote_of fixture token base amount = do
  quote ← fixture.get_swap_quote token (pos (nat_abs base)) (leb_ℤ (pos 0) base)
  ok (if leb_ℤ (pos 0) base then amount +ℤ quote else amount -ℤ quote)

unfoldable pub quotes_in : ⦃bn : BigNumber⦄ → PerpFixture → ℤ → List PositionUnitInfo → ℤ → Result ℤ
quotes_in fixture set_quantity [] amount = ok amount
quotes_in fixture set_quantity (position ∷ positions) amount = do
  base ← precise_mul position.base_unit set_quantity
  next ← quote_of fixture position.base_token base amount
  quotes_in fixture set_quantity positions next

-- A fixture with other spot prices.
abbrev pub with_prices : PerpFixture → (Text → ℕ) → PerpFixture
with_prices fixture price = record {
  get_spot_price = λ token. ok (pos (price token));
  get_swap_quote = fixture.get_swap_quote;
  get_v_token_instance = fixture.get_v_token_instance;
  get_funding_growth_global_and_twaps = fixture.get_funding_growth_global_and_twaps;
  get_im_ratio = fixture.get_im_ratio;
  get_unrealized_pnl = fixture.get_unrealized_pnl;
  get_total_debt_value = fixture.get_total_debt_value;
  get_total_abs_position_value = fixture.get_total_abs_position_value;
}
