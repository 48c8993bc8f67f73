-- ===== src/PerpV2Utils/Tests.antt =====
-- utils/common/perpV2Utils.ts at concrete inputs.
use index.Base.{ℕ, ◌≡◌, refl, [], ◌∷◌, List, ok, err, rejected, if◌then◌else◌}
use index.Base.Int.{pos, negsuc, ltb_ℤ, ◌+ℤ◌, ◌-ℤ◌, ◌*ℤ◌, tdiv}
use index.Base.Signs.{opp}
use index.BigNumber.{reference, reference-IsBigNumber}
use index.Contracts.{SetToken}
use index.MathUtils.{precise_mul, precise_div}
use index.MathUtils.Closed.{unit}
use index.PerpV2Utils.{
  positions_in, position_in, calculate_usdc_transfer_in_precise_units, calculate_usdc_transfer_in,
  get_net_funding_growth, to_usdc_decimals,
}
use index.PerpV2Utils.Fixture.{AccountInfo, FundingTwaps, PerpFixture, PerpModule, PositionUnitInfo}
use index.PerpV2Utils.Quotes.{quotes_in}
use index.PerpV2Utils.Transfers.{transfer_in_adds_quotes}
use index.PerpV2Utils.Funding.{funding_is_opposite}

abbrev set_token : SetToken
set_token = record { address = 1 ∷ []; total_supply = ok (pos unit) }

abbrev info : AccountInfo
info = record {
  collateral_balance = pos 5_000_000_000_000_000_000;
  owed_realized_pnl = pos 0;
  pending_funding_payments = negsuc 999_999_999_999_999_999;
  net_quote_balance = pos 0;
}

abbrev positions : List PositionUnitInfo
positions =
    record { base_token = 2 ∷ []; base_unit = pos unit; quote_unit = pos 0 }
    ∷ record { base_token = 3 ∷ []; base_unit = negsuc 999_999_999_999_999_999; quote_unit = pos 0 }
    ∷ []

abbrev perp_module : PerpModule
perp_module = record {
  get_account_info = λ a. ok info;
  get_position_unit_info = λ a. ok positions;
  get_position_notional_info = λ a. ok [];
}

abbrev twaps : FundingTwaps
twaps = record {
  tw_premium_x96 = pos 79_228_162_514_264_337_593_543_950_336;
  mark_twap = pos 1;
  index_twap = pos 2;
}

abbrev fixture : PerpFixture
fixture = record {
  get_spot_price = λ t. ok (pos 10_000_000_000_000_000_000);
  get_swap_quote = λ t n b.
      if b then ok (pos 10_100_000_000_000_000_000) else ok (pos 9_800_000_000_000_000_000);
  get_v_token_instance = λ t. err (rejected "no token");
  get_funding_growth_global_and_twaps = λ t. ok twaps;
  get_im_ratio = ok (pos 100_000);
  get_unrealized_pnl = λ t. ok (pos 0);
  get_total_debt_value = λ t. ok (pos 0);
  get_total_abs_position_value = λ t. ok (pos 0);
}

-- 4 of collateral, and 10.1 bought less 9.8 sold.
moved : calculate_usdc_transfer_in set_token (pos unit) perp_module fixture ≡ ok (pos 4_300_000)
unfolding calculate_usdc_transfer_in calculate_usdc_transfer_in_precise_units positions_in
    position_in to_usdc_decimals precise_mul precise_div ◌*ℤ◌ ◌-ℤ◌ ◌+ℤ◌ tdiv
moved = refl

transfer_in_adds_quotes_example :
    positions_in fixture (pos unit) positions (pos 7)
    ≡ quotes_in fixture (pos unit) positions (pos 7)
transfer_in_adds_quotes_example =
    transfer_in_adds_quotes reference-IsBigNumber fixture (pos unit) positions (pos 7)
      (λ t. (10_000_000_000_000_000_000, refl))

funding_is_opposite_example :
    (m : ℕ) × (get_net_funding_growth [] (pos 5) fixture
      ≡ ok (if ltb_ℤ (pos 1) (pos 2) then pos m else opp m))
    × (get_net_funding_growth [] (negsuc 4) fixture
        ≡ ok (if ltb_ℤ (pos 1) (pos 2) then opp m else pos m))
funding_is_opposite_example = funding_is_opposite reference-IsBigNumber [] fixture twaps 4 refl
