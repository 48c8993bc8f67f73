-- ===== src/PerpV2Utils/Transfers.antt =====
-- What `calculateUSDCTransferInPreciseUnits` and `calculateLeverageRatios` of
-- utils/common/perpV2Utils.ts guarantee.
use index.Base.{ℕ, ◌≡◌, Bool, List, ok}
use index.Base.Int.{ℤ, pos}
use index.Base.Text.{Text}
use index.BigNumber.{BigNumber, IsBigNumber, eq_reference}
use index.Contracts.{SetToken}
use index.PerpV2Utils.{positions_in, calculate_usdc_transfer_in_precise_units}
use index.PerpV2Utils.Fixture.{PerpFixture, PerpModule, PositionUnitInfo}
use index.PerpV2Utils.Quotes.{quotes_in, with_prices}
use index.PerpV2Utils.Signed.{positions_in-quotes, transfer_in-same}

-- Where every spot price is read as a number that is not negative, the loop over the positions adds the
-- swap's quote of each long position and subtracts that of each short one, until a call is rejected:
-- the ideal quote cancels out against the slippage.
pub transfer_in_adds_quotes :
    ⦃bn : BigNumber⦄ (h : IsBigNumber bn) (fixture : PerpFixture) (q : ℤ)
    (positions : List PositionUnitInfo) (amount : ℤ)
    → ((token : Text) → (p : ℕ) × (fixture.get_spot_price token ≡ ok (pos p)))
    → positions_in fixture q positions amount ≡ quotes_in fixture q positions amount
transfer_in_adds_quotes h fixture q positions amount prices =
    rw (eq_reference h) (positions_in-quotes fixture q positions amount prices)

-- Two fixtures that differ only in their spot prices, none of them negative, give the same amount to
-- transfer in, or the same fault, with and without funding.
pub transfer_in_ignores_spot_prices :
    ⦃bn : BigNumber⦄ (h : IsBigNumber bn) (set_token : SetToken) (q : ℤ) (perp_module : PerpModule)
    (fixture : PerpFixture) (price other : Text → ℕ) (include_funding : Bool)
    → calculate_usdc_transfer_in_precise_units set_token q perp_module
        (with_prices fixture price)
        include_funding
      ≡ calculate_usdc_transfer_in_precise_units set_token q perp_module
          (with_prices fixture other)
          include_funding
transfer_in_ignores_spot_prices h set_token q perp_module fixture price other include_funding =
    rw (eq_reference h)
      (transfer_in-same set_token q perp_module fixture price other include_funding)
