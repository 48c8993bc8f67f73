-- ===== src/PerpV2Utils/Signed.antt =====
-- A position's part of the collateral moved in, on the reference numbers: the spot price cancels out.
use mathlib.Core.Path.{fun_ext}
use index.Contracts.{SetToken}
use index.Base.{
  sym, ℕ, zero, suc, ◌≡◌, leb, Bool, true, false, refl, ◌∙◌, [], ◌∷◌, List, ok, ◌>>=◌, bind-eq,
  bind_assoc, if◌then◌else◌, arith,
}
use index.Base.Int.{ℤ, pos, negsuc, ◌+ℤ◌, ◌-ℤ◌, nat_abs, leb_ℤ, +ℤ_parts, -ℤ_parts, eq_of_parts}
use index.Base.Signs.{opp, negsuc-eq-opp}
use index.Base.Text.{Text}
use index.BigNumber.{reference}
use index.MathUtils.{precise_mul}
use index.MathUtils.Closed.{precise_mul-pos, precise_mul-negsuc}
use index.PerpV2Utils.{position_in, positions_in, calculate_usdc_transfer_in_precise_units}
use index.PerpV2Utils.Quotes.{quote_of, quotes_in, with_prices}
use index.PerpV2Utils.Fixture.{PerpModule, PositionUnitInfo, PerpFixture}

pub long-cancels : (a i d : ℤ) → (a +ℤ i) +ℤ (d -ℤ i) ≡ a +ℤ d
long-cancels a i d =
    eq_of_parts _ _
      (omega (arith, +ℤ_parts a i, -ℤ_parts d i, +ℤ_parts (a +ℤ i) (d -ℤ i), +ℤ_parts a d))

pub short-cancels : (a d : ℤ) (k : ℕ) → (a +ℤ negsuc k) +ℤ (pos (suc k) -ℤ d) ≡ a -ℤ d
short-cancels a d k = eq_of_parts _ _ (
    omega (
      arith,
      +ℤ_parts a (negsuc k),
      -ℤ_parts (pos (suc k)) d,
      +ℤ_parts (a +ℤ negsuc k) (pos (suc k) -ℤ d),
      -ℤ_parts a d,
    ))

zero-cancels : (a d : ℤ) → (a +ℤ pos 0) +ℤ (pos 0 -ℤ d) ≡ a -ℤ d
zero-cancels a d = eq_of_parts _ _ (
    omega (
      arith,
      +ℤ_parts a (pos 0),
      -ℤ_parts (pos 0) d,
      +ℤ_parts (a +ℤ pos 0) (pos 0 -ℤ d),
      -ℤ_parts a d,
    ))

-- A short position: the ideal quote is minus `k`.
opp-cancels : (a d : ℤ) (k : ℕ) → (a +ℤ opp k) +ℤ (pos (nat_abs (opp k)) -ℤ d) ≡ a -ℤ d
unfolding opp
opp-cancels a d zero = zero-cancels a d
opp-cancels a d (suc k) = rw (← negsuc-eq-opp k) (short-cancels a d k)

leb_zero : (n : ℕ) → leb 0 n ≡ true
leb_zero n = ground arith

-- The round of a position whose size is `base`, where the spot price is read as `p`.
round-quote :
    (fixture : PerpFixture) (token : Text) (base amount : ℤ) (p : ℕ)
    → fixture.get_spot_price token ≡ ok (pos p)
    → (do
      delta_quote ← fixture.get_swap_quote token (pos (nat_abs base)) (leb_ℤ (pos 0) base)
      spot_price ← fixture.get_spot_price token
      ideal_quote ← precise_mul base spot_price
      let slippage =
          if leb_ℤ (pos 0) base
          then delta_quote -ℤ ideal_quote
          else pos (nat_abs ideal_quote) -ℤ delta_quote
      ok ((amount +ℤ ideal_quote) +ℤ slippage))
      ≡ quote_of fixture token base amount
unfolding quote_of
round-quote fixture token (pos n) amount p read = rw (leb_zero n) (
    bind-eq (fixture.get_swap_quote token (pos n) true) _ _
      (λ d. simp (read, precise_mul-pos, long-cancels)))
round-quote fixture token (negsuc n) amount p read =
    bind-eq (fixture.get_swap_quote token (pos (suc n)) false) _ _
      (λ d. simp (read, precise_mul-negsuc, opp-cancels))

position_in-quote :
    (fixture : PerpFixture) (q : ℤ) (position : PositionUnitInfo) (amount : ℤ) (p : ℕ)
    → fixture.get_spot_price position.base_token ≡ ok (pos p)
    → position_in fixture q position amount ≡ (do
      base ← precise_mul position.base_unit q
      quote_of fixture position.base_token base amount)
unfolding position_in
position_in-quote fixture q position amount p read =
    bind-eq (precise_mul position.base_unit q) _ _
      (λ base. round-quote fixture position.base_token base amount p read)

pub positions_in-quotes :
    (fixture : PerpFixture) (q : ℤ) (positions : List PositionUnitInfo) (amount : ℤ)
    → ((token : Text) → (p : ℕ) × (fixture.get_spot_price token ≡ ok (pos p)))
    → positions_in fixture q positions amount ≡ quotes_in fixture q positions amount
unfolding positions_in quotes_in
positions_in-quotes fixture q [] amount prices = refl
positions_in-quotes fixture q (position ∷ positions) amount prices =
    let (p, read) = prices position.base_token in
    rw (position_in-quote fixture q position amount p read) (
      bind_assoc (precise_mul position.base_unit q) _ _
      ∙ bind-eq (precise_mul position.base_unit q) _ _ (λ base.
        bind-eq (quote_of fixture position.base_token base amount) _ _
          (λ next. positions_in-quotes fixture q positions next prices)))

-- Two fixtures that differ in their spot prices.
same-amounts :
    (fixture : PerpFixture) (price other : Text → ℕ) (q : ℤ)
    → positions_in (with_prices fixture price) q ≡ positions_in (with_prices fixture other) q
unfolding quotes_in quote_of
same-amounts fixture price other q = fun_ext (λ positions. fun_ext (λ amount.
    positions_in-quotes (with_prices fixture price) q positions amount (λ t. (price t, refl))
    ∙ sym (
        positions_in-quotes (with_prices fixture other) q positions amount (λ t. (other t, refl)))))

pub transfer_in-same :
    (set_token : SetToken) (q : ℤ) (perp_module : PerpModule) (fixture : PerpFixture)
    (price other : Text → ℕ) (include_funding : Bool)
    → calculate_usdc_transfer_in_precise_units set_token q perp_module
        (with_prices fixture price)
        include_funding
      ≡ calculate_usdc_transfer_in_precise_units set_token q perp_module
          (with_prices fixture other)
          include_funding
unfolding calculate_usdc_transfer_in_precise_units
transfer_in-same set_token q perp_module fixture price other include_funding =
    rw (same-amounts fixture price other q) refl
