-- ===== src/NavIssuanceModuleUtils/Tests.antt =====
-- utils/common/navIssuanceModuleUtils.ts at concrete inputs.
use index.Base.{ℕ, ◌+◌, ◌*◌, ◌/◌, ◌≤◌, ◌<◌, ◌≡◌, refl, [], ◌∷◌, ok, err, division_by_zero, arith}
use index.Base.Int.{pos, ◌+ℤ◌, ◌-ℤ◌, ◌*ℤ◌, tdiv}
use index.BigNumber.{reference, reference-IsBigNumber}
use index.MathUtils.{precise_mul, precise_div_ceil}
use index.Contracts.{SetToken}
use index.MathUtils.Closed.{unit}
use index.NavIssuanceModuleUtils.{
  SetValuer, get_expected_issue_position_multiplier, get_expected_issue_position_unit,
  get_expected_post_fee_quantity, get_expected_redeem_position_multiplier,
  get_expected_redeem_position_unit, get_expected_reserve_redeem_quantity,
  get_expected_set_token_issue_quantity,
}
use index.NavIssuanceModuleUtils.Guarantees.{
  post_fee_bounds, issue_multiplier_dilutes, redeem_multiplier_concentrates, issue_unit_is_covered,
  redemption_is_covered, issuance_is_paid_for, multipliers_at_no_supply,
}

abbrev percent : ℕ
percent = 10_000_000_000_000_000

abbrev token : SetToken
token = record { address = 1 ∷ []; total_supply = ok (pos 100_000_000_000_000_000_000) }

abbrev valuer : SetValuer
valuer = record { calculate_set_token_valuation = λ a b. ok (pos 2_000_000_000_000_000_000) }

-- A supply that doubles halves the multiplier.
halved :
    get_expected_issue_position_multiplier (pos unit) (pos unit) (pos 2_000_000_000_000_000_000)
    ≡ ok (pos 500_000_000_000_000_000)
unfolding get_expected_issue_position_multiplier precise_mul precise_div_ceil ◌*ℤ◌ ◌-ℤ◌ ◌+ℤ◌ tdiv
halved = refl

post_fee_bounds_example :
    (r : ℕ) × (get_expected_post_fee_quantity (pos 12_345) (pos percent) (pos 5) ≡ ok (pos r))
    × (12_345 * 989_999_999_999_999_995 ≤ r * unit)
    × (r * unit < 12_345 * 989_999_999_999_999_995 + 2 * unit)
    × (r ≤ 12_345)
post_fee_bounds_example =
    post_fee_bounds reference-IsBigNumber 12_345 percent 5 989_999_999_999_999_995 (omega arith)

issue_multiplier_dilutes_example :
    (r : ℕ) × (get_expected_issue_position_multiplier (pos unit) (pos 200) (pos 300) ≡ ok (pos r))
    × (r * 300 ≤ unit * 200)
    × (unit * 200 * unit < (r * unit + unit + unit) * 300)
issue_multiplier_dilutes_example =
    issue_multiplier_dilutes reference-IsBigNumber unit 200 299 (omega arith)

redeem_multiplier_concentrates_example :
    (r : ℕ) × (get_expected_redeem_position_multiplier (pos unit) (pos 300) (pos 200) ≡ ok (pos r))
    × (r * 200 ≤ unit * 300)
    × (unit * 300 * unit < (r * unit + unit + unit) * 200)
redeem_multiplier_concentrates_example =
    redeem_multiplier_concentrates reference-IsBigNumber unit 300 199 (omega arith)

issue_unit_is_covered_example :
    (n w : ℕ) × (get_expected_post_fee_quantity (pos 1000) (pos percent) (pos 0) ≡ ok (pos n))
    × (get_expected_issue_position_unit
          (pos 70)
          (pos 1000)
          (pos unit)
          (pos 3_000_000_000_000_000_000)
          (pos unit)
          (pos percent)
          (pos 0)
        ≡ ok (pos w))
    × (w * 3_000_000_000_000_000_000 ≤ unit * 70 + n * unit)
issue_unit_is_covered_example =
    issue_unit_is_covered reference-IsBigNumber 70 1000 unit 2_999_999_999_999_999_999
      999_999_999_999_999_999 percent 0 (omega arith)

redemption_is_covered_example :
    (x w : ℕ) × (get_expected_reserve_redeem_quantity
        (pos 1000)
        (pos unit)
        (pos 50)
        (pos percent)
        (pos 0)
        (pos 7)
      ≡ ok (pos x))
    × (get_expected_redeem_position_unit
          (pos 70)
          (pos 1000)
          (pos unit)
          (pos 50)
          (pos 3000)
          (pos 2000)
          (pos unit)
          (pos percent)
          (pos 0)
          (pos 7)
        ≡ ok (pos w))
    × (w * 2000 + x * unit ≤ 3000 * 70)
redemption_is_covered_example =
    redemption_is_covered reference-IsBigNumber 70 1000 unit 50 3000 1999 999_999_999_999_999_999
      percent 0 7 (omega arith) (omega arith) (omega arith)

issuance_is_paid_for_example :
    (x : ℕ) × (get_expected_set_token_issue_quantity token valuer []
        (pos 1_000_000)
        (pos 5_000_000)
        (pos percent)
        (pos 0)
        (pos percent)
      ≡ ok (pos x))
    × (x * (100_000_000_000_000_000_000 * 2_000_000_000_000_000_000 / unit) * 1_000_000
        ≤ 5_000_000 * unit * 100_000_000_000_000_000_000)
issuance_is_paid_for_example =
    issuance_is_paid_for reference-IsBigNumber token valuer [] 100_000_000_000_000_000_000
      2_000_000_000_000_000_000 5_000_000 999_999 percent 0 percent refl refl (omega arith)
      (omega arith) (omega arith)

multipliers_at_no_supply_example :
    (get_expected_redeem_position_multiplier (pos unit) (pos 9) (pos 0) ≡ err division_by_zero)
    × (get_expected_issue_position_multiplier (pos unit) (pos 9) (pos 0) ≡ ok (pos unit))
multipliers_at_no_supply_example = multipliers_at_no_supply reference-IsBigNumber unit 9
