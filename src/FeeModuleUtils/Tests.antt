-- ===== src/FeeModuleUtils/Tests.antt =====
-- utils/common/feeModuleUtils.ts at concrete inputs.
use index.Base.{ℕ, suc, ◌+◌, ◌-◌, ◌*◌, ◌≤◌, ◌<◌, ◌≡◌, refl, none, [], ◌∷◌, Returns, ok, arith}
use index.Base.Int.{pos, negsuc, ◌+ℤ◌, ◌-ℤ◌, ◌*ℤ◌, tdiv}
use index.BigNumber.{reference, reference-IsBigNumber}
use index.Constants.{precise_unit}
use index.MathUtils.{precise_mul, precise_mul_ceil_int}
use index.MathUtils.Closed.{unit}
use index.MathUtils.Spec.{RoundsDown}
use index.FeeModuleUtils.{
  FeeModule, StreamingFeeState, get_streaming_fee, get_streaming_fee_inflation_amount,
  get_post_fee_position_units,
}
use index.FeeModuleUtils.PostFee.{Pointwise}
use index.FeeModuleUtils.Fees.{
  inflation_amount_is_largest, streaming_fee_splits, post_fee-RoundsDown,
}

abbrev state : StreamingFeeState
state = record {
  fee_recipient = [];
  streaming_fee_percentage = pos 20_000_000_000_000_000;
  max_streaming_fee_percentage = pos 100_000_000_000_000_000;
  last_streaming_fee_timestamp = pos 0;
}

abbrev module_of : FeeModule
module_of = record { fee_states = λ a. ok state }

-- A debt of 3 and a holding of 3, after a fee of a half.
halved :
    get_post_fee_position_units (pos 3 ∷ negsuc 2 ∷ []) (pos 500_000_000_000_000_000)
    ≡ ok (pos 1 ∷ negsuc 1 ∷ [])
unfolding get_post_fee_position_units precise_mul precise_mul_ceil_int ◌*ℤ◌ ◌-ℤ◌ ◌+ℤ◌ tdiv
halved = refl

inflation_amount_is_largest_example :
    (m : ℕ) × (get_streaming_fee_inflation_amount (pos 7) (pos 1000) ≡ ok (pos m))
    × (m * unit ≤ 7 * (1000 + m))
    × (7 * (1000 + suc m) < suc m * unit)
inflation_amount_is_largest_example =
    inflation_amount_is_largest reference-IsBigNumber 7 1000 (omega arith)

streaming_fee_splits_example :
    (x y z : ℕ) × (get_streaming_fee module_of [] (pos 10) (pos 20) none ≡ ok (pos x))
    × (get_streaming_fee module_of [] (pos 20) (pos 40) none ≡ ok (pos y))
    × (get_streaming_fee module_of [] (pos 10) (pos 40) none ≡ ok (pos z))
    × (x + y ≤ z)
    × (z ≤ x + y + 1)
    × (z * 31_557_600 ≤ 30 * 20_000_000_000_000_000)
    × (30 * 20_000_000_000_000_000 < (z + 1) * 31_557_600)
streaming_fee_splits_example =
    streaming_fee_splits reference-IsBigNumber module_of [] none state 20_000_000_000_000_000 10 20
      40 refl refl (omega arith) (omega arith)

post_fee-RoundsDown_example :
    Returns
      (get_post_fee_position_units (pos 3 ∷ negsuc 2 ∷ []) (pos 5))
      (Pointwise (λ u. RoundsDown (u *ℤ pos (unit - 5)) precise_unit) (pos 3 ∷ negsuc 2 ∷ []))
post_fee-RoundsDown_example =
    post_fee-RoundsDown reference-IsBigNumber (pos 3 ∷ negsuc 2 ∷ []) 5 (omega arith)
