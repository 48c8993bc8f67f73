-- ===== src/FeeModuleUtils/Inflation.antt =====
-- The streaming fee over a stretch of time, and the amount minted for it.
use index.Base.{Option, get_or, ap, ℕ, suc, ◌+◌, ◌-◌, ◌*◌, ◌/◌, ◌≤◌, ◌<◌, ◌≡◌, ok, arith}
use index.Base.Int.{ℤ, pos}
use index.Base.Signs.{pos--ℤ, pos-*ℤ, sign_laws}
use index.Base.Text.{Text}
use index.BigNumber.{reference}
use index.MathUtils.Closed.{unit, div_ℤ-pos}
use index.FeeModuleUtils.{
  FeeModule, StreamingFeeState, get_streaming_fee, get_streaming_fee_inflation_amount,
}

pub inflation_amount-pos :
    (p s : ℕ)
    → p < unit
    → get_streaming_fee_inflation_amount (pos p) (pos s) ≡ ok (pos (p * s / (unit - p)))
unfolding get_streaming_fee_inflation_amount
inflation_amount-pos p s h =
    simp (pos-*ℤ, pos--ℤ unit p (omega arith), div_ℤ-pos (p * s) (unit - p) (omega arith))

pub mint_share :
    (p s d : ℕ)
    → 0 < d
    → p + d ≡ unit
    → let m = p * s / d in (m * unit ≤ p * (s + m)) × (p * (s + suc m) < suc m * unit)
mint_share p s d h e = omega (arith, ap (λ (t : ℕ). (p * s / d) * t) e)

module _ (fm : FeeModule) (a : Text) (o : Option ℤ) (st : StreamingFeeState) (f : ℕ) where
  pub streaming_fee-pos :
      fm.fee_states a ≡ ok st
      → get_or o st.streaming_fee_percentage ≡ pos f
      → (t₀ t₁ : ℕ) → t₀ ≤ t₁
      → get_streaming_fee fm a (pos t₀) (pos t₁) o ≡ ok (pos ((t₁ - t₀) * f / 31_557_600))
  unfolding get_streaming_fee
  streaming_fee-pos read rate t₀ t₁ h = rw (read, rate) (simp (sign_laws, pos--ℤ t₁ t₀ h))

pub share_split :
    (x y f : ℕ)
    → (x * f / 31_557_600 + y * f / 31_557_600 ≤ (x + y) * f / 31_557_600)
      × ((x + y) * f / 31_557_600 ≤ x * f / 31_557_600 + y * f / 31_557_600 + 1)
share_split x y f = omega arith
