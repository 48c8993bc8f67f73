-- ===== src/UniswapUtils/Leading.antt =====
-- The signs of integers in their texts.
use index.Base.{
  ℕ, zero, suc, ◌+◌, ◌/◌, ◌%◌, ◌≤◌, ◌<◌, ◌≡◌, true, false, refl, ◌∙◌, inl, inr, [], ◌∷◌, ◌++◌,
  le-or-lt, arith,
}
use index.Base.Int.{pos, negsuc}
use index.Base.Text.{Text, text_lt}
use index.BigNumber.Decimal.{digits, decimal}
use index.UniswapUtils.Digits.{digits-small, digits-large}

positive-digit : (f v : ℕ) → v ≤ f → 1 ≤ v → (c : ℕ) × (s : Text) × (digits f v ≡ c ∷ s) × (48 < c)
positive-digit zero v le h = absurd (omega arith)
positive-digit (suc f) v le h = elim (le-or-lt 10 v) [
  | inl e ↦
      let (c, s, same, large) = positive-digit f (v / 10) (omega arith) (omega arith) in
      (c, s ++ ((48 + v % 10) ∷ []), digits-large f v e ∙ rw same refl, large)
  | inr e ↦ (48 + v, [], digits-small f v e, omega arith)
]

after_zero : (c : ℕ) (s : Text) → 48 < c → text_lt (48 ∷ []) (c ∷ s) ≡ true
after_zero c s h = ground arith

pub zero-before-positive : (n : ℕ) → text_lt (decimal (pos 0)) (decimal (pos (suc n))) ≡ true
unfolding decimal digits
zero-before-positive n =
    let (c, s, same, large) = positive-digit (suc n) (suc n) (omega arith) (omega arith) in
    rw same (after_zero c s large)

pub zero-before-negative : (n : ℕ) → text_lt (decimal (pos 0)) (decimal (negsuc n)) ≡ false
unfolding decimal digits
zero-before-negative n = refl

pub zero-before-zero : text_lt (decimal (pos 0)) (decimal (pos 0)) ≡ false
unfolding decimal digits
zero-before-zero = refl
