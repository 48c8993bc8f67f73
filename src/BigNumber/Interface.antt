-- ===== src/BigNumber/Interface.antt =====
-- The methods of `BigNumber`, and what its documentation says of them.
use index.Base.{ℕ, zero, suc, ◌≡◌, Bool, Result, ok, err, division_by_zero, negative_modulus}
use index.Base.Int.{ℤ, pos, negsuc, ◌+ℤ◌, ◌-ℤ◌, ◌*ℤ◌, tdiv, umod, nat_abs, ltb_ℤ, leb_ℤ, ◌==ℤ◌}
use index.Base.Text.{Text}
use index.BigNumber.Decimal.{decimal}

pub record BigNumber : Type 0 where
  pub add : ℤ → ℤ → ℤ
  pub sub : ℤ → ℤ → ℤ
  pub mul : ℤ → ℤ → ℤ
  pub div : ℤ → ℤ → Result ℤ
  pub mod_of : ℤ → ℤ → Result ℤ
  pub pow : ℤ → ℕ → ℤ
  pub abs : ℤ → ℤ
  pub eq : ℤ → ℤ → Bool
  pub lt : ℤ → ℤ → Bool
  pub gt : ℤ → ℤ → Bool
  pub gte : ℤ → ℤ → Bool
  pub is_zero : ℤ → Bool
  pub to_string : ℤ → Text

-- The quotient, rounded towards zero; a zero divisor is a fault.
abbrev pub div_ℤ : ℤ → ℤ → Result ℤ
div_ℤ a (pos zero) = err division_by_zero
div_ℤ a (pos (suc n)) = ok (tdiv a (pos (suc n)))
div_ℤ a (negsuc n) = ok (tdiv a (negsuc n))

-- The remainder in `[0, b)`; a modulus that is not positive is a fault.
abbrev pub mod_ℤ : ℤ → ℤ → Result ℤ
mod_ℤ a (pos zero) = err division_by_zero
mod_ℤ a (pos (suc n)) = ok (umod a (suc n))
mod_ℤ a (negsuc n) = err negative_modulus

abbrev pub pow_ℤ : ℤ → ℕ → ℤ
pow_ℤ a zero = pos 1
pow_ℤ a (suc n) = a *ℤ pow_ℤ a n

pub record IsBigNumber (bn : BigNumber) : Type 0 where
  pub add_lem : (a b : ℤ) → bn.add a b ≡ a +ℤ b
  pub sub_lem : (a b : ℤ) → bn.sub a b ≡ a -ℤ b
  pub mul_lem : (a b : ℤ) → bn.mul a b ≡ a *ℤ b
  pub div_lem : (a b : ℤ) → bn.div a b ≡ div_ℤ a b
  pub mod_lem : (a b : ℤ) → bn.mod_of a b ≡ mod_ℤ a b
  pub pow_lem : (a : ℤ) (n : ℕ) → bn.pow a n ≡ pow_ℤ a n
  pub abs_lem : (a : ℤ) → bn.abs a ≡ pos (nat_abs a)
  pub eq_lem : (a b : ℤ) → bn.eq a b ≡ a ==ℤ b
  pub lt_lem : (a b : ℤ) → bn.lt a b ≡ ltb_ℤ a b
  pub gt_lem : (a b : ℤ) → bn.gt a b ≡ ltb_ℤ b a
  pub gte_lem : (a b : ℤ) → bn.gte a b ≡ leb_ℤ b a
  pub is_zero_lem : (a : ℤ) → bn.is_zero a ≡ a ==ℤ pos 0
  pub to_string_lem : (a : ℤ) → bn.to_string a ≡ decimal a
