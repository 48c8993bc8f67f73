-- ===== src/BigNumber/Reference.antt =====
-- A value of the interface that has the documented behaviour. Every other one is equal to it, so a
-- theorem proved of it holds of every `BigNumber` that is as documented.
use index.Base.{◌≡◌, refl}
use index.Base.Int.{pos, ◌+ℤ◌, ◌-ℤ◌, ◌*ℤ◌, nat_abs, ltb_ℤ, leb_ℤ, ◌==ℤ◌}
use index.BigNumber.Decimal.{decimal}
use index.BigNumber.Interface.{BigNumber, IsBigNumber, div_ℤ, mod_ℤ, pow_ℤ}

instance abbrev pub reference : BigNumber
reference = record {
  add = ◌+ℤ◌;
  sub = ◌-ℤ◌;
  mul = ◌*ℤ◌;
  div = div_ℤ;
  mod_of = mod_ℤ;
  pow = pow_ℤ;
  abs = λ a. pos (nat_abs a);
  eq = ◌==ℤ◌;
  lt = ltb_ℤ;
  gt = λ a b. ltb_ℤ b a;
  gte = λ a b. leb_ℤ b a;
  is_zero = λ a. a ==ℤ pos 0;
  to_string = decimal;
}

pub reference-IsBigNumber : IsBigNumber reference
reference-IsBigNumber = record {
  add_lem = λ a b. refl;
  sub_lem = λ a b. refl;
  mul_lem = λ a b. refl;
  div_lem = λ a b. refl;
  mod_lem = λ a b. refl;
  pow_lem = λ a n. refl;
  abs_lem = λ a. refl;
  eq_lem = λ a b. refl;
  lt_lem = λ a b. refl;
  gt_lem = λ a b. refl;
  gte_lem = λ a b. refl;
  is_zero_lem = λ a. refl;
  to_string_lem = λ a. refl;
}

-- A `BigNumber` with the documented behaviour is the reference.
pub eq_reference : {bn : BigNumber} → IsBigNumber bn → bn ≡ reference
eq_reference h = λ i. record {
  add = λ a b. h.add_lem a b i;
  sub = λ a b. h.sub_lem a b i;
  mul = λ a b. h.mul_lem a b i;
  div = λ a b. h.div_lem a b i;
  mod_of = λ a b. h.mod_lem a b i;
  pow = λ a n. h.pow_lem a n i;
  abs = λ a. h.abs_lem a i;
  eq = λ a b. h.eq_lem a b i;
  lt = λ a b. h.lt_lem a b i;
  gt = λ a b. h.gt_lem a b i;
  gte = λ a b. h.gte_lem a b i;
  is_zero = λ a. h.is_zero_lem a i;
  to_string = λ a. h.to_string_lem a i;
}
