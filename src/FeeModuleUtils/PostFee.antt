-- ===== src/FeeModuleUtils/PostFee.antt =====
-- The units after a fee: `getPostFeePositionUnits` of utils/common/feeModuleUtils.ts rounds every
-- unit down, a debt too.
use index.Base.{
  true, leb, ℕ, zero, suc, ◌+◌, ◌-◌, ◌*◌, ◌/◌, ◌<◌, ◌≡◌, List, [], ◌∷◌, Returns, Result, ok, err,
  ◌>>=◌, arith,
}
use index.Base.Int.{ℤ, pos, negsuc, ◌-ℤ◌, ◌+ℤ◌, ◌*ℤ◌}
use index.Base.Signs.{pos-*ℤ, negsuc-*ℤ-pos, opp}
use index.BigNumber.{reference}
use index.Constants.{precise_unit}
use index.MathUtils.Closed.{
  unit, precise_mul-pos, precise_mul_ceil_int-negsuc, precise_mul_ceil_int-zero_right,
}
use index.MathUtils.Spec.{RoundsDown}
use index.FeeModuleUtils.{post_fee_unit, get_post_fee_position_units}

-- Two lists of one length are related element by element.
abbrev pub Pointwise : (ℤ → ℤ → Type 0) → List ℤ → List ℤ → Type 0
Pointwise R [] [] = Unit {0}
Pointwise R [] (v ∷ vs) = ⊥
Pointwise R (u ∷ us) [] = ⊥
Pointwise R (u ∷ us) (v ∷ vs) = R u v × Pointwise R us vs

down-pos : (n : ℕ) → RoundsDown (pos n) precise_unit (pos (n / unit))
unfolding ◌*ℤ◌ ◌+ℤ◌
down-pos n = ground arith

down-opp : (n : ℕ) → 0 < n → RoundsDown (opp n) precise_unit (opp ((n - 1) / unit + 1))
unfolding ◌*ℤ◌ ◌+ℤ◌ opp
down-opp n h = ground arith

remaining : (p d : ℕ) → p + d ≡ unit → precise_unit -ℤ pos p ≡ pos d
unfolding ◌-ℤ◌
remaining p d e = ground arith

leb_zero : (a : ℕ) → leb 0 a ≡ true
leb_zero a = ground arith

no_rest : (a : ℕ) → suc a * 0 ≡ 0
no_rest a = omega arith

opp_zero-RoundsDown : RoundsDown (opp 0) precise_unit (pos 0)
unfolding ◌*ℤ◌ ◌+ℤ◌ opp
opp_zero-RoundsDown = omega arith

-- One unit after the fee, where `d` is what the fee leaves of the whole.
post_fee_unit-RoundsDown :
    (u : ℤ) (p d : ℕ)
    → p + d ≡ unit
    → Returns (post_fee_unit u (pos p)) (RoundsDown (u *ℤ pos d) precise_unit)
unfolding post_fee_unit
post_fee_unit-RoundsDown (pos a) p d e =
    rw (post_fee_unit, leb_zero a, remaining p d e, precise_mul-pos a d, pos-*ℤ a d)
      (down-pos (a * d))
post_fee_unit-RoundsDown (negsuc a) p zero e =
    rw (remaining p 0 e, precise_mul_ceil_int-zero_right (negsuc a), negsuc-*ℤ-pos, no_rest a)
      (opp_zero-RoundsDown)
post_fee_unit-RoundsDown (negsuc a) p (suc d) e =
    rw (remaining p (suc d) e, precise_mul_ceil_int-negsuc a d, negsuc-*ℤ-pos)
      (down-opp (suc a * suc d) (grind arith))

push :
    (R : ℤ → ℤ → Type 0) (u : ℤ) (us : List ℤ) (first : Result ℤ) (rest : Result (List ℤ))
    → Returns first (R u)
    → Returns rest (Pointwise R us)
    → Returns (do v ← first; vs ← rest; ok (v ∷ vs)) (Pointwise R (u ∷ us))
push R u us (ok v) (ok vs) p q = (p, q)
push R u us (ok v) (err e) p q = q
push R u us (err e) rest p q = p

pub post_fee_units-Pointwise :
    (us : List ℤ) (p d : ℕ)
    → p + d ≡ unit
    → Returns
        (get_post_fee_position_units us (pos p))
        (Pointwise (λ u. RoundsDown (u *ℤ pos d) precise_unit) us)
unfolding get_post_fee_position_units
post_fee_units-Pointwise [] p d e = tt
post_fee_units-Pointwise (u ∷ us) p d e =
    push (λ u. RoundsDown (u *ℤ pos d) precise_unit) u us (post_fee_unit u (pos p))
      (get_post_fee_position_units us (pos p)) (post_fee_unit-RoundsDown u p d e)
      (post_fee_units-Pointwise us p d e)
