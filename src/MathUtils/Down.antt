-- ===== src/MathUtils/Down.antt =====
-- `divDown` of utils/common/mathUtils.ts.
use index.Base.{ℕ, suc, zero, ◌+◌, ◌*◌, ◌/◌, ◌%◌, ◌≤◌, ◌<◌, refl, inl, inr, Bool-cases, ◌==◌, arith}
use index.Base.Int.{ℤ, pos, negsuc, ◌+ℤ◌, ◌-ℤ◌, ◌*ℤ◌, tdiv, umod}
use index.BigNumber.{reference}
use index.Base.Signs.{opp}
use index.MathUtils.Closed.{div_down-pos-negsuc, div_down-negsuc-pos}
use index.MathUtils.{div_down}
use index.MathUtils.Spec.{RoundsDown, Divides}

opp-RoundsDown :
    (a b q : ℕ)
    → suc a ≤ q * suc b
    → q * suc b < suc a + suc b
    → RoundsDown (negsuc a) (pos (suc b)) (opp q)
unfolding ◌*ℤ◌ ◌+ℤ◌ opp
opp-RoundsDown a b q h k = ground arith

opp-RoundsDown_negsuc :
    (a b q : ℕ)
    → suc a ≤ q * suc b
    → q * suc b < suc a + suc b
    → RoundsDown (pos (suc a)) (negsuc b) (opp q)
unfolding ◌*ℤ◌ ◌+ℤ◌ opp
opp-RoundsDown_negsuc a b q h k = ground arith

pub div_down-RoundsDown_reference : (a b : ℤ) → Divides b (div_down a b) (RoundsDown a b)
unfolding div_down ◌*ℤ◌ ◌+ℤ◌ ◌-ℤ◌ tdiv umod opp
div_down-RoundsDown_reference a (pos zero) = refl
div_down-RoundsDown_reference (pos a) (pos (suc b)) = ground arith
div_down-RoundsDown_reference (pos zero) (negsuc b) = ground arith
div_down-RoundsDown_reference (pos (suc a)) (negsuc b) = elim (Bool-cases (suc a % suc b == 0)) [
  | inl e ↦
      rw (div_down-pos-negsuc a b, e)
        (opp-RoundsDown_negsuc a b (suc a / suc b) (ground arith) (ground arith))
  | inr e ↦
      rw (div_down-pos-negsuc a b, e)
        (opp-RoundsDown_negsuc a b (suc a / suc b + 1) (ground arith) (ground arith))
]
div_down-RoundsDown_reference (negsuc a) (pos (suc b)) = elim (Bool-cases (suc a % suc b == 0)) [
  | inl e ↦
      rw (div_down-negsuc-pos a b, e)
        (opp-RoundsDown a b (suc a / suc b) (ground arith) (ground arith))
  | inr e ↦
      rw (div_down-negsuc-pos a b, e)
        (opp-RoundsDown a b (suc a / suc b + 1) (ground arith) (ground arith))
]
div_down-RoundsDown_reference (negsuc a) (negsuc b) = ground arith
