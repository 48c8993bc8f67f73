-- ===== src/Base/Signs.antt =====
-- The operations on integers where the signs are known: `opp n` is -n.
use Prim.Native.Nat.{ℕ, zero, suc, ◌+◌, ◌-◌, ◌*◌, ◌/◌, ◌%◌, ◌≤◌}
use mathlib.Core.Path.{◌≡◌, refl}
use native.Mathlib.Omega.{arith}
use index.Base.Tests.{◌==◌, if◌then◌else◌}
use index.Base.Int.{
  ℤ, pos, negsuc, sub_ℕ, pos_part, neg_part, nat_abs, ◌+ℤ◌, ◌-ℤ◌, ◌*ℤ◌, tdiv, umod, ◌==ℤ◌,
}

unfoldable pub opp : ℕ → ℤ
opp n = sub_ℕ 0 n

pub opp_parts : (n : ℕ) → (pos_part (opp n) ≡ 0) × (neg_part (opp n) ≡ n) × (nat_abs (opp n) ≡ n)
unfolding opp
opp_parts n = ground arith

pub pos-+ℤ : (m n : ℕ) → pos m +ℤ pos n ≡ pos (m + n)
unfolding ◌+ℤ◌
pos-+ℤ m n = ground arith

pub opp-+ℤ : (m n : ℕ) → n ≤ m → opp m +ℤ pos n ≡ opp (m - n)
unfolding ◌+ℤ◌ opp
opp-+ℤ m n h = ground arith

pub pos--ℤ : (m n : ℕ) → n ≤ m → pos m -ℤ pos n ≡ pos (m - n)
unfolding ◌-ℤ◌
pos--ℤ m n h = ground arith

pub opp--ℤ : (m n : ℕ) → opp m -ℤ pos n ≡ opp (m + n)
unfolding ◌-ℤ◌ opp
opp--ℤ m n = ground arith

pub pos-*ℤ : (m n : ℕ) → pos m *ℤ pos n ≡ pos (m * n)
unfolding ◌*ℤ◌
pos-*ℤ m n = ground arith

pub pos-*ℤ-negsuc : (m n : ℕ) → pos m *ℤ negsuc n ≡ opp (m * suc n)
unfolding ◌*ℤ◌ opp
pos-*ℤ-negsuc m n = ground arith

pub negsuc-*ℤ-pos : (m n : ℕ) → negsuc m *ℤ pos n ≡ opp (suc m * n)
unfolding ◌*ℤ◌ opp
negsuc-*ℤ-pos m n = ground arith

pub negsuc-*ℤ : (m n : ℕ) → negsuc m *ℤ negsuc n ≡ pos (suc m * suc n)
unfolding ◌*ℤ◌ opp
negsuc-*ℤ m n = ground arith

pub negsuc-*ℤ-minus_one : (m : ℕ) → negsuc m *ℤ negsuc 0 ≡ pos (suc m)
unfolding ◌*ℤ◌
negsuc-*ℤ-minus_one m = ground arith

pub opp-*ℤ-pos : (m n : ℕ) → opp m *ℤ pos n ≡ opp (m * n)
unfolding ◌*ℤ◌ opp
opp-*ℤ-pos zero n = ground arith
opp-*ℤ-pos (suc m) n = ground arith

pub opp-*ℤ-negsuc : (m n : ℕ) → opp m *ℤ negsuc n ≡ pos (m * suc n)
unfolding ◌*ℤ◌ opp
opp-*ℤ-negsuc zero n = ground arith
opp-*ℤ-negsuc (suc m) n = ground arith

pub pos-tdiv : (m n : ℕ) → tdiv (pos m) (pos n) ≡ pos (m / n)
unfolding tdiv
pos-tdiv m n = ground arith

pub opp-tdiv : (m n : ℕ) → tdiv (opp m) (pos n) ≡ opp (m / n)
unfolding tdiv opp
opp-tdiv zero n = ground arith
opp-tdiv (suc m) n = ground arith

pub pos-tdiv-negsuc : (m n : ℕ) → tdiv (pos m) (negsuc n) ≡ opp (m / suc n)
unfolding tdiv opp
pos-tdiv-negsuc m n = ground arith

pub opp-tdiv-negsuc : (m n : ℕ) → tdiv (opp m) (negsuc n) ≡ pos (m / suc n)
unfolding tdiv opp
opp-tdiv-negsuc zero n = ground arith
opp-tdiv-negsuc (suc m) n = ground arith

pub negsuc-tdiv-pos : (m n : ℕ) → tdiv (negsuc m) (pos n) ≡ opp (suc m / n)
unfolding tdiv opp
negsuc-tdiv-pos m n = ground arith

pub negsuc-tdiv : (m n : ℕ) → tdiv (negsuc m) (negsuc n) ≡ pos (suc m / suc n)
unfolding tdiv opp
negsuc-tdiv m n = ground arith

pub umod-negsuc :
    (m n : ℕ) → umod (negsuc m) n ≡ (if suc m % n == 0 then pos 0 else pos (n - suc m % n))
unfolding umod
umod-negsuc m n = ground arith

pub negsuc-eq-opp : (n : ℕ) → negsuc n ≡ opp (suc n)
unfolding opp
negsuc-eq-opp n = ground arith

pub opp-==ℤ : (m n : ℕ) → (opp m ==ℤ opp n) ≡ m == n
unfolding opp
opp-==ℤ zero zero = refl
opp-==ℤ zero (suc n) = ground arith
opp-==ℤ (suc m) zero = ground arith
opp-==ℤ (suc m) (suc n) = ground arith

pub ruleset sign_laws = (
  pos-+ℤ, opp--ℤ, pos-*ℤ, pos-*ℤ-negsuc, negsuc-*ℤ-pos, negsuc-*ℤ, opp-*ℤ-pos, opp-*ℤ-negsuc,
  pos-tdiv, opp-tdiv, pos-tdiv-negsuc, opp-tdiv-negsuc, negsuc-tdiv-pos, negsuc-tdiv,
)
