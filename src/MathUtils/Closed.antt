-- ===== src/MathUtils/Closed.antt =====
-- The routines of utils/common/mathUtils.ts on the reference numbers, sign by sign.
use native.Mathlib.Nat.{zero-div, div-eq_of_lt, add-div_right}
use index.Base.{
  ap, sym, ◌∙◌, err, division_by_zero, zero, ◌≤◌, ◌<◌, ℕ, inl, inr, ◌%◌, ◌==◌, Bool-cases,
  if◌then◌else◌, suc, ◌+◌, ◌-◌, ◌*◌, ◌/◌, ◌≡◌, refl, ok, arith,
}
use index.Base.Int.{umod, ℤ, pos, negsuc}
use index.Base.Signs.{
  opp, sign_laws, pos--ℤ, opp-+ℤ, umod-negsuc, pos-tdiv-negsuc, negsuc-*ℤ-minus_one, opp--ℤ,
  opp-==ℤ,
}
use index.BigNumber.{div_ℤ, reference}
use index.MathUtils.{
  precise_mul, precise_mul_ceil, precise_mul_ceil_int, precise_div, precise_div_ceil,
  precise_div_ceil_int, div_down,
}

abbrev pub unit : ℕ
unit = 1_000_000_000_000_000_000

pub precise_mul-pos : (a b : ℕ) → precise_mul (pos a) (pos b) ≡ ok (pos (a * b / unit))
unfolding precise_mul
precise_mul-pos a b = simp sign_laws

pub precise_mul-negsuc : (a b : ℕ) → precise_mul (negsuc a) (pos b) ≡ ok (opp (suc a * b / unit))
unfolding precise_mul
precise_mul-negsuc a b = simp sign_laws

pub precise_mul_ceil-pos :
    (a b : ℕ)
    → precise_mul_ceil (pos (suc a)) (pos (suc b)) ≡ ok (pos ((suc a * suc b - 1) / unit + 1))
unfolding precise_mul_ceil
precise_mul_ceil-pos a b = simp (sign_laws, pos--ℤ (suc a * suc b) 1 (grind arith)) (ground arith)

pub precise_mul_ceil_int-pos :
    (a b : ℕ)
    → precise_mul_ceil_int (pos (suc a)) (pos (suc b)) ≡ ok (pos ((suc a * suc b - 1) / unit + 1))
unfolding precise_mul_ceil_int
precise_mul_ceil_int-pos a b =
    simp (sign_laws, pos--ℤ (suc a * suc b) 1 (grind arith)) (ground arith)

pub precise_mul_ceil_int-negsuc :
    (a b : ℕ)
    → precise_mul_ceil_int (negsuc a) (pos (suc b)) ≡ ok (opp ((suc a * suc b - 1) / unit + 1))
unfolding precise_mul_ceil_int
precise_mul_ceil_int-negsuc a b =
    simp (sign_laws, opp-+ℤ (suc a * suc b) 1 (grind arith)) (ground arith)

pub precise_mul_ceil_int-pos-negsuc :
    (a b : ℕ)
    → precise_mul_ceil_int (pos (suc a)) (negsuc b) ≡ ok (opp ((suc a * suc b - 1) / unit + 1))
unfolding precise_mul_ceil_int
precise_mul_ceil_int-pos-negsuc a b =
    simp (sign_laws, opp-+ℤ (suc a * suc b) 1 (grind arith)) (ground arith)

pub precise_mul_ceil_int-negsuc-negsuc :
    (a b : ℕ)
    → precise_mul_ceil_int (negsuc a) (negsuc b) ≡ ok (pos ((suc a * suc b - 1) / unit + 1))
unfolding precise_mul_ceil_int
precise_mul_ceil_int-negsuc-negsuc a b =
    simp (sign_laws, pos--ℤ (suc a * suc b) 1 (grind arith)) (ground arith)

pub precise_div-pos : (a b : ℕ) → precise_div (pos a) (pos (suc b)) ≡ ok (pos (a * unit / suc b))
unfolding precise_div
precise_div-pos a b = simp sign_laws

pub precise_div_ceil-pos :
    (a b : ℕ)
    → precise_div_ceil (pos (suc a)) (pos (suc b)) ≡ ok (pos ((suc a * unit - 1) / suc b + 1))
unfolding precise_div_ceil
precise_div_ceil-pos a b = simp (sign_laws, pos--ℤ (suc a * unit) 1 (grind arith)) (ground arith)

-- Whatever the divisor, the quotient of nothing is nothing; and so is a quotient by zero.
pub precise_div_ceil-zero : (a : ℤ) → precise_div_ceil a (pos 0) ≡ ok (pos 0)
unfolding precise_div_ceil
precise_div_ceil-zero (pos a) = ground arith
precise_div_ceil-zero (negsuc a) = ground arith

pub div_down-negsuc-pos :
    (a b : ℕ)
    → div_down (negsuc a) (pos (suc b))
      ≡ ok (opp (if suc a % suc b == 0 then suc a / suc b else suc a / suc b + 1))
unfolding div_down
div_down-negsuc-pos a b = elim (Bool-cases (suc a % suc b == 0)) [
  | inl e ↦ simp (sign_laws, umod-negsuc, e) (ground arith)
  | inr e ↦ simp (sign_laws, umod-negsuc, e) (ground arith)
]

pub div_down-pos-negsuc :
    (a b : ℕ)
    → div_down (pos (suc a)) (negsuc b)
      ≡ ok (opp (if suc a % suc b == 0 then suc a / suc b else suc a / suc b + 1))
unfolding div_down umod
div_down-pos-negsuc a b = elim (Bool-cases (suc a % suc b == 0)) [
  | inl e ↦ simp (pos-tdiv-negsuc, negsuc-*ℤ-minus_one, opp--ℤ, e) (ground arith)
  | inr e ↦ simp (pos-tdiv-negsuc, negsuc-*ℤ-minus_one, opp--ℤ, e) (ground arith)
]

pub precise_mul_ceil_int-zero : (b : ℤ) → precise_mul_ceil_int (pos 0) b ≡ ok (pos 0)
unfolding precise_mul_ceil_int
precise_mul_ceil_int-zero b = refl

pub precise_mul_ceil_int-zero_right : (a : ℤ) → precise_mul_ceil_int a (pos 0) ≡ ok (pos 0)
unfolding precise_mul_ceil_int
precise_mul_ceil_int-zero_right (pos a) = ground arith
precise_mul_ceil_int-zero_right (negsuc a) = refl

-- The magnitude of a quotient by `d`, rounded up.
unfoldable pub round_up : ℕ → ℕ → ℕ
round_up n d = if n / d * d == n then n / d else n / d + 1

pub precise_div_ceil_int-pos :
    (a b : ℕ)
    → precise_div_ceil_int (pos (suc a)) (pos (suc b)) ≡ ok (pos (round_up (suc a * unit) (suc b)))
unfolding precise_div_ceil_int round_up
precise_div_ceil_int-pos a b = simp sign_laws (ground arith)

pub precise_div_ceil_int-negsuc-pos :
    (a b : ℕ)
    → precise_div_ceil_int (negsuc a) (pos (suc b)) ≡ ok (opp (round_up (suc a * unit) (suc b)))
unfolding precise_div_ceil_int round_up
precise_div_ceil_int-negsuc-pos a b = simp (sign_laws, opp-==ℤ) (ground arith)

pub precise_div_ceil_int-pos-negsuc :
    (a b : ℕ)
    → precise_div_ceil_int (pos (suc a)) (negsuc b) ≡ ok (opp (round_up (suc a * unit) (suc b)))
unfolding precise_div_ceil_int round_up
precise_div_ceil_int-pos-negsuc a b = simp sign_laws (ground arith)

pub precise_div_ceil_int-negsuc :
    (a b : ℕ)
    → precise_div_ceil_int (negsuc a) (negsuc b) ≡ ok (pos (round_up (suc a * unit) (suc b)))
unfolding precise_div_ceil_int round_up
precise_div_ceil_int-negsuc a b = simp (sign_laws, opp-==ℤ) (ground arith)

pub round_up_bounds :
    (n d : ℕ) → (n ≤ round_up n (suc d) * suc d) × (round_up n (suc d) * suc d < n + suc d)
unfolding round_up
round_up_bounds n d = elim (Bool-cases (n / suc d * suc d == n)) [
  | inl e ↦ rw e (ground arith)
  | inr e ↦ rw e (ground arith)
]

pub precise_div_ceil_int-zero-pos :
    (b : ℕ) → precise_div_ceil_int (pos 0) (pos (suc b)) ≡ ok (pos 0)
unfolding precise_div_ceil_int
precise_div_ceil_int-zero-pos b = simp (sign_laws, zero-div) (ground arith)

pub precise_div_ceil_int-zero-negsuc :
    (b : ℕ) → precise_div_ceil_int (pos 0) (negsuc b) ≡ ok (pos 0)
unfolding precise_div_ceil_int opp
precise_div_ceil_int-zero-negsuc b = simp (sign_laws, zero-div) (ground arith)

pub precise_div_ceil_int-by_zero :
    (a : ℤ) → precise_div_ceil_int a (pos zero) ≡ err division_by_zero
unfolding precise_div_ceil_int
precise_div_ceil_int-by_zero a = refl

pub div_ℤ-pos : (a d : ℕ) → 0 < d → div_ℤ (pos a) (pos d) ≡ ok (pos (a / d))
div_ℤ-pos a zero h = absurd (omega arith)
div_ℤ-pos a (suc d) h = simp sign_laws

pub precise_mul_ceil-zero : (b : ℕ) → precise_mul_ceil (pos 0) (pos b) ≡ ok (pos 0)
unfolding precise_mul_ceil
precise_mul_ceil-zero b = refl

pub precise_mul_ceil-zero_right : (a : ℕ) → precise_mul_ceil (pos a) (pos 0) ≡ ok (pos 0)
unfolding precise_mul_ceil
precise_mul_ceil-zero_right a = ground arith

pub precise_div_ceil-zero_left : (d : ℕ) → precise_div_ceil (pos 0) (pos d) ≡ ok (pos 0)
unfolding precise_div_ceil
precise_div_ceil-zero_left d = refl

-- The products and quotients of numbers, for all arguments: rounding up adds what is just below one.
pub precise_mul_ceil-ℕ :
    (a b : ℕ) → precise_mul_ceil (pos a) (pos b) ≡ ok (pos ((a * b + (unit - 1)) / unit))
precise_mul_ceil-ℕ zero b = precise_mul_ceil-zero b ∙ ap (λ n. ok (pos n)) (omega arith)
precise_mul_ceil-ℕ (suc a) zero =
    precise_mul_ceil-zero_right (suc a) ∙ ap (λ n. ok (pos n)) (omega arith)
precise_mul_ceil-ℕ (suc a) (suc b) = precise_mul_ceil-pos a b ∙ ap (λ n. ok (pos n)) (grind arith)

ceil_shift : (n d : ℕ) → 0 < n → (n - 1) / suc d + 1 ≡ (n + d) / suc d
ceil_shift n d h =
    let e : n - 1 + suc d ≡ n + d = omega arith in
    sym (add-div_right (n - 1) (omega arith)) ∙ ap (λ t. t / suc d) e

pub precise_div_ceil-ℕ :
    (a d : ℕ) → precise_div_ceil (pos a) (pos (suc d)) ≡ ok (pos ((a * unit + d) / suc d))
precise_div_ceil-ℕ zero d =
    precise_div_ceil-zero_left (suc d) ∙ ap (λ n. ok (pos n)) (sym (div-eq_of_lt (omega arith)))
precise_div_ceil-ℕ (suc a) d =
    precise_div_ceil-pos a d ∙ ap (λ n. ok (pos n)) (ceil_shift (suc a * unit) d (omega arith))

pub precise_div-ℕ : (a d : ℕ) → 0 < d → precise_div (pos a) (pos d) ≡ ok (pos (a * unit / d))
precise_div-ℕ a zero h = absurd (omega arith)
precise_div-ℕ a (suc d) h = precise_div-pos a d

pub precise_div-by_zero : (a : ℤ) → precise_div a (pos 0) ≡ err division_by_zero
unfolding precise_div
precise_div-by_zero a = refl
