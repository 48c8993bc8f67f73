-- ===== src/UniswapUtils/Sqrt.antt =====
-- `sqrt` on the reference numbers: the loop ends, since the texts of its values fall.
use native.Mathlib.Nat.{div-le_self, le_refl, mul-le-mul, mul_assoc}
use index.Base.{
  ℕ, zero, suc, ◌+◌, ◌*◌, ◌/◌, ◌%◌, ◌^◌, ◌≤◌, ◌<◌, ◌≡◌, true, false, refl, sym, ◌∙◌, ap, inl, inr,
  [], ◌∷◌, ◌++◌, length, Bool-cases, Returns, ok, le-or-lt, arith,
}
use index.Base.Int.{ℤ, pos}
use index.Base.Signs.{pos-+ℤ, pos-tdiv}
use index.Base.Text.{Text, text_lt}
use index.BigNumber.{reference}
use index.BigNumber.Decimal.{digits, decimal}
use index.MathUtils.Closed.{div_ℤ-pos}
use index.UniswapUtils.{created, sqrt, sqrt_loop, sqrt_fuel}
use index.UniswapUtils.Digits.{text-All, digits-small, digits-large, decimal-length-le}
use index.UniswapUtils.Order.{rank, rank-lt, rank-lt-pow}

-- A number in a range, as the code has it.
unfoldable pub InRange : ℕ → ℕ → ℤ → Type 0
InRange low high a = (n : ℕ) × (a ≡ pos n) × (low ≤ n) × (n ≤ high)

-- Where the text of `x` comes before that of `z`, both at most `v`, so does its rank.
text-rank :
    (v x z : ℕ)
    → x ≤ v
    → z ≤ v
    → text_lt (decimal (pos x)) (decimal (pos z)) ≡ true
    → rank (length (decimal (pos v))) (decimal (pos x))
      < rank (length (decimal (pos v))) (decimal (pos z))
text-rank v x z hx hz h =
    rank-lt (length (decimal (pos v))) (decimal (pos x)) (decimal (pos z)) (text-All x) (text-All z)
      (decimal-length-le x v hx) (decimal-length-le z v hz) h

next-range : (v x : ℕ) → 1 ≤ v → 1 ≤ x → x ≤ v → (1 ≤ (v / x + x) / 2) × ((v / x + x) / 2 ≤ v)
next-range v x hv hx le =
    let whole = div-le_self v x in
    elim (le-or-lt x 1) [
      | inl e ↦ let one : x ≡ 1 = omega arith in rw one (omega arith)
      | inr e ↦ (omega arith, omega arith)
    ]

sqrt_loop-returns :
    (f v x z : ℕ)
    → 1 ≤ v
    → 1 ≤ x
    → x ≤ v
    → 1 ≤ z
    → z ≤ v
    → rank (length (decimal (pos v))) (decimal (pos z)) < f
    → Returns (sqrt_loop f (pos v) (pos x) (pos z)) (InRange 1 v)
unfolding sqrt_loop InRange
sqrt_loop-returns zero v x z hv hx xv hz zv h = absurd (omega arith)
sqrt_loop-returns (suc f) v x z hv hx xv hz zv h =
    elim (Bool-cases (text_lt (decimal (pos x)) (decimal (pos z)))) [
      | inl e ↦
          let (positive, small) = next-range v x hv hx xv in
          rw (sqrt_loop, e, div_ℤ-pos v x hx, pos-+ℤ, pos-tdiv)
            (sqrt_loop-returns f v ((v / x + x) / 2) x hv positive small hx xv
              (omega (arith, text-rank v x z xv zv e)))
      | inr e ↦ rw (sqrt_loop, e) (z, refl, hz, zv)
    ]

sqrt-loops :
    (v : ℕ)
    → 1 ≤ v
    → Returns (sqrt_loop (sqrt_fuel (pos v)) (pos v) (pos (v / 2 + 1)) (pos v)) (InRange 1 v)
unfolding sqrt_fuel
sqrt-loops v h =
    let l = length (decimal (pos v)) in
    sqrt_loop-returns (100 ^ suc l) v (v / 2 + 1) v h (omega arith) (omega arith) h (le_refl v)
      (omega (arith, rank-lt-pow l (decimal (pos v)) (text-All v)))

pub sqrt-InRange : (v : ℕ) → 1 ≤ v → Returns (sqrt (created (pos v))) (InRange 1 v)
unfolding sqrt InRange
sqrt-InRange v h = elim (Bool-cases (text_lt (decimal (pos 3)) (decimal (pos v)))) [
  | inl e ↦ rw (e, pos-tdiv, pos-+ℤ) (sqrt-loops v h)
  | inr e ↦ rw e (1, refl, le_refl 1, h)
]

not_before : (c : ℕ) (s : Text) → c < 51 → text_lt (51 ∷ []) (c ∷ s) ≡ false
not_before c s h = ground arith

three : decimal (pos 3) ≡ 51 ∷ []
unfolding decimal digits
three = refl

pub pow_ten-pos : (k : ℕ) → 1 ≤ 10 ^ k
pow_ten-pos zero = omega arith
pow_ten-pos (suc k) = omega (arith, pow_ten-pos k)

scaled : (e k : ℕ) → e * 10 ^ suc k ≡ e * 10 ^ k * 10
scaled e k =
    let next : 10 ^ suc k ≡ 10 ^ k * 10 = omega arith in
    ap (λ (t : ℕ). e * t) next ∙ sym (mul_assoc e (10 ^ k) 10)

pub leading-digit :
    (d e k f v : ℕ)
    → 1 ≤ d
    → e ≤ 10
    → v ≤ f
    → d * 10 ^ k ≤ v
    → v < e * 10 ^ k
    → (c : ℕ) × (s : Text) × (digits f v ≡ c ∷ s) × (48 + d ≤ c) × (c < 48 + e)
leading-digit d e zero zero v pd small le low high = absurd (omega arith)
leading-digit d e zero (suc f) v pd small le low high =
    (48 + v, [], digits-small f v (omega arith), omega arith, omega arith)
leading-digit d e (suc k) zero v pd small le low high =
    absurd (omega (arith, mul-le-mul pd (pow_ten-pos (suc k))))
leading-digit d e (suc k) (suc f) v pd small le low high =
    let large = mul-le-mul pd (pow_ten-pos k) in
    let (c, s, same, least, most) =
      leading-digit d e k f (v / 10) pd small (omega (arith, large, scaled d k))
        (omega (arith, scaled d k)) (omega (arith, scaled e k)) in
    (
      c,
      s ++ ((48 + v % 10) ∷ []),
      digits-large f v (omega (arith, large, scaled d k)) ∙ rw same refl,
      least,
      most,
    )

pub sqrt-one : (k v : ℕ) → 10 ^ k ≤ v → v < 3 * 10 ^ k → sqrt (created (pos v)) ≡ ok (pos 1)
unfolding sqrt decimal
sqrt-one k v low high =
    let (c, s, same, least, most) =
      leading-digit 1 3 k v v (omega arith) (omega arith) (le_refl v) (omega arith) high in
    rw (three, same, not_before c s (omega arith)) refl
