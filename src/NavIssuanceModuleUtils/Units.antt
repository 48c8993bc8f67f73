-- ===== src/NavIssuanceModuleUtils/Units.antt =====
-- The position units and quantities over numbers.
use native.Mathlib.Nat.{le_refl, mul-le-mul}
use index.Base.{ℕ, suc, zero, ◌+◌, ◌-◌, ◌*◌, ◌/◌, ◌≤◌, ◌<◌, ◌≡◌, ok, arith}
use index.Base.Int.{ℤ, pos}
use index.Base.Text.{Text}
use index.Base.Signs.{pos--ℤ, pos-+ℤ}
use index.BigNumber.{reference}
use index.Contracts.{SetToken}
use index.MathUtils.Closed.{
  unit, precise_mul-pos, precise_div-pos, precise_div-ℕ, precise_mul_ceil-ℕ,
}
use index.NavIssuanceModuleUtils.{
  SetValuer, get_expected_issue_position_unit, get_expected_redeem_position_unit,
  get_expected_reserve_redeem_quantity, get_expected_set_token_issue_quantity,
}
use index.NavIssuanceModuleUtils.Fees.{net, post_fee-net, net-le}
use index.NavIssuanceModuleUtils.Multiplier.{div_le}

-- A real unit that has become virtual and real again, by the multiplier `suc m`.
pub requantized : ℕ → ℕ → ℕ
requantized v m = v * suc m / unit * unit / suc m

pub requantized-bounds :
    (v m : ℕ) → (requantized v m ≤ v) × (v * suc m < (requantized v m + 1) * suc m + unit)
unfolding requantized
requantized-bounds v m =
    let small = div_le (v * suc m / unit * unit) v m (omega arith) in (small, omega arith)

pub issue_unit : (u n p c m : ℕ) → ℕ
issue_unit u n p c m = requantized ((p * u / unit + n) * unit / suc c) m

pub issue_position_unit-pos :
    (u q p c m f g : ℕ)
    → f + g ≤ unit
    → get_expected_issue_position_unit
        (pos u)
        (pos q)
        (pos p)
        (pos (suc c))
        (pos (suc m))
        (pos f)
        (pos g)
      ≡ ok (pos (issue_unit u (net q f g) p c m))
unfolding get_expected_issue_position_unit issue_unit requantized
issue_position_unit-pos u q p c m f g h =
    simp (post_fee-net q f g h, precise_mul-pos, precise_div-pos, pos-+ℤ)

-- The units of the whole supply are covered by what there was and what came in.
pub issue_unit-covered : (u n p c m : ℕ) → issue_unit u n p c m * suc c ≤ p * u + n * unit
unfolding issue_unit
issue_unit-covered u n p c m =
    let v = (p * u / unit + n) * unit / suc c in
    omega (arith, mul-le-mul (requantized-bounds v m).0 (le_refl (suc c)))

-- A notional value after the premium, which is rounded up.
pub after_premium : ℕ → ℕ → ℕ
after_premium r e = r - (r * e + (unit - 1)) / unit

pub premium-le : (r e : ℕ) → e ≤ unit → (r * e + (unit - 1)) / unit ≤ r
premium-le r e h =
    div_le (r * e + (unit - 1)) r (unit - 1) (omega (arith, mul-le-mul (le_refl r) h))

pub reserve_redeem-pos :
    (q v b f g e : ℕ)
    → f + g ≤ unit
    → e ≤ unit
    → get_expected_reserve_redeem_quantity (pos q) (pos v) (pos b) (pos f) (pos g) (pos e)
      ≡ ok (pos (net (after_premium (v * q / unit) e) f g * b / unit))
unfolding get_expected_reserve_redeem_quantity after_premium
reserve_redeem-pos q v b f g e h k =
    let r = v * q / unit in
    let left = pos--ℤ r ((r * e + (unit - 1)) / unit) (premium-le r e k) in
    simp (precise_mul-pos, precise_mul_ceil-ℕ, left, post_fee-net _ f g h)

pub redeem_unit : (u o p c m : ℕ) → ℕ
redeem_unit u o p c m = requantized ((p * u / unit - o) * unit / suc c) m

pub redeem_position_unit-pos :
    (u q v b p c m e : ℕ) (f g : ℤ)
    → e ≤ unit
    → after_premium (v * q / unit) e * b / unit ≤ p * u / unit
    → get_expected_redeem_position_unit
        (pos u)
        (pos q)
        (pos v)
        (pos b)
        (pos p)
        (pos (suc c))
        (pos (suc m))
        f
        g
        (pos e)
      ≡ ok (pos (redeem_unit u (after_premium (v * q / unit) e * b / unit) p c m))
unfolding get_expected_redeem_position_unit after_premium redeem_unit requantized
redeem_position_unit-pos u q v b p c m e f g k enough =
    let r = v * q / unit in
    let left = pos--ℤ r ((r * e + (unit - 1)) / unit) (premium-le r e k) in
    simp (precise_mul-pos, precise_mul_ceil-ℕ, left, pos--ℤ _ _ enough, precise_div-pos)

-- What leaves the position and the units that are left are covered by what there was.
pub redeem_unit-covered :
    (u o p c m : ℕ) → o ≤ p * u / unit → redeem_unit u o p c m * suc c + o * unit ≤ p * u
unfolding redeem_unit
redeem_unit-covered u o p c m h =
    let v = (p * u / unit - o) * unit / suc c in
    omega (arith, mul-le-mul (requantized-bounds v m).0 (le_refl (suc c)))

-- Fees only lower what is paid out.
pub paid-le : (r f g b : ℕ) → net r f g * b / unit ≤ r * b / unit
paid-le r f g b =
    div_le (net r f g * b) (r * b / unit) (unit - 1)
      (omega (arith, mul-le-mul (net-le r f g) (le_refl b)))

pub quotient-le : (a k d : ℕ) → a ≤ k → a / suc d ≤ k / suc d
quotient-le a k d h = div_le a (k / suc d) d (omega arith)

pub premium_left-le : (r e b t : ℕ) → r * b ≤ t → after_premium r e * b / unit ≤ t / unit
unfolding after_premium
premium_left-le r e b t h =
    let left : after_premium r e ≤ r = omega arith in
    quotient-le (after_premium r e * b) t 999_999_999_999_999_999
      (omega (arith, mul-le-mul left (le_refl b)))

share-le : (a e : ℕ) → e ≤ unit → a * e / unit ≤ a
share-le a e h = div_le (a * e) a (unit - 1) (omega (arith, mul-le-mul (le_refl a) h))

module _ (token : SetToken) (valuer : SetValuer) (asset : Text) (s v : ℕ)
    (supplied : token.total_supply ≡ ok (pos s))
    (valued : valuer.calculate_set_token_valuation token.address asset ≡ ok (pos v)) where
  -- Here `a` is the quantity after fees, and `k` after the premium as well.
  pub issue_quantity-pos :
      (q b f g e : ℕ)
      → f + g ≤ unit
      → e ≤ unit
      → let a = net q f g in
        let k = a - a * e / unit in
        let d = s * v / unit + a * unit / suc b - k * unit / suc b in
        0 < d
        → get_expected_set_token_issue_quantity token valuer asset
            (pos (suc b))
            (pos q)
            (pos f)
            (pos g)
            (pos e)
          ≡ ok (pos (k * unit / suc b * s / unit * unit / d))
  unfolding get_expected_set_token_issue_quantity
  issue_quantity-pos q b f g e h le some_value =
      let a = net q f g in
      let less = pos--ℤ a (a * e / unit) (share-le a e le) in
      let smaller = quotient-le ((a - a * e / unit) * unit) (a * unit) b (omega arith) in
      let value =
        pos--ℤ (s * v / unit + a * unit / suc b) ((a - a * e / unit) * unit / suc b)
          (omega (arith, smaller)) in
      simp
        (
          supplied,
          valued,
          post_fee-net q f g h,
          precise_mul-pos,
          precise_div-pos,
          pos-+ℤ,
          less,
          value,
        )
        (precise_div-ℕ _ _ some_value)

-- Tokens minted against a value of at least `t` each cost what `n` brings in.
pub minted-bound :
    (n s d t b k : ℕ)
    → 0 < d
    → t ≤ d
    → n * suc b ≤ k * unit
    → n * s / unit * unit / d * t * suc b ≤ k * unit * s
minted-bound n s zero t b k h le paid = absurd (omega arith)
minted-bound n s (suc d) t b k h le paid =
    let x = n * s / unit * unit / suc d in
    let worth : x * suc d ≤ n * s = omega arith in
    omega (
      arith,
      mul-le-mul (mul-le-mul (le_refl x) le) (le_refl (suc b)),
      mul-le-mul worth (le_refl (suc b)),
      mul-le-mul paid (le_refl s),
    )

pub contribution-le :
    (q f g e b : ℕ) → let a = net q f g in (a - a * e / unit) * unit / suc b * suc b ≤ q * unit
contribution-le q f g e b = omega (arith, net-le q f g)
