-- ===== src/UniswapUtils/Pools.antt =====
-- Pools on the reference numbers.
use native.Mathlib.Nat.{le_refl, mul-le-mul}
use index.Base.{
  ℕ, suc, ◌+◌, ◌*◌, ◌/◌, ◌^◌, ◌≤◌, ◌<◌, ◌≡◌, refl, ◌∷◌, ok, err, false, inl, inr, ltb, Bool-cases,
  division_by_zero, arith,
}
use index.Base.Int.{pos}
use index.Base.Signs.{pos-*ℤ, pos-tdiv}
use index.BigNumber.{reference}
use index.BigNumber.Decimal.{decimal}
use index.Base.Text.{Text, text_lt}
use index.Contracts.{SetToken}
use index.MathUtils.Closed.{unit, precise_mul-pos, precise_div-pos}
use index.UniswapUtils.{
  UniswapV2Pair, Reserves, Token, StakingRewards, created, min, calculate_lp_tokens_issued,
  get_reserves_safe, calculate_tokens_in_reserve,
}
use index.UniswapUtils.Sqrt.{leading-digit}
use index.UniswapUtils.Smallest.{decimal-lt}

-- The share `l` out of `suc t` of a reserve.
pub share : ℕ → ℕ → ℕ → ℕ
share x t l = x * unit / suc t * l / unit

pub share_bounds :
    (x t l : ℕ)
    → (share x t l * suc t ≤ x * l)
      × (x * l * unit < (share x t l + 1) * unit * suc t + suc t * l + 1)
unfolding share
share_bounds x t l =
    let ratio = x * unit / suc t in
    let low : ratio * suc t ≤ x * unit = omega arith in
    let high : x * unit ≤ ratio * suc t + suc t = omega arith in
    let m = ratio * l / unit in
    let below : m * unit ≤ ratio * l = omega arith in
    let above : ratio * l ≤ m * unit + unit = omega arith in
    (
      omega (arith, mul-le-mul below (le_refl (suc t)), mul-le-mul low (le_refl l)),
      omega (arith, mul-le-mul above (le_refl (suc t)), mul-le-mul high (le_refl l)),
    )

pub tokens_in_reserve-pos :
    (set_token : SetToken) (one two : Token) (pool : UniswapV2Pair) (staking : StakingRewards)
    (x y t l : ℕ)
    → get_reserves_safe one.address two.address pool ≡ ok (pos x, pos y)
    → pool.total_supply ≡ ok (created (pos (suc t)))
    → staking.balance_of set_token.address ≡ ok (pos l)
    → calculate_tokens_in_reserve set_token one two pool staking
      ≡ ok (pos (share x t l), pos (share y t l))
unfolding calculate_tokens_in_reserve share
tokens_in_reserve-pos set_token one two pool staking x y t l reserves supply staked =
    simp (reserves, supply, staked, precise_div-pos, precise_mul-pos)

pub issued-empty :
    (pool : UniswapV2Pair) (r : Reserves) (a b : ℕ)
    → pool.get_reserves ≡ ok r
    → r.reserve0 ≡ pos 0
    → pool.total_supply ≡ ok (created (pos 0))
    → calculate_lp_tokens_issued pool (pos a) (pos b) ≡ err division_by_zero
unfolding calculate_lp_tokens_issued
issued-empty pool r a b reads none supply = simp (reads, supply, none)

min-pos :
    (k a b : ℕ)
    → 10 ^ k ≤ a
    → 10 ^ k ≤ b
    → a < 10 ^ suc k
    → b < 10 ^ suc k
    → (x : ℕ) × (min (pos a) (pos b) ≡ pos x) × (x ≤ a) × (x ≤ b)
unfolding min
min-pos k a b la lb ua ub = elim (Bool-cases (ltb a b)) [
  | inl e ↦ (a, rw (decimal-lt k a b la lb ua ub, e) refl, le_refl a, ground arith)
  | inr e ↦ (b, rw (decimal-lt k a b la lb ua ub, e) refl, ground arith, le_refl b)
]

pub issued-pos :
    (pool : UniswapV2Pair) (a b s r q k : ℕ)
    → pool.get_reserves ≡ ok (record { reserve0 = pos (suc r); reserve1 = pos (suc q) })
    → pool.total_supply ≡ ok (created (pos s))
    → 10 ^ k ≤ a * s / suc r
    → 10 ^ k ≤ b * s / suc q
    → a * s / suc r < 10 ^ suc k
    → b * s / suc q < 10 ^ suc k
    → (x : ℕ) × (calculate_lp_tokens_issued pool (pos a) (pos b) ≡ ok (pos x))
      × (x * suc r ≤ a * s)
      × (x * suc q ≤ b * s)
unfolding calculate_lp_tokens_issued
issued-pos pool a b s r q k reads supply la lb ua ub =
    let (x, is, le, ge) = min-pos k (a * s / suc r) (b * s / suc q) la lb ua ub in
    (
      x,
      simp (reads, supply, pos-*ℤ, pos-tdiv, is),
      omega (arith, mul-le-mul le (le_refl (suc r))),
      omega (arith, mul-le-mul ge (le_refl (suc q))),
    )

not-before : (c d : ℕ) (s t : Text) → d < c → text_lt (c ∷ s) (d ∷ t) ≡ false
not-before c d s t h = ground arith

pub min-low :
    (j k a b : ℕ)
    → 3 * 10 ^ j ≤ a
    → a < 10 ^ suc j
    → 10 ^ k ≤ b
    → b < 3 * 10 ^ k
    → min (pos a) (pos b) ≡ pos b
unfolding min decimal
min-low j k a b la ua lb ub =
    let (c, s, same, least, most) =
      leading-digit 3 10 j a a (omega arith) (omega arith) (le_refl a) la (omega arith) in
    let (d, t, other, less, top) =
      leading-digit 1 3 k b b (omega arith) (omega arith) (le_refl b) (omega arith) ub in
    rw (same, other, not-before c d s t (omega arith)) refl
