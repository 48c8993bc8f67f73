-- ===== src/UniswapUtils/Shares.antt =====
-- What a pool is expected to issue, and the share of its reserves that a SetToken has staked.
use index.Base.{ℕ, suc, ◌+◌, ◌*◌, ◌/◌, ◌^◌, ◌≤◌, ◌<◌, ◌≡◌, ok, err, division_by_zero, Returns}
use index.Base.Int.{pos}
use index.BigNumber.{BigNumber, IsBigNumber, eq_reference}
use index.Contracts.{SetToken}
use index.MathUtils.Closed.{unit}
use index.UniswapUtils.{
  UniswapV2Pair, Reserves, Token, StakingRewards, created, sqrt, min, calculate_lp_tokens_issued,
  get_reserves_safe, calculate_tokens_in_reserve,
}
use index.UniswapUtils.Sqrt.{InRange, sqrt-InRange, sqrt-one}
use index.UniswapUtils.Pools.{
  share, share_bounds, tokens_in_reserve-pos, issued-empty, issued-pos, min-low,
}

-- The root of a positive number is found in finitely many rounds, and lies between 1 and the number.
pub sqrt_ends :
    ⦃bn : BigNumber⦄ (h : IsBigNumber bn) (v : ℕ)
    → 1 ≤ v
    → Returns (sqrt (created (pos v))) (InRange 1 v)
sqrt_ends h v positive = rw (eq_reference h) (sqrt-InRange v positive)

-- Where the pool answers with a supply of zero, which is an object of its own, and with an empty first
-- reserve, no tokens are expected to be issued: the division by the reserve throws.
pub first_deposit_throws :
    ⦃bn : BigNumber⦄ (h : IsBigNumber bn) (pool : UniswapV2Pair) (r : Reserves) (a b : ℕ)
    → pool.get_reserves ≡ ok r
    → r.reserve0 ≡ pos 0
    → pool.total_supply ≡ ok (created (pos 0))
    → calculate_lp_tokens_issued pool (pos a) (pos b) ≡ err division_by_zero
first_deposit_throws h pool r a b reads none supply =
    rw (eq_reference h) (issued-empty pool r a b reads none supply)

-- Where both reserves are positive and the two amounts' shares of the supply are positive and have the
-- same number of digits, what is issued is at most either amount's share.
pub issued_is_smaller_share :
    ⦃bn : BigNumber⦄ (h : IsBigNumber bn) (pool : UniswapV2Pair) (a b s r q k : ℕ)
    → pool.get_reserves ≡ ok (record { reserve0 = pos (suc r); reserve1 = pos (suc q) })
    → pool.total_supply ≡ ok (created (pos s))
    → 10 ^ k ≤ a * s / suc r
    → 10 ^ k ≤ b * s / suc q
    → a * s / suc r < 10 ^ suc k
    → b * s / suc q < 10 ^ suc k
    → (x : ℕ) × (calculate_lp_tokens_issued pool (pos a) (pos b) ≡ ok (pos x))
      × (x * suc r ≤ a * s)
      × (x * suc q ≤ b * s)
issued_is_smaller_share h pool a b s r q k reads supply la lb ua ub =
    rw (eq_reference h) (issued-pos pool a b s r q k reads supply la lb ua ub)

-- Where the reserves are read as `x` and `y`, the pool has a positive supply `t` and the SetToken has
-- staked `l` of it, each of the two tokens counted is at most its reserve's share, `x * l / t`, and
-- falls short of that by less than one unit and the rounding of the ratio.
pub tokens_in_reserve_bounds :
    ⦃bn : BigNumber⦄ (h : IsBigNumber bn) (set_token : SetToken) (one two : Token)
    (pool : UniswapV2Pair) (staking : StakingRewards) (x y t l : ℕ)
    → get_reserves_safe one.address two.address pool ≡ ok (pos x, pos y)
    → pool.total_supply ≡ ok (created (pos (suc t)))
    → staking.balance_of set_token.address ≡ ok (pos l)
    → (m n : ℕ) × (calculate_tokens_in_reserve set_token one two pool staking ≡ ok (pos m, pos n))
      × (m * suc t ≤ x * l)
      × (x * l * unit < (m + 1) * unit * suc t + suc t * l + 1)
      × (n * suc t ≤ y * l)
      × (y * l * unit < (n + 1) * unit * suc t + suc t * l + 1)
tokens_in_reserve_bounds h set_token one two pool staking x y t l reserves supply staked =
    rw (eq_reference h) (
      let (low, high) = share_bounds x t l in
      let (least, most) = share_bounds y t l in
      (
        share x t l,
        share y t l,
        tokens_in_reserve-pos set_token one two pool staking x y t l reserves supply staked,
        low,
        high,
        least,
        most,
      ))

-- Of a number whose first digit is 3 or more and one whose first digit is 1 or 2, the second is taken
-- for the smaller, however many digits the two have; and the root of the second is 1.
pub low_digits_mislead :
    ⦃bn : BigNumber⦄ (h : IsBigNumber bn) (j k a b : ℕ)
    → 3 * 10 ^ j ≤ a
    → a < 10 ^ suc j
    → 10 ^ k ≤ b
    → b < 3 * 10 ^ k
    → (min (pos a) (pos b) ≡ pos b) × (sqrt (created (pos b)) ≡ ok (pos 1))
low_digits_mislead h j k a b la ua lb ub =
    rw (eq_reference h) (min-low j k a b la ua lb ub, sqrt-one k b lb ub)
