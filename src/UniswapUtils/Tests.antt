-- ===== src/UniswapUtils/Tests.antt =====
-- utils/common/uniswapUtils.ts at concrete inputs.
use index.Base.{
  ℕ, ◌+◌, ◌-◌, ◌*◌, ◌/◌, ◌≤◌, ◌<◌, ◌≡◌, true, refl, ◌++◌, ok, err, division_by_zero, ◌⊎◌, Returns,
  if◌then◌else◌, arith,
}
use index.Base.Int.{ℤ, pos, ◌+ℤ◌, ◌-ℤ◌, ◌*ℤ◌, tdiv}
use index.Base.Text.{Text, text_lt, codes}
use index.BigNumber.{reference, reference-IsBigNumber}
use index.BigNumber.Decimal.{digits, decimal}
use index.Contracts.{SetToken}
use index.MathUtils.Closed.{unit}
use index.MathUtils.{precise_div}
use index.UniswapUtils.{
  balancing_trade, UniswapV2Pair, Reserves, Token, StakingRewards, created, zero_constant, sqrt,
  sqrt_loop, sqrt_fuel, min, calculate_lp_tokens_issued, get_reserves_safe,
  calculate_tokens_in_reserve, calculate_rebalance_quantity,
}
use index.UniswapUtils.Sorting.{lower, reserves_belong, checksums_swap}
use index.UniswapUtils.Sqrt.{InRange}
use index.UniswapUtils.Shares.{
  sqrt_ends, first_deposit_throws, issued_is_smaller_share, tokens_in_reserve_bounds,
  low_digits_mislead,
}
use index.UniswapUtils.Rebalance.{rebalance_evens_out}

abbrev set_token : SetToken
set_token = record { address = codes "0x01"; total_supply = ok (pos 5) }

abbrev one : Token
one = record { address = codes "0x02"; balance_of = λ a. ok (pos 100) }

abbrev two : Token
two = record { address = codes "0x03"; balance_of = λ a. ok (pos 7) }

abbrev staking : StakingRewards
staking = record { balance_of = λ a. ok (pos 3) }

abbrev reserves : Reserves
reserves = record { reserve0 = pos 1000; reserve1 = pos 2000 }

abbrev pool : UniswapV2Pair
pool = record { get_reserves = ok reserves; total_supply = ok (created (pos 10)) }

abbrev empty_reserves : Reserves
empty_reserves = record { reserve0 = pos 0; reserve1 = pos 0 }

abbrev empty_pool : UniswapV2Pair
empty_pool = record { get_reserves = ok empty_reserves; total_supply = ok (created (pos 0)) }

-- 9 is not less than 10 as a text, nor 9 than 12 in the loop for 81.
compared : (min (pos 9) (pos 10) ≡ pos 10) × (min (pos 11) (pos 10) ≡ pos 10)
unfolding min decimal digits
compared = (refl, refl)

rooted :
    (sqrt (created (pos 81)) ≡ ok (pos 12))
    × (sqrt (created (pos 100)) ≡ ok (pos 1))
    × (sqrt (created (pos 0)) ≡ ok (pos 1))
    × (sqrt zero_constant ≡ ok (pos 0))
unfolding sqrt sqrt_loop sqrt_fuel decimal digits ◌*ℤ◌ ◌-ℤ◌ ◌+ℤ◌ tdiv
rooted = (refl, refl, refl, refl)

abbrev amount : Text → ℤ
amount a = if text_lt a (codes "0x03") then pos 1000 else pos 2000

reserves_belong_example :
    get_reserves_safe (codes "0x03") (codes "0x02") pool
    ≡ ok (amount (codes "0x03"), amount (codes "0x02"))
reserves_belong_example = reserves_belong (codes "03") (codes "02") amount pool refl refl refl refl

checksums_swap_example :
    (text_lt (lower (codes "0xa" ++ codes "b")) (lower (codes "0xB" ++ codes "7")) ≡ true)
    × (get_reserves_safe (codes "0xa" ++ codes "b") (codes "0xB" ++ codes "7") pool
        ≡ ok (pos 2000, pos 1000))
checksums_swap_example = checksums_swap (codes "b") (codes "7") pool reserves refl

sqrt_ends_example : Returns (sqrt (created (pos 81))) (InRange 1 81)
sqrt_ends_example = sqrt_ends reference-IsBigNumber 81 (omega arith)

first_deposit_throws_example :
    calculate_lp_tokens_issued empty_pool (pos 400) (pos 900) ≡ err division_by_zero
first_deposit_throws_example =
    first_deposit_throws reference-IsBigNumber empty_pool empty_reserves 400 900 refl refl refl

issued_is_smaller_share_example :
    (x : ℕ) × (calculate_lp_tokens_issued pool (pos 300) (pos 400) ≡ ok (pos x))
    × (x * 1000 ≤ 300 * 10)
    × (x * 2000 ≤ 400 * 10)
issued_is_smaller_share_example =
    issued_is_smaller_share reference-IsBigNumber pool 300 400 10 999 1999 0 refl refl (omega arith)
      (omega arith) (omega arith) (omega arith)

tokens_in_reserve_bounds_example :
    (m n : ℕ) × (calculate_tokens_in_reserve set_token one two pool staking ≡ ok (pos m, pos n))
    × (m * 10 ≤ 1000 * 3)
    × (1000 * 3 * unit < (m + 1) * unit * 10 + 10 * 3 + 1)
    × (n * 10 ≤ 2000 * 3)
    × (2000 * 3 * unit < (n + 1) * unit * 10 + 10 * 3 + 1)
tokens_in_reserve_bounds_example =
    tokens_in_reserve_bounds reference-IsBigNumber set_token one two pool staking 1000 2000 9 3
      (reserves_belong (codes "02") (codes "03") amount pool refl refl refl refl) refl refl

low_digits_mislead_example :
    (min (pos 9) (pos 1234) ≡ pos 1234) × (sqrt (created (pos 1234)) ≡ ok (pos 1))
low_digits_mislead_example =
    low_digits_mislead reference-IsBigNumber 0 3 9 1234 (omega arith) (omega arith) (omega arith)
      (omega arith)

traded :
    calculate_rebalance_quantity (pos 0) set_token one two (pos unit) (pos 0) (pos 0)
    ≡ ok (pos 46, codes "0x02", codes "0x03")
unfolding calculate_rebalance_quantity balancing_trade precise_div decimal digits ◌*ℤ◌ ◌-ℤ◌ ◌+ℤ◌
    tdiv
traded = refl

rebalance_evens_out_example :
    ((q : ℕ) × (calculate_rebalance_quantity (pos 0) set_token one two (pos 3) (pos 0) (pos 0)
        ≡ ok (pos q, one.address, two.address))
      × ((7 + 0) * unit / 3 + 2 * q ≤ 100 + 0)
      × (100 + 0 ≤ (7 + 0) * unit / 3 + 2 * q + 1))
    ⊎ ((q : ℕ) × (calculate_rebalance_quantity (pos 0) set_token one two (pos 3) (pos 0) (pos 0)
          ≡ ok (pos q, two.address, one.address))
        × (100 + 0 ≤ (7 + 0) * unit / 3)
        × (q * unit ≤ ((7 + 0) * unit / 3 - (100 + 0)) / 2 * 3)
        × (((7 + 0) * unit / 3 - (100 + 0)) / 2 * 3 < (q + 1) * unit))
rebalance_evens_out_example =
    rebalance_evens_out reference-IsBigNumber set_token one two 100 7 2 0 0 refl refl
