-- ===== src/UniswapUtils/Rebalance.antt =====
-- What `calculateRebalanceQuantity` of utils/common/uniswapUtils.ts guarantees, for every `BigNumber`
-- as documented.
use index.Base.{ℕ, suc, ◌+◌, ◌-◌, ◌*◌, ◌/◌, ◌≤◌, ◌<◌, ◌≡◌, ok, ◌⊎◌, inl, inr, le-or-lt, arith, ◌∙◌}
use index.Base.Int.{ℤ, pos, negsuc}
use index.Base.Text.{Text}
use index.BigNumber.{BigNumber, IsBigNumber, eq_reference}
use index.Contracts.{SetToken}
use index.MathUtils.Closed.{unit}
use index.UniswapUtils.{Token, calculate_rebalance_quantity}
use index.UniswapUtils.Trades.{rebalance-one, rebalance-two, rebalance-given, rebalance-not_given}

-- Where a trade is computed with no quantity given, a positive quantity that is given replaces the
-- one computed, the assets to sell and to buy stay, and a negative one changes nothing.
pub given_quantity_counts :
    ⦃bn : BigNumber⦄ (h : IsBigNumber bn) (set_token : SetToken) (one two : Token) (price x y q : ℤ)
    (sell buy : Text) (n : ℕ)
    → calculate_rebalance_quantity (pos 0) set_token one two price x y ≡ ok (q, sell, buy)
    → (calculate_rebalance_quantity (pos (suc n)) set_token one two price x y
        ≡ ok (pos (suc n), sell, buy))
      × (calculate_rebalance_quantity (negsuc n) set_token one two price x y ≡ ok (q, sell, buy))
given_quantity_counts h set_token one two price x y q sell buy n = rw (eq_reference h) (λ computed.
    (
      rebalance-given set_token one two price x y q sell buy n computed,
      rebalance-not_given set_token one two price x y n ∙ computed,
    ))

-- With no quantity given, a positive price and balances that are read, let `v` be the value of asset
-- two in units of asset one. Where asset one is worth more, the quantity of it that is sold leaves the
-- two values equal or one unit apart; else what is sold of asset two is half the difference of the
-- values, at the price, rounded down.
pub rebalance_evens_out :
    ⦃bn : BigNumber⦄ (h : IsBigNumber bn) (set_token : SetToken) (one two : Token) (a b p x y : ℕ)
    → one.balance_of set_token.address ≡ ok (pos a)
    → two.balance_of set_token.address ≡ ok (pos b)
    → let v = (b + y) * unit / suc p in
      ((q : ℕ) × (calculate_rebalance_quantity
            (pos 0)
            set_token
            one
            two
            (pos (suc p))
            (pos x)
            (pos y)
          ≡ ok (pos q, one.address, two.address))
        × (v + 2 * q ≤ a + x)
        × (a + x ≤ v + 2 * q + 1))
      ⊎ ((q : ℕ) × (calculate_rebalance_quantity
              (pos 0)
              set_token
              one
              two
              (pos (suc p))
              (pos x)
              (pos y)
            ≡ ok (pos q, two.address, one.address))
          × (a + x ≤ v)
          × (q * unit ≤ (v - (a + x)) / 2 * suc p)
          × ((v - (a + x)) / 2 * suc p < (q + 1) * unit))
rebalance_evens_out h set_token one two a b p x y held_one held_two = rw (eq_reference h) (
    let v = (b + y) * unit / suc p in
    elim (le-or-lt (a + x) v) [
      | inl e ↦ inr (
        (v - (a + x)) / 2 * suc p / unit,
        rebalance-two set_token one two a b held_one held_two p x y e,
        e,
        omega arith,
        omega arith,
      )
      | inr e ↦ inl (
        (a + x - v) / 2,
        rebalance-one set_token one two a b held_one held_two p x y e,
        omega arith,
        omega arith,
      )
    ])
