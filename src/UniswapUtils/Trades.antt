-- ===== src/UniswapUtils/Trades.antt =====
-- Rebalancing trades on the reference numbers.
use index.Base.{
  ℕ, suc, ◌+◌, ◌-◌, ◌*◌, ◌/◌, ◌≤◌, ◌<◌, ◌≡◌, refl, Result, ok, bind-follows, lt→ltb, le→ltb, arith,
}
use index.Base.Int.{◌+ℤ◌, ℤ, pos, negsuc}
use index.Base.Text.{Text}
use index.Base.Signs.{pos-+ℤ, pos--ℤ, pos-tdiv}
use index.BigNumber.{reference}
use index.Contracts.{SetToken}
use index.MathUtils.Closed.{unit, precise_mul-pos, precise_div-pos}
use index.MathUtils.{precise_div}
use index.UniswapUtils.{Token, balancing_trade, calculate_rebalance_quantity}
use index.UniswapUtils.Leading.{zero-before-positive, zero-before-negative, zero-before-zero}

module _ (set_token : SetToken) (one two : Token) (a b : ℕ)
    (held_one : one.balance_of set_token.address ≡ ok (pos a))
    (held_two : two.balance_of set_token.address ≡ ok (pos b)) where
  pub rebalance-one :
      (p x y : ℕ)
      → let v = (b + y) * unit / suc p in
        v < a + x
        → calculate_rebalance_quantity (pos 0) set_token one two (pos (suc p)) (pos x) (pos y)
          ≡ ok (pos ((a + x - v) / 2), one.address, two.address)
  unfolding calculate_rebalance_quantity balancing_trade
  rebalance-one p x y h =
      let v = (b + y) * unit / suc p in
      simp (
        held_one,
        held_two,
        pos-+ℤ,
        precise_div-pos,
        lt→ltb v (a + x) h,
        pos--ℤ (a + x) v (omega arith),
        pos-tdiv,
        zero-before-zero,
      )

  pub rebalance-two :
      (p x y : ℕ)
      → let v = (b + y) * unit / suc p in
        a + x ≤ v
        → calculate_rebalance_quantity (pos 0) set_token one two (pos (suc p)) (pos x) (pos y)
          ≡ ok (pos ((v - (a + x)) / 2 * suc p / unit), two.address, one.address)
  unfolding calculate_rebalance_quantity balancing_trade
  rebalance-two p x y h =
      let v = (b + y) * unit / suc p in
      simp (
        held_one,
        held_two,
        pos-+ℤ,
        precise_div-pos,
        le→ltb v (a + x) h,
        pos--ℤ v (a + x) h,
        pos-tdiv,
        precise_mul-pos,
        zero-before-zero,
      )

abbrev trade_of : ℤ → Text → Text → Result (ℤ × Text × Text)
trade_of quantity sell buy = ok (quantity, sell, buy)

-- The same trade, of another quantity.
requantified :
    (t : ℤ × Text × Text) (q n : ℤ) (sell buy : Text)
    → trade_of t.0 t.1 t.2 ≡ trade_of q sell buy
    → trade_of n t.1 t.2 ≡ trade_of n sell buy
requantified t q n sell buy h = cc

pub rebalance-given :
    (set_token : SetToken) (one two : Token) (price x y q : ℤ) (sell buy : Text) (n : ℕ)
    → calculate_rebalance_quantity (pos 0) set_token one two price x y ≡ ok (q, sell, buy)
    → calculate_rebalance_quantity (pos (suc n)) set_token one two price x y
      ≡ ok (pos (suc n), sell, buy)
unfolding calculate_rebalance_quantity
rebalance-given set_token one two price x y q sell buy n h = rw (zero-before-positive n) (
    let same = rw zero-before-zero at h in
    bind-follows (one.balance_of set_token.address) _ _ _ _
      (λ a. bind-follows (two.balance_of set_token.address) _ _ _ _ (λ b.
        bind-follows (precise_div (b +ℤ y) price) _ _ _ _ (λ v.
          bind-follows (balancing_trade one two price (a +ℤ x) v) _ _ _ _
            (λ t. requantified t q (pos (suc n)) sell buy))))
      same)

pub rebalance-not_given :
    (set_token : SetToken) (one two : Token) (price x y : ℤ) (n : ℕ)
    → calculate_rebalance_quantity (negsuc n) set_token one two price x y
      ≡ calculate_rebalance_quantity (pos 0) set_token one two price x y
unfolding calculate_rebalance_quantity
rebalance-not_given set_token one two price x y n =
    rw (zero-before-negative n, zero-before-zero) refl
