-- ===== src/Fixtures/UniswapV3/Wide.antt =====
-- The positions of utils/fixtures/uniswapV3Fixture.ts in a pool, in either order of the tokens.
use index.Base.{
  ℕ, ◌≡◌, ◌≢◌, refl, ap, ◌∙◌, not, true, inl, inr, ◌⊎◌, Option, none, some, Option-cases, Bool,
  Bool-cases, [], ◌∷◌, if◌then◌else◌, arith, ==_iff, ◌==◌, ltb,
}
use index.Base.Int.{ℤ, pos, neg_ℤ, ◌*ℤ◌, ◌+ℤ◌, ◌-ℤ◌, ◌≤ℤ◌, ◌<ℤ◌}
use index.Base.Text.{Text, text_lt}
use index.Chain.{Script, fault, ask, transact, number, address, Contract}
use index.Fixtures.UniswapV3.{
  UniswapV3Fixture, get_pool, add_liquidity_wide, tick_spacing, max_tick, max_valid_tick,
  min_valid_tick, FeeTier, fee_of, fee_500, fee_3000, fee_10000,
}

flip_codes :
    (c d : ℕ) (s t : Text) (b b' : Bool)
    → (s ≢ t → b ≡ not b')
    → c ∷ s ≢ d ∷ t
    → (if c == d then b else ltb c d) ≡ not (if d == c then b' else ltb d c)
flip_codes c d s t b b' rest differ = elim (Bool-cases (c == d)) [
  | inl e ↦
      let same = (==_iff c d).0 e in
      let flipped : b ≡ not b' = rest (λ h. differ (cc)) in ground arith
  | inr e ↦ ground arith
]

text_lt-flips : (s t : Text) → s ≢ t → text_lt s t ≡ not (text_lt t s)
text_lt-flips [] [] differ = absurd (differ refl)
text_lt-flips [] (d ∷ t) differ = refl
text_lt-flips (c ∷ s) [] differ = refl
text_lt-flips (c ∷ s) (d ∷ t) differ =
    flip_codes c d s t (text_lt s t) (text_lt t s) (text_lt-flips s t) differ

-- The two ends of a range of whole spacings: multiples of the spacing within the ticks, opposite to each
-- other, with no multiple of the spacing between them and the ends of the ticks.
abbrev IsWidest : ℕ → ℤ → ℤ → Type 0
IsWidest spacing low high =
    (k : ℤ) × (high ≡ k *ℤ pos spacing)
    × (low ≡ neg_ℤ k *ℤ pos spacing)
    × (low ≡ neg_ℤ high)
    × (high ≤ℤ pos max_tick)
    × (pos max_tick <ℤ high +ℤ pos spacing)
    × (neg_ℤ (pos max_tick) ≤ℤ low)
    × (low -ℤ pos spacing <ℤ neg_ℤ (pos max_tick))

ticks-IsWidest :
    (fee : FeeTier)
    → let spacing = tick_spacing fee in
      IsWidest spacing (min_valid_tick spacing) (max_valid_tick spacing)
unfolding ◌*ℤ◌ ◌+ℤ◌ ◌-ℤ◌
ticks-IsWidest fee_500 =
    (pos 88727, refl, refl, refl, omega arith, omega arith, omega arith, omega arith)
ticks-IsWidest fee_3000 =
    (pos 14787, refl, refl, refl, omega arith, omega arith, omega arith, omega arith)
ticks-IsWidest fee_10000 =
    (pos 4436, refl, refl, refl, omega arith, omega arith, omega arith, omega arith)

module _ (lower_case : Text → Text) (token0 token1 : Contract) where
  ordered_flips :
      lower_case token0.at ≢ lower_case token1.at
      → text_lt (lower_case token1.at) (lower_case token0.at)
        ≡ not (text_lt (lower_case token0.at) (lower_case token1.at))
  ordered_flips differ =
      text_lt-flips (lower_case token1.at) (lower_case token0.at) (λ e. differ (cc))

  -- What a position asks of the manager, if there is one: the token whose address comes first is given
  -- first, each token has its own amount, and the ticks are the widest.
  abbrev MintsInOrder : FeeTier → ℤ → ℤ → Option Contract → Script Unit → Type 0
  MintsInOrder tier amount0 amount1 none (fault e) = Unit
  MintsInOrder tier amount0 amount1 (some manager)
        (ask
          (transact signer to method value (
            number fee
            ∷ address first
            ∷ address second
            ∷ number low
            ∷ number high
            ∷ number first_amount
            ∷ number second_amount
            ∷ rest))
          next) =
      (to ≡ manager.at)
      × (method ≡ "mint")
      × (fee ≡ pos (fee_of tier))
      × (text_lt (lower_case first) (lower_case second) ≡ true)
      × (((first ≡ token0.at)
            × (second ≡ token1.at)
            × (first_amount ≡ amount0)
            × (second_amount ≡ amount1))
          ⊎ ((first ≡ token1.at)
              × (second ≡ token0.at)
              × (first_amount ≡ amount1)
              × (second_amount ≡ amount0)))
      × IsWidest (tick_spacing tier) low high
  MintsInOrder tier amount0 amount1 manager script = ⊥

  position-MintsInOrder :
      (this : UniswapV3Fixture) (tier : FeeTier) (amount0 amount1 : ℤ) (recipient : Text)
      → lower_case token0.at ≢ lower_case token1.at
      → MintsInOrder tier amount0 amount1 this.nft_position_manager
          (add_liquidity_wide lower_case this token0 token1 tier amount0 amount1 recipient)
  unfolding add_liquidity_wide
  position-MintsInOrder this tier amount0 amount1 recipient differ =
      let widest = ticks-IsWidest tier in
      elim (Option-cases this.nft_position_manager) [
        | inl e ↦ rw e tt
        | inr (manager, e) ↦
            elim (Bool-cases (text_lt (lower_case token0.at) (lower_case token1.at))) [
              | inl o ↦
                  rw (e, ordered_flips differ, o)
                    (refl, refl, refl, o, inl (refl, refl, refl, refl), widest)
              | inr o ↦
                  rw (e, ordered_flips differ, o)
                    (
                      refl,
                      refl,
                      refl,
                      ordered_flips differ ∙ ap not o,
                      inr (refl, refl, refl, refl),
                      widest,
                    )
            ]
      ]

  -- For two tokens whose addresses differ in lower case: the position is the same, the amounts given
  -- with their tokens, in whichever order the tokens are given, for each fee tier; so is the pool, for
  -- whatever fee. Where the fixture has its manager, the position is asked of it for the tier's fee,
  -- with the token first whose address comes first in lower case, each token with its own amount, and
  -- with two ticks that are multiples of the tier's spacing, opposite to each other as signed numbers,
  -- within the ticks that Uniswap allows, so that a spacing further out is outside.
  pub wide_positions_in_either_order :
      (this : UniswapV3Fixture) (tier : FeeTier) (fee amount0 amount1 : ℤ) (recipient : Text)
      → lower_case token0.at ≢ lower_case token1.at
      → (add_liquidity_wide lower_case this token0 token1 tier amount0 amount1 recipient
          ≡ add_liquidity_wide lower_case this token1 token0 tier amount1 amount0 recipient)
        × (get_pool lower_case this token0 token1 fee ≡ get_pool lower_case this token1 token0 fee)
        × MintsInOrder tier amount0 amount1 this.nft_position_manager
            (add_liquidity_wide lower_case this token0 token1 tier amount0 amount1 recipient)
  unfolding add_liquidity_wide get_pool
  wide_positions_in_either_order this tier fee amount0 amount1 recipient differ =
      let position = position-MintsInOrder this tier amount0 amount1 recipient differ in
      elim (Bool-cases (text_lt (lower_case token0.at) (lower_case token1.at))) [
        | inl e ↦ (rw (ordered_flips differ, e) refl, rw (ordered_flips differ, e) refl, position)
        | inr e ↦ (rw (ordered_flips differ, e) refl, rw (ordered_flips differ, e) refl, position)
      ]
