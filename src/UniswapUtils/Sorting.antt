-- ===== src/UniswapUtils/Sorting.antt =====
-- Which reserve `getReservesSafe` of utils/common/uniswapUtils.ts takes for which asset.
use index.Base.{
  ◌+◌, ◌≡◌, true, refl, inl, inr, ◌++◌, map, ok, if◌then◌else◌, ◌&&◌, leb, ltb, length, Bool-cases,
}
use index.Base.Int.{ℤ}
use index.Base.Hex.{hex_value, all_small_hex, text_lt-hex_value}
use index.Base.Text.{Text, text_lt, eqb, eqb_refl, eqb→eq, codes}
use index.UniswapUtils.{UniswapV2Pair, Reserves, get_reserves_safe}

-- The reserves as a pool of Uniswap keeps them: its first token is the one of the smaller number. `a`
-- and `b` are the digits of the two addresses.
abbrev pub pool_reserves : Text → Text → (Text → ℤ) → Reserves
pool_reserves a b amount =
    if ltb (hex_value a) (hex_value b)
    then record { reserve0 = amount (codes "0x" ++ a); reserve1 = amount (codes "0x" ++ b) }
    else record { reserve0 = amount (codes "0x" ++ b); reserve1 = amount (codes "0x" ++ a) }

-- For two addresses of one length in hexadecimal digits without capitals, and a pool that keeps the
-- reserve of the token with the smaller number first: what is returned is the reserve of the first
-- asset and that of the second, in whichever order the assets are given.
pub reserves_belong :
    (a b : Text) (amount : Text → ℤ) (pool : UniswapV2Pair)
    → length a ≡ length b
    → all_small_hex a ≡ true
    → all_small_hex b ≡ true
    → pool.get_reserves ≡ ok (pool_reserves a b amount)
    → get_reserves_safe (codes "0x" ++ a) (codes "0x" ++ b) pool
      ≡ ok (amount (codes "0x" ++ a), amount (codes "0x" ++ b))
unfolding get_reserves_safe
reserves_belong a b amount pool long ha hb h =
    let order = text_lt-hex_value a b long ha hb in
    elim (Bool-cases (ltb (hex_value a) (hex_value b))) [
      | inl e ↦ rw (h, order, e, eqb_refl a) refl
      | inr e ↦ elim (Bool-cases (eqb a b)) [
        | inl same ↦ rw (h, order, e, same) (rw (eqb→eq a b same) refl)
        | inr other ↦ rw (h, order, e, other) refl
      ]
    ]

-- A hexadecimal address without its capitals, which the checksum of an address is written with.
pub lower : Text → Text
lower = map (λ c. if leb 65 c && leb c 70 then c + 32 else c)

-- Of two addresses that start with 0xa and 0xB, the first is the smaller number, and so the first
-- token of a pool of the two; but the second reserve is returned for it.
pub checksums_swap :
    (s t : Text) (pool : UniswapV2Pair) (r : Reserves)
    → pool.get_reserves ≡ ok r
    → let a = codes "0xa" ++ s in
      let b = codes "0xB" ++ t in
      (text_lt (lower a) (lower b) ≡ true)
      × (get_reserves_safe a b pool ≡ ok (r.reserve1, r.reserve0))
unfolding get_reserves_safe lower
checksums_swap s t pool r h = rw h (refl, refl)
