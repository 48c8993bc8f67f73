-- ===== src/Units.antt =====
-- utils/common/unitsUtils.ts: amounts of ether and bitcoin in their smallest units.
use index.Base.{ℕ, ◌*◌, ◌-◌, ◌^◌}
use index.Base.Int.{ℤ, pos}
use index.BigNumber.{BigNumber}

-- `ether` of a whole amount. ethers' `parseEther` reads a decimal text with up to 18 decimals.
abbrev pub ether : ℕ → ℤ
ether amount = pos (amount * 1_000_000_000_000_000_000)

-- `ether` of an amount that is written with up to 18 decimals: its digits, and how many are decimals.
abbrev pub ether_decimal : ℕ → ℕ → ℤ
ether_decimal digits decimals = pos (digits * 10 ^ (18 - decimals))

-- A whole number of bitcoin, in satoshi.
abbrev pub bitcoin : ℕ → ℤ
bitcoin amount = pos (100_000_000 * amount)

-- A whole number of USDC, in its millionths.
abbrev pub usdc : ℕ → ℤ
usdc amount = pos (1_000_000 * amount)

-- A whole number of gwei, in wei.
abbrev pub g_wei : ⦃bn : BigNumber⦄ → ℕ → ℤ
g_wei ⦃bn⦄ amount = bn.mul (pos 1_000_000_000) (pos amount)
