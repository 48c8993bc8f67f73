-- ===== src/Dependencies.antt =====
-- utils/deploys/dependencies.ts: the known addresses by name and network, the accounts that hold many tokens,
-- and the names of what a deployment depends on.
pub mod Table
pub mod Names
mod Tests
use index.Base.{ℕ, zero, suc, ◌==◌, get_or, List, [], ◌∷◌, ◌++◌, Option, none, some, if◌then◌else◌}
use index.Base.Text.{Text, codes, eqb}
use Table.{
  Dependencies, tokens, aave_contracts, exchanges, governance_contracts, oracles, admin_contracts,
}
use Names.{token_names, protocol_names, oracle_names, governance_names, admin_names}

abbrev human_friendly_names : List (ℕ × Text)
human_friendly_names = (1, codes "main-net") ∷ (42, codes "kovan") ∷ (50, codes "test-rpc") ∷ []

abbrev pub usdc_whale : Text
usdc_whale = codes "0x47ac0Fb4F2D84898e4D9E7b4DaB3C24507a6D503"

abbrev pub dai_whale : Text
dai_whale = codes "0x47ac0Fb4F2D84898e4D9E7b4DaB3C24507a6D503"

abbrev pub weth_whale : Text
weth_whale = codes "0x2f0b23f53734252bda2277357e97e1517d6b042a"

abbrev pub wbtc_whale : Text
wbtc_whale = codes "0x2260fac5e5542a773aa44fbcfedf7c193bc2c599"

abbrev pub steth_whale : Text
steth_whale = codes "0xdc24316b9ae028f1497c275eb9192a3ea0f67022"

abbrev pub reth_whale : Text
reth_whale = codes "0x11036bcC3E77B7042fEE78d3b970ccF39f64b11F"

-- What the table has for a name: addresses by network, or one text for all.
pub data Entry : Type 0 where
  by_network : List (ℕ × Text) → Entry
  plain : Text → Entry

abbrev all_by_network : Dependencies → List (Text × Entry)
all_by_network [] = []
all_by_network (entry ∷ entries) = (entry.0, by_network entry.1) ∷ all_by_network entries

abbrev whales : List (Text × Entry)
whales =
    (codes "USDC_WHALE", plain usdc_whale)
    ∷ (codes "DAI_WHALE", plain dai_whale)
    ∷ (codes "WETH_WHALE", plain weth_whale)
    ∷ (codes "WBTC_WHALE", plain wbtc_whale)
    ∷ (codes "STETH_WHALE", plain steth_whale)
    ∷ (codes "RETH_WHALE", plain reth_whale)
    ∷ []

-- The default export.
abbrev dependencies : List (Text × Entry)
dependencies =
    all_by_network (
      tokens
      ++ (aave_contracts ++ (exchanges ++ (governance_contracts ++ (oracles ++ admin_contracts)))))
    ++ ((codes "HUMAN_FRIENDLY_NAMES", by_network human_friendly_names) ∷ whales)

-- The part of `DEPENDENCY` that names what others have deployed.
abbrev external_names : List Text
external_names =
    token_names ++ (protocol_names ++ (oracle_names ++ (governance_names ++ admin_names)))

abbrev on_network : ℕ → List (ℕ × Text) → Option Text
on_network network [] = none
on_network network (entry ∷ entries) =
    let others = on_network network entries in if network == entry.0 then some entry.1 else others

-- A number after a text reads the character at that place.
abbrev character_at : ℕ → Text → Option Text
character_at i [] = none
character_at zero (c ∷ s) = some (c ∷ [])
character_at (suc i) (c ∷ s) = character_at i s

abbrev on_entry : ℕ → Entry → Option Text
on_entry network (by_network entries) = on_network network entries
on_entry network (plain s) = character_at network s

-- `table[name][network]`; a missing name is a fault in the code, and `none` here, as a missing network.
abbrev find_address : Text → ℕ → List (Text × Entry) → Option Text
find_address name network [] = none
find_address name network (entry ∷ entries) =
    let others = find_address name network entries in
    if eqb name entry.0 then on_entry network entry.1 else others

abbrev pub address_on : Text → ℕ → Option Text
address_on name network = find_address name network dependencies

-- `table[name][1]`, of a name that the table has.
abbrev pub main_address : Text → Text
main_address name = get_or (address_on name 1) []
