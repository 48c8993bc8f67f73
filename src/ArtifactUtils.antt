-- ===== src/ArtifactUtils.antt =====
-- utils/tasks/artifactUtils.ts: the gas limit that is written into the functions of an ABI, so that
-- ethers does not estimate it, and removed again.
pub mod Limits
mod Tests
use index.Base.{ℕ, Bool, true, false, not, Option, none, some, List, [], ◌∷◌, if◌then◌else◌, get_or}
use index.Base.Int.{ℤ, pos}
use index.Base.Text.{Text, eqb, codes}
use index.BigNumber.{BigNumber}

-- An element of an ABI: its `type`, its `gas` if it has one, and its other fields as they are.
pub record AbiElement {ℓ} (V : Type ℓ) : Type ℓ where
  pub kind : Text
  pub gas : Option Text
  pub fields : List (Text × V)

-- What the gas is read from: the environment says whether coverage is measured, and then the
-- coverage tool's limit counts in place of the network's.
pub record GasSource : Type 0 where
  pub is_coverage : Bool
  pub coverage_gas_limit : ℤ
  pub network_gas : ℤ

abbrev pub is_function {ℓ} : {V : Type ℓ} → AbiElement V → Bool
is_function element = eqb element.kind (codes "function")

module _ ⦃bn : BigNumber⦄ where
  open bn use {sub}

  -- `to_hex_string` is the method `toHexString`.
  unfoldable pub gas_limit_of : (to_hex_string : ℤ → Text) → GasSource → Text
  gas_limit_of to_hex_string source =
      let gas = if source.is_coverage then source.coverage_gas_limit else source.network_gas in
      to_hex_string (sub gas (pos 1_000_000))

module _ {ℓ} {V : Type ℓ} where
  -- A copy of the element with another gas field.
  abbrev pub with_gas : Option Text → AbiElement V → AbiElement V
  with_gas gas element = record { kind = element.kind; gas = gas; fields = element.fields }

  unfoldable pub add_gas : Text → List (AbiElement V) → List (AbiElement V)
  add_gas gas_limit [] = []
  add_gas gas_limit (element ∷ abi) =
      let rest = add_gas gas_limit abi in
      if not (is_function element) then element ∷ rest else with_gas (some gas_limit) element ∷ rest

  -- The source deletes the field of the element itself, and returns it in a new list.
  unfoldable pub remove_gas_from_abi_methods : List (AbiElement V) → List (AbiElement V)
  remove_gas_from_abi_methods [] = []
  remove_gas_from_abi_methods (element ∷ abi) =
      let rest = remove_gas_from_abi_methods abi in
      if not (is_function element) then element ∷ rest else with_gas none element ∷ rest

unfoldable pub add_gas_to_abi_methods {ℓ} :
    {V : Type ℓ}
    → ⦃bn : BigNumber⦄ → (ℤ → Text)
    → GasSource
    → List (AbiElement V)
    → List (AbiElement V)
add_gas_to_abi_methods to_hex_string source abi = add_gas (gas_limit_of to_hex_string source) abi
