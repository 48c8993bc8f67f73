-- ===== src/ArtifactUtils/Limits.antt =====
-- What adding and removing the gas limits of utils/tasks/artifactUtils.ts does to an ABI.
use index.Base.{◌≡◌, true, refl, ◌∙◌, inl, inr, Option, none, some, List, [], ◌∷◌, All, Bool-cases}
use index.Base.Int.{ℤ}
use index.Base.Text.{Text}
use index.BigNumber.{BigNumber}
use index.ArtifactUtils.{
  AbiElement, GasSource, is_function, gas_limit_of, add_gas, add_gas_to_abi_methods,
  remove_gas_from_abi_methods,
}

module _ {ℓ} {V : Type ℓ} where
  -- An element whose gas is the given one if it is a function.
  abbrev pub HasGas : Option Text → AbiElement V → Type 0
  HasGas gas element = is_function element ≡ true → element.gas ≡ gas

  add-remove :
      (limit : Text) (abi : List (AbiElement V))
      → remove_gas_from_abi_methods (add_gas limit abi) ≡ remove_gas_from_abi_methods abi
  unfolding add_gas remove_gas_from_abi_methods
  add-remove limit [] = refl
  add-remove limit (element ∷ abi) = elim (Bool-cases (is_function element)) [
    | inl e ↦ rw (e, e, add-remove limit abi) refl
    | inr e ↦ rw (e, e, add-remove limit abi) refl
  ]

  remove-none :
      (abi : List (AbiElement V)) → All (HasGas none) abi → remove_gas_from_abi_methods abi ≡ abi
  unfolding remove_gas_from_abi_methods
  remove-none [] h = refl
  remove-none (element ∷ abi) (free, rest) = elim (Bool-cases (is_function element)) [
    | inl e ↦ rw (e, remove-none abi rest, ← free e) refl
    | inr e ↦ rw (e, remove-none abi rest) refl
  ]

  add-All :
      (limit : Text) (abi : List (AbiElement V)) → All (HasGas (some limit)) (add_gas limit abi)
  unfolding add_gas
  add-All limit [] = tt
  add-All limit (element ∷ abi) = elim (Bool-cases (is_function element)) [
    | inl e ↦ rw e ((λ _. refl), add-All limit abi)
    | inr e ↦ rw e ((λ f. cc), add-All limit abi)
  ]

-- Every function of the new ABI has the limit; and where no function of the old one had a gas field,
-- removing the fields again gives the old ABI back, every other element with the gas that it had.
pub add-remove_gas {ℓ} :
    {V : Type ℓ} ⦃bn : BigNumber⦄ (to_hex_string : ℤ → Text) (source : GasSource)
    (abi : List (AbiElement V))
    → All (HasGas none) abi
    → All
        (HasGas (some (gas_limit_of to_hex_string source)))
        (add_gas_to_abi_methods to_hex_string source abi)
      × (remove_gas_from_abi_methods (add_gas_to_abi_methods to_hex_string source abi) ≡ abi)
unfolding add_gas_to_abi_methods
add-remove_gas to_hex_string source abi free =
    let limit = gas_limit_of to_hex_string source in
    (add-All limit abi, add-remove limit abi ∙ remove-none abi free)

pub add-add {ℓ} :
    {V : Type ℓ} (limit : Text) (abi : List (AbiElement V))
    → add_gas limit (add_gas limit abi) ≡ add_gas limit abi
unfolding add_gas
add-add limit [] = refl
add-add limit (element ∷ abi) = elim (Bool-cases (is_function element)) [
  | inl e ↦ rw (e, e, add-add limit abi) refl
  | inr e ↦ rw (e, e, add-add limit abi) refl
]
