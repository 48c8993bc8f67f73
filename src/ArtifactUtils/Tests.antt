-- ===== src/ArtifactUtils/Tests.antt =====
-- utils/tasks/artifactUtils.ts at concrete inputs.
use index.Base.{◌≡◌, refl, some, none, false, List, [], ◌∷◌}
use index.Base.Int.{pos, ◌-ℤ◌}
use index.Base.Text.{Text, codes}
use index.BigNumber.{reference}
use index.BigNumber.Decimal.{decimal}
use index.ArtifactUtils.{AbiElement, GasSource, gas_limit_of, add_gas, add_gas_to_abi_methods}

abbrev abi : List (AbiElement Text)
abi =
    record { kind = codes "function"; gas = none; fields = [] }
    ∷ record { kind = codes "event"; gas = some (codes "0x1"); fields = [] }
    ∷ []

abbrev source : GasSource
source = record { is_coverage = false; coverage_gas_limit = pos 0; network_gas = pos 12_000_000 }

limited :
    add_gas_to_abi_methods decimal source abi
    ≡ record { kind = codes "function"; gas = some (decimal (pos 11_000_000)); fields = [] }
      ∷ record { kind = codes "event"; gas = some (codes "0x1"); fields = [] }
      ∷ []
unfolding add_gas_to_abi_methods add_gas gas_limit_of ◌-ℤ◌
limited = refl
