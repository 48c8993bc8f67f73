-- ===== src/Constants.antt =====
-- utils/constants.ts: the constants. The zero address and the empty bytes stand in ProtocolUtils.
use index.Base.{ℕ}
use index.Base.Int.{ℤ, pos}
use index.Base.Text.{Text, codes}

abbrev pub one_day_in_seconds : ℤ
one_day_in_seconds = pos 86_400

abbrev pub one_hour_in_seconds : ℤ
one_hour_in_seconds = pos 3600

abbrev pub one_year_in_seconds : ℤ
one_year_in_seconds = pos 31_557_600

-- ethers' `WeiPerEther`
abbrev pub precise_unit : ℤ
precise_unit = pos 1_000_000_000_000_000_000

-- ethers' `MaxUint256`
abbrev pub max_uint_256 : ℤ
max_uint_256 =
    pos
      115_792_089_237_316_195_423_570_985_008_687_907_853_269_984_665_640_564_039_457_584_007_913_129_639_935

abbrev pub zero_bytes : Text
zero_bytes = codes "0x0000000000000000000000000000000000000000000000000000000000000000"

-- The entries of `MODULE_STATE` and of `POSITION_STATE`.
pub record ModuleState : Type 0 where
  pub none : ℕ
  pub pending : ℕ
  pub initialized : ℕ

abbrev pub module_state : ModuleState
module_state = record { none = 0; pending = 1; initialized = 2 }

pub record PositionState : Type 0 where
  pub default : ℕ
  pub external : ℕ

abbrev pub position_state : PositionState
position_state = record { default = 0; external = 1 }

-- ethers' `One`, `Two` and `Zero`
abbrev pub one : ℤ
one = pos 1

abbrev pub two : ℤ
two = pos 2

abbrev pub three : ℤ
three = pos 3

abbrev pub zero : ℤ
zero = pos 0

abbrev pub max_int_256 : Text
max_int_256 = codes "0x7fffffffffffffffffffffffffffffffffffffffffffffffffffffffffffffff"

abbrev pub min_int_256 : Text
min_int_256 = codes "-0x8000000000000000000000000000000000000000000000000000000000000000"

abbrev pub eth_address : Text
eth_address = codes "0xEeeeeEeeeEeEeeEeEeEeeEEEeeeeEeeeeeeeEEeE"
