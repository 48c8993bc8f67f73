-- ===== src/ProtocolUtils.antt =====
-- utils/common/protocolUtils.ts: the positions that tests expect of a SetToken, and the address of a
-- SetToken that was created.
pub mod Created
mod Tests
use index.Base.{ℕ, Option, none, some, List, [], ◌∷◌, Result, ok, err, ◌>>=◌, thrown, type_error}
use index.Base.Int.{ℤ}
use index.Base.Text.{Text, codes}
use index.Chain.{LogQuery, latest}

-- `Position` of utils/types.ts
pub record Position : Type 0 where
  pub component : Text
  pub holder_module : Text
  pub unit : ℤ
  pub position_state : ℕ
  pub position_data : Text

abbrev pub address_zero : Text
address_zero = codes "0x0000000000000000000000000000000000000000"

abbrev pub empty_bytes : Text
empty_bytes = codes "0x"

abbrev pub get_default_position : Text → ℤ → Position
get_default_position component unit = record {
  component = component;
  holder_module = address_zero;
  unit = unit;
  position_state = 0;
  position_data = empty_bytes;
}

abbrev pub get_external_position : Text → Text → ℤ → Text → Position
get_external_position component holder_module unit position_data = record {
  component = component;
  holder_module = holder_module;
  unit = unit;
  position_state = 1;
  position_data = position_data;
}

-- The last entry of a list, as `logs[logs.length - 1]` reads it.
abbrev pub last {ℓ} : {A : Type ℓ} → List A → Option A
last [] = none
last (x ∷ []) = some x
last (x ∷ y ∷ ys) = last (y ∷ ys)

-- The provider, and the decoding of the address of an entry by the event's interface.
pub record Provider {ℓ} (Log : Type ℓ) : Type ℓ where
  pub get_logs : LogQuery → Result (List Log)
  pub parse_log : Log → Result Text

-- Decoding no entry at all is a fault.
unfoldable pub parse_entry {ℓ} : {Log : Type ℓ} → (Log → Result Text) → Option Log → Result Text
parse_entry parse_log none = err type_error
parse_entry parse_log (some log) = parse_log log

-- `id` is the hash of ethers that the topics of events are.
module _ (id : Text → Text) where
  abbrev pub created_query : LogQuery
  created_query = record {
    from_block = latest;
    to_block = latest;
    topics = id (codes "SetTokenCreated(address,address,string,string)") ∷ [];
  }

  -- Neither a missing hash nor an empty one is truthy.
  unfoldable pub get_created_set_token_address {ℓ} :
      {Log : Type ℓ} → Provider Log → Option Text → Result Text
  get_created_set_token_address provider none = err (thrown "Invalid transaction hash")
  get_created_set_token_address provider (some []) = err (thrown "Invalid transaction hash")
  get_created_set_token_address provider (some (c ∷ txn_hash)) = do
    logs ← provider.get_logs created_query
    parse_entry provider.parse_log (last logs)
