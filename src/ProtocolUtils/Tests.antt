-- ===== src/ProtocolUtils/Tests.antt =====
-- utils/common/protocolUtils.ts at concrete inputs.
use index.Base.{◌≡◌, refl, some, List, [], ◌∷◌, ok, err, type_error}
use index.Base.Text.{Text, codes}
use index.ProtocolUtils.{Provider, parse_entry, get_created_set_token_address}
use index.ProtocolUtils.Created.{logs_of, created_is_last}

-- A log is the address that it tells of, and its topics.
abbrev Log : Type 0
Log = Text × List Text

abbrev topics_of : Log → List Text
topics_of log = log.1

abbrev created_event : List Text
created_event = codes "SetTokenCreated(address,address,string,string)" ∷ []

abbrev first_block : List Log
first_block = (codes "0x01", created_event) ∷ []

abbrev second_block : List Log
second_block =
    (codes "0x02", created_event)
    ∷ (codes "0x03", codes "0x99" ∷ created_event)
    ∷ (codes "0x04", created_event)
    ∷ (codes "0x05", codes "Transfer(address,address,uint256)" ∷ [])
    ∷ []

abbrev provider_of : List (List Log) → Provider Log
provider_of blocks = record {
  get_logs = λ query. ok (logs_of topics_of blocks query);
  parse_log = λ log. ok log.0;
}

nothing_created :
    get_created_set_token_address
      (λ event. event)
      (provider_of (first_block ∷ [] ∷ []))
      (some (codes "0xabc"))
    ≡ err type_error
unfolding get_created_set_token_address parse_entry
nothing_created = refl

created_is_last_example :
    get_created_set_token_address
      (λ event. event)
      (provider_of (first_block ∷ second_block ∷ []))
      (some (codes "0xabc"))
    ≡ ok (codes "0x04")
unfolding parse_entry
created_is_last_example =
    created_is_last topics_of (λ event. event) (provider_of (first_block ∷ second_block ∷ []))
      (first_block ∷ []) second_block 48 (codes "xabc") (λ query. refl)
