-- ===== src/DataUtils/Tests.antt =====
-- utils/common/adapterUtils.ts and utils/common/libraryUtils.ts at concrete inputs.
use index.Base.{◌≡◌, refl, length, Result, ok, err, true, false, Bool, arith}
use index.Base.Int.{pos}
use index.Base.Text.{Text, codes}
use index.Base.Hex.{hex_value, all_hex}
use index.DataUtils.Words.{data_words}
use index.DataUtils.{address_to_data, big_number_to_data, convert_library_name_to_link_id}

data_word : length (big_number_to_data (λ n. codes "0x0a") (pos 10)) ≡ 64
data_word = refl

address_word : length (address_to_data (codes "0xDC24316b9AE028F1497c275EB9192a3Ea0f67022")) ≡ 64
address_word = refl

abbrev hash : Text → Text
hash name = codes "0xde8c0cf1a7d7c36c802af9a64fb9d86036f3c1d1f3a5a3e1e1f1b1a1c1d1e1f1"

linked :
    convert_library_name_to_link_id hash (codes "/") (codes "contracts/A.sol:A")
    ≡ ok (codes "__$de8c0cf1a7d7c36c802af9a64fb9d86036$__")
unfolding convert_library_name_to_link_id
linked = refl

abbrev is_thrown : Result Text → Bool
is_thrown (err e) = true
is_thrown (ok s) = false

unqualified : is_thrown (convert_library_name_to_link_id hash (codes "/") (codes "A")) ≡ true
unfolding convert_library_name_to_link_id
unqualified = refl

capitals : (hex_value (codes "FF") ≡ 255) × (hex_value (codes "ff") ≡ 255)
capitals = (refl, refl)

data_words_example :
    let number_data = big_number_to_data (λ n. codes "0x0a") (pos 10) in
    let address_data = address_to_data (codes "0xDC24316b9AE028F1497c275EB9192a3Ea0f67022") in
    ((length number_data ≡ 64) × (all_hex number_data ≡ true) × (hex_value number_data ≡ 10))
    × ((length address_data ≡ 64)
        × (all_hex address_data ≡ true)
        × (hex_value address_data ≡ hex_value (codes "DC24316b9AE028F1497c275EB9192a3Ea0f67022")))
data_words_example =
    data_words (λ n. codes "0x0a") 10 (codes "0a")
      (codes "DC24316b9AE028F1497c275EB9192a3Ea0f67022") refl refl refl (omega arith) refl refl
