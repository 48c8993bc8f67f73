-- ===== src/DataUtils.antt =====
-- utils/common/adapterUtils.ts and utils/common/libraryUtils.ts: the data words of addresses and numbers,
-- hashed names, and the identifiers at which libraries are linked.
pub mod Words
mod Tests
use index.Base.{
  ℕ, zero, suc, ◌-◌, List, [], ◌∷◌, ◌++◌, Bool, true, false, ◌||◌, ◌&&◌, if◌then◌else◌, ◌==◌,
  Option, none, some, length, Result, ok, err, thrown,
}
use index.Base.Int.{ℤ}
use index.Base.Text.{Text, codes}

-- What follows a beginning, if the text has it.
abbrev after : Text → Text → Option Text
after [] s = some s
after (p ∷ pattern) [] = none
after (p ∷ pattern) (c ∷ s) = if p == c then after pattern s else none

-- `replace` of a text by a text: the first place counts.
abbrev replace : Text → Text → Text → Text
replace pattern value [] = elim (after pattern []) [ none ↦ [] | some rest ↦ value ]
replace pattern value (c ∷ s) =
    let others = replace pattern value s in
    elim (after pattern (c ∷ s)) [ none ↦ c ∷ others | some rest ↦ value ++ rest ]

abbrev is_given : Option Text → Bool
is_given none = false
is_given (some s) = true

-- `includes` of a text.
abbrev pub has_part : Text → Text → Bool
has_part pattern [] = is_given (after pattern [])
has_part pattern (c ∷ s) = is_given (after pattern (c ∷ s)) || has_part pattern s

abbrev pub copies : ℕ → ℕ → Text
copies zero c = []
copies (suc n) c = c ∷ copies n c

-- `padStart` with one character.
abbrev pub pad_start : ℕ → ℕ → Text → Text
pad_start width c s = copies (width - length s) c ++ s

abbrev slice : ℕ → Text → Text
slice zero s = s
slice (suc n) [] = []
slice (suc n) (c ∷ s) = slice n s

abbrev slice_to : ℕ → Text → Text
slice_to zero s = []
slice_to (suc n) [] = []
slice_to (suc n) (c ∷ s) = c ∷ slice_to n s

abbrev pub address_to_data : Text → Text
address_to_data address = replace (codes "0x") (codes "000000000000000000000000") address

-- `to_hex_string` is that of ethers' `BigNumber`.
abbrev pub big_number_to_data : (ℤ → Text) → ℤ → Text
big_number_to_data to_hex_string number =
    pad_start 64 48 (replace (codes "0x") [] (to_hex_string number))

-- `keccak256` is that of ethers, of the bytes of a text.
abbrev pub hash_adapter_name : (Text → Text) → Text → Text
hash_adapter_name keccak256 name = keccak256 name

-- `sep` separates the parts of a path on the system.
unfoldable pub convert_library_name_to_link_id : (Text → Text) → Text → Text → Result Text
convert_library_name_to_link_id keccak256 sep library_name =
    if has_part sep library_name && has_part (codes ":") library_name
    then ok (codes "__$" ++ slice_to 34 (slice 2 (keccak256 library_name)) ++ codes "$__")
    else err (
        thrown
          "Converting library name to link id requires a fully qualified contract name. Example: `contracts/mocks/LibraryMock.sol:LibraryMock`")
