-- ===== src/DataUtils/Words.antt =====
-- What the data word of a number holds: utils/common/adapterUtils.ts.
use index.Base.{
  ℕ, zero, suc, ◌-◌, ◌≤◌, ◌≡◌, true, refl, ap, ◌∙◌, ◌++◌, length, length-append, arith,
}
use index.Base.Int.{ℤ, pos}
use index.Base.Text.{Text, codes}
use index.Base.Hex.{hex_value, all_hex, all_hex-append}
use index.DataUtils.{copies, pad_start, big_number_to_data, address_to_data}

hex_value-zeros : (n : ℕ) (s : Text) → hex_value (copies n 48 ++ s) ≡ hex_value s
hex_value-zeros zero s = refl
hex_value-zeros (suc n) s = hex_value-zeros n s

length-copies : (n c : ℕ) → length (copies n c) ≡ n
length-copies zero c = refl
length-copies (suc n) c = ap suc (length-copies n c)

length-pad_start :
    (width c : ℕ) (s : Text) → length s ≤ width → length (pad_start width c s) ≡ width
length-pad_start width c s fits =
    omega (
      arith,
      fits,
      length-append (copies (width - length s) c) s,
      length-copies (width - length s) c,
    )

all_hex-zeros : (n : ℕ) → all_hex (copies n 48) ≡ true
all_hex-zeros zero = refl
all_hex-zeros (suc n) = all_hex-zeros n

-- Where ethers writes a number as 0x and at most 64 hexadecimal digits that are its value, the data of
-- the number is 64 hexadecimal digits, and their value is the number. The data of an address of 40
-- hexadecimal digits, capital or not, is 64 hexadecimal digits too, of the same value as those of the
-- address.
pub data_words :
    (to_hex_string : ℤ → Text) (n : ℕ) (digits address : Text)
    → to_hex_string (pos n) ≡ codes "0x" ++ digits
    → hex_value digits ≡ n
    → all_hex digits ≡ true
    → length digits ≤ 64
    → length address ≡ 40
    → all_hex address ≡ true
    → let number_data = big_number_to_data to_hex_string (pos n) in
      let address_data = address_to_data (codes "0x" ++ address) in
      ((length number_data ≡ 64) × (all_hex number_data ≡ true) × (hex_value number_data ≡ n))
      × ((length address_data ≡ 64)
          × (all_hex address_data ≡ true)
          × (hex_value address_data ≡ hex_value address))
data_words to_hex_string n digits address written value hex fits long hex_address = rw written (
  (
    length-pad_start 64 48 digits fits,
    all_hex-append (copies (64 - length digits) 48) digits (all_hex-zeros (64 - length digits)) hex,
    hex_value-zeros (64 - length digits) digits ∙ value,
  ),
  (omega (arith, long), hex_address, refl),
)
