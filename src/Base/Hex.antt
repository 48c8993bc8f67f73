-- ===== src/Base/Hex.antt =====
-- Hexadecimal texts: their digits, the numbers that they are, and their order.
use Prim.Native.Nat.{ℕ, ◌+◌, ◌-◌, ◌*◌, ◌≤◌, ◌<◌}
use mathlib.Core.Bool.{Bool, true, false, ◌&&◌, ◌||◌}
use mathlib.Core.Logic.{◌⊎◌, inl, inr}
use mathlib.Core.Path.{◌≡◌, refl, sym}
use mathlib.Core.List.{[], ◌∷◌, ◌++◌}
use native.Mathlib.Omega.{arith}
use index.Base.Tests.{ltb, leb, ◌==◌, if◌then◌else◌, Bool-cases, ==_iff, lt→ltb, le→ltb}
use index.Base.Lists.{length}
use index.Base.Text.{Text, text_lt}

abbrev hex_digit : ℕ → ℕ
hex_digit c = if ltb c 58 then c - 48 else (if ltb c 71 then c - 55 else c - 87)

-- The number that a text of hexadecimal digits is, read on from a number.
abbrev hex_from : ℕ → Text → ℕ
hex_from n [] = n
hex_from n (c ∷ s) = hex_from (n * 16 + hex_digit c) s

abbrev pub hex_value : Text → ℕ
hex_value = hex_from 0

abbrev is_decimal : ℕ → Bool
is_decimal c = leb 48 c && leb c 57

abbrev is_hex : ℕ → Bool
is_hex c = is_decimal c || ((leb 65 c && leb c 70) || (leb 97 c && leb c 102))

abbrev pub all_hex : Text → Bool
all_hex [] = true
all_hex (c ∷ s) = is_hex c && all_hex s

-- Without capitals.
abbrev is_small_hex : ℕ → Bool
is_small_hex c = is_decimal c || (leb 97 c && leb c 102)

abbrev pub all_small_hex : Text → Bool
all_small_hex [] = true
all_small_hex (c ∷ s) = is_small_hex c && all_small_hex s

parts : (a b : Bool) → (a && b) ≡ true → (a ≡ true) × (b ≡ true)
parts true b h = (refl, h)
parts false b h = cc

pub all_hex-append : (s t : Text) → all_hex s ≡ true → all_hex t ≡ true → all_hex (s ++ t) ≡ true
all_hex-append [] t hs ht = ht
all_hex-append (c ∷ s) t hs ht =
    let (first, rest) = parts (is_hex c) (all_hex s) hs in
    rw (first, all_hex-append s t rest ht) refl

<→≤ : (m n : ℕ) → m < n → m ≤ n
<→≤ m n h = omega (arith, h)

digit_small : (c : ℕ) → is_small_hex c ≡ true → hex_digit c < 16
digit_small c h = ground arith

digit_ltb :
    (c d : ℕ)
    → is_small_hex c ≡ true
    → is_small_hex d ≡ true
    → ltb c d ≡ ltb (hex_digit c) (hex_digit d)
digit_ltb c d hc hd = ground arith

digit_differs :
    (c d : ℕ)
    → is_small_hex c ≡ true
    → is_small_hex d ≡ true
    → (c == d) ≡ false
    → (hex_digit c < hex_digit d) ⊎ (hex_digit d < hex_digit c)
digit_differs c d hc hd differ = ground arith

-- A smaller beginning makes a smaller number.
hex_from-lt :
    (m n : ℕ) (a b : Text)
    → length a ≡ length b
    → all_small_hex a ≡ true
    → m < n
    → hex_from m a < hex_from n b
hex_from-lt m n [] [] long ha h = h
hex_from-lt m n [] (d ∷ b) long ha h = absurd (omega (arith, long))
hex_from-lt m n (c ∷ a) [] long ha h = absurd (omega (arith, long))
hex_from-lt m n (c ∷ a) (d ∷ b) long ha h =
    let (first, rest) = parts (is_small_hex c) (all_small_hex a) ha in
    hex_from-lt (m * 16 + hex_digit c) (n * 16 + hex_digit d) a b (omega (arith, long)) rest
      (omega (arith, h, digit_small c first))

-- On texts of one length, without capitals, the order of the texts is the order of the numbers.
text_lt-hex_from :
    (n : ℕ) (a b : Text)
    → length a ≡ length b
    → all_small_hex a ≡ true
    → all_small_hex b ≡ true
    → text_lt a b ≡ ltb (hex_from n a) (hex_from n b)
text_lt-hex_from n [] [] long ha hb = ground arith
text_lt-hex_from n [] (d ∷ b) long ha hb = absurd (omega (arith, long))
text_lt-hex_from n (c ∷ a) [] long ha hb = absurd (omega (arith, long))
text_lt-hex_from n (c ∷ a) (d ∷ b) long ha hb =
    let (first, rest) = parts (is_small_hex c) (all_small_hex a) ha in
    let (first', rest') = parts (is_small_hex d) (all_small_hex b) hb in
    let tails : length a ≡ length b = omega (arith, long) in
    let m = n * 16 + hex_digit c in
    let m' = n * 16 + hex_digit d in
    elim (Bool-cases (c == d)) [
      | inl e ↦
          let same = (==_iff c d).0 e in rw (e, same) (text_lt-hex_from m' a b tails rest rest')
      | inr e ↦ elim (digit_differs c d first first' e) [
        | inl less ↦
            rw (e, digit_ltb c d first first', lt→ltb _ _ less)
              (sym (lt→ltb _ _ (hex_from-lt m m' a b tails rest (omega (arith, less)))))
        | inr more ↦
            rw (e, digit_ltb c d first first', le→ltb _ _ (<→≤ _ _ more))
              (sym (
                le→ltb _ _
                  (<→≤ _ _ (hex_from-lt m' m b a (sym tails) rest' (omega (arith, more))))))
      ]
    ]

pub text_lt-hex_value :
    (a b : Text)
    → length a ≡ length b
    → all_small_hex a ≡ true
    → all_small_hex b ≡ true
    → text_lt a b ≡ ltb (hex_value a) (hex_value b)
text_lt-hex_value = text_lt-hex_from 0
