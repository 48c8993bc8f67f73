-- ===== src/UniswapUtils/Smallest.antt =====
-- The texts of numbers with as many digits are in the order of the numbers.
use native.Mathlib.Nat.{le_refl}
use index.Base.{
  ℕ, zero, suc, ◌+◌, ◌/◌, ◌%◌, ◌^◌, ◌≤◌, ◌<◌, ◌≡◌, not, ◌&&◌, ◌||◌, refl, sym, ◌∙◌, [], ◌∷◌, ◌++◌,
  length, length-append, ltb, arith,
}
use index.Base.Int.{pos}
use index.Base.Text.{Text, text_lt}
use index.BigNumber.Decimal.{digits, decimal}
use index.UniswapUtils.Digits.{digits-small, digits-large}
use index.UniswapUtils.Sqrt.{pow_ten-pos}

digits-length : (k f n : ℕ) → n ≤ f → 10 ^ k ≤ n → n < 10 ^ suc k → length (digits f n) ≡ suc k
digits-length k zero n le low high = absurd (omega (arith, pow_ten-pos k))
digits-length zero (suc f) n le low high = rw (digits-small f n (omega arith)) refl
digits-length (suc k) (suc f) n le low high =
    let large : 10 ≤ n = omega (arith, pow_ten-pos k) in
    rw (digits-large f n large, length-append)
      (omega (arith, digits-length k f (n / 10) (omega arith) (omega arith) (omega arith)))

-- The last digits count where neither text comes before the other without them.
text_lt-append :
    (s t : Text) (c d : ℕ)
    → length s ≡ length t
    → text_lt (s ++ (c ∷ [])) (t ++ (d ∷ [])) ≡ (text_lt s t || (not (text_lt t s) && ltb c d))
text_lt-append [] [] c d h = ground arith
text_lt-append [] (y ∷ t) c d h = absurd (omega arith)
text_lt-append (x ∷ s) [] c d h = absurd (omega arith)
text_lt-append (x ∷ s) (y ∷ t) c d h = ground (arith, text_lt-append s t c d (omega arith))

last-digits :
    (a b : ℕ)
    → (ltb (a / 10) (b / 10) || (not (ltb (b / 10) (a / 10)) && ltb (48 + a % 10) (48 + b % 10)))
      ≡ ltb a b
last-digits a b = ground arith

digits-lt :
    (k f g a b : ℕ)
    → a ≤ f
    → b ≤ g
    → 10 ^ k ≤ a
    → 10 ^ k ≤ b
    → a < 10 ^ suc k
    → b < 10 ^ suc k
    → text_lt (digits f a) (digits g b) ≡ ltb a b
digits-lt k zero g a b ha hb la lb ua ub = absurd (omega (arith, pow_ten-pos k))
digits-lt k (suc f) zero a b ha hb la lb ua ub = absurd (omega (arith, pow_ten-pos k))
digits-lt zero (suc f) (suc g) a b ha hb la lb ua ub =
    rw (digits-small f a (omega arith), digits-small g b (omega arith)) (ground arith)
digits-lt (suc k) (suc f) (suc g) a b ha hb la lb ua ub =
    let large : 10 ≤ a = omega (arith, pow_ten-pos k) in
    let bigger : 10 ≤ b = omega (arith, pow_ten-pos k) in
    let one = digits-length k f (a / 10) (omega arith) (omega arith) (omega arith) in
    let two = digits-length k g (b / 10) (omega arith) (omega arith) (omega arith) in
    rw
      (
        digits-large f a large,
        digits-large g b bigger,
        text_lt-append (digits f (a / 10)) (digits g (b / 10)) (48 + a % 10) (48 + b % 10)
            (one ∙ sym two),
        digits-lt k f g (a / 10) (b / 10) (omega arith) (omega arith) (omega arith) (omega arith)
            (omega arith) (omega arith),
        digits-lt k g f (b / 10) (a / 10) (omega arith) (omega arith) (omega arith) (omega arith)
            (omega arith) (omega arith),
      )
      (last-digits a b)

pub decimal-lt :
    (k a b : ℕ)
    → 10 ^ k ≤ a
    → 10 ^ k ≤ b
    → a < 10 ^ suc k
    → b < 10 ^ suc k
    → text_lt (decimal (pos a)) (decimal (pos b)) ≡ ltb a b
unfolding decimal
decimal-lt k a b la lb ua ub = digits-lt k a b a b (le_refl a) (le_refl b) la lb ua ub
