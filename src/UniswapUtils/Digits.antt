-- ===== src/UniswapUtils/Digits.antt =====
-- The texts of numbers: their code units are small, and a larger number has no shorter text.
use index.Base.{
  ℕ, zero, suc, ◌+◌, ◌/◌, ◌%◌, ◌≤◌, ◌<◌, ◌≡◌, inl, inr, [], ◌∷◌, ◌++◌, All, length, length-append,
  le-or-lt, arith,
}
use index.Base.Int.{pos}
use index.Base.Text.{Text}
use index.BigNumber.Decimal.{digits, decimal}

abbrev pub IsSmall : ℕ → Type 0
IsSmall c = c + 2 ≤ 100

pub digits-small : (f n : ℕ) → n < 10 → digits (suc f) n ≡ (48 + n) ∷ []
unfolding digits
digits-small f n h = ground arith

pub digits-large : (f n : ℕ) → 10 ≤ n → digits (suc f) n ≡ digits f (n / 10) ++ ((48 + n % 10) ∷ [])
unfolding digits
digits-large f n h = ground arith

All-append : (xs : Text) (c : ℕ) → All IsSmall xs → IsSmall c → All IsSmall (xs ++ (c ∷ []))
All-append [] c hs h = (h, tt)
All-append (x ∷ xs) c (hx, hs) h = (hx, All-append xs c hs h)

pub digits-All : (f n : ℕ) → All IsSmall (digits f n)
unfolding digits
digits-All zero n = (omega arith, tt)
digits-All (suc f) n = elim (le-or-lt 10 n) [
  | inl e ↦
      rw (digits-large f n e)
        (All-append (digits f (n / 10)) (48 + n % 10) (digits-All f (n / 10)) (omega arith))
  | inr e ↦ rw (digits-small f n e) (omega arith, tt)
]

digits-length-pos : (f n : ℕ) → 1 ≤ length (digits f n)
unfolding digits
digits-length-pos zero n = omega arith
digits-length-pos (suc f) n = elim (le-or-lt 10 n) [
  | inl e ↦ rw (digits-large f n e, length-append) (omega arith)
  | inr e ↦ rw (digits-small f n e) (omega arith)
]

digits-length-le : (f g n m : ℕ) → n ≤ f → m ≤ g → n ≤ m → length (digits f n) ≤ length (digits g m)
unfolding digits
digits-length-le zero g n m hn hm h = digits-length-pos g m
digits-length-le (suc f) zero n m hn hm h =
    rw (digits-small f n (omega arith)) (digits-length-pos zero m)
digits-length-le (suc f) (suc g) n m hn hm h = elim (le-or-lt 10 n) [
  | inl e ↦
      rw (digits-large f n e, digits-large g m (omega arith), length-append, length-append)
        (omega
          (arith, digits-length-le f g (n / 10) (m / 10) (omega arith) (omega arith) (omega arith)))
  | inr e ↦ rw (digits-small f n e) (digits-length-pos (suc g) m)
]

pub decimal-length-le : (n m : ℕ) → n ≤ m → length (decimal (pos n)) ≤ length (decimal (pos m))
unfolding decimal
decimal-length-le n m h = digits-length-le n m n m (omega arith) (omega arith) h

pub text-All : (n : ℕ) → All IsSmall (decimal (pos n))
unfolding decimal
text-All n = digits-All n n
