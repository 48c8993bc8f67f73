-- ===== src/UniswapUtils/Order.antt =====
-- The order of texts of bounded length, as the order of numbers: so no sequence of such texts falls
-- for ever.
use native.Mathlib.Nat.{le_refl, mul-le-mul}
use index.Base.{
  ℕ, zero, suc, ◌+◌, ◌*◌, ◌^◌, ◌≤◌, ◌<◌, ◌≡◌, true, ◌⊎◌, inl, inr, [], ◌∷◌, All, length, arith,
}
use index.Base.Text.{Text, text_lt}
use index.UniswapUtils.Digits.{IsSmall}

-- The place of a text among those of at most the given length.
pub rank : ℕ → Text → ℕ
rank zero s = 0
rank (suc l) [] = 0
rank (suc l) (c ∷ s) = suc c * 100 ^ l + rank l s

pow-pos : (l : ℕ) → 0 < 100 ^ l
pow-pos zero = omega arith
pow-pos (suc l) = omega (arith, pow-pos l)

text_lt-cases :
    (c d : ℕ) (s t : Text)
    → text_lt (c ∷ s) (d ∷ t) ≡ true
    → (c < d) ⊎ ((c ≡ d) × (text_lt s t ≡ true))
text_lt-cases c d s t h = ground arith

pub rank-lt-pow : (l : ℕ) (s : Text) → All IsSmall s → rank l s < 100 ^ l
unfolding rank
rank-lt-pow zero s h = omega arith
rank-lt-pow (suc l) [] h = pow-pos (suc l)
rank-lt-pow (suc l) (c ∷ s) (hc, hs) =
    omega (arith, rank-lt-pow l s hs, mul-le-mul hc (le_refl (100 ^ l)))

pub rank-lt :
    (l : ℕ) (s t : Text)
    → All IsSmall s
    → All IsSmall t
    → length s ≤ l
    → length t ≤ l
    → text_lt s t ≡ true
    → rank l s < rank l t
unfolding rank
rank-lt l s [] hs ht ks kt h = absurd (ground arith)
rank-lt zero s (d ∷ t) hs ht ks kt h = absurd (omega arith)
rank-lt (suc l) [] (d ∷ t) hs ht ks kt h = omega (arith, pow-pos l)
rank-lt (suc l) (c ∷ s) (d ∷ t) (hc, hs) (hd, ht) ks kt h = elim (text_lt-cases c d s t h) [
  | inl less ↦
      let smaller : suc (suc c) ≤ suc d = omega arith in
      omega (arith, rank-lt-pow l s hs, mul-le-mul smaller (le_refl (100 ^ l)))
  | inr (same, rest) ↦ rw same (omega (arith, rank-lt l s t hs ht (omega arith) (omega arith) rest))
]
