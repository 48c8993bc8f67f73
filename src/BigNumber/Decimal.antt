-- ===== src/BigNumber/Decimal.antt =====
-- The decimal text of an integer, as `toString` gives it: no leading zero, and a minus sign first.
use Prim.Native.Nat.{compare, Ordering}
use index.Base.{ℕ, zero, suc, ◌+◌, ◌/◌, ◌%◌, [], ◌∷◌, ◌++◌}
use index.Base.Int.{ℤ, pos, negsuc}
use index.Base.Text.{Text}

-- The fuel is the number itself, which has at most that many digits after the first.
unfoldable pub digits : ℕ → ℕ → Text
digits zero n = (48 + n % 10) ∷ []
digits (suc fuel) n = elim (compare n 10) [
  | Ordering.lt ↦ (48 + n) ∷ []
  | _ ↦ digits fuel (n / 10) ++ ((48 + n % 10) ∷ [])
]

unfoldable pub decimal : ℤ → Text
decimal (pos n) = digits n n
decimal (negsuc n) = 45 ∷ digits (suc n) (suc n)
