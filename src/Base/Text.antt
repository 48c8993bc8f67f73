-- ===== src/Base/Text.antt =====
-- JavaScript strings as the lists of their code units, and their order.
use Prim.Native.Nat.{ℕ}
use Prim.Native.Char.{code}
use Prim.Native.String.{String}
use mathlib.Core.Bool.{Bool, true, false, ◌&&◌}
use mathlib.Core.Path.{◌≡◌, refl}
use native.Mathlib.Omega.{arith}
use mathlib.Core.List.{List, [], ◌∷◌}
use index.Base.Tests.{ltb, ◌==◌, if◌then◌else◌}

abbrev pub Text : Type 0
Text = List ℕ

-- The code units of a text that is ASCII.
abbrev pub codes : String → Text
codes String.[] = []
codes (String.◌∷◌ c s) = code c ∷ codes s

abbrev pub eqb : Text → Text → Bool
eqb [] [] = true
eqb [] (y ∷ ys) = false
eqb (x ∷ xs) [] = false
eqb (x ∷ xs) (y ∷ ys) = x == y && eqb xs ys

-- `s < t`: the first code unit that differs decides, and a proper prefix comes first.
abbrev pub text_lt : Text → Text → Bool
text_lt xs [] = false
text_lt [] (y ∷ ys) = true
text_lt (x ∷ xs) (y ∷ ys) = if x == y then text_lt xs ys else ltb x y

pub eqb_refl : (a : Text) → eqb a a ≡ true
eqb_refl [] = refl
eqb_refl (c ∷ a) = rw (eqb_refl a) (ground arith)

both : (c d : ℕ) (e : Bool) → (c == d && e) ≡ true → (c ≡ d) × (e ≡ true)
both c d e h = ground arith

pub eqb→eq : (a b : Text) → eqb a b ≡ true → a ≡ b
eqb→eq [] [] h = refl
eqb→eq [] (d ∷ b) h = cc
eqb→eq (c ∷ a) [] h = cc
eqb→eq (c ∷ a) (d ∷ b) h =
    let (head, tail) = both c d (eqb a b) h in rw (head, eqb→eq a b tail) refl
