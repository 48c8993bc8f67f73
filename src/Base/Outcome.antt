-- ===== src/Base/Outcome.antt =====
-- What a call returns or throws. A rejected promise is a throw where it is awaited.
use mathlib.Core.Path.{◌≡◌, refl}
use Prim.Native.String.{String}

-- The faults of ethers' `BigNumber`, errors that the code throws itself (with their message), and
-- whatever a call of the node or of a contract rejects with. `unfinished` is no fault of the code: it
-- marks a loop that has used up its fuel.
pub data Error : Type 0 where
  division_by_zero : Error
  negative_modulus : Error
  unfinished : Error
  type_error : Error
  thrown : String → Error
  rejected : String → Error

pub data Result {ℓ} (A : Type ℓ) : Type ℓ where
  err : Error → Result A
  ok : A → Result A

-- What a result satisfies if there is one; a throw does not satisfy it.
abbrev pub Returns {ℓ} : {A : Type ℓ} → Result A → (A → Type 0) → Type 0
Returns (err why) P = ⊥
Returns (ok value) P = P value

module _ {ℓ κ} {A : Type ℓ} {B : Type κ} where
  -- A throw skips what would come next.
  infixl 5 ◌>>=◌
  abbrev pub ◌>>=◌ : Result A → (A → Result B) → Result B
  err why >>= next = err why
  ok value >>= next = next value

  -- Two calls that go on differently after the same beginning.
  pub bind-follows :
      (m : Result A) (f g : A → Result B) (b c : B)
      → ((a : A) → f a ≡ ok b → g a ≡ ok c)
      → (m >>= f) ≡ ok b
      → (m >>= g) ≡ ok c
  bind-follows (err why) f g b c each h = absurd cc
  bind-follows (ok value) f g b c each h = each value h

  pub bind-eq : (m : Result A) (f g : A → Result B) → ((a : A) → f a ≡ g a) → (m >>= f) ≡ (m >>= g)
  bind-eq (err why) f g each = refl
  bind-eq (ok value) f g each = each value

pub bind_assoc {ℓ κ μ} :
    {A : Type ℓ} {B : Type κ} {C : Type μ} (m : Result A) (f : A → Result B) (g : B → Result C)
    → ((m >>= f) >>= g) ≡ (m >>= λ a. f a >>= g)
bind_assoc (err why) f g = refl
bind_assoc (ok value) f g = refl
