-- ===== src/TestingUtils/Isolation.antt =====
-- Snapshots that nested suites hold, and what keeps them good: utils/test/testingUtils.ts.
pub mod Scripts
pub mod Reruns
pub mod Sessions
pub mod Sandbox
use index.Base.{
  ◌≡◌, refl, sym, ap, subst, ◌∙◌, inl, inr, Bool, true, false, List, [], ◌∷◌, Option, none, some,
  Bool-cases, map, arith,
}
use index.Base.Text.{Text, eqb, eqb_refl, eqb→eq}
use index.Chain.{Request, Answer, Script}
use index.TestingUtils.Caching.{Suite, suite}
use index.TestingUtils.World.{cut, prepared}

-- Of each suite, the initializer, and whether it has run.
abbrev pub outline : List Suite → List (Script Unit × Bool)
outline [] = []
outline (suite initializer initialized blockchain ∷ suites) =
    (initializer, initialized) ∷ outline suites

abbrev pub initializers : List (Script Unit × Bool) → List (Script Unit)
initializers = map (λ s. s.0)

abbrev pub made : List (Script Unit × Bool) → List (Script Unit × Bool)
made = map (λ s. (s.0, true))

abbrev pub IsReady : List (Script Unit × Bool) → Type 0
IsReady [] = Unit
IsReady ((initializer, initialized) ∷ outer) = (initialized ≡ true) × IsReady outer

abbrev pub IsUntouched : List (Script Unit × Bool) → Type 0
IsUntouched [] = Unit
IsUntouched ((initializer, initialized) ∷ outer) = (initialized ≡ false) × IsUntouched outer

pub made-IsReady : (suites : List (Script Unit × Bool)) → IsReady (made suites)
made-IsReady [] = tt
made-IsReady (s ∷ suites) = (refl, made-IsReady suites)

pub made-ready : (suites : List (Script Unit × Bool)) → IsReady suites → made suites ≡ suites
made-ready [] ready = refl
made-ready ((initializer, initialized) ∷ suites) (set, ready) =
    rw (set, made-ready suites ready) refl

pub initializers-made :
    (suites : List (Script Unit × Bool)) → initializers (made suites) ≡ initializers suites
initializers-made [] = refl
initializers-made (s ∷ suites) = ap (◌∷◌ s.0) (initializers-made suites)

module _ {S : Type 0} where
  abbrev pub IsDistinct : List (Text × S) → Type 0
  IsDistinct [] = Unit
  IsDistinct ((id, s) ∷ taken) = (cut id taken ≡ none) × IsDistinct taken

  pub cut_new :
      (id : Text) (s : S) (taken : List (Text × S)) → cut id ((id, s) ∷ taken) ≡ some (s, taken)
  cut_new id s taken = rw (eqb_refl id) refl

  cut_later :
      (id other : Text) (s : S) (taken : List (Text × S)) (found : S × List (Text × S))
      → cut other taken ≡ none
      → cut id taken ≡ some found
      → cut id ((other, s) ∷ taken) ≡ some found
  cut_later id other s taken found fresh here = elim (Bool-cases (eqb id other)) [
    | inl same ↦ absurd (let e = ap (λ k. cut k taken) (eqb→eq id other same) in cc)
    | inr differs ↦ rw differs here
  ]

  rest_of :
      (id other k : Text) (s t : S) (taken rest : List (Text × S)) (found : S × List (Text × S))
      → (cut id taken ≡ some (s, rest) → cut other taken ≡ some found)
      → cut id ((k, t) ∷ taken) ≡ some (s, rest)
      → cut other rest ≡ some found
      → cut other taken ≡ some found
  rest_of id other k s t taken rest found deeper here there = elim (Bool-cases (eqb id k)) [
    | inl same ↦ ground arith
    | inr differs ↦ ground arith
  ]

  -- What is cut off at a snapshot keeps the snapshots before it.
  pub cut-older :
      (id other : Text) (s : S) (taken rest : List (Text × S)) (found : S × List (Text × S))
      → IsDistinct taken
      → cut id taken ≡ some (s, rest)
      → cut other rest ≡ some found
      → cut other taken ≡ some found
  cut-older id other s [] rest found distinct here there = absurd cc
  cut-older id other s ((k, t) ∷ taken) rest found (fresh, distinct) here there =
      cut_later other k t taken found fresh (
        rest_of id other k s t taken rest found
          (λ h. cut-older id other s taken rest found distinct h there) here there)

  rest-IsDistinct :
      (id k : Text) (s t : S) (taken rest : List (Text × S))
      → (cut id taken ≡ some (s, rest) → IsDistinct rest)
      → IsDistinct taken
      → cut id ((k, t) ∷ taken) ≡ some (s, rest)
      → IsDistinct rest
  rest-IsDistinct id k s t taken rest deeper distinct here = elim (Bool-cases (eqb id k)) [
    | inl same ↦ let e : taken ≡ rest = ground arith in subst IsDistinct e distinct
    | inr differs ↦ ground arith
  ]

  pub cut-IsDistinct :
      (id : Text) (s : S) (taken rest : List (Text × S))
      → IsDistinct taken
      → cut id taken ≡ some (s, rest)
      → IsDistinct rest
  cut-IsDistinct id s [] rest distinct here = absurd cc
  cut-IsDistinct id s ((k, t) ∷ taken) rest (fresh, distinct) here =
      rest-IsDistinct id k s t taken rest (λ h. cut-IsDistinct id s taken rest distinct h) distinct
        here
