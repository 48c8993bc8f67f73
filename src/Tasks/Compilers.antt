-- ===== src/Tasks/Compilers.antt =====
-- Which compiler runs, and what is logged: utils/tasks/setupNativeSolc.ts.
use index.Base.{
  ◌≡◌, refl, inl, inr, Bool, true, false, if◌then◌else◌, Bool-cases, List, [], ◌∷◌, ◌++◌, map,
  Option, Result,
}
use mathlib.Core.List.{append_assoc}
use index.Base.Text.{Text}
use index.DataUtils.{has_part}
use index.Tasks.Solc.{
  Setup, Line, local_version, using_solcjs, using_native, version_or_empty, version_text, native,
  setup_native_solc,
}

-- A compilation: what asking for the version gives at the time, the input, and what solcjs gives.
pub record Compilation (Input Output : Type 0) : Type 0 where
  pub solc_version : Result Text
  pub input : Input
  pub by_solcjs : Result Output

module _ {Input Output : Type 0} (stringify : Input → Text) (parse : Text → Result Output)
    (solc : Text → Result Text) (version : Option Text) where
  abbrev fits : Compilation Input Output → Bool
  fits c = has_part (version_text version) (version_or_empty c.solc_version)

  abbrev expected : Compilation Input Output → Result Output
  expected c = if fits c then native stringify parse solc c.input else c.by_solcjs

  abbrev messages : Compilation Input Output → List Line
  messages c =
      local_version (version_or_empty c.solc_version)
      ∷ (if fits c then using_native else using_solcjs)
      ∷ []

  abbrev step : Compilation Input Output → Setup → Setup × Result Output
  step c = setup_native_solc stringify parse solc c.solc_version c.input version c.by_solcjs

  abbrev pub compile_each : List (Compilation Input Output) → Setup → Setup × List (Result Output)
  compile_each [] setup = (setup, [])
  compile_each (c ∷ cs) setup =
      let (next, result) = step c setup in
      let (last, results) = compile_each cs next in (last, result ∷ results)

  first_step :
      (c : Compilation Input Output) (console : List Line)
      → step c (record { is_first_run = true; console = console })
        ≡ (record { is_first_run = false; console = console ++ messages c }, expected c)
  unfolding setup_native_solc
  first_step c console = elim (Bool-cases (fits c)) [
    | inl e ↦ rw (e, append_assoc console) refl
    | inr e ↦ rw (e, append_assoc console) refl
  ]

  later_step :
      (c : Compilation Input Output) (console : List Line)
      → step c (record { is_first_run = false; console = console })
        ≡ (record { is_first_run = false; console = console }, expected c)
  unfolding setup_native_solc
  later_step c console = elim (Bool-cases (fits c)) [ inl e ↦ rw e refl | inr e ↦ rw e refl ]

  later_each :
      (cs : List (Compilation Input Output)) (console : List Line)
      → compile_each cs (record { is_first_run = false; console = console })
        ≡ (record { is_first_run = false; console = console }, map expected cs)
  later_each [] console = refl
  later_each (c ∷ cs) console = rw (later_step c console, later_each cs console) refl

  -- In a process that compiles any number of times, each time the native compiler gives the result if
  -- what it says of its version includes the version that is configured, and else solcjs does; and the
  -- first time alone logs, the local version and which of the two is used.
  pub compiles_by_version :
      (c : Compilation Input Output) (cs : List (Compilation Input Output))
      → compile_each (c ∷ cs) (record { is_first_run = true; console = [] })
        ≡ (record { is_first_run = false; console = messages c }, map expected (c ∷ cs))
  compiles_by_version c cs = rw (first_step c [], later_each cs (messages c)) refl
