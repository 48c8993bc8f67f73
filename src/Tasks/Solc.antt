-- ===== src/Tasks/Solc.antt =====
-- utils/tasks/setupNativeSolc.ts: the solc of the machine, if its version fits, and else solcjs.
use index.Base.{
  Bool, false, not, if◌then◌else◌, List, [], ◌∷◌, ◌++◌, Option, get_or, Result, ok, err,
}
use index.Base.Text.{Text, codes}
use index.DataUtils.{has_part}
use index.Tasks.{Task, ◌>>◌}

pub data Line : Type 0 where
  local_version : Text → Line
  using_solcjs : Line
  using_native : Line

-- The module's variable, and the console.
pub record Setup : Type 0 where
  pub is_first_run : Bool
  pub console : List Line

abbrev log_first : Line → Task Setup (Unit {0})
log_first line setup = (
  if setup.is_first_run then record setup { console = setup.console ++ line ∷ [] } else setup,
  ok tt,
)

abbrev first_run_over : Task Setup (Unit {0})
first_run_over setup = (record setup { is_first_run = false }, ok tt)

abbrev returned : {A : Type 0} → Result A → Task Setup A
returned result setup = (setup, result)

-- What `execSync` gives, or the empty string if it throws.
abbrev pub version_or_empty : Result Text → Text
version_or_empty (err why) = []
version_or_empty (ok output) = output

-- What the version of the compiler reads as: a property that is missing reads as "undefined".
abbrev pub version_text : Option Text → Text
version_text version = get_or version (codes "undefined")

abbrev parsed_by : {A : Type 0} → (Text → Result A) → Result Text → Result A
parsed_by parse (err why) = err why
parsed_by parse (ok text) = parse text

module _ {Input Output : Type 0} (stringify : Input → Text) (parse : Text → Result Output)
    (solc : Text → Result Text) where
  abbrev pub native : Input → Result Output
  native input = parsed_by parse (solc (stringify input))

  abbrev with_solcjs : Result Output → Task Setup Output
  with_solcjs run_super = do log_first using_solcjs; first_run_over; returned run_super

  abbrev with_native : Input → Task Setup Output
  with_native input = do log_first using_native; first_run_over; returned (native input)

  unfoldable pub setup_native_solc :
      Result Text → Input → Option Text → Result Output → Task Setup Output
  setup_native_solc solc_version input version run_super =
      let output = version_or_empty solc_version in
      log_first (local_version output)
      >> (if not (has_part (version_text version) output)
          then with_solcjs run_super
          else with_native input)
