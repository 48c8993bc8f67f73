-- ===== src/Tasks/Types.antt =====
-- tasks/subtasks.ts: the gas limit in the ABIs that types are generated from.
use index.Base.{
  Bool, if◌then◌else◌, List, [], ◌∷◌, ◌++◌, Option, none, some, Result, ok, err, rejected,
}
use index.Base.Int.{ℤ}
use index.Base.Text.{Text, eqb, codes}
use index.BigNumber.{BigNumber}
use Prim.Native.String.{String}
use index.ArtifactUtils.{AbiElement, GasSource, add_gas_to_abi_methods, remove_gas_from_abi_methods}
use index.Tasks.{Task, ◌>>=◌, ◌>>◌, give, for_each}

-- `R` is all else in an artifact's file: its other fields, and the order in which the fields stand.
pub record Artifact (V R : Type 0) : Type 0 where
  pub abi : List (AbiElement V)
  pub rest : R

-- The files of the directories, and the content of each file.
pub record Disk : Type 0 where
  pub files : Text → Option (List Text)
  pub content : Text → Option Text

abbrev pub or_missing : {A : Type 0} → String → Option A → Result A
or_missing code none = err (rejected code)
or_missing code (some a) = ok a

abbrev pub read_dir : Text → Task Disk (List Text)
read_dir directory disk = (disk, or_missing "ENOENT" (disk.files directory))

-- A file that is there already keeps its place in the directory.
abbrev pub write : Text → Text → Disk → Disk
write path text disk = record disk {
  content = λ q. if eqb q path then some text else disk.content q;
}

abbrev pub output_file : Text → Text → Task Disk (Unit {0})
output_file path text disk = (write path text disk, ok tt)

-- `${process.cwd()}/${project}/${file}`
abbrev pub path_of : Text → Text → Text → Text
path_of cwd project file = cwd ++ codes "/" ++ project ++ codes "/" ++ file

module _ {V R : Type 0} ⦃bn : BigNumber⦄ (to_hex_string : ℤ → Text) (source : GasSource) where
  abbrev pub with_limits : Artifact V R → Artifact V R
  with_limits artifact = record artifact {
    abi = add_gas_to_abi_methods to_hex_string source artifact.abi;
  }

  abbrev pub without_limits : Artifact V R → Artifact V R
  without_limits artifact = record artifact { abi = remove_gas_from_abi_methods artifact.abi }

  -- The subtask for an artifact that is compiled: `skip` says whether SKIP_ABI_GAS_MODS is set.
  unfoldable pub get_artifact : {W : Type 0} → Bool → Task W (Artifact V R) → Task W (Artifact V R)
  get_artifact skip run_super = do
    artifact ← run_super
    give (if skip then artifact else with_limits artifact)

  module _ (parse : Text → Result (Artifact V R)) (stringify : Artifact V R → Text)
      (cwd : Text) where
    abbrev parsed : Option Text → Result (Artifact V R)
    parsed none = err (rejected "MODULE_NOT_FOUND")
    parsed (some text) = parse text

    -- `require` of a JSON file: the object that it keeps of a file that it has read, as changed, has what was
    -- written to the file.
    abbrev pub require : Text → Task Disk (Artifact V R)
    require path disk = (disk, parsed (disk.content path))

    abbrev pub inject_file :
        Text → Text → List (Artifact V R × Text) → Task Disk (List (Artifact V R × Text))
    inject_file project file artifacts = do
      artifact ← require (path_of cwd project file)
      output_file (path_of cwd project file) (stringify (with_limits artifact))
      give (artifacts ++ (with_limits artifact, path_of cwd project file) ∷ [])

    abbrev pub inject_files :
        Text → List Text → List (Artifact V R × Text) → Task Disk (List (Artifact V R × Text))
    inject_files project [] artifacts = give artifacts
    inject_files project (file ∷ files) artifacts =
        inject_file project file artifacts >>= inject_files project files

    abbrev pub inject_projects :
        List Text → List (Artifact V R × Text) → Task Disk (List (Artifact V R × Text))
    inject_projects [] artifacts = give artifacts
    inject_projects (project ∷ projects) artifacts = do
      files ← read_dir project
      more ← inject_files project files artifacts
      inject_projects projects more

    abbrev pub restore : Artifact V R × Text → Task Disk (Unit {0})
    restore (artifact, path) = output_file path (stringify (without_limits artifact))

    -- The subtask that generates the types.
    unfoldable pub generate_types : List Text → Task Disk (Unit {0}) → Task Disk (Unit {0})
    generate_types external_gas_mods run_super = do
      artifacts ← inject_projects external_gas_mods []
      run_super
      for_each restore artifacts
