-- ===== src/Tasks/Restored.antt =====
-- What generating the types leaves of the external artifacts: tasks/subtasks.ts.
use index.Base.{
  ◌≡◌, refl, sym, ap, subst, ◌∙◌, inl, inr, ◌≢◌, Bool-cases, List, [], ◌∷◌, ◌++◌, map, Option, none,
  some, All, Result, ok, err, get_or, Option-cases, All-append, All-both, All-map,
}
use mathlib.Core.List.{append-nil, append_assoc, map-append}
use index.Base.Int.{ℤ}
use index.Base.Text.{Text, eqb, eqb→eq}
use index.BigNumber.{BigNumber}
use index.ArtifactUtils.{GasSource, add_gas_to_abi_methods}
use index.ArtifactUtils.Limits.{HasGas, add-add, add-remove_gas}
use index.Tasks.{Task, task_next, for_each}
use index.Tasks.Types.{
  Artifact, Disk, write, path_of, with_limits, inject_file, inject_files, inject_projects, restore,
  generate_types,
}
use index.Tasks.Writes.{write_all, Holds, write_all-Holds, write_all-files, write_all-append}

-- The paths of the external artifacts, in the order in which they are visited.
abbrev pub paths_of : Text → (Text → Option (List Text)) → List Text → List Text
paths_of cwd files [] = []
paths_of cwd files (project ∷ projects) =
    map (path_of cwd project) (get_or (files project) []) ++ paths_of cwd files projects

abbrev pub IsDirectory : (Text → Option (List Text)) → Text → Type 0
IsDirectory files project = files project ≢ none

module _ {V R : Type 0} ⦃bn : BigNumber⦄ (to_hex_string : ℤ → Text) (source : GasSource)
    (parse : Text → Result (Artifact V R)) (stringify : Artifact V R → Text) (cwd : Text)
    (original : Text → Artifact V R)
    (reads : (artifact : Artifact V R) → parse (stringify artifact) ≡ ok artifact) where
  abbrev limited : Text → Artifact V R
  limited path = with_limits to_hex_string source (original path)

  abbrev limited_text : Text → Text
  limited_text path = stringify (limited path)

  abbrev items : List Text → List (Artifact V R × Text)
  items = map (λ path. (limited path, path))

  abbrev IsReadable : Disk → Text → Type 0
  IsReadable disk path =
      (artifact : Artifact V R) × (disk.content path ≡ some (stringify artifact))
      × (with_limits to_hex_string source artifact ≡ limited path)

  limited_twice : (path : Text) → with_limits to_hex_string source (limited path) ≡ limited path
  unfolding add_gas_to_abi_methods
  limited_twice path =
      ap (λ abi. record (original path) { abi = abi }) (add-add _ (original path).abi)

  write-IsReadable :
      (path q : Text) (disk : Disk)
      → IsReadable disk q
      → IsReadable (write path (limited_text path) disk) q
  write-IsReadable path q disk (artifact, here, same) = elim (Bool-cases (eqb q path)) [
    | inl e ↦ (limited q, rw (e, eqb→eq q path e) refl, limited_twice q)
    | inr e ↦ (artifact, rw e here, same)
  ]

  write-All :
      (path : Text) (disk : Disk) (paths : List Text)
      → All (IsReadable disk) paths
      → All (IsReadable (write path (limited_text path) disk)) paths
  write-All path disk [] readable = tt
  write-All path disk (q ∷ paths) (here, readable) =
      (write-IsReadable path q disk here, write-All path disk paths readable)

  inject_file_lem :
      (project file : Text) (artifacts : List (Artifact V R × Text)) (disk : Disk)
      → let path = path_of cwd project file in
        IsReadable disk path
        → inject_file to_hex_string source parse stringify cwd project file artifacts disk
          ≡ (write path (limited_text path) disk, ok (artifacts ++ (limited path, path) ∷ []))
  inject_file_lem project file artifacts disk (artifact, here, same) =
      rw (here, reads artifact, same) refl

  inject_files_lem :
      (project : Text) (files : List Text) (artifacts : List (Artifact V R × Text)) (disk : Disk)
      → let paths = map (path_of cwd project) files in
        All (IsReadable disk) paths
        → inject_files to_hex_string source parse stringify cwd project files artifacts disk
          ≡ (write_all limited_text paths disk, ok (artifacts ++ items paths))
  inject_files_lem project [] artifacts disk readable = rw (append-nil artifacts) refl
  inject_files_lem project (file ∷ files) artifacts disk (here, readable) =
      let path = path_of cwd project file in
      rw (inject_file_lem project file artifacts disk here) (
        inject_files_lem project files (artifacts ++ (limited path, path) ∷ [])
          (write path (limited_text path) disk)
          (write-All path disk (map (path_of cwd project) files) readable)
        ∙ rw (append_assoc artifacts) refl)

  write_all-All :
      (paths others : List Text) (disk : Disk)
      → All (IsReadable disk) others
      → All (IsReadable (write_all limited_text paths disk)) others
  write_all-All [] others disk readable = readable
  write_all-All (path ∷ paths) others disk readable =
      write_all-All paths others (write path (limited_text path) disk)
        (write-All path disk others readable)

  inject_projects_lem :
      (files : Text → Option (List Text)) (projects : List Text)
      (artifacts : List (Artifact V R × Text)) (disk : Disk)
      → let paths = paths_of cwd files projects in
        disk.files ≡ files
        → All (IsDirectory files) projects
        → All (IsReadable disk) paths
        → inject_projects to_hex_string source parse stringify cwd projects artifacts disk
          ≡ (write_all limited_text paths disk, ok (artifacts ++ items paths))
  inject_projects_lem files [] artifacts disk same directories readable =
      rw (append-nil artifacts) refl
  inject_projects_lem files (project ∷ projects) artifacts disk same (there, directories) readable =
      elim (Option-cases (files project)) [
        | inl e ↦ absurd (there e)
        | inr (names, e) ↦
            let ps : List Text = map (path_of cwd project) names in
            let qs : List Text = paths_of cwd files projects in
            let (first, later) = All-append (IsReadable disk) ps qs (
              subst
                (λ found. All (IsReadable disk) (map (path_of cwd project) (get_or found []) ++ qs))
                e readable) in
            let listed : disk.files project ≡ some names = ap (λ all. all project) same ∙ e in
            rw (listed, e, inject_files_lem project names artifacts disk first)
              (inject_projects_lem files projects (artifacts ++ items ps)
                  (write_all limited_text ps disk) (write_all-files limited_text ps disk ∙ same)
                  directories (write_all-All ps qs disk later)
                ∙ rw
                    (
                      write_all-append limited_text ps qs,
                      map-append {B = Artifact V R × Text} (λ path. (limited path, path)) ps qs,
                      append_assoc artifacts,
                    )
                    refl)
      ]

  restore_lem :
      (paths : List Text) (disk : Disk)
      → All (λ path. All (HasGas none) (original path).abi) paths
      → for_each (restore to_hex_string source parse stringify cwd) (items paths) disk
        ≡ (write_all (λ path. stringify (original path)) paths disk, ok tt)
  restore_lem [] disk free = refl
  restore_lem (path ∷ paths) disk (here, free) =
      rw ((add-remove_gas to_hex_string source (original path).abi here).1)
        (restore_lem paths (write path (stringify (original path)) disk) free)

  module _ (disk : Disk) (projects : List Text) (run_super : Task Disk (Unit {0}))
      (directories : All (IsDirectory disk.files) projects)
      (settled : All
        (λ path.
          (disk.content path ≡ some (stringify (original path)))
          × All (HasGas none) (original path).abi)
        (paths_of cwd disk.files projects)) where
    abbrev paths : List Text
    paths = paths_of cwd disk.files projects

    abbrev injected : Disk
    injected = write_all limited_text paths disk

    readable : All (IsReadable disk) paths
    readable = All-map (λ path known. (original path, known.0, refl)) paths settled

    generated :
        generate_types to_hex_string source parse stringify cwd projects run_super disk
        ≡ task_next
            (run_super injected)
            (λ _. for_each (restore to_hex_string source parse stringify cwd) (items paths))
    unfolding generate_types
    generated = rw (inject_projects_lem disk.files projects [] disk refl directories readable) refl

    -- What is left of the external artifacts by what the extended task left.
    abbrev LeftBy : Disk × Result (Unit {0}) → Disk × Result (Unit {0}) → Type 0
    LeftBy (left, ok done) after =
        (after.1 ≡ ok tt) × All (λ path. after.0.content path ≡ disk.content path) paths
    LeftBy (left, err why) after = after ≡ (left, err why)

    generated_after :
        (super : Disk × Result (Unit {0}))
        → LeftBy super (
            task_next super
              (λ _. for_each (restore to_hex_string source parse stringify cwd) (items paths)))
    generated_after (left, err why) = refl
    generated_after (left, ok done) =
        rw (restore_lem paths left (All-map (λ path known. known.1) paths settled)) (
          refl,
          All-both paths (λ path done known. done ∙ sym known.0)
              (write_all-Holds (λ path. stringify (original path)) paths left) settled,
        )

    -- Where every external artifact's file is an artifact as it is printed, without gas limits: the task
    -- that is extended runs once each of the files has the gas limits; if it returns, so does generating
    -- the types, and each of the files is as it was; and if it throws, so does generating the types, and
    -- the files stay as the extended task left them.
    pub artifacts_are_restored :
        (seen : Disk) × All (Holds limited_text seen) paths
        × LeftBy
            (run_super seen)
            (generate_types to_hex_string source parse stringify cwd projects run_super disk)
    artifacts_are_restored = (
      injected,
      write_all-Holds limited_text paths disk,
      rw generated (generated_after (run_super injected)),
    )
