-- ===== src/Tasks/Compile.antt =====
-- The tasks of hardhat.config.ts that compile contracts one by one.
use index.Base.{Bool, true, List, [], ◌∷◌, Option, get_elem?, ℕ, if◌then◌else◌}
use index.Base.Text.{Text, eqb}
use index.Tasks.{Task, ◌>>=◌, ◌>>◌, for_each}

pub record CompileJobArgs (Job : Type 0) : Type 0 where
  pub compilation_job : Job
  pub compilation_jobs : List Job
  pub compilation_job_index : ℕ
  pub emits_artifacts : Bool
  pub quiet : Bool

-- What the tasks use of Hardhat: the artifacts, and the tasks that they run.
pub record Hardhat (W Graph File Job : Type 0) : Type 0 where
  pub read_source_name : Text → Task W Text
  pub all_names : Task W (List Text)
  pub dependency_graph : List Text → Task W Graph
  pub resolved_files : Graph → List File
  pub source_name_of : File → Text
  pub compilation_job_for_file : Graph → Option File → Task W Job
  pub compile_job : CompileJobArgs Job → Task W (Unit {0})
  pub typechain : Task W (Unit {0})

module _ {W Graph File Job : Type 0} (hardhat : Hardhat W Graph File Job) where
  open hardhat use {
    read_source_name, all_names, dependency_graph, resolved_files, source_name_of,
    compilation_job_for_file, compile_job, typechain,
  }

  abbrev pub files_with : Text → List File → List File
  files_with source_name [] = []
  files_with source_name (file ∷ files) =
      let rest = files_with source_name files in
      if eqb (source_name_of file) source_name then file ∷ rest else rest

  abbrev pub job_args : Job → CompileJobArgs Job
  job_args job = record {
    compilation_job = job;
    compilation_jobs = job ∷ [];
    compilation_job_index = 0;
    emits_artifacts = true;
    quiet = true;
  }

  -- What both tasks do for a contract.
  abbrev pub compile_contract : Text → Task W (Unit {0})
  compile_contract contract_name = do
    source_name ← read_source_name contract_name
    graph ← dependency_graph (source_name ∷ [])
    job ←
        compilation_job_for_file graph (get_elem? (files_with source_name (resolved_files graph)) 0)
    compile_job (job_args job)

  unfoldable pub compile_one : Text → Task W (Unit {0})
  compile_one contract_name = do compile_contract contract_name; typechain

  unfoldable pub compile_all : Task W (Unit {0})
  compile_all = do names ← all_names; for_each compile_contract names
