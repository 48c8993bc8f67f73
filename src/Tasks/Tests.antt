-- ===== src/Tasks/Tests.antt =====
-- The build's tasks at a concrete disk.
use index.Base.{
  ◌≡◌, refl, true, false, if◌then◌else◌, ◌++◌, get_elem?, get_or, none, some, List, [], ◌∷◌, All,
  Result, ok, err, thrown,
}
use index.Base.Int.{pos}
use index.Base.Text.{Text, codes, eqb}
use index.BigNumber.{reference}
use index.BigNumber.Decimal.{decimal}
use index.ArtifactUtils.{GasSource}
use index.Tasks.{Task, give}
use index.Tasks.Types.{Artifact, Disk, path_of, generate_types}
use index.Tasks.Restored.{artifacts_are_restored}
use index.Tasks.Compile.{Hardhat, compile_all}
use index.Tasks.Isolated.{IsHardhat, CompilesInOrder, compile_all_in_order}
use index.Tasks.Solc.{local_version, using_native}
use index.Tasks.Compilers.{Compilation, compile_each, compiles_by_version}
use index.Tasks.Config.{Environment, load}
use index.Tasks.Forking.{ForksWithToken, forks_with_token}
use index.Tasks.Samples.{print_artifact, read_artifact, print-read_artifact}

abbrev source : GasSource
source = record { is_coverage = false; coverage_gas_limit = pos 0; network_gas = pos 12_000_000 }

abbrev vault : Artifact Text Text
vault = record {
  abi =
      record { kind = codes "function"; gas = none; fields = (codes "name", codes "deposit") ∷ [] }
      ∷ record { kind = codes "event"; gas = none; fields = [] }
      ∷ [];
  rest = codes "Vault";
}

abbrev vault_path : Text
vault_path = path_of (codes "/app") (codes "abi") (codes "Vault.json")

abbrev disk : Disk
disk = record {
  files = λ directory. if eqb directory (codes "abi") then some (codes "Vault.json" ∷ []) else none;
  content = λ path. if eqb path vault_path then some (print_artifact vault) else none;
}

abbrev generated_by : Task Disk (Unit {0}) → Disk × Result (Unit {0})
generated_by run_super =
    generate_types decimal source read_artifact print_artifact (codes "/app") (codes "abi" ∷ [])
      run_super disk

artifacts_are_restored_example :
    ((generated_by (give tt)).1 ≡ ok tt)
    × All (λ path. (generated_by (give tt)).0.content path ≡ disk.content path) (vault_path ∷ [])
artifacts_are_restored_example =
    (artifacts_are_restored decimal source read_artifact print_artifact (codes "/app")
      (λ path. vault) print-read_artifact disk (codes "abi" ∷ []) (give tt) ((λ e. cc), tt)
      ((refl, ((λ f. refl), ((λ f. refl), tt))), tt)).2

-- Contracts are named as their sources, and the graph of a source has a library too.
abbrev hardhat : Hardhat (List Text) Text Text Text
hardhat = record {
  read_source_name = λ name w. (w, ok name);
  all_names = give (codes "Vault" ∷ codes "Token" ∷ []);
  dependency_graph = λ sources w. (w, ok (get_or (get_elem? sources 0) []));
  resolved_files = λ graph. codes "Library" ∷ graph ∷ [];
  source_name_of = λ file. file;
  compilation_job_for_file = λ graph file w. (w, ok (get_or file []));
  compile_job = λ args w. (w ++ args.compilation_job ∷ [], ok tt);
  typechain = give tt;
}

hardhat-IsHardhat : IsHardhat hardhat (λ w. w) (λ name. name) (λ job. job)
hardhat-IsHardhat = record {
  names_keep = λ w. refl;
  source_keeps = λ name w. refl;
  graph_keeps = λ sources w. refl;
  job_keeps = λ graph file w. refl;
  typechain_keeps = λ w. refl;
  source_right = λ name s w e. cc;
  graph_right = λ s graph w e. (1, graph, refl, cc);
  job_right = λ graph file job w e. cc;
  job_done = λ args w e. refl;
  job_failed = λ args w why e. cc;
}

compile_all_in_order_example :
    CompilesInOrder hardhat
      (λ w. w)
      (λ name. name)
      (λ job. job)
      (codes "Vault" ∷ codes "Token" ∷ [])
      []
      (compile_all hardhat [])
compile_all_in_order_example =
    compile_all_in_order hardhat (λ w. w) (λ name. name) (λ job. job) hardhat-IsHardhat
      (codes "Vault" ∷ codes "Token" ∷ []) [] refl

abbrev first_compilation : Compilation Text Text
first_compilation = record {
  solc_version = ok (codes "0.6.10+commit");
  input = codes "{}";
  by_solcjs = ok (codes "js");
}

abbrev second_compilation : Compilation Text Text
second_compilation = record first_compilation { solc_version = err (thrown "not found") }

compiles_by_version_example :
    compile_each
      (λ input. input)
      ok
      ok
      (some (codes "0.6.10"))
      (first_compilation ∷ second_compilation ∷ [])
      (record { is_first_run = true; console = [] })
    ≡ (
      record {
        is_first_run = false;
        console = local_version (codes "0.6.10+commit") ∷ using_native ∷ [];
      },
      ok (codes "{}") ∷ ok (codes "js") ∷ [],
    )
compiles_by_version_example =
    compiles_by_version (λ input. input) ok ok (some (codes "0.6.10")) first_compilation
      (second_compilation ∷ [])

abbrev forking : Environment
forking = record {
  fork = some (codes "true");
  alchemy_token = some (codes "a1b2");
  infura_token = none;
  kovan_deploy_private_key = none;
  staging_mainnet_deploy_private_key = none;
  production_mainnet_deploy_private_key = none;
}

forks_with_token_example : ForksWithToken forking (load forking)
forks_with_token_example = forks_with_token forking
