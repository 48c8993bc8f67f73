-- ===== src/Tasks/Isolated.antt =====
-- What the tasks of hardhat.config.ts compile.
use index.Base.{
  ◌≡◌, refl, sym, ap, subst, ◌∙◌, inl, inr, Bool-cases, ℕ, zero, suc, List, [], ◌∷◌, ◌++◌, map,
  Option, some, get_elem?, Result, ok, err, Error,
}
use mathlib.Core.List.{append-nil, append_assoc}
use index.Base.Text.{Text, eqb, eqb_refl, eqb→eq}
use index.Tasks.{Task, task_next, task_next-ok, ◌>>=◌, for_each}
use index.Tasks.Compile.{
  Hardhat, CompileJobArgs, files_with, job_args, compile_contract, compile_all,
}

module _ {W Graph File Job : Type 0} (hardhat : Hardhat W Graph File Job) (compiled : W → List Text)
    (source_of : Text → Text) (file_of : Job → File) where
  open hardhat use {
    read_source_name, all_names, dependency_graph, resolved_files, source_name_of,
    compilation_job_for_file, compile_job, typechain,
  }

  abbrev Keeps : {A : Type 0} → Task W A → Type 0
  Keeps m = (w : W) → compiled (m w).0 ≡ compiled w

  -- A contract's artifact names its source, the graph for a source has a file with it, a job for a file
  -- is for that file, and only the task that compiles a job compiles, the file's source if it returns, and
  -- nothing if it throws.
  pub record IsHardhat : Type 0 where
    pub names_keep : Keeps all_names
    pub source_keeps : (name : Text) → Keeps (read_source_name name)
    pub graph_keeps : (sources : List Text) → Keeps (dependency_graph sources)
    pub job_keeps :
        (graph : Graph) (file : Option File) → Keeps (compilation_job_for_file graph file)
    pub typechain_keeps : Keeps typechain
    pub source_right :
        (name s : Text) (w : W) → (read_source_name name w).1 ≡ ok s → s ≡ source_of name
    pub graph_right :
        (s : Text) (graph : Graph) (w : W)
        → (dependency_graph (s ∷ []) w).1 ≡ ok graph
        → (i : ℕ) × (file : File) × (get_elem? (resolved_files graph) i ≡ some file)
          × (source_name_of file ≡ s)
    pub job_right :
        (graph : Graph) (file : File) (job : Job) (w : W)
        → (compilation_job_for_file graph (some file) w).1 ≡ ok job
        → file_of job ≡ file
    pub job_done :
        (args : CompileJobArgs Job) (w : W)
        → (compile_job args w).1 ≡ ok tt
        → compiled (compile_job args w).0
          ≡ compiled w ++ source_name_of (file_of args.compilation_job) ∷ []
    pub job_failed :
        (args : CompileJobArgs Job) (w : W) (why : Error)
        → (compile_job args w).1 ≡ err why
        → compiled (compile_job args w).0 ≡ compiled w

  -- A task that compiles nothing, and what goes on after it.
  after_keeping :
      {A B : Type 0} (P : W × Result B → Type 0) (m : Task W A) (next : A → Task W B) (w : W)
      → Keeps m
      → ((v : W) (why : Error) → compiled v ≡ compiled w → P (v, err why))
      → ((v : W) (a : A) → (m w).1 ≡ ok a → compiled v ≡ compiled w → P (next a v))
      → P ((m >>= next) w)
  after_keeping P m next w keeps failed goes = by_outcome (m w) refl
    where
      by_outcome : (r : W × Result _) → m w ≡ r → P (task_next r next)
      by_outcome (v, err why) e = failed v why (ap (λ p. compiled p.0) (sym e) ∙ keeps w)
      by_outcome (v, ok a) e = goes v a (ap (λ p. p.1) e) (ap (λ p. compiled p.0) (sym e) ∙ keeps w)

  first_with :
      (s : Text) (files : List File) (i : ℕ) (file : File)
      → get_elem? files i ≡ some file
      → source_name_of file ≡ s
      → (found : File) × (get_elem? (files_with hardhat s files) 0 ≡ some found)
        × (source_name_of found ≡ s)
  first_with s [] i file here named = absurd cc
  first_with s (x ∷ files) zero file here named =
      let same : source_name_of x ≡ s = cc in (x, rw (same, eqb_refl s) refl, same)
  first_with s (x ∷ files) (suc i) file here named =
      let rest = first_with s files i file here named in
      elim (Bool-cases (eqb (source_name_of x) s)) [
        | inl e ↦ (x, rw e refl, eqb→eq (source_name_of x) s e)
        | inr e ↦ rw e rest
      ]

  -- What is compiled once a contract's task is over.
  abbrev One : Text → List Text → W × Result (Unit {0}) → Type 0
  One name before (v, err why) = compiled v ≡ before
  One name before (v, ok done) = compiled v ≡ before ++ source_of name ∷ []

  compile_job-One :
      (laws : IsHardhat) (name : Text) (args : CompileJobArgs Job) (w : W)
      → source_name_of (file_of args.compilation_job) ≡ source_of name
      → One name (compiled w) (compile_job args w)
  compile_job-One laws name args w right = by_outcome (compile_job args w) refl
    where
      by_outcome : (r : W × Result (Unit {0})) → compile_job args w ≡ r → One name (compiled w) r
      by_outcome (v, err why) e =
          ap (λ p. compiled p.0) (sym e) ∙ laws.job_failed args w why (ap (λ p. p.1) e)
      by_outcome (v, ok tt) e =
          ap (λ p. compiled p.0) (sym e)
          ∙ laws.job_done args w (ap (λ p. p.1) e)
          ∙ ap (λ s. compiled w ++ s ∷ []) right

  compile_contract-One :
      (laws : IsHardhat) (name : Text) (w : W)
      → One name (compiled w) (compile_contract hardhat name w)
  compile_contract-One laws name w =
      after_keeping (One name (compiled w)) (read_source_name name) _ w (laws.source_keeps name)
        (λ v why kept. kept)
        (λ v s named kept.
          after_keeping (One name (compiled w)) (dependency_graph (s ∷ [])) _ v
            (laws.graph_keeps (s ∷ [])) (λ u why kept'. kept' ∙ kept)
            (λ u graph built kept'.
              let (i, file, here, right) = laws.graph_right s graph v built in
              let (found, first, right') = first_with s (resolved_files graph) i file here right in
              rw first (
                after_keeping (One name (compiled w)) (compilation_job_for_file graph (some found))
                  _ u (laws.job_keeps graph (some found)) (λ t why kept''. kept'' ∙ kept' ∙ kept)
                  (λ t job made kept''.
                    subst (λ before. One name before (compile_job (job_args hardhat job) t))
                      (kept'' ∙ kept' ∙ kept)
                      (compile_job-One laws name (job_args hardhat job) t (
                        ap source_name_of (laws.job_right graph found job u made)
                        ∙ right'
                        ∙ laws.source_right name s w named))))))

  -- The sources of the contracts, in order; of those before the one that throws if one does.
  abbrev pub CompilesInOrder : List Text → List Text → W × Result (Unit {0}) → Type 0
  CompilesInOrder names before (v, ok done) = compiled v ≡ before ++ map source_of names
  CompilesInOrder names before (v, err why) =
      (done : List Text) × (rest : List Text) × (names ≡ done ++ rest)
      × (compiled v ≡ before ++ map source_of done)

  one_more :
      (name : Text) (names before now : List Text) (r : W × Result (Unit {0}))
      → now ≡ before ++ source_of name ∷ []
      → CompilesInOrder names now r
      → CompilesInOrder (name ∷ names) before r
  one_more name names before now (v, ok done) e rest =
      rw (rest, e) (append_assoc before (source_of name ∷ []) (map source_of names))
  one_more name names before now (v, err why) e (done, left, split, rest) = (
    name ∷ done,
    left,
    ap (◌∷◌ name) split,
    rw (rest, e) (append_assoc before (source_of name ∷ []) (map source_of done)),
  )

  for_each-InOrder :
      (laws : IsHardhat) (names : List Text) (w : W)
      → CompilesInOrder names (compiled w) (for_each (compile_contract hardhat) names w)
  for_each-InOrder laws [] w = rw (append-nil (compiled w)) refl
  for_each-InOrder laws (name ∷ names) w =
      by_outcome (for_each-InOrder laws names) (compile_contract hardhat name w)
        (compile_contract-One laws name w)
    where
      by_outcome :
          ((v : W)
            → CompilesInOrder names (compiled v) (for_each (compile_contract hardhat) names v))
          → (r : W × Result (Unit {0})) → One name (compiled w) r
          → CompilesInOrder
              (name ∷ names)
              (compiled w)
              (task_next r (λ _. for_each (compile_contract hardhat) names))
      by_outcome rest (v, err why) kept = ([], name ∷ names, refl, kept ∙ sym (append-nil _))
      by_outcome rest (v, ok done) more =
          one_more name names (compiled w) (compiled v) _ more (rest v)

  -- Compiling all contracts, where Hardhat lists them: if it returns, what was compiled is the source of
  -- each contract, once, in the order of the list; and if it throws, that of the contracts of a first
  -- part of the list.
  pub compile_all_in_order :
      (laws : IsHardhat) (names : List Text) (w : W)
      → (all_names w).1 ≡ ok names
      → CompilesInOrder names (compiled w) (compile_all hardhat w)
  unfolding compile_all
  compile_all_in_order laws names w listed =
      rw (task_next-ok (all_names w) (for_each (compile_contract hardhat)) names listed) (
        subst
          (λ before.
            CompilesInOrder names before
              (for_each (compile_contract hardhat) names (all_names w).0))
          (laws.names_keep w) (for_each-InOrder laws names (all_names w).0))
