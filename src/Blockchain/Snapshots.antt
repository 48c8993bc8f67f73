-- ===== src/Blockchain/Snapshots.antt =====
-- What a revert goes back to: utils/common/blockchainUtils.ts.
use index.Base.{ℕ, zero, suc, ◌≡◌, refl, ap, List, [], ◌∷◌, Result, ok, err, if◌then◌else◌}
use index.Base.Int.{ℤ, pos}
use index.Base.Text.{Text, codes, eqb}
use index.Chain.{
  Arg, text, number, Request, send_rpc, Answer, Script, give, ◌>>=◌, ◌>>◌, bind_assoc, Event, Node,
  run,
}
use index.Chain.Histories.{Obliges, Anything, Leads, Ends, run-Leads}
use index.Blockchain.{
  Blockchain, new_blockchain, save_snapshot, revert, revert_by_id, reset, increase_time,
  set_next_block_timestamp, wait_blocks,
}

-- What a test does with the chain.
pub data Step : Type 0 where
  saving : Step
  reverting : Step
  reverting_to : Text → Step
  resetting : Step
  passing : ℤ → Step
  timing : ℤ → Step
  waiting : ℕ → Step

abbrev pub perform : Blockchain → Step → Script Blockchain
perform this saving = save_snapshot this >>= λ saved. give saved.0
perform this reverting = revert this >> give this
perform this (reverting_to id) = revert_by_id id >> give this
perform this resetting = reset >> give this
perform this (passing duration) = increase_time duration >> give this
perform this (timing timestamp) = set_next_block_timestamp timestamp >> give this
perform this (waiting count) = wait_blocks count >> give this

abbrev pub session : Blockchain → List Step → Script Blockchain
session this [] = give this
session this (step ∷ steps) = perform this step >>= λ next. session next steps

-- The identifier that the node answered last when a snapshot was asked for, and 0 if none was.
abbrev pub saved_by : (r : Request) → Answer r → Arg → Arg
saved_by (send_rpc method args) answer before =
    if eqb (codes method) (codes "evm_snapshot") then text answer else before
saved_by _ answer before = before

abbrev pub last_saved : List Event → Arg
last_saved [] = number (pos 0)
last_saved (e ∷ past) = saved_by e.asked e.answer (last_saved past)

abbrev pub RevertsToLast : List Event → Result (Unit {0}) → Type 0
RevertsToLast past (err e) = ⊥
RevertsToLast [] (ok done) = ⊥
RevertsToLast (e ∷ past) (ok done) = e.asked ≡ send_rpc "evm_revert" (last_saved past ∷ [])

module _ (Q : List Event → Result (Unit {0}) → Type 0) where
  -- What goes on from an object that holds the last snapshot.
  abbrev Continues : (Blockchain → Script Unit) → Type 0
  Continues f =
      (past : List Event) (this : Blockchain)
      → this.snapshot_id ≡ last_saved past
      → Leads Anything Q past (f this)

  wait_blocks-Leads :
      (count : ℕ) (past : List Event) (this : Blockchain) (f : Blockchain → Script Unit)
      → this.snapshot_id ≡ last_saved past
      → Continues f
      → Leads Anything Q past (wait_blocks count >> give this >>= f)
  unfolding wait_blocks
  wait_blocks-Leads zero past this f held goes = goes past this held
  wait_blocks-Leads (suc count) past this f held goes =
      λ a _. wait_blocks-Leads count _ this f held goes

  perform-Leads :
      (step : Step) (past : List Event) (this : Blockchain) (f : Blockchain → Script Unit)
      → this.snapshot_id ≡ last_saved past
      → Continues f
      → Leads Anything Q past (perform this step >>= f)
  unfolding save_snapshot revert revert_by_id reset increase_time set_next_block_timestamp
  perform-Leads saving past this f held goes = λ id _.
      goes (record { asked = send_rpc "evm_snapshot" []; answer = id } ∷ past)
        (record { snapshot_id = text id }) refl
  perform-Leads reverting past this f held goes = λ a _. goes _ this held
  perform-Leads (reverting_to id) past this f held goes = λ a _. goes _ this held
  perform-Leads resetting past this f held goes = λ a _. goes _ this held
  perform-Leads (passing duration) past this f held goes = λ a _. goes _ this held
  perform-Leads (timing timestamp) past this f held goes = λ a _. goes _ this held
  perform-Leads (waiting count) past this f held goes =
      wait_blocks-Leads count past this f held goes

  session-Leads :
      (steps : List Step) (past : List Event) (this : Blockchain) (f : Blockchain → Script Unit)
      → this.snapshot_id ≡ last_saved past
      → Continues f
      → Leads Anything Q past (session this steps >>= f)
  session-Leads [] past this f held goes = goes past this held
  session-Leads (step ∷ steps) past this f held goes =
      rw (bind_assoc (perform this step) (λ next. session next steps) f) (
        perform-Leads step past this _ held
          (λ past' next held'. session-Leads steps past' next f held' goes))

-- At a node that rejects nothing, after any sequence of saving, reverting, passing time and
-- waiting for blocks, a revert returns, and its request, the last one, names the identifier
-- that the node answered when a snapshot was last asked for, or the number 0 if none was.
pub revert_goes_to_last_snapshot :
    (node : Node) (steps : List Step)
    → Obliges Anything node
    → Ends RevertsToLast (run node [] (session new_blockchain steps >>= revert))
unfolding revert
revert_goes_to_last_snapshot node steps answers =
    run-Leads Anything RevertsToLast node [] _ answers (
      session-Leads RevertsToLast steps [] new_blockchain revert refl
        (λ past this held a _. ap (λ id. send_rpc "evm_revert" (id ∷ [])) held))
