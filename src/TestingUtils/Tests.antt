-- ===== src/TestingUtils/Tests.antt =====
-- Suites and tests at a concrete node, which counts the transactions.
use index.Base.{
  ℕ, zero, suc, ◌+◌, ◌<◌, ◌≡◌, refl, ap, inl, inr, List, [], ◌∷◌, none, ok, type_error, length,
  if◌then◌else◌, Bool-cases, arith,
}
use index.Base.Int.{pos}
use index.Base.Text.{Text, codes, eqb, eqb→eq}
use index.Chain.{
  Request, create, transact, read_address, read_addresses, read_number, list_accounts, block_number,
  block_at, latest_block, read_logs, receipt_topics, send_rpc, simulate, Answer, Script, request,
  give, fault, ◌>>◌, Node, run, ◌>>=◌,
}
use index.Chain.Histories.{Obliges, Ends}
use index.Blockchain.{new_blockchain}
use index.TestingUtils.Caching.{Action, hooks, entering, testing, leaving, session, sandboxed_tests}
use index.TestingUtils.World.{World, cut, world, AnswersByState}
use index.TestingUtils.Isolation.Sessions.{outside, StartsAlike, tests_start_alike}
use index.TestingUtils.Isolation.Sandbox.{EndsAt, tests_leave_no_trace}

abbrev counted : ℕ → Request → ℕ
counted n (transact signer to method value args) = suc n
counted n r = n

abbrev said : ℕ → (r : Request) → Answer r
said n (create signer artifact links args) = []
said n (transact signer to method value args) = n ∷ []
said n (read_address to method args) = []
said n (read_addresses to method args) = []
said n (read_number to method args) = pos n
said n list_accounts = []
said n block_number = pos n
said n (block_at height) = record { height = pos n; timestamp = pos n }
said n latest_block = record { height = pos n; timestamp = pos n }
said n (read_logs query) = []
said n (receipt_topics hash) = none
said n (simulate signer to method args) = (pos n, pos n)
said n (send_rpc method args) = []

abbrev total : List (Text × ℕ) → ℕ
total [] = 0
total ((id, n) ∷ taken) = length id + total taken

abbrev zeros : ℕ → Text
zeros zero = []
zeros (suc n) = 0 ∷ zeros n

-- A new identifier is longer than all that are there.
abbrev next_id : World ℕ → Text
next_id w = zeros (suc (total w.taken))

abbrev counting : Node
counting past (send_rpc method args) =
    let w = world counted said 0 past in
    ok (if eqb (codes method) (codes "evm_snapshot") then next_id w else [])
counting past r = ok (said (world counted said 0 past).state r)

length-zeros : (n : ℕ) → length (zeros n) ≡ n
length-zeros zero = refl
length-zeros (suc n) = ap suc (length-zeros n)

cut-longer : (id : Text) (taken : List (Text × ℕ)) → total taken < length id → cut id taken ≡ none
cut-longer id [] h = refl
cut-longer id ((other, n) ∷ taken) h = elim (Bool-cases (eqb id other)) [
  | inl same ↦ absurd (omega (arith, h, ap length (eqb→eq id other same)))
  | inr differs ↦ rw differs (cut-longer id taken (omega (arith, h)))
]

counting-Obliges : Obliges (AnswersByState counted said 0) counting
counting-Obliges past (create signer artifact links args) = (tt, λ plain. refl)
counting-Obliges past (transact signer to method value args) = (tt, λ plain. refl)
counting-Obliges past (read_address to method args) = (tt, λ plain. refl)
counting-Obliges past (read_addresses to method args) = (tt, λ plain. refl)
counting-Obliges past (read_number to method args) = (tt, λ plain. refl)
counting-Obliges past list_accounts = (tt, λ plain. refl)
counting-Obliges past block_number = (tt, λ plain. refl)
counting-Obliges past (block_at height) = (tt, λ plain. refl)
counting-Obliges past latest_block = (tt, λ plain. refl)
counting-Obliges past (read_logs query) = (tt, λ plain. refl)
counting-Obliges past (receipt_topics hash) = (tt, λ plain. refl)
counting-Obliges past (simulate signer to method args) = (tt, λ plain. refl)
counting-Obliges past (send_rpc method args) = (
  λ asked. rw asked (
      cut-longer (zeros (suc (total taken))) taken
        (omega (arith, length-zeros (suc (total taken))))),
  λ plain. rw plain.0 refl,
)
  where
    taken : List (Text × ℕ)
    taken = (world counted said 0 past).taken

abbrev paying : Script Unit
paying = request (transact [] [] "pay" (pos 1) []) >> give tt

abbrev failing : Script Unit
failing = paying >> fault type_error

abbrev story : List Action
story =
    testing failing
    ∷ entering (paying >> paying)
    ∷ testing paying
    ∷ testing failing
    ∷ leaving
    ∷ testing paying
    ∷ entering paying
    ∷ []

tests_start_alike_example : Ends (StartsAlike counted said 0 (paying ∷ paying ∷ [])) (
    run counting []
      (session outside (entering paying ∷ story) >>= λ here. hooks here.suites here.snapshots))
tests_start_alike_example =
    tests_start_alike counted said 0 counting story paying (search parts 60) counting-Obliges

tests_leave_no_trace_example :
    Ends
      (EndsAt counted said 0 (record { state = 0; taken = [] }))
      (run counting [] (sandboxed_tests new_blockchain (paying ∷ failing ∷ [])))
tests_leave_no_trace_example =
    tests_leave_no_trace counted said 0 counting new_blockchain (paying ∷ failing ∷ [])
      (search parts 20) counting-Obliges
