-- ===== src/TestingUtils/World.antt =====
-- A test node as its documentation describes it: a state that requests read and change, snapshots of it,
-- and reverts, which take the snapshot and all later ones away.
use index.Base.{◌≡◌, refl, true, false, List, [], ◌∷◌, Option, none, some, if◌then◌else◌}
use index.Base.Text.{Text, codes, eqb}
use index.Chain.{
  Arg, text, Request, create, transact, read_address, read_addresses, read_number, list_accounts,
  block_number, block_at, latest_block, read_logs, receipt_topics, send_rpc, simulate, Answer,
  Script, give, fault, ask, Event,
}

pub record World (S : Type 0) : Type 0 where
  pub state : S
  pub taken : List (Text × S)

module _ {S : Type 0} where
  -- The snapshot with an identifier, and those taken before it.
  abbrev pub cut : Text → List (Text × S) → Option (S × List (Text × S))
  cut id [] = none
  cut id ((other, s) ∷ taken) =
      let earlier = cut id taken in if eqb id other then some (s, taken) else earlier

  abbrev pub back : World S → Option (S × List (Text × S)) → World S
  back w none = w
  back w (some (s, taken)) = record { state = s; taken = taken }

  abbrev pub revert_to : World S → List Arg → World S
  revert_to w (text id ∷ []) = back w (cut id w.taken)
  revert_to w args = w

abbrev pub IsPlain : Request → Type 0
IsPlain (send_rpc method args) =
    (eqb (codes method) (codes "evm_snapshot") ≡ false)
    × (eqb (codes method) (codes "evm_revert") ≡ false)
IsPlain r = Unit

-- A script that asks for no snapshot and no revert, and does not throw.
abbrev pub IsPlainly : Script Unit → Type 0
IsPlainly (give done) = Unit
IsPlainly (fault why) = ⊥
IsPlainly (ask r next) = IsPlain r × ((a : Answer r) → IsPlainly (next a))

-- The state that a script leaves, at a node that answers by its state.
module _ {S : Type 0} (apply : S → Request → S) (answer : S → (r : Request) → Answer r) where
  abbrev pub effect : Script Unit → S → S
  effect (give done) s = s
  effect (fault why) s = s
  effect (ask r next) s = effect (next (answer s r)) (apply s r)

  -- The initializers of nested suites, the outermost first.
  abbrev pub prepared : S → List (Script Unit) → S
  prepared start [] = start
  prepared start (initializer ∷ outer) = effect initializer (prepared start outer)

  abbrev pub after_event : World S → (r : Request) → Answer r → World S
  after_event w (send_rpc method args) id =
      if eqb (codes method) (codes "evm_snapshot")
      then record w { taken = (id, w.state) ∷ w.taken }
      else if eqb (codes method) (codes "evm_revert")
      then revert_to w args
      else record w { state = apply w.state (send_rpc method args) }
  after_event w r a = record w { state = apply w.state r }

  abbrev pub world : S → List Event → World S
  world start [] = record { state = start; taken = [] }
  world start (e ∷ past) = after_event (world start past) e.asked e.answer

  -- No snapshot that is still there has the identifier of a new one.
  abbrev IsFresh : World S → (r : Request) → Answer r → Type 0
  IsFresh w (send_rpc method args) id =
      eqb (codes method) (codes "evm_snapshot") ≡ true → cut id w.taken ≡ none
  IsFresh w r a = Unit

  abbrev pub AnswersByState : S → List Event → (r : Request) → Answer r → Type 0
  AnswersByState start past r a =
      IsFresh (world start past) r a × (IsPlain r → a ≡ answer (world start past).state r)

  pub after_event-plain :
      (w : World S) (r : Request) (a : Answer r)
      → IsPlain r
      → after_event w r a ≡ record w { state = apply w.state r }
  after_event-plain w (create signer artifact links args) a plain = refl
  after_event-plain w (transact signer to method value args) a plain = refl
  after_event-plain w (read_address to method args) a plain = refl
  after_event-plain w (read_addresses to method args) a plain = refl
  after_event-plain w (read_number to method args) a plain = refl
  after_event-plain w list_accounts a plain = refl
  after_event-plain w block_number a plain = refl
  after_event-plain w (block_at height) a plain = refl
  after_event-plain w latest_block a plain = refl
  after_event-plain w (read_logs query) a plain = refl
  after_event-plain w (receipt_topics hash) a plain = refl
  after_event-plain w (simulate signer to method args) a plain = refl
  after_event-plain w (send_rpc method args) a plain = rw (plain.0, plain.1) refl
