-- ===== src/TestingUtils/Caching.antt =====
-- utils/test/testingUtils.ts: `cacheBeforeEach`, `addSnapshotBeforeRestoreAfterEach`, and what Mocha does
-- with the hooks that they add.
use index.Base.{Bool, true, false, List, [], ◌∷◌}
use index.Base.Text.{Text}
use index.Chain.{Script, give, fault, ask, ◌>>=◌, ◌>>◌, undefined}
use index.Blockchain.{
  Blockchain, new_blockchain, send_json_rpc_request, save_snapshot, revert, revert_by_id,
}

-- A suite that `cacheBeforeEach` was called in: the initializer, and the variables that its hooks share,
-- `initialized` and `blockchain`.
pub data Suite : Type 0 where
  suite : (initializer : Script Unit) → (initialized : Bool) → Blockchain → Suite

abbrev pub cache_before_each : Script Unit → Suite
cache_before_each initializer = suite initializer false new_blockchain

-- The hook before each test. `SNAPSHOTS` is shared by all suites: its last element stands first.
unfoldable pub before_each : Suite → List Text → Script (Suite × List Text)
before_each (suite initializer false blockchain) snapshots = do
  initializer
  saved ← save_snapshot blockchain
  give (suite initializer true saved.0, saved.1 ∷ snapshots)
before_each (suite initializer true blockchain) [] = do
  send_json_rpc_request "evm_revert" (undefined ∷ [])
  saved ← save_snapshot blockchain
  give (suite initializer true saved.0, saved.1 ∷ [])
before_each (suite initializer true blockchain) (snapshot_id ∷ snapshots) = do
  revert_by_id snapshot_id
  saved ← save_snapshot blockchain
  give (suite initializer true saved.0, saved.1 ∷ snapshots)

-- The hook after all tests of a suite.
abbrev pub after : Suite → List Text → List Text
after (suite initializer false blockchain) snapshots = snapshots
after (suite initializer true blockchain) [] = []
after (suite initializer true blockchain) (snapshot_id ∷ snapshots) = snapshots

-- The suites that a test stands in, the innermost first, and `SNAPSHOTS`.
pub record Place : Type 0 where
  pub suites : List Suite
  pub snapshots : List Text

abbrev pub with_hook : Suite → Place → Script Place
with_hook own outer = do
  hooked ← before_each own outer.snapshots
  give (record { suites = hooked.0 ∷ outer.suites; snapshots = hooked.1 })

-- The hooks of an outer suite run first.
abbrev pub hooks : List Suite → List Text → Script Place
hooks [] snapshots = give (record { suites = []; snapshots = snapshots })
hooks (own ∷ outer) snapshots = hooks outer snapshots >>= with_hook own

-- A test that throws fails, and the tests go on.
abbrev pub attempt : Script Unit → Script Unit
attempt (give done) = give done
attempt (fault why) = give tt
attempt (ask r next) = ask r (λ answer. attempt (next answer))

pub data Action : Type 0 where
  entering : Script Unit → Action
  testing : Script Unit → Action
  leaving : Action

abbrev pub leave : List Suite → List Text → Place
leave [] snapshots = record { suites = []; snapshots = snapshots }
leave (own ∷ outer) snapshots = record { suites = outer; snapshots = after own snapshots }

abbrev pub perform : Place → Action → Script Place
perform here (entering initializer) =
    give (record here { suites = cache_before_each initializer ∷ here.suites })
perform here (testing body) = do ready ← hooks here.suites here.snapshots; attempt body; give ready
perform here leaving = give (leave here.suites here.snapshots)

abbrev pub session : Place → List Action → Script Place
session here [] = give here
session here (action ∷ actions) = perform here action >>= λ next. session next actions

-- A test between the hooks of `addSnapshotBeforeRestoreAfterEach`.
unfoldable pub sandboxed : Blockchain → Script Unit → Script Blockchain
sandboxed blockchain body = do
  saved ← save_snapshot blockchain
  attempt body
  revert saved.0
  give saved.0

abbrev pub sandboxed_tests : Blockchain → List (Script Unit) → Script Blockchain
sandboxed_tests blockchain [] = give blockchain
sandboxed_tests blockchain (body ∷ bodies) =
    sandboxed blockchain body >>= λ next. sandboxed_tests next bodies
