-- ===== src/Tasks.antt =====
-- The build's tasks, hardhat.config.ts, tasks/subtasks.ts and utils/tasks/setupNativeSolc.ts, over what
-- they share. Hardhat, its tasks and Node's file system are not part of the repository.
pub mod Types
pub mod Writes
pub mod Restored
pub mod Compile
pub mod Isolated
pub mod Solc
pub mod Compilers
pub mod Config
pub mod Forking
mod Samples
mod Tests
use index.Base.{◌≡◌, List, [], ◌∷◌, Error, Result, ok, err}

-- Code that works on a state, and returns or throws: what was done to the state before a throw stays.
abbrev pub Task : Type 0 → Type 0 → Type 0
Task W A = W → W × Result A

abbrev pub task_next : {W A B : Type 0} → W × Result A → (A → Task W B) → W × Result B
task_next (w, err e) next = (w, err e)
task_next (w, ok a) next = next a w

pub task_next-ok :
    {W A B : Type 0} (m : W × Result A) (next : A → Task W B) (a : A)
    → m.1 ≡ ok a
    → task_next m next ≡ next a m.0
task_next-ok (w, err e) next a h = absurd cc
task_next-ok (w, ok b) next a h = cc

infixl 5 ◌>>=◌ ◌>>◌
abbrev pub ◌>>=◌ : {W A B : Type 0} → Task W A → (A → Task W B) → Task W B
m >>= next = λ w. task_next (m w) next

abbrev pub ◌>>◌ : {W A B : Type 0} → Task W A → Task W B → Task W B
m >> n = m >>= λ _. n

abbrev pub give : {W A : Type 0} → A → Task W A
give a w = (w, ok a)

abbrev pub throw : {W A : Type 0} → Error → Task W A
throw e w = (w, err e)

-- `for (const x of xs) await body(x)`
abbrev pub for_each : {W A : Type 0} → (A → Task W (Unit {0})) → List A → Task W (Unit {0})
for_each body [] = give tt
for_each body (x ∷ xs) = body x >> for_each body xs
