-- ===== src/Chain/Order.antt =====
-- In what order a script asks, also when the node rejects a request on the way.
use index.Base.{List, [], ◌∷◌, ◌++◌, ◌≡◌, Result, ok, err}
use index.Chain.{Request, Answer, Script, give, fault, ask, Event, Node, run}

-- The requests of a history, the first one first.
abbrev pub chronicle : List Event → List Request
chronicle [] = []
chronicle (e ∷ past) = chronicle past ++ e.asked ∷ []

abbrev pub IsPrefix : List Request → List Request → Type 0
IsPrefix part whole = (rest : List Request) × (part ++ rest ≡ whole)

-- What a node's answers are relied on for, if it answers.
abbrev pub Accepts : {A : Type 0} → (A → Type 0) → Result A → Type 0
Accepts P (err e) = Unit
Accepts P (ok a) = P a

abbrev pub Keeps : ((r : Request) → Answer r → Type 0) → Node → Type 0
Keeps Promise node = (past : List Event) (r : Request) → Accepts (Promise r) (node past r)

-- A script that, asked so far what `trace` has, asks a prefix of `plan`, and all of it if it gives a value
-- with `P`.
abbrev pub Follows :
    {A : Type 0}
    → ((r : Request) → Answer r → Type 0)
    → List Request
    → (A → Type 0)
    → List Request
    → Script A
    → Type 0
Follows Promise plan P trace (give a) = (trace ≡ plan) × P a
Follows Promise plan P trace (fault e) = IsPrefix trace plan
Follows Promise plan P trace (ask r k) =
    IsPrefix trace plan
    × ((a : Answer r) → Promise r a → Follows Promise plan P (trace ++ r ∷ []) (k a))

abbrev pub Ordered : {A : Type 0} → List Request → (A → Type 0) → List Event × Result A → Type 0
Ordered plan P (past, err e) = IsPrefix (chronicle past) plan
Ordered plan P (past, ok a) = (chronicle past ≡ plan) × P a

module _ {A : Type 0} (Promise : (r : Request) → Answer r → Type 0) (plan : List Request)
    (P : A → Type 0) where
  answer-Follows :
      (past : List Event) (r : Request) (answer : Result (Answer r))
      (next : Answer r → List Event × Result A)
      → IsPrefix (chronicle past) plan
      → Accepts (Promise r) answer
      → ((a : Answer r) → Promise r a → Ordered plan P (next a))
      → Ordered plan P (elim answer [ err e ↦ (past, err e) | ok a ↦ next a ])
  answer-Follows past r (err e) next so_far kept each = so_far
  answer-Follows past r (ok a) next so_far kept each = each a kept

  pub run-Follows :
      (node : Node) (past : List Event) (m : Script A)
      → Keeps Promise node
      → Follows Promise plan P (chronicle past) m
      → Ordered plan P (run node past m)
  unfolding run
  run-Follows node past (give a) keeps follows = follows
  run-Follows node past (fault e) keeps follows = follows
  run-Follows node past (ask r k) keeps (so_far, rest) =
      answer-Follows past r (node past r) _ so_far (keeps past r) (λ a kept.
        run-Follows node (record { asked = r; answer = a } ∷ past) (k a) keeps (rest a kept))
