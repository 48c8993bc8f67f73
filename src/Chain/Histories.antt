-- ===== src/Chain/Histories.antt =====
-- What a script's run comes to if the node rejects nothing: a relation between the history and the result.
use index.Base.{List, ◌∷◌, Result, ok, err, Returns}
use index.Chain.{Request, Answer, Script, give, fault, ask, Event, Node, run}

-- A node that rejects nothing; `Promise` is what its answers are relied on for.
abbrev pub Obliges : (List Event → (r : Request) → Answer r → Type 0) → Node → Type 0
Obliges Promise node = (past : List Event) (r : Request) → Returns (node past r) (Promise past r)

abbrev pub Anything : List Event → (r : Request) → Answer r → Type 0
Anything past r a = Unit

-- What has to hold of a script for `Q` to hold of the history and the result.
abbrev pub Leads :
    {A : Type 0}
    → (List Event → (r : Request) → Answer r → Type 0)
    → (List Event → Result A → Type 0)
    → List Event
    → Script A
    → Type 0
Leads Promise Q past (give a) = Q past (ok a)
Leads Promise Q past (fault e) = Q past (err e)
Leads Promise Q past (ask r k) =
    (a : Answer r)
    → Promise past r a
    → Leads Promise Q (record { asked = r; answer = a } ∷ past) (k a)

abbrev pub Ends : {A : Type 0} → (List Event → Result A → Type 0) → List Event × Result A → Type 0
Ends Q (past, result) = Q past result

module _ {A : Type 0} (Promise : List Event → (r : Request) → Answer r → Type 0)
    (Q : List Event → Result A → Type 0) where
  answer-Leads :
      (past : List Event) (r : Request) (answer : Result (Answer r))
      (next : Answer r → List Event × Result A)
      → Returns answer (Promise past r)
      → ((a : Answer r) → Promise past r a → Ends Q (next a))
      → Ends Q (elim answer [ err e ↦ (past, err e) | ok a ↦ next a ])
  answer-Leads past r (err e) next answered each = absurd answered
  answer-Leads past r (ok a) next answered each = each a answered

  pub run-Leads :
      (node : Node) (past : List Event) (m : Script A)
      → Obliges Promise node
      → Leads Promise Q past m
      → Ends Q (run node past m)
  unfolding run
  run-Leads node past (give a) answers leads = leads
  run-Leads node past (fault e) answers leads = leads
  run-Leads node past (ask r k) answers leads =
      answer-Leads past r (node past r) _ (answers past r) (λ a kept.
        run-Leads node (record { asked = r; answer = a } ∷ past) (k a) answers (leads a kept))
