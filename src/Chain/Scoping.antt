-- ===== src/Chain/Scoping.antt =====
-- Which addresses a script may use: the given ones, and those that the node answered before.
use index.Base.{◌≡◌, ◌⊎◌, List, [], ◌∷◌, ◌++◌, All, Result, ok, err}
use index.Base.Text.{Text}
use index.Chain.{
  Arg, address, addresses, Request, create, transact, read_address, read_addresses, read_number,
  list_accounts, block_number, block_at, latest_block, read_logs, receipt_topics, send_rpc,
  simulate, Answer, Script, give, fault, ask, ◌>>=◌, Event, Node, run,
}

abbrev pub In : List Text → Text → Type 0
In [] a = ⊥
In (x ∷ xs) a = (a ≡ x) ⊎ In xs a

abbrev pub addresses_in : List Arg → List Text
addresses_in [] = []
addresses_in (address a ∷ args) = a ∷ addresses_in args
addresses_in (addresses list ∷ args) = list ++ addresses_in args
addresses_in (_ ∷ args) = addresses_in args

abbrev linked : List (Text × Text) → List Text
linked [] = []
linked (link ∷ links) = link.1 ∷ linked links

-- The addresses that a request uses.
abbrev pub mentions : Request → List Text
mentions (create signer artifact links args) = signer ∷ linked links ++ addresses_in args
mentions (transact signer to method value args) = signer ∷ to ∷ addresses_in args
mentions (read_address to method args) = to ∷ addresses_in args
mentions (read_addresses to method args) = to ∷ addresses_in args
mentions (read_number to method args) = to ∷ addresses_in args
mentions list_accounts = []
mentions block_number = []
mentions (block_at height) = []
mentions latest_block = []
mentions (read_logs query) = []
mentions (receipt_topics hash) = []
mentions (simulate signer to method args) = signer ∷ to ∷ addresses_in args
mentions (send_rpc method args) = addresses_in args

-- The addresses that an answer makes known.
abbrev pub answered : (r : Request) → Answer r → List Text
answered (create signer artifact links args) a = a ∷ []
answered (transact signer to method value args) a = []
answered (read_address to method args) a = a ∷ []
answered (read_addresses to method args) list = list
answered (read_number to method args) a = []
answered list_accounts list = list
answered block_number a = []
answered (block_at height) a = []
answered latest_block a = []
answered (read_logs query) a = []
answered (receipt_topics hash) a = []
answered (simulate signer to method args) a = []
answered (send_rpc method args) a = []

abbrev pub known : List Text → List Event → List Text
known given [] = given
known given (e ∷ past) = answered e.asked e.answer ++ known given past

-- Every request of the history uses addresses that were known when it was made.
abbrev pub IsScoped : List Text → List Event → Type 0
IsScoped given [] = Unit
IsScoped given (e ∷ past) = All (In (known given past)) (mentions e.asked) × IsScoped given past

-- What has to hold of a script for its requests to use known addresses, and for the value that it gives
-- to satisfy `P` with the addresses known then.
abbrev pub Scoped : {A : Type 0} → (List Text → A → Type 0) → List Text → Script A → Type 0
Scoped P names (give a) = P names a
Scoped P names (fault e) = Unit
Scoped P names (ask r k) =
    All (In names) (mentions r) × ((a : Answer r) → Scoped P (answered r a ++ names) (k a))

pub Scoped-bind :
    {A B : Type 0} (P : List Text → B → Type 0) (names : List Text) (m : Script A)
    (f : A → Script B)
    → Scoped (λ more a. Scoped P more (f a)) names m
    → Scoped P names (m >>= f)
Scoped-bind P names (give a) f h = h
Scoped-bind P names (fault e) f h = tt
Scoped-bind P names (ask r k) f (h, rest) =
    (h, λ a. Scoped-bind P (answered r a ++ names) (k a) f (rest a))

abbrev pub Outcome :
    {A : Type 0} → List Text → (List Text → A → Type 0) → List Event × Result A → Type 0
Outcome given P (past, ok a) = IsScoped given past × P (known given past) a
Outcome given P (past, err e) = IsScoped given past

answer-Outcome :
    {A : Type 0} (P : List Text → A → Type 0) (given : List Text) (past : List Event) (r : Request)
    (answer : Result (Answer r)) (next : Answer r → List Event × Result A)
    → IsScoped given past
    → ((a : Answer r) → Outcome given P (next a))
    → Outcome given P (elim answer [ err e ↦ (past, err e) | ok a ↦ next a ])
answer-Outcome P given past r (err e) next scoped each = scoped
answer-Outcome P given past r (ok a) next scoped each = each a

pub run-Scoped :
    {A : Type 0} (P : List Text → A → Type 0) (node : Node) (given : List Text) (past : List Event)
    (m : Script A)
    → Scoped P (known given past) m
    → IsScoped given past
    → Outcome given P (run node past m)
unfolding run
run-Scoped P node given past (give a) h scoped = (scoped, h)
run-Scoped P node given past (fault e) h scoped = scoped
run-Scoped P node given past (ask r k) (uses, rest) scoped =
    answer-Outcome P given past r (node past r) _ scoped (λ a.
      run-Scoped P node given (record { asked = r; answer = a } ∷ past) (k a) (rest a)
        (uses, scoped))
