-- ===== src/Chain.antt =====
-- The node as the deployment helpers and fixtures of utils/deploys and utils/fixtures use it through
-- ethers, which is not part of the repository. Code that awaits calls is a `Script`: the requests that it
-- makes, each going on with the answer. A node answers or rejects a request, and may do so by all that
-- was asked before.
pub mod Scoping
pub mod Histories
pub mod Samples
pub mod Order
use index.Base.{
  ℕ, ◌≡◌, refl, Bool, true, false, if◌then◌else◌, List, [], ◌∷◌, ◌++◌, Option, none, some, Error,
  type_error, Result, ok, err,
}
use index.Base.Int.{ℤ, pos}
use index.Base.Text.{Text, eqb}
use Prim.Native.String.{String}

-- An argument of a call, as the contract's interface reads it. Only a JSON-RPC method is given `undefined`.
pub data Arg : Type 0 where
  address : Text → Arg
  addresses : List Text → Arg
  text : Text → Arg
  number : ℤ → Arg
  numbers : List ℤ → Arg
  texts : List Text → Arg
  flag : Bool → Arg
  undefined : Arg

-- Of a block, what the code reads, and its number.
pub record Block : Type 0 where
  pub height : ℤ
  pub timestamp : ℤ

-- Which blocks a query of logs is about.
pub data BlockTag : Type 0 where
  latest : BlockTag
  numbered : ℕ → BlockTag

-- The filter that `getLogs` is given.
pub record LogQuery : Type 0 where
  pub from_block : BlockTag
  pub to_block : BlockTag
  pub topics : List Text

-- A simulation is a transaction that is not sent, for what its method would return, two numbers.
-- A creation has the account that signs, the artifact, the libraries that are linked and the arguments
-- of the constructor; a transaction has the account, the contract, the method and the ether sent with it.
pub data Request : Type 0 where
  create : Text → String → List (Text × Text) → List Arg → Request
  transact : Text → Text → String → ℤ → List Arg → Request
  read_address : Text → String → List Arg → Request
  read_addresses : Text → String → List Arg → Request
  read_number : Text → String → List Arg → Request
  list_accounts : Request
  block_number : Request
  block_at : ℤ → Request
  latest_block : Request
  simulate : Text → Text → String → List Arg → Request
  read_logs : LogQuery → Request
  receipt_topics : Text → Request
  send_rpc : String → List Arg → Request

-- Of a log, the data is read, and of a transaction's receipt, the topics of each log, and a receipt may have no logs.
-- A creation answers with the new contract's address, a transaction with its hash.
abbrev pub Answer : Request → Type 0
Answer (create signer artifact links args) = Text
Answer (transact signer to method value args) = Text
Answer (read_address to method args) = Text
Answer (read_addresses to method args) = List Text
Answer (read_number to method args) = ℤ
Answer (simulate signer to method args) = ℤ × ℤ
Answer list_accounts = List Text
Answer block_number = ℤ
Answer (block_at height) = Block
Answer latest_block = Block
Answer (read_logs query) = List Text
Answer (receipt_topics hash) = Option (List (List Text))
Answer (send_rpc method args) = Text

pub data Script (A : Type 0) : Type 0 where
  give : A → Script A
  fault : Error → Script A
  ask : (r : Request) → (Answer r → Script A) → Script A

infixl 5 ◌>>=◌ ◌>>◌
abbrev pub ◌>>=◌ : {A B : Type 0} → Script A → (A → Script B) → Script B
give a >>= next = next a
fault e >>= next = fault e
ask r k >>= next = ask r (λ a. k a >>= next)

abbrev pub ◌>>◌ : {A B : Type 0} → Script A → Script B → Script B
m >> n = m >>= λ _. n

abbrev pub request : (r : Request) → Script (Answer r)
request r = ask r give

-- A property that may be undefined, used: a fault if it is.
abbrev pub defined : {A : Type 0} → Option A → Script A
defined none = fault type_error
defined (some a) = give a

abbrev pub lift : {A : Type 0} → Result A → Script A
lift (err e) = fault e
lift (ok a) = give a

-- A contract's object: its address, and the account that signs what is sent through it.
pub record Contract : Type 0 where
  pub at : Text
  pub signer : Text

-- An address that is given, or else that of a property.
abbrev pub address_or : Option Text → Option Contract → Script Text
address_or none property = defined property >>= λ contract. give contract.at
address_or (some a) property = give a

-- A property of an object, set: the last value of a name counts.
abbrev pub put : Text → Text → List (Text × Text) → List (Text × Text)
put name value [] = (name, value) ∷ []
put name value (property ∷ rest) =
    let others = put name value rest in
    if eqb name property.0 then (name, value) ∷ rest else property ∷ others

abbrev pub object_of : List (Text × Text) → List (Text × Text) → List (Text × Text)
object_of done [] = done
object_of done (property ∷ rest) = object_of (put property.0 property.1 done) rest

-- `new <artifact>__factory(links, signer).deploy(args)`
abbrev pub deploy : Text → String → List (Text × Text) → List Arg → Script Contract
deploy signer artifact links args = do
  at ← request (create signer artifact (object_of [] links) args)
  give (record { at = at; signer = signer })

-- `new <artifact>__factory(signer).attach(at)`, and `connect(at, signer)` of a factory
abbrev pub attach : Text → Text → Contract
attach signer at = record { at = at; signer = signer }

-- A transaction without ether, awaited.
abbrev pub send : Contract → String → List Arg → Script Text
send contract method args = request (transact contract.signer contract.at method (pos 0) args)

-- What was asked and answered.
pub record Event : Type 0 where
  pub asked : Request
  pub answer : Answer asked

abbrev pub Node : Type 0
Node = List Event → (r : Request) → Result (Answer r)

-- A run goes on until the script gives a value or faults, or the node rejects a request. The history
-- has the last event first.
unfoldable pub run : {A : Type 0} → Node → List Event → Script A → List Event × Result A
run node past (give a) = (past, ok a)
run node past (fault e) = (past, err e)
run node past (ask r k) = elim (node past r) [
  | err e ↦ (past, err e)
  | ok a ↦ run node (record { asked = r; answer = a } ∷ past) (k a)
]

-- A run of a script whose first request is answered ends as the run of the rest.
pub run-ask :
    {A : Type 0} (node : Node) (past : List Event) (r : Request) (k : Answer r → Script A)
    (a : Answer r) (outcome : Result A)
    → node past r ≡ ok a
    → (run node (record { asked = r; answer = a } ∷ past) (k a)).1 ≡ outcome
    → (run node past (ask r k)).1 ≡ outcome
unfolding run
run-ask node past r k a outcome answered rest = rw (run, answered) rest

pub run-give :
    {A : Type 0} (node : Node) (past : List Event) (a : A) → (run node past (give a)).1 ≡ ok a
unfolding run
run-give node past a = refl

pub bind_assoc :
    {A B C : Type 0} (m : Script A) (f : A → Script B) (g : B → Script C)
    → ((m >>= f) >>= g) ≡ (m >>= λ a. f a >>= g)
bind_assoc (give a) f g = refl
bind_assoc (fault e) f g = refl
bind_assoc (ask r k) f g = λ i. ask r (λ a. bind_assoc (k a) f g i)

pub bind_give : {A : Type 0} (m : Script A) → (m >>= give) ≡ m
bind_give (give a) = refl
bind_give (fault e) = refl
bind_give (ask r k) = λ i. ask r (λ a. bind_give (k a) i)
