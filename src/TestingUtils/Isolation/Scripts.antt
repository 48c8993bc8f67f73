-- ===== src/TestingUtils/Isolation/Scripts.antt =====
-- What a script, a revert and a new snapshot do to the state of a node that answers by its state.
use index.Base.{◌≡◌, refl, sym, ap, subst, ◌∙◌, List, [], ◌∷◌, some, Result}
use index.Base.Text.{Text}
use index.Chain.{text, Request, send_rpc, Answer, Script, give, fault, ask, ◌>>=◌, Event}
use index.Chain.Histories.{Leads}
use index.TestingUtils.World.{
  World, cut, back, IsPlainly, effect, after_event, after_event-plain, world, AnswersByState,
}
use index.TestingUtils.Isolation.{IsDistinct}

module _ {S : Type 0} (apply : S → Request → S) (answer : S → (r : Request) → Answer r) (start : S)
    {B : Type 0} (Q : List Event → Result B → Type 0) where
  abbrev pub Follows : List Event → Script B → Type 0
  Follows past m = Leads (AnswersByState apply answer start) Q past m

  abbrev pub now : List Event → World S
  now past = world apply answer start past

  -- A script without snapshots and reverts changes the state alone.
  pub script-Follows :
      (m : Script Unit) (past : List Event) (f : Unit → Script B)
      → IsPlainly m
      → ((past' : List Event)
          → now past' ≡ record (now past) { state = effect apply answer m (now past).state }
          → Follows past' (f tt))
      → Follows past (m >>= f)
  script-Follows (give done) past f plain goes = goes past refl
  script-Follows (fault why) past f plain goes = absurd plain
  script-Follows (ask r next) past f (plain, rest) goes = λ a (fresh, answered).
      script-Follows (next a) (record { asked = r; answer = a } ∷ past) f (rest a)
        (λ past' e. goes past' (e ∙ stepped a (answered plain)))
    where
      w : World S
      w = now past

      stepped :
          (a : Answer r)
          → a ≡ answer w.state r
          → ◌≡◌ {A = World S}
              (record (after_event apply answer w r a) {
                state = effect apply answer (next a) (after_event apply answer w r a).state;
              })
              (record w { state = effect apply answer (next (answer w.state r)) (apply w.state r) })
      stepped a e =
          ap (λ (v : World S). record v { state = effect apply answer (next a) v.state })
            (after_event-plain apply answer w r a plain)
          ∙ ap {B = World S}
              (λ b. record w { state = effect apply answer (next b) (apply w.state r) }) e

  -- Back to a snapshot that is there, and a new one of the same state.
  pub renewed-Follows :
      (id : Text) (s : S) (rest : List (Text × S)) (past : List Event) (f : Text → Script B)
      → cut id (now past).taken ≡ some (s, rest)
      → IsDistinct rest
      → ((past' : List Event) (new : Text)
          → now past' ≡ record { state = s; taken = (new, s) ∷ rest }
          → IsDistinct (now past').taken
          → Follows past' (f new))
      → Follows past
          (ask (send_rpc "evm_revert" (text id ∷ [])) (λ a. ask (send_rpc "evm_snapshot" []) f))
  renewed-Follows id s rest past f here distinct goes = λ a reverted new (fresh, answered).
      goes _ new (ap (λ (v : World S). record v { taken = (new, v.state) ∷ v.taken }) returned)
        (fresh refl, subst IsDistinct (sym (ap (λ (v : World S). v.taken) returned)) distinct)
    where
      returned : back (now past) (cut id (now past).taken) ≡ record { state = s; taken = rest }
      returned = rw here refl

  pub saved-Follows :
      (past : List Event) (f : Text → Script B)
      → IsDistinct (now past).taken
      → ((past' : List Event) (new : Text)
          → now past' ≡ record (now past) { taken = (new, (now past).state) ∷ (now past).taken }
          → IsDistinct (now past').taken
          → Follows past' (f new))
      → Follows past (ask (send_rpc "evm_snapshot" []) f)
  saved-Follows past f distinct goes =
      λ new (fresh, answered). goes _ new refl (fresh refl, distinct)
