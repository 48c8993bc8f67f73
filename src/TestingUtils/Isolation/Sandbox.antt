-- ===== src/TestingUtils/Isolation/Sandbox.antt =====
-- Tests between snapshots and reverts: `addSnapshotBeforeRestoreAfterEach` of utils/test/testingUtils.ts.
use index.Base.{◌≡◌, refl, sym, ap, subst, ◌∙◌, List, [], ◌∷◌, All, Result, ok, err}
use index.Base.Text.{Text}
use index.Chain.{Request, Answer, Script, give, ◌>>=◌, bind_assoc, bind_give, Event, Node, run}
use index.Chain.Histories.{Obliges, Leads, Ends, run-Leads}
use index.Blockchain.{Blockchain, save_snapshot, revert}
use index.TestingUtils.Caching.{attempt, sandboxed, sandboxed_tests}
use index.TestingUtils.World.{World, back, cut, IsPlainly, effect, world, AnswersByState}
use index.TestingUtils.Isolation.{IsDistinct, cut_new}
use index.TestingUtils.Isolation.Scripts.{Follows, now, script-Follows, saved-Follows}

-- The tests ask for no snapshots and reverts themselves.
abbrev pub ArePlain : List (Script Unit) → Type 0
ArePlain = All (λ body. IsPlainly (attempt body))

module _ {S : Type 0} (apply : S → Request → S) (answer : S → (r : Request) → Answer r)
    (start : S) where
  module _ {B : Type 0} (Q : List Event → Result B → Type 0) where
    abbrev Goes : List Event → Script B → Type 0
    Goes past m = Follows apply answer start Q past m

    abbrev at : List Event → World S
    at past = now apply answer start Q past

    sandboxed-Goes :
        (blockchain : Blockchain) (body : Script Unit) (past : List Event)
        (f : Blockchain → Script B)
        → IsPlainly (attempt body)
        → IsDistinct (at past).taken
        → ((past' : List Event) (next : Blockchain) → at past' ≡ at past → Goes past' (f next))
        → Goes past (sandboxed blockchain body >>= f)
    unfolding sandboxed save_snapshot revert
    sandboxed-Goes blockchain body past f plain distinct goes =
        saved-Follows apply answer start Q past _ distinct (λ past' id e distinct'.
          rw (bind_assoc (attempt body) _ f) (
            script-Follows apply answer start Q (attempt body) past' _ plain
              (λ past'' e' a reverted. goes _ _ (returned past' past'' id e e'))))
      where
        returned :
            (past' past'' : List Event) (id : Text)
            → at past' ≡ record (at past) { taken = (id, (at past).state) ∷ (at past).taken }
            → at past''
              ≡ record (at past') { state = effect apply answer (attempt body) (at past').state }
            → back (at past'') (cut id (at past'').taken) ≡ at past
        returned past' past'' id e e' =
            let w : World S = at past in
            ap (λ (v : World S). back v (cut id v.taken)) e'
            ∙ ap (λ (v : World S). back v (cut id v.taken))
                (ap {B = World S}
                  (λ (v : World S). record v { state = effect apply answer (attempt body) v.state })
                  e)
            ∙ ap (back _) (cut_new id w.state w.taken)

    tests-Goes :
        (bodies : List (Script Unit)) (blockchain : Blockchain) (past : List Event)
        (f : Blockchain → Script B)
        → ArePlain bodies
        → IsDistinct (at past).taken
        → ((past' : List Event) (next : Blockchain) → at past' ≡ at past → Goes past' (f next))
        → Goes past (sandboxed_tests blockchain bodies >>= f)
    tests-Goes [] blockchain past f plain distinct goes = goes past blockchain refl
    tests-Goes (body ∷ bodies) blockchain past f (plain, rest) distinct goes =
        rw (bind_assoc (sandboxed blockchain body) _ f) (
          sandboxed-Goes blockchain body past _ plain distinct (λ past' next e.
            tests-Goes bodies next past' f rest
              (subst IsDistinct (sym (ap (λ (w : World S). w.taken) e)) distinct)
              (λ past'' last e'. goes past'' last (e' ∙ e))))

  abbrev pub EndsAt : World S → List Event → Result Blockchain → Type 0
  EndsAt w past (err e) = ⊥
  EndsAt w past (ok blockchain) = world apply answer start past ≡ w

  -- At a node with snapshots, reverts and other requests as the documentation has them, which rejects
  -- nothing: tests between a snapshot and a revert, whether they throw or not, leave the node's state
  -- and its snapshots as they were, if they ask for no snapshots and reverts themselves.
  pub tests_leave_no_trace :
      (node : Node) (blockchain : Blockchain) (bodies : List (Script Unit))
      → ArePlain bodies
      → Obliges (AnswersByState apply answer start) node
      → Ends
          (EndsAt (record { state = start; taken = [] }))
          (run node [] (sandboxed_tests blockchain bodies))
  tests_leave_no_trace node blockchain bodies plain obliges = run-Leads _ Q node [] _ obliges (
      subst (Leads (AnswersByState apply answer start) Q []) (bind_give _)
        (tests-Goes Q bodies blockchain [] give plain tt (λ past' next e. e)))
    where
      Q : List Event → Result Blockchain → Type 0
      Q = EndsAt (record { state = start; taken = [] })
