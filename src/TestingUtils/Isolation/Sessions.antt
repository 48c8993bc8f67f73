-- ===== src/TestingUtils/Isolation/Sessions.antt =====
-- Sessions of nested suites: `cacheBeforeEach` of utils/test/testingUtils.ts.
use index.Base.{
  ◌≡◌, refl, sym, ap, subst, ◌∙◌, Bool, true, false, List, [], ◌∷◌, some, All, Result, ok, err,
}
use index.Base.Text.{Text}
use index.Chain.{Request, Answer, Script, give, ◌>>=◌, bind_assoc, bind_give, Event, Node, run}
use index.Chain.Histories.{Obliges, Leads, Ends, run-Leads}
use index.TestingUtils.Caching.{
  Suite, suite, Place, hooks, attempt, Action, entering, testing, leaving, leave, perform, session,
}
use index.TestingUtils.World.{World, cut, IsPlainly, prepared, world, AnswersByState}
use index.TestingUtils.Isolation.{
  outline, initializers, made, IsUntouched, initializers-made, IsDistinct, cut-older,
}
use index.TestingUtils.Isolation.Scripts.{Follows, now, script-Follows}
use index.TestingUtils.Isolation.Reruns.{Aligned, Hooked, hooks-Follows}

-- The initializers of the suites that are around after some actions, the innermost first.
abbrev pub nested : List (Script Unit) → List Action → List (Script Unit)
nested around [] = around
nested around (entering initializer ∷ actions) = nested (initializer ∷ around) actions
nested around (testing body ∷ actions) = nested around actions
nested [] (leaving ∷ actions) = nested [] actions
nested (initializer ∷ around) (leaving ∷ actions) = nested around actions

-- The outermost suite is not left, and neither initializers nor tests ask for snapshots or reverts. No
-- initializer throws; a test may.
abbrev pub Within : List (Script Unit) → List Action → Type 0
Within around [] = Unit
Within around (entering initializer ∷ actions) =
    IsPlainly initializer × Within (initializer ∷ around) actions
Within [] (testing body ∷ actions) = ⊥
Within (i ∷ around) (testing body ∷ actions) =
    IsPlainly (attempt body) × Within (i ∷ around) actions
Within [] (leaving ∷ actions) = ⊥
Within (i ∷ []) (leaving ∷ actions) = ⊥
Within (i ∷ j ∷ around) (leaving ∷ actions) = Within (j ∷ around) actions

abbrev pub outside : Place
outside = record { suites = []; snapshots = [] }

module _ {S : Type 0} (apply : S → Request → S) (answer : S → (r : Request) → Answer r)
    (start : S) where
  abbrev Lines : List (Script Unit × Bool) → List Text → List (Text × S) → Type 0
  Lines = Aligned apply answer start

  record Holds (around : List (Script Unit)) (here : Place) (w : World S) : Type 0 where
    pub opened : initializers (outline here.suites) ≡ around
    pub plain : All IsPlainly around
    pub aligned : Lines (outline here.suites) here.snapshots w.taken
    pub distinct : IsDistinct w.taken
    pub clean : IsUntouched (outline here.suites) → w.state ≡ start

  Aligned-older :
      (suites : List (Script Unit × Bool)) (ids : List Text) (rest taken : List (Text × S))
      → ((id : Text) (found : S × List (Text × S))
          → cut id rest ≡ some found
          → cut id taken ≡ some found)
      → Lines suites ids rest
      → Lines suites ids taken
  Aligned-older [] ids rest taken older aligned = tt
  Aligned-older ((i, false) ∷ suites) ids rest taken older aligned =
      Aligned-older suites ids rest taken older aligned
  Aligned-older ((i, true) ∷ suites) [] rest taken older aligned = aligned
  Aligned-older ((i, true) ∷ suites) (id ∷ ids) rest taken older (before, here, ready, aligned) =
      (before, older id _ here, ready, aligned)

  leave-Holds :
      (i j : Script Unit) (around : List (Script Unit)) (suites : List Suite) (ids : List Text)
      (w : World S)
      → Holds (i ∷ j ∷ around) (record { suites = suites; snapshots = ids }) w
      → Holds (j ∷ around) (leave suites ids) w
  leave-Holds i j around [] ids w h = absurd (let e = h.opened in cc)
  leave-Holds i j around (suite a false blockchain ∷ []) ids w h = absurd (let e = h.opened in cc)
  leave-Holds i j around (suite a true blockchain ∷ []) ids w h = absurd (let e = h.opened in cc)
  leave-Holds i j around (suite a false blockchain ∷ suite b set own ∷ suites) ids w h = record {
    opened = cc;
    plain = h.plain.1;
    aligned = h.aligned;
    distinct = h.distinct;
    clean = λ u. h.clean (refl, u);
  }
  leave-Holds i j around (suite a true blockchain ∷ suite b set own ∷ suites) [] w h =
      absurd h.aligned
  leave-Holds i j around (suite a true blockchain ∷ suite b set own ∷ suites) (id ∷ ids) w h =
      let (rest, here, ready, aligned) = h.aligned in
      record {
        opened = cc;
        plain = h.plain.1;
        aligned =
            Aligned-older (outline (suite b set own ∷ suites)) ids rest w.taken
              (λ other found. cut-older id other _ w.taken rest found h.distinct here) aligned;
        distinct = h.distinct;
        clean = λ u. absurd (let e = ready.0 in let e' = u.0 in cc);
      }

  made_clean :
      (suites : List Suite) (i : Script Unit) (around : List (Script Unit))
      → initializers (outline suites) ≡ i ∷ around
      → ¬ IsUntouched (made (outline suites))
  made_clean [] i around e u = absurd cc
  made_clean (suite a set blockchain ∷ suites) i around e (differs, u) = absurd cc

  tested-Holds :
      (i : Script Unit) (around : List (Script Unit)) (here ready : Place) (v w : World S)
      → Holds (i ∷ around) here v
      → Hooked apply answer start here.suites ready w
      → (s : S) → Holds (i ∷ around) ready (record w { state = s })
  tested-Holds i around here ready v w h k s = record {
    opened = rw k.same (initializers-made (outline here.suites) ∙ h.opened);
    plain = h.plain;
    aligned = rw k.same k.aligned;
    distinct = k.distinct;
    clean = λ u. absurd (made_clean here.suites i around h.opened (subst IsUntouched k.same u));
  }

  module _ {B : Type 0} (Q : List Event → Result B → Type 0) where
    abbrev Goes : List Event → Script B → Type 0
    Goes past m = Follows apply answer start Q past m

    abbrev at : List Event → World S
    at past = now apply answer start Q past

    abbrev Continues : List (Script Unit) → (Place → Script B) → Type 0
    Continues around f =
        (past : List Event) (here : Place) → Holds around here (at past) → Goes past (f here)

    place-hooks :
        (around : List (Script Unit)) (here : Place) (past : List Event) (f : Place → Script B)
        → Holds around here (at past)
        → ((past' : List Event) (ready : Place)
            → Hooked apply answer start here.suites ready (at past')
            → Goes past' (f ready))
        → Goes past (hooks here.suites here.snapshots >>= f)
    place-hooks around here past f h goes =
        hooks-Follows apply answer start Q here.suites here.snapshots past f (rw h.opened h.plain)
          h.aligned h.distinct h.clean goes

    session-Goes :
        (actions : List Action) (around : List (Script Unit)) (here : Place) (past : List Event)
        (f : Place → Script B)
        → Within around actions
        → Holds around here (at past)
        → Continues (nested around actions) f
        → Goes past (session here actions >>= f)
    session-Goes [] around here past f within h goes = goes past here h
    session-Goes (entering i ∷ actions) around here past f (plain, within) h goes =
        session-Goes actions (i ∷ around) _ past f within
          (record {
            opened = ap (◌∷◌ i) h.opened;
            plain = (plain, h.plain);
            aligned = h.aligned;
            distinct = h.distinct;
            clean = λ u. h.clean u.1;
          })
          goes
    session-Goes (testing body ∷ actions) [] here past f within h goes = absurd within
    session-Goes (testing body ∷ actions) (i ∷ around) here past f (plain, within) h goes =
        rw (bind_assoc (perform here (testing body)) (λ next. session next actions) f) (
          rw (bind_assoc (hooks here.suites here.snapshots) _ _) (
            place-hooks (i ∷ around) here past _ h (λ past' ready k.
              rw (bind_assoc (attempt body) _ _) (
                script-Follows apply answer start Q (attempt body) past' _ plain (λ past'' e.
                  session-Goes actions (i ∷ around) ready past'' f within
                    (subst (Holds (i ∷ around) ready) (sym e)
                      (tested-Holds i around here ready (at past) (at past') h k _))
                    goes)))))
    session-Goes (leaving ∷ actions) [] here past f within h goes = absurd within
    session-Goes (leaving ∷ actions) (i ∷ []) here past f within h goes = absurd within
    session-Goes (leaving ∷ actions) (i ∷ j ∷ around) here past f within h goes =
        session-Goes actions (j ∷ around) _ past f within
          (leave-Holds i j around here.suites here.snapshots (at past) h) goes

abbrev pub StartsAlike :
    {S : Type 0}
    → (S → Request → S)
    → (S → (r : Request) → Answer r)
    → S
    → List (Script Unit)
    → List Event
    → Result Place
    → Type 0
StartsAlike apply answer start around past (err e) = ⊥
StartsAlike apply answer start around past (ok ready) =
    (world apply answer start past).state ≡ prepared apply answer start around

module _ {S : Type 0} (apply : S → Request → S) (answer : S → (r : Request) → Answer r) (start : S)
    (node : Node) (actions : List Action) where
  -- At a node with snapshots, reverts and other requests as the documentation has them, which rejects
  -- nothing: whatever suites were entered and left and whatever tests ran or threw before, all within
  -- one outermost suite, the hooks return, and a test starts in the state that the initializers of the
  -- suites around it, the outermost first, make of the start. Initializers that throw, and scripts that
  -- ask for snapshots themselves, are not covered.
  pub tests_start_alike :
      (outermost : Script Unit)
      → Within [] (entering outermost ∷ actions)
      → Obliges (AnswersByState apply answer start) node
      → Ends (StartsAlike apply answer start (nested (outermost ∷ []) actions)) (
          run node [] (
            session outside (entering outermost ∷ actions) >>= λ here.
            hooks here.suites here.snapshots))
  tests_start_alike outermost within obliges = run-Leads _ Q node [] _ obliges (
      session-Goes apply answer start Q (entering outermost ∷ actions) [] outside [] _ within
        (record { opened = refl; plain = tt; aligned = tt; distinct = tt; clean = λ u. refl })
        (λ past here h. subst (Leads (AnswersByState apply answer start) Q past) (bind_give _) (
          place-hooks apply answer start Q _ here past give h
            (λ past' ready k. k.reached ∙ ap (prepared apply answer start) h.opened))))
    where
      Q : List Event → Result Place → Type 0
      Q = StartsAlike apply answer start (nested (outermost ∷ []) actions)
