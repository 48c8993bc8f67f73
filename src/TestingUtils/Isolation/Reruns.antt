-- ===== src/TestingUtils/Isolation/Reruns.antt =====
-- The hooks of nested suites before a test: `cacheBeforeEach` of utils/test/testingUtils.ts.
use index.Base.{◌≡◌, refl, sym, ap, subst, ◌∙◌, Bool, true, false, List, [], ◌∷◌, some, All, Result}
use index.Base.Text.{Text}
use index.Chain.{Request, Answer, Script, ◌>>=◌, bind_assoc, Event}
use index.Blockchain.{Blockchain, save_snapshot, revert_by_id}
use index.TestingUtils.Caching.{Suite, suite, Place, before_each, hooks, with_hook}
use index.TestingUtils.World.{World, cut, IsPlainly, effect, prepared}
use index.TestingUtils.Isolation.{
  outline, initializers, made, IsReady, IsUntouched, made-IsReady, made-ready, initializers-made,
  IsDistinct, cut_new, cut-IsDistinct,
}
use index.TestingUtils.Isolation.Scripts.{
  Follows, now, script-Follows, renewed-Follows, saved-Follows,
}

module _ {S : Type 0} (apply : S → Request → S) (answer : S → (r : Request) → Answer r)
    (start : S) where
  abbrev pub prepared_by : List (Script Unit × Bool) → S
  prepared_by suites = prepared apply answer start (initializers suites)

  -- The snapshot of a suite that has run its initializer holds what all initializers around made, and
  -- those of the suites around it were taken before.
  abbrev pub Aligned : List (Script Unit × Bool) → List Text → List (Text × S) → Type 0
  Aligned [] ids taken = Unit
  Aligned ((initializer, false) ∷ outer) ids taken = Aligned outer ids taken
  Aligned ((initializer, true) ∷ outer) [] taken = ⊥
  Aligned ((initializer, true) ∷ outer) (id ∷ ids) taken =
      (rest : List (Text × S)) × (cut id taken
        ≡ some (prepared_by ((initializer, true) ∷ outer), rest))
      × IsReady outer
      × Aligned outer ids rest

  pub record Hooked (suites : List Suite) (place : Place) (w : World S) : Type 0 where
    pub same : outline place.suites ≡ made (outline suites)
    pub aligned : Aligned (made (outline suites)) place.snapshots w.taken
    pub distinct : IsDistinct w.taken
    pub reached : w.state ≡ prepared_by (outline suites)

  module _ {B : Type 0} (Q : List Event → Result B → Type 0) where
    abbrev Goes : List Event → Script B → Type 0
    Goes past m = Follows apply answer start Q past m

    abbrev at : List Event → World S
    at past = now apply answer start Q past

    -- The hooks of suites that have run go back to the last snapshot, and take it anew.
    again-Goes :
        (suites : List Suite) (id : Text) (ids : List Text) (s : S) (rest : List (Text × S))
        (past : List Event) (f : Place → Script B)
        → IsReady (outline suites)
        → cut id (at past).taken ≡ some (s, rest)
        → IsDistinct (at past).taken
        → ((past' : List Event) (hooked : List Suite) (new : Text)
            → outline hooked ≡ outline suites
            → cut new (at past').taken ≡ some (s, rest)
            → IsDistinct (at past').taken
            → Goes past' (f (record { suites = hooked; snapshots = new ∷ ids })))
        → Goes past (hooks suites (id ∷ ids) >>= f)
    unfolding before_each revert_by_id save_snapshot
    again-Goes [] id ids s rest past f ready here distinct goes = goes past [] id refl here distinct
    again-Goes (suite i false blockchain ∷ outer) id ids s rest past f ready here distinct goes =
        absurd cc
    again-Goes (suite i true blockchain ∷ outer) id ids s rest past f ready here distinct goes =
        rw (bind_assoc (hooks outer (id ∷ ids)) _ f) (
          again-Goes outer id ids s rest past _ ready.1 here distinct
            (λ past' hooked new same here' distinct'.
              renewed-Follows apply answer start Q new s rest past' _ here'
                (cut-IsDistinct new s _ rest distinct' here')
                (λ past'' newest e distinct''.
                  goes past'' _ newest (ap (◌∷◌ (i, true)) same)
                    (ap (λ (w : World S). cut newest w.taken) e ∙ cut_new newest s rest)
                    distinct'')))

    -- The hook of a suite that has not run its initializer runs it, and takes a snapshot.
    first-Goes :
        (i : Script Unit) (blockchain : Blockchain) (outer : Place) (past : List Event)
        (f : Place → Script B)
        → IsPlainly i
        → IsDistinct (at past).taken
        → let s = effect apply answer i (at past).state in
          ((past' : List Event) (new : Text)
            → at past' ≡ record { state = s; taken = (new, s) ∷ (at past).taken }
            → IsDistinct (at past').taken
            → (own : Blockchain)
            → Goes past' (
                f (record {
                  suites = suite i true own ∷ outer.suites;
                  snapshots = new ∷ outer.snapshots;
                })))
          → Goes past (with_hook (suite i false blockchain) outer >>= f)
    unfolding before_each save_snapshot
    first-Goes i blockchain outer past f plain distinct goes =
        rw (bind_assoc (before_each (suite i false blockchain) outer.snapshots) _ f) (
          rw (bind_assoc i _ _) (
            script-Follows apply answer start Q i past _ plain (λ past' e.
              saved-Follows apply answer start Q past' _
                (subst IsDistinct (sym (ap (λ (w : World S). w.taken) e)) distinct)
                (λ past'' new e' distinct'.
                  goes past'' new
                    (e' ∙ ap (λ (w : World S). record w { taken = (new, w.state) ∷ w.taken }) e)
                    distinct' _))))

    -- The hooks before a test bring the state to what the initializers make of the start.
    pub hooks-Follows :
        (suites : List Suite) (ids : List Text) (past : List Event) (f : Place → Script B)
        → All IsPlainly (initializers (outline suites))
        → Aligned (outline suites) ids (at past).taken
        → IsDistinct (at past).taken
        → (IsUntouched (outline suites) → (at past).state ≡ start)
        → ((past' : List Event) (place : Place)
            → Hooked suites place (at past')
            → Goes past' (f place))
        → Goes past (hooks suites ids >>= f)
    unfolding before_each revert_by_id save_snapshot
    hooks-Follows [] ids past f plain aligned distinct clean goes =
        goes past (record { suites = []; snapshots = ids })
          (record { same = refl; aligned = tt; distinct = distinct; reached = clean tt })
    hooks-Follows (suite i false blockchain ∷ outer) ids past f plain aligned distinct clean goes =
        rw (bind_assoc (hooks outer ids) _ f) (
          hooks-Follows outer ids past _ plain.1 aligned distinct (λ u. clean (refl, u))
            (λ past' place h.
              first-Goes i blockchain place past' f plain.0 h.distinct
                (λ past'' new e distinct' own. goes past'' _ (record {
                  same = ap (◌∷◌ (i, true)) h.same;
                  aligned = (
                    _,
                    ap (λ (w : World S). cut new w.taken) e
                        ∙ cut_new new _ _
                        ∙ ap (λ s. some (effect apply answer i s, (at past').taken))
                            (rw (initializers-made (outline outer)) h.reached),
                    made-IsReady (outline outer),
                    h.aligned,
                  );
                  distinct = distinct';
                  reached = ap (λ (w : World S). w.state) e ∙ ap (effect apply answer i) h.reached;
                }))))
    hooks-Follows (suite i true blockchain ∷ outer) [] past f plain aligned distinct clean goes =
        absurd aligned
    hooks-Follows (suite i true blockchain ∷ outer) (id ∷ ids) past f plain
          (rest, here, ready, aligned) distinct clean goes =
        rw (bind_assoc (hooks outer (id ∷ ids)) _ f) (
          again-Goes outer id ids _ rest past _ ready here distinct
            (λ past' hooked new same here' distinct'.
              renewed-Follows apply answer start Q new _ rest past' _ here'
                (cut-IsDistinct new _ _ rest distinct' here')
                (λ past'' newest e distinct''. goes past'' _ (record {
                  same = ap (◌∷◌ (i, true)) (rw (made-ready (outline outer) ready) same);
                  aligned = rw (made-ready (outline outer) ready) (
                    rest,
                    ap (λ (w : World S). cut newest w.taken) e ∙ cut_new newest _ rest,
                    ready,
                    aligned,
                  );
                  distinct = distinct'';
                  reached = ap (λ (w : World S). w.state) e;
                }))))
