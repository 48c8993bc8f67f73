-- ===== src/Deploys/Linking.antt =====
-- Which library addresses the perpetual modules are linked with: utils/deploys/deployModules.ts.
use index.Base.{
  ◌≡◌, ◌≢◌, refl, List, [], ◌∷◌, Option, none, some, All, sym, false, if◌then◌else◌, inl, inr,
  Bool-cases,
}
use index.Base.Int.{ℤ}
use index.Base.Text.{Text, eqb, eqb_refl, eqb→eq}
use index.Chain.{Request, create, Script, ask, Contract}
use index.Deploys.Modules.{deploy_perp_v2_leverage_module_v2, deploy_perp_v2_basis_trading_module}

-- The libraries that the first request of a script is linked with.
abbrev links_asked : Request → List (Text × Text)
links_asked (create signer artifact links args) = links
links_asked _ = []

abbrev pub links_of : Script Contract → List (Text × Text)
links_of (ask r k) = links_asked r
links_of _ = []

abbrev lookup : Text → List (Text × Text) → Option Text
lookup name [] = none
lookup name (link ∷ links) = if eqb name link.0 then some link.1 else lookup name links

differ : (a b : Text) → a ≢ b → eqb a b ≡ false
differ a b apart = elim (Bool-cases (eqb a b)) [
  | inl same ↦ absurd (apart (eqb→eq a b same))
  | inr other ↦ other
]

-- Each of the names, with its address.
abbrev pub LinksEach : List (Text × Text) → List (Text × Text) → Type 0
LinksEach wanted links = All (λ link. lookup link.0 links ≡ some link.1) wanted

module _ (signer controller perp_vault perp_quoter perp_market_registry : Text)
    (max_positions : ℤ) where
  -- With three different library names, both perpetual modules are created with each of the
  -- names linked to the address given with it.
  pub perp_libraries_are_linked :
      (position perp positions position_at perp_at positions_at : Text)
      → position ≢ perp
      → position ≢ positions
      → perp ≢ positions
      → LinksEach ((position, position_at) ∷ (perp, perp_at) ∷ (positions, positions_at) ∷ []) (
          links_of (
            deploy_perp_v2_leverage_module_v2 signer controller perp_vault perp_quoter
              perp_market_registry max_positions position position_at perp perp_at positions
              positions_at))
        × LinksEach ((position, position_at) ∷ (perp, perp_at) ∷ (positions, positions_at) ∷ []) (
            links_of (
              deploy_perp_v2_basis_trading_module signer controller perp_vault perp_quoter
                perp_market_registry max_positions position position_at perp perp_at positions
                positions_at))
  perp_libraries_are_linked a b c a_at b_at c_at ab ac bc =
      let ba : eqb b a ≡ false = differ b a (λ e. ab (sym e)) in
      let ca : eqb c a ≡ false = differ c a (λ e. ac (sym e)) in
      let cb : eqb c b ≡ false = differ c b (λ e. bc (sym e)) in
      rw (ba, ca, cb, eqb_refl a, eqb_refl b, eqb_refl c)
        (rw (ba, ca, cb) ((refl, (refl, (refl, tt))), (refl, (refl, (refl, tt)))))
