-- ===== src/Fixtures/PerpTokens/Order.antt =====
-- The order of the virtual tokens: utils/fixtures/perpV2Fixture.ts.
use index.Base.{
  ℕ, zero, suc, ◌+◌, ◌≤◌, arith, ◌≡◌, refl, List, [], ◌∷◌, Bool, true, false, not, ◌&&◌,
  if◌then◌else◌, Result, ok, err, unfinished,
}
use index.Base.Text.{Text, codes, eqb, text_lt}
use index.Chain.{Request, create, Answer, Contract, attach, Script, Event, Node, run}
use index.Chain.Histories.{Obliges, Anything, Leads, Ends, run-Leads}
use index.Deploys.{DeployHelper}
use index.Fixtures.PerpTokens.{
  BaseTokenFixture, TokensFixture, create_base_token_fixture, is_ascending_token_order, retry,
  token0_fixture, tokens_fixture,
}

text_lt_asym : (a b : Text) → text_lt a b ≡ true → text_lt b a ≡ false
text_lt_asym [] [] h = absurd cc
text_lt_asym [] (y ∷ ys) h = refl
text_lt_asym (x ∷ xs) [] h = absurd cc
text_lt_asym (x ∷ xs) (y ∷ ys) h = grind (arith, text_lt_asym xs ys, h)

module _ (lower_case : Text → Text) where
  -- A base token that was created at an address that does not come before the other one.
  abbrev misplaced_by : Text → (r : Request) → Answer r → ℕ → ℕ
  misplaced_by token1 (create signer name links args) at others =
      if eqb (codes name) (codes "PerpV2BaseToken")
        && not (is_ascending_token_order lower_case at token1)
      then suc others
      else others
  misplaced_by token1 _ answer others = others

  abbrev pub misplaced : Text → List Event → ℕ
  misplaced token1 [] = 0
  misplaced token1 (e ∷ past) = misplaced_by token1 e.asked e.answer (misplaced token1 past)

  abbrev pub PrecedesOr : ℕ → Text → List Event → Result BaseTokenFixture → Type 0
  PrecedesOr fuel token1 past (ok token0) =
      is_ascending_token_order lower_case token0.base_token.at token1 ≡ true
  PrecedesOr fuel token1 past (err e) = (e ≡ unfinished) × (fuel ≤ misplaced token1 past)

  retry-Leads :
      (most : ℕ) (token1 : Text) (past : List Event) (ascending : Bool) (token : BaseTokenFixture)
      (again : Script BaseTokenFixture)
      → (ascending ≡ true → PrecedesOr most token1 past (ok token))
      → (ascending ≡ false → Leads Anything (PrecedesOr most token1) past again)
      → Leads Anything (PrecedesOr most token1) past (retry lower_case ascending token again)
  retry-Leads most token1 past true token again taken left = taken refl
  retry-Leads most token1 past false token again taken left = left refl

  token0_fixture-Leads :
      (fuel seen most : ℕ) (past : List Event) (deployer : DeployHelper) (token1 : Text)
      → most ≤ seen + fuel
      → seen ≤ misplaced token1 past
      → Leads Anything
          (PrecedesOr most token1)
          past
          (token0_fixture lower_case fuel deployer token1)
  unfolding token0_fixture create_base_token_fixture
  token0_fixture-Leads zero seen most past deployer token1 bound h = (refl, omega (arith, bound, h))
  token0_fixture-Leads (suc fuel) seen most past deployer token1 bound h =
      λ aggregator _ feed _ feed_set _ base _ base_set _.
        retry-Leads most token1 _ (is_ascending_token_order lower_case base token1) _ _
          (λ taken. taken)
          (λ left.
            token0_fixture-Leads fuel (suc seen) most _ deployer token1 (omega (arith, bound))
              (rw left (omega (arith, h))))

  -- The tokens are not in the wrong order.
  abbrev pub NotReversed : List Event → Result TokensFixture → Type 0
  NotReversed past (ok tokens) =
      is_ascending_token_order lower_case tokens.token1.at tokens.token0.at ≡ false
  NotReversed past (err e) = ⊥

  chosen-NotReversed :
      (past : List Event) (a b c d : Contract) (ascending : Bool)
      → is_ascending_token_order lower_case a.at b.at ≡ ascending
      → NotReversed past (
          ok (
            if ascending
            then record { token0 = a; token1 = b; mock_aggregator0 = c; mock_aggregator1 = d }
            else record { token0 = b; token1 = a; mock_aggregator0 = d; mock_aggregator1 = c }))
  chosen-NotReversed past a b c d true h = text_lt_asym (lower_case a.at) (lower_case b.at) h
  chosen-NotReversed past a b c d false h = h

  tokens_fixture-Leads :
      (deployer : DeployHelper) → Leads Anything NotReversed [] (tokens_fixture lower_case deployer)
  unfolding tokens_fixture create_base_token_fixture
  tokens_fixture-Leads deployer =
      λ aggregator0 _ feed0 _ feed_set0 _ base0 _ base_set0 _ aggregator1 _ feed1 _ feed_set1 _
          base1 _ base_set1 _.
        chosen-NotReversed [] (attach deployer.external base0) (attach deployer.external base1) _ _
          _ refl

  -- At a node that rejects nothing: of the two tokens that are created together, the one that
  -- becomes the quote token does not come before the base token; and a base token for a quote
  -- token that exists comes before it, unless as many base tokens as the fuel were created and
  -- none of them came before it. The order is that of the addresses in lower case.
  pub virtual_tokens_are_in_order :
      (node : Node) (fuel : ℕ) (deployer : DeployHelper) (token1 : Text)
      → Obliges Anything node
      → Ends NotReversed (run node [] (tokens_fixture lower_case deployer))
        × Ends
            (PrecedesOr fuel token1)
            (run node [] (token0_fixture lower_case fuel deployer token1))
  virtual_tokens_are_in_order node fuel deployer token1 answers = (
    run-Leads Anything NotReversed node [] _ answers (tokens_fixture-Leads deployer),
    run-Leads Anything (PrecedesOr fuel token1) node [] _ answers
        (token0_fixture-Leads fuel 0 fuel [] deployer token1 (omega arith) (omega arith)),
  )
