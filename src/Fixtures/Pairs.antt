-- ===== src/Fixtures/Pairs.antt =====
-- The pairs that utils/fixtures/uniswapFixture.ts creates, against the record that the factory keeps of them.
use index.Base.{
  arith, ℕ, suc, ◌<◌, ◌≡◌, refl, ◌&&◌, false, List, [], ◌∷◌, some, ok, if◌then◌else◌, Bool,
}
use index.Base.Int.{ℤ, pos, ◌-ℤ◌}
use index.Base.Text.{Text, codes, eqb, eqb_refl}
use index.Chain.{
  Request, transact, read_number, read_address, Arg, address, number, Contract, attach, Node, run,
  run-ask, run-give, Event,
}
use index.Fixtures.Uniswap.{UniswapFixture, create_new_pair}

abbrev creates_pair : Text → Request → Bool
creates_pair factory (transact signer to method value args) =
    eqb to factory && eqb (codes method) (codes "createPair")
creates_pair factory _ = false

-- How many pairs the factory has created.
abbrev pub created : Text → List Event → ℕ
created factory [] = 0
created factory (e ∷ past) =
    let others = created factory past in if creates_pair factory e.asked then suc others else others

-- The factory's views: the number of its pairs, and the pair at each index below it.
abbrev pub ListsPairs : Text → (ℕ → Text) → Node → Type 0
ListsPairs factory pair node =
    (past : List Event)
    → (node past (read_number factory "allPairsLength" []) ≡ ok (pos (created factory past)))
      × ((i : ℕ)
          → i < created factory past
          → node past (read_address factory "allPairs" (number (pos i) ∷ [])) ≡ ok (pair i))

created-create_pair :
    (factory signer : Text) (value : ℤ) (args : List Arg) (hash : Text) (past : List Event)
    → created factory
        (record { asked = transact signer factory "createPair" value args; answer = hash } ∷ past)
      ≡ suc (created factory past)
created-create_pair factory signer value args hash past = rw (eqb_refl factory) refl

last_index : (n : ℕ) → pos (suc n) -ℤ pos 1 ≡ pos n
unfolding ◌-ℤ◌
last_index n = ground arith

-- For a fixture with its factory set, and at a node whose factory counts the pairs created with
-- it and lists the pair of each index below that count: if the node accepts the creation of a
-- pair, the pool that is returned is the one of the new index, which is the count before.
pub new_pair_is_created :
    (node : Node) (past : List Event) (this : UniswapFixture) (factory : Contract) (pair : ℕ → Text)
    (token_one token_two hash : Text)
    → this.factory ≡ some factory
    → ListsPairs factory.at pair node
    → node past (
        transact factory.signer factory.at "createPair"
          (pos 0)
          (address token_one ∷ address token_two ∷ []))
      ≡ ok hash
    → (run node past (create_new_pair this token_one token_two)).1
      ≡ ok (attach this.owner_address (pair (created factory.at past)))
unfolding create_new_pair
new_pair_is_created node past this factory pair token_one token_two hash set lists accepted =
    let e : Event = record {
      asked =
          transact factory.signer factory.at "createPair" (pos 0)
            (address token_one ∷ address token_two ∷ []);
      answer = hash;
    } in
    let n : ℕ = created factory.at past in
    let counted : created factory.at (e ∷ past) ≡ suc n =
      created-create_pair factory.at factory.signer (pos 0)
        (address token_one ∷ address token_two ∷ []) hash past in
    let reads : Event = record {
      asked = read_number factory.at "allPairsLength" [];
      answer = pos (suc n);
    } in
    rw set (
      run-ask node past e.asked _ hash _ accepted (
        run-ask node (e ∷ past) reads.asked _ (pos (suc n)) _ (rw counted at ((lists (e ∷ past)).0))
          (run-ask node (reads ∷ e ∷ past)
            (read_address factory.at "allPairs" (number (pos (suc n) -ℤ pos 1) ∷ [])) _ (pair n) _
            (rw (last_index n) ((lists (reads ∷ e ∷ past)).1 n (rw counted (omega arith))))
            (run-give node _ _))))
