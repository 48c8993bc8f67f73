-- ===== src/Blockchain/Tests.antt =====
-- Snapshots at a concrete node.
use index.Base.{[], ◌∷◌}
use index.Base.Int.{pos}
use index.Chain.{run, ◌>>=◌}
use index.Chain.Samples.{agreeable, agreeable-Obliges}
use index.Chain.Histories.{Ends}
use index.Blockchain.{new_blockchain, revert}
use index.Blockchain.Snapshots.{
  saving, waiting, passing, session, RevertsToLast, revert_goes_to_last_snapshot,
}

revert_goes_to_last_snapshot_example : Ends RevertsToLast (
    run agreeable []
      (session new_blockchain (saving ∷ waiting 2 ∷ saving ∷ passing (pos 60) ∷ []) >>= revert))
revert_goes_to_last_snapshot_example =
    revert_goes_to_last_snapshot agreeable (saving ∷ waiting 2 ∷ saving ∷ passing (pos 60) ∷ [])
      agreeable-Obliges
