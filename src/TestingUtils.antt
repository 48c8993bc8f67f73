-- ===== src/TestingUtils.antt =====
-- utils/test/testingUtils.ts: the time of the node that the tests run on.
pub mod Caching
pub mod World
pub mod Isolation
pub mod Accounts
mod Tests
use index.Base.{[], ◌∷◌}
use index.Base.Int.{ℤ}
use index.Chain.{Script, give, ◌>>=◌, ◌>>◌, request, latest_block, send_rpc, number}

unfoldable pub get_last_block_timestamp : Script ℤ
get_last_block_timestamp = do block ← request latest_block; give block.timestamp

unfoldable pub mine_block : Script Unit
mine_block = do request (send_rpc "evm_mine" []); give tt

unfoldable pub increase_time : ℤ → Script Unit
increase_time duration = do request (send_rpc "evm_increaseTime" (number duration ∷ [])); mine_block
