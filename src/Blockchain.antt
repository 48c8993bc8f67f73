-- ===== src/Blockchain.antt =====
-- utils/common/blockchainUtils.ts: snapshots, time and blocks of a test node, by its JSON-RPC methods.
pub mod Snapshots
mod Tests
use index.Base.{ℕ, zero, suc, List, [], ◌∷◌}
use index.Base.Int.{ℤ, pos}
use index.Base.Text.{Text, codes}
use index.Chain.{
  Script, give, ◌>>=◌, ◌>>◌, request, send_rpc, block_number, block_at, Block, Arg, number, text,
}
use Prim.Native.String.{String}

-- The identifier is the number 0 until a snapshot is saved, and then the text that the node answered.
pub record Blockchain : Type 0 where
  pub snapshot_id : Arg

abbrev pub new_blockchain : Blockchain
new_blockchain = record { snapshot_id = number (pos 0) }

abbrev pub send_json_rpc_request : String → List Arg → Script Text
send_json_rpc_request method params = request (send_rpc method params)

unfoldable pub save_snapshot : Blockchain → Script (Blockchain × Text)
save_snapshot this = do
  response ← send_json_rpc_request "evm_snapshot" []
  give (record this { snapshot_id = text response }, response)

unfoldable pub revert : Blockchain → Script Unit
revert this = do send_json_rpc_request "evm_revert" (this.snapshot_id ∷ []); give tt

unfoldable pub revert_by_id : Text → Script Unit
revert_by_id id = do send_json_rpc_request "evm_revert" (text id ∷ []); give tt

unfoldable pub reset : Script Unit
reset = do send_json_rpc_request "evm_revert" (text (codes "0x1") ∷ []); give tt

unfoldable pub increase_time : ℤ → Script Unit
increase_time duration = do send_json_rpc_request "evm_increaseTime" (number duration ∷ []); give tt

unfoldable pub get_current_timestamp : Script Block
get_current_timestamp = do height ← request block_number; request (block_at height)

unfoldable pub set_next_block_timestamp : ℤ → Script Unit
set_next_block_timestamp timestamp = do
  send_json_rpc_request "evm_setNextBlockTimestamp" (number timestamp ∷ [])
  give tt

unfoldable pub wait_blocks : ℕ → Script Unit
wait_blocks zero = give tt
wait_blocks (suc count) = do send_json_rpc_request "evm_mine" []; wait_blocks count
