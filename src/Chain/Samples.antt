-- ===== src/Chain/Samples.antt =====
-- A node that rejects nothing, for tests. Its addresses and hashes are the places in the history.
use index.Base.{none, length, List, [], ◌∷◌, ok}
use index.Base.Int.{pos}
use index.Base.Text.{Text}
use index.Chain.{
  create, transact, read_address, read_addresses, read_number, list_accounts, block_number,
  block_at, latest_block, send_rpc, simulate, read_logs, receipt_topics, Arg, Node, number,
}
use index.Chain.Histories.{Obliges, Anything}

-- A view with a number as its argument answers with the address of that number.
abbrev place : List Arg → Text
place (number (pos n) ∷ args) = n ∷ []
place _ = []

abbrev pub agreeable : Node
agreeable past (create signer artifact links args) = ok (length past ∷ [])
agreeable past (transact signer to method value args) = ok (length past ∷ [])
agreeable past (read_address to method args) = ok (place args)
agreeable past (read_addresses to method args) = ok ((1 ∷ []) ∷ (2 ∷ []) ∷ [])
agreeable past (read_number to method args) = ok (pos (length past))
agreeable past list_accounts = ok ((101 ∷ []) ∷ (102 ∷ []) ∷ (103 ∷ []) ∷ (104 ∷ []) ∷ [])
agreeable past block_number = ok (pos 7)
agreeable past (block_at height) = ok (record { height = height; timestamp = pos 1_687_000_000 })
agreeable past latest_block = ok (record { height = pos 7; timestamp = pos 1_687_000_000 })
agreeable past (read_logs query) = ok ((201 ∷ []) ∷ [])
agreeable past (receipt_topics hash) = ok none
agreeable past (simulate signer to method args) = ok (pos (length past), pos (length past))
agreeable past (send_rpc method args) = ok (length past ∷ [])

pub agreeable-Obliges : Obliges Anything agreeable
agreeable-Obliges past (create signer artifact links args) = tt
agreeable-Obliges past (transact signer to method value args) = tt
agreeable-Obliges past (read_address to method args) = tt
agreeable-Obliges past (read_addresses to method args) = tt
agreeable-Obliges past (read_number to method args) = tt
agreeable-Obliges past list_accounts = tt
agreeable-Obliges past block_number = tt
agreeable-Obliges past (block_at height) = tt
agreeable-Obliges past latest_block = tt
agreeable-Obliges past (read_logs query) = tt
agreeable-Obliges past (receipt_topics hash) = tt
agreeable-Obliges past (simulate signer to method args) = tt
agreeable-Obliges past (send_rpc method args) = tt
