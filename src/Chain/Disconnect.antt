-- ===== src/Chain/Disconnect.antt =====
-- src/scarletcoin/core/chain.py: `_disconnect_block`.
use scarlet_coin.Prelude.{false, none, some, List, [], ◌∷◌, length}
use scarlet_coin.Prelude.Bytes.{Bytes}
use scarlet_coin.Outcome.{Result, ok, err, ◌>>=◌, connect_error}
use scarlet_coin.Crypto.{Crypto}
use scarlet_coin.Transaction.{Transaction}
use scarlet_coin.Transaction.Codec.{txid}
use scarlet_coin.Utxo.{Coins}
use scarlet_coin.Utxo.Layers.{remove_all, put_all}
use scarlet_coin.Block.{Block}
use scarlet_coin.Block.Codec.{txids}
use scarlet_coin.Storage.{Storage, find_block, get_undo, set_in_chain, unindex_transactions}
use scarlet_coin.Chain.Connect.{outpoints}

module _ (c : Crypto) where
  unfoldable pub remove_outputs : List Transaction → Coins → Result Coins
  remove_outputs [] m = ok m
  remove_outputs (tx ∷ txs) m =
      txid c tx >>= λ id. remove_outputs txs (remove_all (outpoints id 0 (length tx.outputs)) m)

  unfoldable pub undo_block : Bytes → Block → Storage → Result (Block × Storage)
  unfolding remove_outputs
  undo_block id block s = do
    coins ← remove_outputs block.transactions s.utxo
    ids ← txids c block.transactions
    spent ← get_undo id s
    let s' = unindex_transactions ids (record s { utxo = put_all spent coins })
    ok (block, set_in_chain id false s')

  unfoldable pub disconnect_block : Bytes → Storage → Result (Block × Storage)
  unfolding undo_block
  disconnect_block id s = elim (find_block id s.blocks) [
    | none ↦ err connect_error
    | some block ↦ undo_block id block s
  ]
