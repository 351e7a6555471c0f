-- ===== src/Chain/Connect.antt =====
-- src/scarletcoin/core/chain.py: `_connect_block`.
use scarlet_coin.Prelude.{
  ℕ, zero, suc, ◌+◌, true, not, List, [], ◌∷◌, ◌++◌, ltb, if◌then◌else◌, any, length,
}
use scarlet_coin.Prelude.Bytes.{Bytes}
use scarlet_coin.Outcome.{
  Result, ok, err, ◌>>=◌, ◌>>◌, raise_if, validation_error, missing_input_error,
  premature_block_error, connect_error, Error,
}
use scarlet_coin.Crypto.{Crypto}
use scarlet_coin.Transaction.{
  OutPoint, outpoint_eq, TxInput, Transaction, is_coinbase, total_output,
}
use scarlet_coin.Transaction.Codec.{txid}
use scarlet_coin.Params.{ChainParams, subsidy}
use scarlet_coin.Utxo.{Coins, CoinOverlay, find, put, overlay, get_coin, spend, add_transaction}
use scarlet_coin.Utxo.Layers.{commit}
use scarlet_coin.Validation.{check_transaction_final, check_transaction_inputs}
use scarlet_coin.Block.{Block, coinbase_of}
use scarlet_coin.Storage.{Storage, Spent, put_undo, set_in_chain, prune_undo_behind}
use scarlet_coin.Chain.Index.{index_block}

abbrev pub undo_keep_blocks : ℕ
undo_keep_blocks = 2000

-- The local variables of the loop.
pub record Progress : Type 0 where
  pub coins : CoinOverlay
  pub spent : Coins
  pub undo : Spent
  pub created : List OutPoint
  pub fees : ℕ

-- `except ValidationError`, which its two subclasses are too
abbrev connect_error_of : Error → Error
connect_error_of validation_error = connect_error
connect_error_of missing_input_error = connect_error
connect_error_of premature_block_error = connect_error
connect_error_of e = e

abbrev pub as_connect_error {ℓ} : {A : Type ℓ} → Result A → Result A
as_connect_error (ok a) = ok a
as_connect_error (err e) = err (connect_error_of e)

-- One spent input: the coin is noted in `spent`, and in `undo` unless this block created it.
unfoldable pub spend_input : OutPoint → Progress → Result Progress
spend_input p pr = spend p pr.coins >>= λ (coin, coins'). ok (record pr {
  coins = coins';
  spent = put p coin pr.spent;
  undo = if any (outpoint_eq p) pr.created then pr.undo else pr.undo ++ ((p, coin) ∷ []);
})

unfoldable pub spend_inputs : List TxInput → Progress → Result Progress
unfolding spend_input
spend_inputs [] pr = ok pr
spend_inputs (i ∷ is) pr = spend_input i.prevout pr >>= λ pr'. spend_inputs is pr'

-- `OutPoint(txid, index) for index in range(n)`, from `index` on
unfoldable pub outpoints : Bytes → ℕ → ℕ → List OutPoint
outpoints id index zero = []
outpoints id index (suc n) = record { txid = id; index = index } ∷ outpoints id (index + 1) n

-- The local variables before the loop.
abbrev pub start : Storage → Progress
start s = record {
  coins = overlay (λ p. find p s.utxo);
  spent = [];
  undo = [];
  created = [];
  fees = 0;
}

module _ (c : Crypto) (params : ChainParams) (height : ℕ) where
  unfoldable pub connect_inputs : Transaction → Progress → Result Progress
  unfolding spend_inputs
  connect_inputs tx pr =
      if not (is_coinbase tx)
      then (as_connect_error (check_transaction_inputs c (get_coin pr.coins) height params true tx)
          >>= λ fee. spend_inputs tx.inputs (record pr { fees = pr.fees + fee }))
      else ok pr

  unfoldable pub connect_transaction : Transaction → Progress → Result Progress
  unfolding connect_inputs outpoints
  connect_transaction tx pr = do
    raise_if (not (check_transaction_final tx height)) connect_error
    pr' ← connect_inputs tx pr
    id ← txid c tx
    coins' ← add_transaction c tx height pr'.coins
    ok (record pr' { created = outpoints id 0 (length tx.outputs) ++ pr'.created; coins = coins' })

  unfoldable pub connect_transactions : List Transaction → Progress → Result Progress
  unfolding connect_transaction
  connect_transactions [] pr = ok pr
  connect_transactions (tx ∷ txs) pr =
      connect_transaction tx pr >>= λ pr'. connect_transactions txs pr'

  -- What `_connect_block` writes once the block has been found valid.
  unfoldable pub write_block : Bytes → Block → Progress → Storage → Result Storage
  write_block id block pr s = do
    s1 ← put_undo id pr.undo (record s { utxo = commit pr.coins s.utxo })
    s2 ← index_block c id height pr.spent 0 block.transactions s1
    ok (prune_undo_behind height undo_keep_blocks (set_in_chain id true s2))

  -- `id` is the hash of the index entry.
  unfoldable pub connect_block : Bytes → Block → Storage → Result Storage
  unfolding connect_transactions write_block
  connect_block id block s = do
    pr ← connect_transactions block.transactions (start s)
    coinbase ← coinbase_of block
    raise_if (ltb (subsidy params height + pr.fees) (total_output coinbase)) connect_error
    write_block id block pr s
