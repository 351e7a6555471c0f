-- ===== src/Block/Check.antt =====
-- src/scarletcoin/core/block.py: `check_sanity` of a block.
use scarlet_coin.Prelude.{ℕ, Bool, false, not, ◌||◌, List, [], ◌∷◌, ltb, if◌then◌else◌, any}
use scarlet_coin.Prelude.Bytes.{Bytes, bytes_eq}
use scarlet_coin.Outcome.{Result, ok, err, ◌>>=◌, ◌>>◌, raise_if, each, block_error}
use scarlet_coin.Crypto.{Crypto}
use scarlet_coin.Transaction.{Transaction, is_coinbase}
use scarlet_coin.Transaction as Tx
use scarlet_coin.Pow.{check_proof_of_work}
use scarlet_coin.Block.{Block, has_auxpow, merkle_root}
use scarlet_coin.Block.Codec.{header_hash, size, txids}

-- `len(set(txids)) != len(txids)`
unfoldable pub has_duplicate : List Bytes → Bool
has_duplicate [] = false
has_duplicate (id ∷ ids) = any (bytes_eq id) ids || has_duplicate ids

module _ (c : Crypto) (pow_limit max_block_size min_output_value : ℕ) where
  unfoldable pub check_header_work : Bool → Block → Result (Unit {0})
  check_header_work is_auxpow_active block =
      if not is_auxpow_active || not (has_auxpow block)
      then (do
        id ← header_hash c block.header
        valid ← check_proof_of_work id block.header.bits pow_limit
        raise_if (not valid) block_error)
      else ok tt

  -- `is_coinbase` of the first transaction and of the others
  unfoldable pub check_coinbases : List Transaction → Result (Unit {0})
  check_coinbases [] = err block_error
  check_coinbases (first ∷ others) = do
    raise_if (not (is_coinbase first)) block_error
    each (λ tx. raise_if (is_coinbase tx) block_error) others

  unfoldable pub check_sanity : Bool → Block → Result (Unit {0})
  unfolding check_header_work check_coinbases has_duplicate
  check_sanity is_auxpow_active block = do
    raise_if (Tx.is_empty block.transactions) block_error
    bytes ← size block
    raise_if (ltb max_block_size bytes) block_error
    check_header_work is_auxpow_active block
    check_coinbases block.transactions
    each (Tx.check_sanity min_output_value) block.transactions
    ids ← txids c block.transactions
    raise_if (has_duplicate ids) block_error
    root ← merkle_root c ids
    raise_if (not (bytes_eq root block.header.merkle_root)) block_error
