-- ===== src/AuxPow/Validate.antt =====
-- src/scarletcoin/core/auxpow.py: `validate_auxpow`.
use Prim.Native.Nat.{bit_and}
use scarlet_coin.Prelude.{ℕ, ◌-◌, not, Option, none, some, ltb, ◌==◌, length}
use scarlet_coin.Prelude.Bytes.{Bytes, bytes_eq, from_le}
use scarlet_coin.Outcome.{Result, err, ◌>>=◌, ◌>>◌, raise_if, each, auxpow_error}
use scarlet_coin.Crypto.{Crypto}
use scarlet_coin.Transaction.{is_coinbase}
use scarlet_coin.Transaction.Codec.{txid}
use scarlet_coin.AuxPow.{max_merkle_branch_depth, check_merkle_branch}
use scarlet_coin.AuxPow.Header.{hash}
use scarlet_coin.AuxPow.Commitment.{
  Commitment, aux_tree_height, parse_auxpow_commitment, get_expected_index,
}
use scarlet_coin.AuxPow.Proof.{AuxPow}

-- Step A
unfoldable pub check_structure : AuxPow → Result (Unit {0})
check_structure a = do
  raise_if (ltb max_merkle_branch_depth (length a.coinbase_merkle_branch)) auxpow_error
  raise_if (ltb max_merkle_branch_depth (length a.aux_merkle_branch)) auxpow_error
  each (λ sibling. raise_if (not (length sibling == 32)) auxpow_error) a.coinbase_merkle_branch
  each (λ sibling. raise_if (not (length sibling == 32)) auxpow_error) a.aux_merkle_branch
  raise_if (not (is_coinbase a.coinbase_tx)) auxpow_error

-- Steps D and E, on the commitment found
unfoldable pub check_commitment : AuxPow → ℕ → Bytes → Option Commitment → Result (Unit {0})
check_commitment a chain_id aux_root none = err auxpow_error
check_commitment a chain_id aux_root (some m) = do
  raise_if (not (bytes_eq m.aux_root aux_root)) auxpow_error
  raise_if (ltb m.tree_size 1) auxpow_error
  raise_if (not (bit_and m.tree_size (m.tree_size - 1) == 0)) auxpow_error
  raise_if (not (a.aux_chain_index == get_expected_index m.nonce chain_id (aux_tree_height m)))
      auxpow_error

module _ (c : Crypto) where
  -- Steps F and G
  unfoldable pub check_parent : AuxPow → ℕ → Result (Unit {0})
  check_parent a aux_target = do
    coinbase_hash ← txid c a.coinbase_tx
    coinbase_root ← check_merkle_branch c coinbase_hash a.coinbase_merkle_branch a.coinbase_index
    raise_if (not (bytes_eq coinbase_root a.parent_header.merkle_root)) auxpow_error
    parent_hash ← hash c a.parent_header
    raise_if (ltb aux_target (from_le parent_hash)) auxpow_error

  unfoldable pub validate_auxpow : AuxPow → Bytes → ℕ → ℕ → Result (Unit {0})
  unfolding check_structure check_commitment check_parent
  validate_auxpow a aux_block_hash aux_target chain_id = do
    raise_if (chain_id == 0) auxpow_error
    check_structure a
    raise_if (not (length aux_block_hash == 32)) auxpow_error
    aux_root ← check_merkle_branch c aux_block_hash a.aux_merkle_branch a.aux_chain_index
    found ← parse_auxpow_commitment a.coinbase_tx.coinbase_data
    check_commitment a chain_id aux_root found
    check_parent a aux_target
