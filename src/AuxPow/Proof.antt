-- ===== src/AuxPow/Proof.antt =====
-- src/scarletcoin/core/auxpow.py: `AuxPoW` and its encoding.
use scarlet_coin.Prelude.{ℕ, ◌+◌, List, ltb, length}
use scarlet_coin.Prelude.Bytes.{Bytes}
use scarlet_coin.Outcome.{
  Result, ok, err, raise_if, map_ok, auxpow_error, serialization_error, transaction_error,
}
use scarlet_coin.Serialize.{
  ◌⊕◌, uint32, varint, varbytes, hash32, write_each, Read, ◌>>=◌, ◌>>◌, pure, lift, read_raw,
  read_uint, read_varint, read_varbytes, read_hash32, read_times, expect_end,
}
use scarlet_coin.Transaction.{Transaction, max_coinbase_data}
use scarlet_coin.Transaction.Codec as Tx
use scarlet_coin.AuxPow.{max_merkle_branch_depth, ParentBlockHeader}
use scarlet_coin.AuxPow.Header as H

pub record AuxPow : Type 0 where
  pub coinbase_tx : Transaction
  pub coinbase_merkle_branch : List Bytes
  pub coinbase_index : ℕ
  pub aux_merkle_branch : List Bytes
  pub aux_chain_index : ℕ
  pub parent_header : ParentBlockHeader

abbrev write_bytes : Result Bytes → Result Bytes
write_bytes (ok bytes) = varbytes bytes
write_bytes (err e) = err e

unfoldable pub serialize : AuxPow → Result Bytes
serialize a =
    varint (length a.coinbase_merkle_branch)
    ⊕ write_each hash32 a.coinbase_merkle_branch
    ⊕ uint32 a.coinbase_index
    ⊕ varint (length a.aux_merkle_branch)
    ⊕ write_each hash32 a.aux_merkle_branch
    ⊕ uint32 a.aux_chain_index
    ⊕ write_bytes (Tx.serialize a.coinbase_tx)
    ⊕ H.serialize a.parent_header

-- `except (SerializationError, TransactionError)`, and the other one with `AuxPoWError`: both raise
-- a `SerializationError`.
abbrev as_serialization_error {ℓ} : {A : Type ℓ} → Result A → Result A
as_serialization_error (err transaction_error) = err serialization_error
as_serialization_error (err auxpow_error) = err serialization_error
as_serialization_error r = r

unfoldable pub read : Read AuxPow
read = do
  cb_branch_count ← read_varint
  lift (raise_if (ltb max_merkle_branch_depth cb_branch_count) serialization_error)
  cb_branch ← read_times cb_branch_count read_hash32
  coinbase_index ← read_uint 4
  aux_branch_count ← read_varint
  lift (raise_if (ltb max_merkle_branch_depth aux_branch_count) serialization_error)
  aux_branch ← read_times aux_branch_count read_hash32
  aux_chain_index ← read_uint 4
  coinbase_bytes ← read_varbytes (max_coinbase_data + 2000)
  coinbase_tx ← lift (as_serialization_error (Tx.deserialize coinbase_bytes))
  parent_header_bytes ← read_raw 80
  parent_header ← lift (as_serialization_error (H.deserialize parent_header_bytes))
  pure (record {
    coinbase_tx = coinbase_tx;
    coinbase_merkle_branch = cb_branch;
    coinbase_index = coinbase_index;
    aux_merkle_branch = aux_branch;
    aux_chain_index = aux_chain_index;
    parent_header = parent_header;
  })

unfoldable pub deserialize : Bytes → Result AuxPow
deserialize bytes = map_ok (λ p. p.0) ((read >>= λ a. expect_end >> pure a) bytes)
