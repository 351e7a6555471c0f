-- ===== src/Transaction/Codec.antt =====
-- src/scarletcoin/core/transaction.py: `serialize_body`, `serialize`, `deserialize`, `read`, `txid`
-- and `size`.
use scarlet_coin.Prelude.{ℕ, ◌+◌, ◌/◌, ◌==◌, List, [], ◌∷◌, ltb, length}
use scarlet_coin.Prelude.Bytes.{Bytes}
use scarlet_coin.Outcome.{Result, raise_if, map_ok, serialization_error}
use scarlet_coin.Crypto.{Crypto, hash256, pubkey_hash_length}
use scarlet_coin.Serialize.{
  ◌⊕◌, raw, uint8, uint32, uint64, varint, varbytes, hash32, write_each, Read, ◌>>=◌, ◌>>◌, pure,
  lift, reject_if, read_raw, read_uint, read_varint, read_varbytes, read_hash32, read_times,
  expect_end,
}
use scarlet_coin.Transaction.{
  out_point, TxInput, tx_input, TxOutput, tx_output, Transaction, transaction, max_coinbase_data,
  max_witness_item_size,
}

unfoldable pub write_input : TxInput → Result Bytes
write_input i = hash32 i.prevout.txid ⊕ uint32 i.prevout.index ⊕ uint32 i.sequence

unfoldable pub write_output : TxOutput → Result Bytes
write_output o = uint8 o.type ⊕ uint64 o.value ⊕ raw o.payload

unfoldable pub write_witness : TxInput → Result Bytes
write_witness i = varint (length i.witness) ⊕ write_each varbytes i.witness

unfoldable pub serialize_body : Transaction → Result Bytes
serialize_body tx =
    uint32 tx.version
    ⊕ varint (length tx.inputs)
    ⊕ write_each write_input tx.inputs
    ⊕ varint (length tx.outputs)
    ⊕ write_each write_output tx.outputs
    ⊕ uint32 tx.lock_time
    ⊕ varbytes tx.coinbase_data

unfoldable pub serialize : Transaction → Result Bytes
serialize tx = serialize_body tx ⊕ write_each write_witness tx.inputs

-- The first pass over the inputs: no witness yet.
unfoldable pub read_input : Read TxInput
read_input = do
  txid ← read_hash32
  index ← read_uint 4
  prevout ← lift (out_point txid index)
  sequence ← read_uint 4
  lift (tx_input prevout sequence [])

unfoldable pub read_output : Read TxOutput
read_output = do
  type ← read_uint 1
  value ← read_uint 8
  payload ← read_raw pubkey_hash_length
  lift (tx_output type value payload)

-- The second pass rebuilds each input with its witness.
unfoldable pub read_witness : TxInput → Read TxInput
read_witness i = do
  count ← read_varint
  witness ← read_times count (read_varbytes max_witness_item_size)
  lift (tx_input i.prevout i.sequence witness)

unfoldable pub read_witnesses : List TxInput → Read (List TxInput)
read_witnesses [] = pure []
read_witnesses (i ∷ is) = read_witness i >>= λ x. read_witnesses is >>= λ xs. pure (x ∷ xs)

-- `Transaction.read`, in three stretches: the last fields and the witnesses, from the output count
-- on, and the whole.
unfoldable pub read_tail : ℕ → List TxInput → List TxOutput → Read Transaction
read_tail version inputs outputs = do
  lock_time ← read_uint 4
  coinbase_data ← read_varbytes max_coinbase_data
  full_inputs ← read_witnesses inputs
  lift (transaction version full_inputs outputs lock_time coinbase_data)

unfoldable pub read_outputs : ℕ → List TxInput → Read Transaction
read_outputs version inputs = do
  output_count ← read_varint
  lift (raise_if (output_count == 0) serialization_error)
  reject_if (λ left. ltb (left / 29 + 1) output_count) serialization_error
  outputs ← read_times output_count read_output
  read_tail version inputs outputs

unfoldable pub read : Read Transaction
unfolding read_outputs read_tail
read = do
  version ← read_uint 4
  input_count ← read_varint
  lift (raise_if (input_count == 0) serialization_error)
  reject_if (λ left. ltb (left / 40 + 1) input_count) serialization_error
  inputs ← read_times input_count read_input
  read_outputs version inputs

unfoldable pub deserialize : Bytes → Result Transaction
deserialize bytes = map_ok (λ p. p.0) ((read >>= λ tx. expect_end >> pure tx) bytes)

unfoldable pub size : Transaction → Result ℕ
size tx = map_ok length (serialize tx)

unfoldable pub txid : Crypto → Transaction → Result Bytes
txid c tx = map_ok (hash256 c) (serialize_body tx)
