-- ===== src/Block/Codec.antt =====
-- src/scarletcoin/core/block.py: `serialize`, `deserialize`, `read` and `hash` of headers and blocks.
use scarlet_coin.Prelude.{
  ℕ, not, Option, none, some, List, [], ◌∷◌, ltb, ◌==◌, if◌then◌else◌, length,
}
use scarlet_coin.Prelude.Bytes.{Bytes}
use scarlet_coin.Outcome.{Result, ok, err, raise_if, map_ok, serialization_error}
use scarlet_coin.Crypto.{Crypto, hash256}
use scarlet_coin.Serialize.{
  ◌⊕◌, uint8, uint32, varint, varbytes, hash32, write_each, Read, ◌>>=◌, ◌>>◌, pure, lift,
  reject_if, read_uint, read_varint, read_varbytes_any, read_hash32, read_times, expect_end,
}
use scarlet_coin.Transaction.{Transaction}
use scarlet_coin.Transaction.Codec as Tx
use scarlet_coin.AuxPow.Proof.{AuxPow}
use scarlet_coin.AuxPow.Proof as Proof
use scarlet_coin.Block.{BlockHeader, block_header, block_header_size, Block}

unfoldable pub write_header : BlockHeader → Result Bytes
write_header h =
    uint32 h.version
    ⊕ hash32 h.prev_hash
    ⊕ hash32 h.merkle_root
    ⊕ uint32 h.timestamp
    ⊕ uint32 h.bits
    ⊕ uint32 h.nonce

unfoldable pub read_header : Read BlockHeader
read_header = do
  version ← read_uint 4
  prev_hash ← read_hash32
  merkle_root ← read_hash32
  timestamp ← read_uint 4
  bits ← read_uint 4
  nonce ← read_uint 4
  lift (block_header version prev_hash merkle_root timestamp bits nonce)

unfoldable pub deserialize_header : Bytes → Result BlockHeader
unfolding read_header
deserialize_header bytes =
    if not (length bytes == block_header_size)
    then err serialization_error
    else map_ok (λ p. p.0) (read_header bytes)

unfoldable pub header_hash : Crypto → BlockHeader → Result Bytes
unfolding write_header
header_hash c h = map_ok (hash256 c) (write_header h)

abbrev write_proof_bytes : Result Bytes → Result Bytes
write_proof_bytes (ok bytes) = uint8 1 ⊕ varbytes bytes
write_proof_bytes (err e) = err e

-- The marker and the payload, when there is a proof.
unfoldable pub write_auxpow : Option AuxPow → Result Bytes
write_auxpow none = ok []
write_auxpow (some a) = write_proof_bytes (Proof.serialize a)

unfoldable pub serialize : Block → Result Bytes
unfolding write_header write_auxpow
serialize block =
    write_header block.header
    ⊕ varint (length block.transactions)
    ⊕ write_each Tx.serialize block.transactions
    ⊕ write_auxpow block.auxpow

-- The payload after its marker.
unfoldable pub read_payload : Read (Option AuxPow)
read_payload = do
  marker ← read_uint 1
  lift (raise_if (not (marker == 1)) serialization_error)
  bytes ← read_varbytes_any
  proof ← lift (Proof.deserialize bytes)
  pure (some proof)

-- `if reader.remaining > 0`
unfoldable pub read_auxpow : Read (Option AuxPow)
unfolding read_payload
read_auxpow [] = ok (none, [])
read_auxpow (b ∷ bs) = read_payload (b ∷ bs)

unfoldable pub read_block : Read Block
unfolding read_header read_auxpow
read_block = do
  header ← read_header
  count ← read_varint
  lift (raise_if (count == 0) serialization_error)
  reject_if (λ left. ltb left count) serialization_error
  transactions ← read_times count Tx.read
  auxpow ← read_auxpow
  expect_end
  pure (record { header = header; transactions = transactions; auxpow = auxpow })

unfoldable pub deserialize : Bytes → Result Block
unfolding read_block
deserialize bytes = map_ok (λ p. p.0) (read_block bytes)

unfoldable pub size : Block → Result ℕ
unfolding serialize
size block = map_ok length (serialize block)

unfoldable pub hash : Crypto → Block → Result Bytes
unfolding header_hash
hash c block = header_hash c block.header

unfoldable pub txids : Crypto → List Transaction → Result (List Bytes)
txids c [] = ok []
txids c (tx ∷ more) = elim (Tx.txid c tx) [
  | ok id ↦ map_ok (λ ids. id ∷ ids) (txids c more)
  | err e ↦ err e
]
