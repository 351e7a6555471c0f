-- ===== src/AuxPow/Header.antt =====
-- src/scarletcoin/core/auxpow.py: the encoding of `ParentBlockHeader`, and its hash.
use scarlet_coin.Prelude.{not, ◌==◌, if◌then◌else◌, length}
use scarlet_coin.Prelude.Bytes.{Bytes}
use scarlet_coin.Outcome.{Result, err, map_ok, serialization_error}
use scarlet_coin.Crypto.{Crypto, hash256}
use scarlet_coin.AuxPow.{ParentBlockHeader, parent_block_header}
use scarlet_coin.Serialize.{◌⊕◌, uint32, hash32, Read, ◌>>=◌, lift, read_uint, read_hash32}

unfoldable pub serialize : ParentBlockHeader → Result Bytes
serialize h =
    uint32 h.version
    ⊕ hash32 h.prev_hash
    ⊕ hash32 h.merkle_root
    ⊕ uint32 h.timestamp
    ⊕ uint32 h.bits
    ⊕ uint32 h.nonce

unfoldable pub read : Read ParentBlockHeader
read = do
  version ← read_uint 4
  prev_hash ← read_hash32
  merkle_root ← read_hash32
  timestamp ← read_uint 4
  bits ← read_uint 4
  nonce ← read_uint 4
  lift (parent_block_header version prev_hash merkle_root timestamp bits nonce)

unfoldable pub deserialize : Bytes → Result ParentBlockHeader
unfolding read
deserialize bytes =
    if not (length bytes == 80) then err serialization_error else map_ok (λ p. p.0) (read bytes)

unfoldable pub hash : Crypto → ParentBlockHeader → Result Bytes
hash c h = map_ok (hash256 c) (serialize h)
