-- ===== src/Tests/Merged.antt =====
-- Merged mining: a commitment, and a proof for slot 2 of a tree of four.
use scarlet_coin.Prelude.{ℕ, ◌^◌, ◌≡◌, refl, some, [], ◌∷◌, ◌++◌, replicate}
use scarlet_coin.Prelude.Bytes.{Bytes, bytes_eq, to_le, from_le}
use scarlet_coin.Outcome.{Result, ok, err}
use scarlet_coin.Crypto.{hash256}
use scarlet_coin.Transaction.{
  Transaction, coinbase_outpoint, sequence_final, is_null, null_alone, is_coinbase,
}
use scarlet_coin.AuxPow.Commitment.{
  merged_mining_header, build_auxpow_commitment, parse_auxpow_commitment, get_expected_index,
  commitment, halvings, aux_tree_height, commitment_at, scan,
}
use scarlet_coin.AuxPow.Commitment.Search.{parse-build_auxpow_commitment}
use scarlet_coin.AuxPow.Proof.{AuxPow}
use scarlet_coin.AuxPow.Validate.{validate_auxpow, check_structure, check_commitment, check_parent}
use scarlet_coin.AuxPow.Ambiguity.{deep, shallow, validate_auxpow_inner_node}
use scarlet_coin.AuxPow.Header as H
use scarlet_coin.Transaction.Codec as TxCodec
use scarlet_coin.Tests.{toy, toy-Hashes32}
use scarlet_coin.Serialize.{◌⊕◌, pack, varint, varbytes, hash32, write_each}
use scarlet_coin.Transaction.Codec.{write_input, write_output, serialize_body, txid}
use scarlet_coin.AuxPow.{climb, check_merkle_branch}

abbrev leaf : Bytes
leaf = replicate 32 1

abbrev first_sibling : Bytes
first_sibling = replicate 32 2

abbrev second_sibling : Bytes
second_sibling = replicate 32 3

abbrev tree_root : Bytes
tree_root = hash256 toy (second_sibling ++ hash256 toy (leaf ++ first_sibling))

abbrev bytes_of : Result Bytes → Bytes
bytes_of (ok bytes) = bytes
bytes_of (err e) = []

abbrev slot_nonce : ℕ
slot_nonce = 3

abbrev commitment_bytes : Bytes
commitment_bytes = bytes_of (build_auxpow_commitment tree_root 4 slot_nonce)

built : build_auxpow_commitment tree_root 4 slot_nonce ≡ ok commitment_bytes
unfolding bytes_eq to_le from_le hash256 ◌⊕◌ pack varint varbytes hash32 write_each is_null
    null_alone is_coinbase write_input write_output serialize_body txid climb check_merkle_branch
    commitment halvings aux_tree_height build_auxpow_commitment commitment_at scan
    parse_auxpow_commitment get_expected_index check_structure check_commitment check_parent
    validate_auxpow H.serialize H.hash
built = refl

-- A root that starts with the marker itself.
abbrev marked_root : Bytes
marked_root = merged_mining_header ++ replicate 28 0

abbrev marked_bytes : Bytes
marked_bytes = bytes_of (build_auxpow_commitment marked_root 4 slot_nonce)

marked : build_auxpow_commitment marked_root 4 slot_nonce ≡ ok marked_bytes
unfolding bytes_eq to_le from_le hash256 ◌⊕◌ pack varint varbytes hash32 write_each is_null
    null_alone is_coinbase write_input write_output serialize_body txid climb check_merkle_branch
    commitment halvings aux_tree_height build_auxpow_commitment commitment_at scan
    parse_auxpow_commitment get_expected_index check_structure check_commitment check_parent
    validate_auxpow H.serialize H.hash
marked = refl

parse-build_auxpow_commitment_example :
    parse_auxpow_commitment marked_bytes
    ≡ ok (some (record { aux_root = marked_root; tree_size = 4; nonce = slot_nonce }))
parse-build_auxpow_commitment_example =
    parse-build_auxpow_commitment marked_root 4 slot_nonce marked_bytes marked

abbrev parent_coinbase : Transaction
parent_coinbase = record {
  version = 1;
  inputs = record { prevout = coinbase_outpoint; sequence = sequence_final; witness = [] } ∷ [];
  outputs = record { type = 0; value = 5; payload = replicate 20 9 } ∷ [];
  lock_time = 0;
  coinbase_data = commitment_bytes;
}

abbrev proof : AuxPow
proof = record {
  coinbase_tx = parent_coinbase;
  coinbase_merkle_branch = [];
  coinbase_index = 0;
  aux_merkle_branch = [];
  aux_chain_index = 0;
  parent_header = record {
    version = 1;
    prev_hash = replicate 32 0;
    merkle_root = bytes_of (TxCodec.txid toy parent_coinbase);
    timestamp = 0;
    bits = 0;
    nonce = 0;
  };
}

index_lem : get_expected_index slot_nonce 1 2 ≡ 2
unfolding bytes_eq to_le from_le hash256 ◌⊕◌ pack varint varbytes hash32 write_each is_null
    null_alone is_coinbase write_input write_output serialize_body txid climb check_merkle_branch
    commitment halvings aux_tree_height build_auxpow_commitment commitment_at scan
    parse_auxpow_commitment get_expected_index check_structure check_commitment check_parent
    validate_auxpow H.serialize H.hash
index_lem = refl

valid :
    validate_auxpow toy
      (deep toy toy-Hashes32 proof leaf first_sibling second_sibling)
      leaf
      (256 ^ 32)
      1
    ≡ ok tt
unfolding bytes_eq to_le from_le hash256 ◌⊕◌ pack varint varbytes hash32 write_each is_null
    null_alone is_coinbase write_input write_output serialize_body txid climb check_merkle_branch
    commitment halvings aux_tree_height build_auxpow_commitment commitment_at scan
    parse_auxpow_commitment get_expected_index check_structure check_commitment check_parent
    validate_auxpow H.serialize H.hash
valid = refl

validate_auxpow_inner_node_example :
    validate_auxpow toy
      (shallow toy toy-Hashes32 proof leaf first_sibling second_sibling)
      second_sibling
      (256 ^ 32)
      1
    ≡ ok tt
validate_auxpow_inner_node_example =
    validate_auxpow_inner_node toy toy-Hashes32 proof leaf first_sibling second_sibling (256 ^ 32) 1
      valid
