-- ===== src/Tests/Codecs.antt =====
-- Encodings, blocks and proofs of work.
use scarlet_coin.Prelude.{
  ℕ, ◌+◌, ◌*◌, ◌^◌, ◌/◌, ◌≤◌, ◌<◌, ◌≡◌, refl, ◌↔◌, true, false, none, List, [], ◌∷◌, length,
  replicate, arith,
}
use scarlet_coin.Prelude.Bytes.{Bytes, from_le, bytes_eq, to_le, from_be}
use scarlet_coin.Outcome.{Result, ok, err}
use scarlet_coin.Transaction.{
  OutPoint, TxInput, TxOutput, Transaction, is_coinbase, coinbase_outpoint, sequence_final,
  out_point, outpoint_eq, is_null, tx_input, tx_output, p2pkh, transaction, null_alone, is_empty,
  sum_values, total_output, first_witness, check_inputs, check_coinbase, check_spending,
  check_witness_shape,
}
use scarlet_coin.Transaction as Tx
use scarlet_coin.Transaction.Sanity.{IsSane, check_sanity_iff}
use scarlet_coin.Transaction.Codec as TxCodec
use scarlet_coin.Transaction.Fields.{IsReadable}
use scarlet_coin.Transaction.RoundTrip.{deserialize-of_serialize}
use scarlet_coin.Serialize.{varint, read_varint, ◌⊕◌, pack, varbytes, hash32, write_each}
use scarlet_coin.Serialize.Laws.{ReadsBack, ReadsBack-varint}
use scarlet_coin.Coinbase.{build_coinbase, coinbase_height, encode_coinbase_data}
use scarlet_coin.Coinbase.Height.{coinbase_height-build_coinbase}
use scarlet_coin.Pow.{
  bits_to_target, check_proof_of_work, block_work, expand, fits, unpack, hash_to_int, meets_target,
  work_of,
}
use scarlet_coin.Pow.Work.{check_proof_of_work_iff, block_work_positive, block_work_antitone}
use scarlet_coin.Block.{BlockHeader, Block, merkle_root, pair_up, merkle_levels, has_auxpow}
use scarlet_coin.Block.Codec.{
  write_header, deserialize_header, size, txids, header_hash, write_auxpow,
}
use scarlet_coin.Block.Check.{has_duplicate, check_sanity, check_header_work, check_coinbases}
use scarlet_coin.Block.HeaderTrip.{deserialize_header-of_write_header}
use scarlet_coin.Block.Merkle.{merkle_root_total, merkle_root_repeat}
use scarlet_coin.Storage.{
  Storage, Spent, put_undo, get_undo, write_coin, write_entry, write_undo, delete_undo,
}
use scarlet_coin.Storage.UndoTrip.{get_undo-put_undo}
use scarlet_coin.Tests.{toy}
use scarlet_coin.Crypto.{hash256, hash160}
use scarlet_coin.Transaction.Codec.{write_input, write_output, write_witness, serialize_body, txid}
use scarlet_coin.Block.Codec as B

abbrev some_input : TxInput
some_input = record {
  prevout = record { txid = replicate 32 7; index = 0 };
  sequence = sequence_final;
  witness = (8 ∷ 9 ∷ []) ∷ [];
}

abbrev some_output : TxOutput
some_output = record { type = 0; value = 5; payload = replicate 20 9 }

abbrev spending : Transaction
spending = record {
  version = 1;
  inputs = some_input ∷ [];
  outputs = some_output ∷ [];
  lock_time = 0;
  coinbase_data = [];
}

abbrev minting : Transaction
minting = record {
  version = 1;
  inputs = record { prevout = coinbase_outpoint; sequence = sequence_final; witness = [] } ∷ [];
  outputs = some_output ∷ [];
  lock_time = 0;
  coinbase_data = 3 ∷ 0 ∷ 0 ∷ 0 ∷ [];
}

abbrev bytes_of : Result Bytes → Bytes
bytes_of (ok bytes) = bytes
bytes_of (err e) = []

check_sanity_iff_example : (Tx.check_sanity 1 spending ≡ ok tt) ↔ IsSane 1 spending
check_sanity_iff_example = check_sanity_iff 1 spending

spending_bytes : TxCodec.serialize spending ≡ ok (bytes_of (TxCodec.serialize spending))
unfolding bytes_eq to_le from_le from_be hash256 hash160 ◌⊕◌ pack varint varbytes hash32 write_each
    out_point outpoint_eq is_null tx_input tx_output p2pkh transaction null_alone is_coinbase
    is_empty sum_values total_output first_witness check_inputs check_coinbase check_spending
    check_witness_shape write_input write_output write_witness serialize_body txid
    encode_coinbase_data build_coinbase expand fits unpack bits_to_target hash_to_int meets_target
    check_proof_of_work work_of block_work pair_up merkle_levels merkle_root has_auxpow write_header
    header_hash write_auxpow size txids has_duplicate check_header_work check_coinbases check_sanity
    write_coin write_entry write_undo delete_undo put_undo TxCodec.serialize Tx.check_sanity
    B.serialize
spending_bytes = refl

spending-IsReadable : IsReadable spending
spending-IsReadable = record {
  version_fits = omega arith;
  lock_time_fits = omega arith;
  some_input = omega arith;
  some_output = omega arith;
  inputs_fit = (
    record {
      txid_length = refl;
      index_fits = omega arith;
      sequence_fits = omega arith;
      items_fit = (omega arith, tt);
    },
    tt,
  );
  outputs_fit =
      (record { known_type = omega arith; value_fits = omega arith; payload_length = refl }, tt);
  extra_fits = omega arith;
}

deserialize-of_serialize_example :
    TxCodec.deserialize (bytes_of (TxCodec.serialize spending)) ≡ ok spending
deserialize-of_serialize_example =
    deserialize-of_serialize spending spending-IsReadable (bytes_of (TxCodec.serialize spending))
      spending_bytes

ReadsBack-varint_example : ReadsBack read_varint (varint 70000) 70000
ReadsBack-varint_example = ReadsBack-varint 70000

minting_lem : build_coinbase 3 5 (replicate 20 9) [] 0 ≡ ok minting
unfolding bytes_eq to_le from_le from_be hash256 hash160 ◌⊕◌ pack varint varbytes hash32 write_each
    out_point outpoint_eq is_null tx_input tx_output p2pkh transaction null_alone is_coinbase
    is_empty sum_values total_output first_witness check_inputs check_coinbase check_spending
    check_witness_shape write_input write_output write_witness serialize_body txid
    encode_coinbase_data build_coinbase expand fits unpack bits_to_target hash_to_int meets_target
    check_proof_of_work work_of block_work pair_up merkle_levels merkle_root has_auxpow write_header
    header_hash write_auxpow size txids has_duplicate check_header_work check_coinbases check_sanity
    write_coin write_entry write_undo delete_undo put_undo TxCodec.serialize Tx.check_sanity
    B.serialize
minting_lem = refl

coinbase_height-build_coinbase_example :
    (is_coinbase minting ≡ true) × (coinbase_height minting ≡ ok 3)
coinbase_height-build_coinbase_example =
    coinbase_height-build_coinbase 3 5 (replicate 20 9) [] 0 minting minting_lem

abbrev easiest : ℕ
easiest = 0x207FFFFF

abbrev some_hash : Bytes
some_hash = replicate 32 1

abbrev pow_limit : ℕ
pow_limit = 0x7FFFFF * 2 ^ 232

check_proof_of_work_iff_example :
    (check_proof_of_work (replicate 32 1) easiest pow_limit ≡ ok true) ↔ (
      (target : ℕ) × (bits_to_target easiest ≡ ok target)
      × (0 < target)
      × (target ≤ pow_limit)
      × (length some_hash ≡ 32)
      × (from_le (replicate 32 1) ≤ target))
check_proof_of_work_iff_example = check_proof_of_work_iff (replicate 32 1) easiest pow_limit

solved : check_proof_of_work (replicate 32 1) easiest pow_limit ≡ ok true
unfolding bytes_eq to_le from_le from_be hash256 hash160 ◌⊕◌ pack varint varbytes hash32 write_each
    out_point outpoint_eq is_null tx_input tx_output p2pkh transaction null_alone is_coinbase
    is_empty sum_values total_output first_witness check_inputs check_coinbase check_spending
    check_witness_shape write_input write_output write_witness serialize_body txid
    encode_coinbase_data build_coinbase expand fits unpack bits_to_target hash_to_int meets_target
    check_proof_of_work work_of block_work pair_up merkle_levels merkle_root has_auxpow write_header
    header_hash write_auxpow size txids has_duplicate check_header_work check_coinbases check_sanity
    write_coin write_entry write_undo delete_undo put_undo TxCodec.serialize Tx.check_sanity
    B.serialize
solved = refl

block_work_positive_example :
    (work : ℕ) × (block_work easiest ≡ ok work)
    × (1 ≤ work)
    × (target : ℕ) × (bits_to_target easiest ≡ ok target)
    × (work * (target + 1) ≤ 2 ^ 256)
    × (2 ^ 256 < (work + 1) * (target + 1))
block_work_positive_example = block_work_positive (replicate 32 1) easiest pow_limit solved

easy_target : bits_to_target 0x03000004 ≡ ok 4
unfolding bytes_eq to_le from_le from_be hash256 hash160 ◌⊕◌ pack varint varbytes hash32 write_each
    out_point outpoint_eq is_null tx_input tx_output p2pkh transaction null_alone is_coinbase
    is_empty sum_values total_output first_witness check_inputs check_coinbase check_spending
    check_witness_shape write_input write_output write_witness serialize_body txid
    encode_coinbase_data build_coinbase expand fits unpack bits_to_target hash_to_int meets_target
    check_proof_of_work work_of block_work pair_up merkle_levels merkle_root has_auxpow write_header
    header_hash write_auxpow size txids has_duplicate check_header_work check_coinbases check_sanity
    write_coin write_entry write_undo delete_undo put_undo TxCodec.serialize Tx.check_sanity
    B.serialize
easy_target = refl

hard_target : bits_to_target 0x03000001 ≡ ok 1
unfolding bytes_eq to_le from_le from_be hash256 hash160 ◌⊕◌ pack varint varbytes hash32 write_each
    out_point outpoint_eq is_null tx_input tx_output p2pkh transaction null_alone is_coinbase
    is_empty sum_values total_output first_witness check_inputs check_coinbase check_spending
    check_witness_shape write_input write_output write_witness serialize_body txid
    encode_coinbase_data build_coinbase expand fits unpack bits_to_target hash_to_int meets_target
    check_proof_of_work work_of block_work pair_up merkle_levels merkle_root has_auxpow write_header
    header_hash write_auxpow size txids has_duplicate check_header_work check_coinbases check_sanity
    write_coin write_entry write_undo delete_undo put_undo TxCodec.serialize Tx.check_sanity
    B.serialize
hard_target = refl

easy_work : block_work 0x03000004 ≡ ok (2 ^ 256 / 5)
unfolding bytes_eq to_le from_le from_be hash256 hash160 ◌⊕◌ pack varint varbytes hash32 write_each
    out_point outpoint_eq is_null tx_input tx_output p2pkh transaction null_alone is_coinbase
    is_empty sum_values total_output first_witness check_inputs check_coinbase check_spending
    check_witness_shape write_input write_output write_witness serialize_body txid
    encode_coinbase_data build_coinbase expand fits unpack bits_to_target hash_to_int meets_target
    check_proof_of_work work_of block_work pair_up merkle_levels merkle_root has_auxpow write_header
    header_hash write_auxpow size txids has_duplicate check_header_work check_coinbases check_sanity
    write_coin write_entry write_undo delete_undo put_undo TxCodec.serialize Tx.check_sanity
    B.serialize
easy_work = refl

hard_work : block_work 0x03000001 ≡ ok (2 ^ 256 / 2)
unfolding bytes_eq to_le from_le from_be hash256 hash160 ◌⊕◌ pack varint varbytes hash32 write_each
    out_point outpoint_eq is_null tx_input tx_output p2pkh transaction null_alone is_coinbase
    is_empty sum_values total_output first_witness check_inputs check_coinbase check_spending
    check_witness_shape write_input write_output write_witness serialize_body txid
    encode_coinbase_data build_coinbase expand fits unpack bits_to_target hash_to_int meets_target
    check_proof_of_work work_of block_work pair_up merkle_levels merkle_root has_auxpow write_header
    header_hash write_auxpow size txids has_duplicate check_header_work check_coinbases check_sanity
    write_coin write_entry write_undo delete_undo put_undo TxCodec.serialize Tx.check_sanity
    B.serialize
hard_work = refl

block_work_antitone_example : 2 ^ 256 / 5 ≤ 2 ^ 256 / 2
block_work_antitone_example =
    block_work_antitone 0x03000004 0x03000001 4 1 (2 ^ 256 / 5) (2 ^ 256 / 2) easy_target
      hard_target (omega arith) (omega arith) easy_work hard_work

abbrev root_of : Result Bytes → Bytes
root_of (ok root) = root
root_of (err e) = []

abbrev ids_of : Result (List Bytes) → List Bytes
ids_of (ok ids) = ids
ids_of (err e) = []

abbrev both : List Transaction
both = minting ∷ spending ∷ []

abbrev some_header : BlockHeader
some_header = record {
  version = 1;
  prev_hash = replicate 32 0;
  merkle_root = root_of (merkle_root toy (ids_of (txids toy both)));
  timestamp = 0;
  bits = easiest;
  nonce = 8;
}

abbrev some_block : Block
some_block = record { header = some_header; transactions = both; auxpow = none }

header_bytes : write_header some_header ≡ ok (bytes_of (write_header some_header))
unfolding bytes_eq to_le from_le from_be hash256 hash160 ◌⊕◌ pack varint varbytes hash32 write_each
    out_point outpoint_eq is_null tx_input tx_output p2pkh transaction null_alone is_coinbase
    is_empty sum_values total_output first_witness check_inputs check_coinbase check_spending
    check_witness_shape write_input write_output write_witness serialize_body txid
    encode_coinbase_data build_coinbase expand fits unpack bits_to_target hash_to_int meets_target
    check_proof_of_work work_of block_work pair_up merkle_levels merkle_root has_auxpow write_header
    header_hash write_auxpow size txids has_duplicate check_header_work check_coinbases check_sanity
    write_coin write_entry write_undo delete_undo put_undo TxCodec.serialize Tx.check_sanity
    B.serialize
header_bytes = refl

deserialize_header-of_write_header_example :
    (length (bytes_of (write_header some_header)) ≡ 80)
    × (deserialize_header (bytes_of (write_header some_header)) ≡ ok some_header)
deserialize_header-of_write_header_example =
    deserialize_header-of_write_header some_header (bytes_of (write_header some_header))
      header_bytes

accepted : check_sanity toy pow_limit 1000 1 false some_block ≡ ok tt
unfolding bytes_eq to_le from_le from_be hash256 hash160 ◌⊕◌ pack varint varbytes hash32 write_each
    out_point outpoint_eq is_null tx_input tx_output p2pkh transaction null_alone is_coinbase
    is_empty sum_values total_output first_witness check_inputs check_coinbase check_spending
    check_witness_shape write_input write_output write_witness serialize_body txid
    encode_coinbase_data build_coinbase expand fits unpack bits_to_target hash_to_int meets_target
    check_proof_of_work work_of block_work pair_up merkle_levels merkle_root has_auxpow write_header
    header_hash write_auxpow size txids has_duplicate check_header_work check_coinbases check_sanity
    write_coin write_entry write_undo delete_undo put_undo TxCodec.serialize Tx.check_sanity
    B.serialize
accepted = refl

merkle_root_total_example : (root : Bytes) × (merkle_root toy ((1 ∷ []) ∷ (2 ∷ []) ∷ []) ≡ ok root)
merkle_root_total_example = merkle_root_total toy (1 ∷ []) ((2 ∷ []) ∷ [])

merkle_root_repeat_example :
    merkle_root toy ((1 ∷ []) ∷ (2 ∷ []) ∷ (3 ∷ []) ∷ [])
    ≡ merkle_root toy ((1 ∷ []) ∷ (2 ∷ []) ∷ (3 ∷ []) ∷ (3 ∷ []) ∷ [])
merkle_root_repeat_example = merkle_root_repeat toy 0 (1 ∷ []) (2 ∷ []) [] (3 ∷ []) refl

abbrev some_spent : Spent
some_spent =
    (
      some_input.prevout,
      record {
        value = 5;
        output_type = 0;
        payload = replicate 20 9;
        height = 2;
        is_coinbase = true;
      },
    )
    ∷ []

abbrev no_storage : Storage
no_storage = record { utxo = []; undo = []; blocks = []; locations = []; history = [] }

abbrev storage_of : Result Storage → Storage
storage_of (ok s) = s
storage_of (err e) = no_storage

undo_stored :
    put_undo (replicate 32 1) some_spent no_storage
    ≡ ok (storage_of (put_undo (replicate 32 1) some_spent no_storage))
unfolding bytes_eq to_le from_le from_be hash256 hash160 ◌⊕◌ pack varint varbytes hash32 write_each
    out_point outpoint_eq is_null tx_input tx_output p2pkh transaction null_alone is_coinbase
    is_empty sum_values total_output first_witness check_inputs check_coinbase check_spending
    check_witness_shape write_input write_output write_witness serialize_body txid
    encode_coinbase_data build_coinbase expand fits unpack bits_to_target hash_to_int meets_target
    check_proof_of_work work_of block_work pair_up merkle_levels merkle_root has_auxpow write_header
    header_hash write_auxpow size txids has_duplicate check_header_work check_coinbases check_sanity
    write_coin write_entry write_undo delete_undo put_undo TxCodec.serialize Tx.check_sanity
    B.serialize
undo_stored = refl

get_undo-put_undo_example :
    get_undo (replicate 32 1) (storage_of (put_undo (replicate 32 1) some_spent no_storage))
    ≡ ok some_spent
get_undo-put_undo_example =
    get_undo-put_undo (replicate 32 1) some_spent no_storage
      (storage_of (put_undo (replicate 32 1) some_spent no_storage))
      (record { txid_length = refl; index_fits = omega arith; payload_length = refl }, tt)
      undo_stored
