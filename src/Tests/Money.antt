-- ===== src/Tests/Money.antt =====
-- A chain of two blocks: the second spends a coin with a signature and pays a fee.
use scarlet_coin.Chain.Index.{
  amount, add_amount, received_by, sent_by, new_keys, touched, drop_location, drop_history,
  put_history, history_row, index_transaction, index_block,
}
use scarlet_coin.Transaction.Signing.{
  signature_hasher, digest, signature_hash, set_witness, set_witnesses, signed_with,
  verify_revealed, verify_witness, verify_input_signature,
}
use scarlet_coin.Transaction.Codec.{
  write_input, write_output, write_witness, serialize_body, serialize, read_input, read_output,
  read_witness, read_witnesses, read_tail, read_outputs, read, deserialize, size, txid,
}
use scarlet_coin.Serialize.{
  ◌⊕◌, pack, varint, varbytes, hash32, write_each, pure, lift, reject_if, read_raw, read_uint,
  read_varint, read_varbytes, read_varbytes_any, read_hash32, read_times, expect_end,
}
use scarlet_coin.Prelude.Bytes.{bytes_eq, to_le, from_le, from_be}
use scarlet_coin.Transaction.{
  is_null, out_point, tx_input, input_is_replaceable, check_witness_shape, tx_output, p2pkh, p2sh,
  transaction, null_alone, is_empty, is_replaceable, sum_values, first_witness, check_inputs,
  check_coinbase, check_spending, check_sanity,
}
use scarlet_coin.Prelude.Bytes.{bytes_eq}
use scarlet_coin.Transaction.{is_null}
use scarlet_coin.Prelude.{
  ◌+◌, ◌*◌, ◌≤◌, ◌≡◌, refl, true, false, Option, none, [], ◌∷◌, ◌++◌, replicate, arith,
}
use scarlet_coin.Prelude.Bytes.{Bytes}
use scarlet_coin.Outcome.{Result, ok, err}
use scarlet_coin.Crypto.{hash160, hash256, public_key, verify}
use scarlet_coin.Transaction.{
  OutPoint, outpoint_eq, Transaction, is_coinbase, total_output, coinbase_outpoint, sequence_final,
  max_money,
}
use scarlet_coin.Params.{coin, ChainParams, subsidy, target_timespan}
use scarlet_coin.Params.Subsidy.{issued, issued-le, issued-max_money}
use scarlet_coin.Utxo.{
  Coin, CoinOverlay, find, overlay, get_coin, spend, add, total, is_p2sh, is_spendable_at, erase,
  put, discard, add_outputs, add_transaction,
}
use scarlet_coin.Utxo.Tables.{IsTable}
use scarlet_coin.Utxo.Layers.{
  commit, find-commit, overlay-IsLayered, add-IsLayered, remove_all, put_all,
}
use scarlet_coin.Validation.{
  check_transaction_inputs, shared_hasher, check_transaction_final, verify_p2sh_witness,
  verify_p2sh, verify_spend, check_signature, check_coin, check_coins,
}
use scarlet_coin.Block.{
  Block, pair_up, merkle_levels, merkle_root, block_header, has_auxpow, coinbase_of,
}
use scarlet_coin.Storage.{
  Storage, write_coin, read_coin, write_entry, read_entry, write_undo, read_entries, read_undo,
  find_undo, delete_undo, put_undo, get_undo, mark, set_in_chain, active_at, prune_undo_behind,
  find_block, forget_locations, forget_history, unindex_transactions,
}
use scarlet_coin.Chain.Connect.{
  connect_block, spend_input, spend_inputs, outpoints, connect_inputs, connect_transaction,
  connect_transactions, write_block,
}
use scarlet_coin.Chain.Supply.{total-connect_block}
use scarlet_coin.Chain.MoneyCap.{genesis, extend, total-max_money}
use scarlet_coin.Tests.{toy, toy_key, toy_signature}

abbrev pub rules : ChainParams
rules = record {
  target_spacing = 600;
  retarget_interval = 2016;
  pow_limit_bits = 0x207FFFFF;
  max_adjustment_factor = 4;
  per_block_retarget = false;
  retarget_fork_height = 0;
  retarget_measure_fork_height = 0;
  initial_subsidy = 50 * coin;
  halving_interval = 210_000;
  coinbase_maturity = 1;
  max_block_size = 1_000_000;
  max_future_time = 7200;
  median_time_blocks = 11;
  min_relay_fee_per_kb = 1000;
  min_output_value = 1;
  auxpow_chain_id = 1;
  auxpow_activation_height = none;
  checkpoints = [];
}

-- `hash160` of `toy_key 5`
abbrev pub owner : Bytes
owner = replicate 16 32 ++ replicate 4 128

abbrev pub first_outpoint : OutPoint
first_outpoint = record { txid = replicate 32 7; index = 0 }

abbrev pub first_coin : Coin
first_coin = record {
  value = 100;
  output_type = 0;
  payload = owner;
  height = 0;
  is_coinbase = true;
}

abbrev pub start_storage : Storage
start_storage = record {
  utxo = (first_outpoint, first_coin) ∷ [];
  undo = [];
  blocks = [];
  locations = [];
  history = [];
}

abbrev pub reward : Transaction
reward = record {
  version = 1;
  inputs = record { prevout = coinbase_outpoint; sequence = sequence_final; witness = [] } ∷ [];
  outputs = record { type = 0; value = 50 * coin + 10; payload = owner } ∷ [];
  lock_time = 0;
  coinbase_data = 1 ∷ 0 ∷ 0 ∷ 0 ∷ [];
}

abbrev pub payment : Transaction
payment = record {
  version = 1;
  inputs =
      record {
        prevout = first_outpoint;
        sequence = sequence_final;
        witness = toy_key 5 ∷ toy_signature 5 ∷ [];
      }
      ∷ [];
  outputs = record { type = 0; value = 90; payload = owner } ∷ [];
  lock_time = 0;
  coinbase_data = [];
}

abbrev pub second_block : Block
second_block = record {
  header = record {
    version = 1;
    prev_hash = replicate 32 0;
    merkle_root = replicate 32 0;
    timestamp = 0;
    bits = 0x207FFFFF;
    nonce = 0;
  };
  transactions = reward ∷ payment ∷ [];
  auxpow = none;
}

abbrev pub block_id : Bytes
block_id = replicate 32 1

abbrev pub storage_of : Result Storage → Storage
storage_of (ok s) = s
storage_of (err e) = start_storage

abbrev pub end_storage : Storage
end_storage = storage_of (connect_block toy rules 1 block_id second_block start_storage)

connected : connect_block toy rules 1 block_id second_block start_storage ≡ ok end_storage
unfolding bytes_eq to_le from_le from_be hash256 hash160 public_key verify ◌⊕◌ pack varint varbytes
    hash32 write_each pure lift reject_if read_raw read_uint read_varint read_varbytes
    read_varbytes_any read_hash32 read_times expect_end out_point outpoint_eq is_null tx_input
    input_is_replaceable check_witness_shape tx_output p2pkh p2sh transaction null_alone is_coinbase
    is_empty is_replaceable sum_values total_output first_witness check_inputs check_coinbase
    check_spending check_sanity write_input write_output write_witness serialize_body serialize
    read_input read_output read_witness read_witnesses read_tail read_outputs read deserialize size
    txid signature_hasher digest signature_hash set_witness set_witnesses signed_with
    verify_revealed verify_witness verify_input_signature is_p2sh is_spendable_at find erase put
    total discard overlay get_coin spend add add_outputs add_transaction remove_all put_all commit
    check_transaction_final shared_hasher verify_p2sh_witness verify_p2sh verify_spend
    check_signature check_coin check_coins check_transaction_inputs target_timespan subsidy pair_up
    merkle_levels merkle_root block_header has_auxpow coinbase_of write_coin read_coin write_entry
    read_entry write_undo read_entries read_undo find_undo delete_undo put_undo get_undo mark
    set_in_chain active_at prune_undo_behind find_block forget_locations forget_history
    unindex_transactions amount add_amount received_by sent_by new_keys touched drop_location
    drop_history put_history history_row index_transaction index_block spend_input spend_inputs
    outpoints connect_inputs connect_transaction connect_transactions write_block connect_block
connected = refl

one_coinbase : is_coinbase reward ≡ true
unfolding is_coinbase is_null bytes_eq
one_coinbase = refl

no_coinbase : is_coinbase payment ≡ false
unfolding is_coinbase is_null bytes_eq
no_coinbase = refl

start-IsTable : IsTable start_storage.utxo
unfolding find
start-IsTable = (refl, tt)

end_total : total end_storage.utxo ≡ 50 * coin + 100
unfolding bytes_eq to_le from_le from_be hash256 hash160 public_key verify ◌⊕◌ pack varint varbytes
    hash32 write_each pure lift reject_if read_raw read_uint read_varint read_varbytes
    read_varbytes_any read_hash32 read_times expect_end out_point outpoint_eq is_null tx_input
    input_is_replaceable check_witness_shape tx_output p2pkh p2sh transaction null_alone is_coinbase
    is_empty is_replaceable sum_values total_output first_witness check_inputs check_coinbase
    check_spending check_sanity write_input write_output write_witness serialize_body serialize
    read_input read_output read_witness read_witnesses read_tail read_outputs read deserialize size
    txid signature_hasher digest signature_hash set_witness set_witnesses signed_with
    verify_revealed verify_witness verify_input_signature is_p2sh is_spendable_at find erase put
    total discard overlay get_coin spend add add_outputs add_transaction remove_all put_all commit
    check_transaction_final shared_hasher verify_p2sh_witness verify_p2sh verify_spend
    check_signature check_coin check_coins check_transaction_inputs target_timespan subsidy pair_up
    merkle_levels merkle_root block_header has_auxpow coinbase_of write_coin read_coin write_entry
    read_entry write_undo read_entries read_undo find_undo delete_undo put_undo get_undo mark
    set_in_chain active_at prune_undo_behind find_block forget_locations forget_history
    unindex_transactions amount add_amount received_by sent_by new_keys touched drop_location
    drop_history put_history history_row index_transaction index_block spend_input spend_inputs
    outpoints connect_inputs connect_transaction connect_transactions write_block connect_block
end_total = refl

start_total : total start_storage.utxo ≤ subsidy rules 0
unfolding total subsidy
start_total = omega arith

total-connect_block_example :
    IsTable end_storage.utxo × (total end_storage.utxo ≤ total start_storage.utxo + subsidy rules 1)
total-connect_block_example =
    total-connect_block toy rules 1 block_id second_block reward (payment ∷ []) start_storage
      end_storage refl one_coinbase (no_coinbase, tt) start-IsTable connected

total-max_money_example : total end_storage.utxo ≤ max_money
total-max_money_example = total-max_money toy rules 1 end_storage refl refl (
    extend block_id second_block reward (payment ∷ []) (genesis start-IsTable start_total) refl
      one_coinbase (no_coinbase, tt) connected)

issued-le_example : issued rules 3 ≤ 2 * (210_000 * (50 * coin))
issued-le_example = issued-le rules 3 (omega arith)

issued-max_money_example : issued rules 3 ≤ max_money
issued-max_money_example = issued-max_money rules 3 refl refl

abbrev pub start_view : OutPoint → Option Coin
start_view p = find p start_storage.utxo

abbrev other_outpoint : OutPoint
other_outpoint = record { txid = replicate 32 8; index = 1 }

abbrev spent_overlay : CoinOverlay
spent_overlay = record (overlay start_view) { spent = first_outpoint ∷ [] }

spends : spend first_outpoint (overlay start_view) ≡ ok (first_coin, spent_overlay)
unfolding bytes_eq to_le from_le from_be out_point outpoint_eq is_null tx_input input_is_replaceable
    check_witness_shape tx_output p2pkh p2sh transaction null_alone is_coinbase is_empty
    is_replaceable sum_values total_output first_witness check_inputs check_coinbase check_spending
    check_sanity is_p2sh is_spendable_at find erase put total discard overlay get_coin spend add
    add_outputs add_transaction
spends = refl

abbrev both : CoinOverlay
both = add other_outpoint first_coin (overlay start_view)

find-commit_example :
    find other_outpoint (commit both start_storage.utxo) ≡ get_coin both other_outpoint
unfolding bytes_eq to_le from_le from_be out_point outpoint_eq is_null tx_input input_is_replaceable
    check_witness_shape tx_output p2pkh p2sh transaction null_alone is_coinbase is_empty
    is_replaceable sum_values total_output first_witness check_inputs check_coinbase check_spending
    check_sanity is_p2sh is_spendable_at find erase put total discard overlay get_coin spend add
    add_outputs add_transaction
find-commit_example =
    find-commit both start_storage.utxo
      (add-IsLayered other_outpoint first_coin (overlay start_view) (overlay-IsLayered start_view))
      (λ p. same_base p) other_outpoint
  where
    same_base : (p : OutPoint) → both.base p ≡ find p start_storage.utxo
    same_base p = refl
