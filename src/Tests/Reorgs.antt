-- ===== src/Tests/Reorgs.antt =====
-- The block of the money tests, connected and disconnected again.
use scarlet_coin.Chain.Index.{
  amount, add_amount, received_by, sent_by, new_keys, touched, drop_location, drop_history,
  put_history, history_row, index_transaction, index_block,
}
use scarlet_coin.Validation.{
  check_transaction_final, shared_hasher, verify_p2sh_witness, verify_p2sh, verify_spend,
  check_signature, check_coin, check_coins, check_transaction_inputs,
}
use scarlet_coin.Params.{target_timespan, subsidy}
use scarlet_coin.Utxo.Layers.{remove_all, put_all, commit}
use scarlet_coin.Transaction.Signing.{
  signature_hasher, digest, signature_hash, set_witness, set_witnesses, signed_with,
  verify_revealed, verify_witness, verify_input_signature,
}
use scarlet_coin.Serialize.{
  ◌⊕◌, pack, varint, varbytes, hash32, write_each, pure, lift, reject_if, read_raw, read_uint,
  read_varint, read_varbytes, read_varbytes_any, read_hash32, read_times, expect_end,
}
use scarlet_coin.Crypto.{hash256, hash160, public_key, verify}
use scarlet_coin.Prelude.{◌≡◌, refl, ◌∙◌, sym, ap, subst, true, false, none, some, [], ◌∷◌, arith}
use scarlet_coin.Prelude.Bytes.{Bytes, bytes_eq, to_le, from_le, from_be}
use scarlet_coin.Outcome.{Result, ok, err}
use scarlet_coin.Transaction.{
  OutPoint, outpoint_eq, Transaction, out_point, is_null, tx_input, input_is_replaceable,
  check_witness_shape, tx_output, p2pkh, p2sh, transaction, null_alone, is_coinbase, is_empty,
  is_replaceable, sum_values, total_output, first_witness, check_inputs, check_coinbase,
  check_spending, check_sanity,
}
use scarlet_coin.Transaction.Sanity.{outpoint_eq_iff}
use scarlet_coin.Transaction.Codec.{
  txid, write_input, write_output, write_witness, serialize_body, serialize, read_input,
  read_output, read_witness, read_witnesses, read_tail, read_outputs, read, deserialize, size,
}
use scarlet_coin.Block.{pair_up, merkle_levels, merkle_root, block_header, has_auxpow, coinbase_of}
use scarlet_coin.Utxo.{
  Coin, find, is_p2sh, is_spendable_at, erase, put, total, discard, overlay, get_coin, spend, add,
  add_outputs, add_transaction,
}
use scarlet_coin.Utxo.Tables.{IsTable}
use scarlet_coin.Storage.{
  Storage, write_coin, read_coin, write_entry, read_entry, write_undo, read_entries, read_undo,
  find_undo, delete_undo, put_undo, get_undo, mark, set_in_chain, active_at, prune_undo_behind,
  find_block, forget_locations, forget_history, unindex_transactions,
}
use scarlet_coin.Storage.UndoTrip.{IsEntry}
use scarlet_coin.Chain.Connect.{
  connect_block, outpoints, spend_input, spend_inputs, connect_inputs, connect_transaction,
  connect_transactions, write_block,
}
use scarlet_coin.Chain.Disconnect.{disconnect_block}
use scarlet_coin.Chain.Undoing.{among}
use scarlet_coin.Chain.Reorg.{HaveHeight, disconnect_block-connect_block}
use scarlet_coin.Tests.{toy}
use scarlet_coin.Tests.Money.{
  rules, first_outpoint, first_coin, reward, payment, second_block, block_id, start_storage,
  storage_of,
}

abbrev stored : Storage
stored = record start_storage {
  blocks =
      record { id = block_id; height = 1; in_chain = false; pruned = false; block = second_block }
      ∷ [];
}

abbrev after : Storage
after = storage_of (connect_block toy rules 1 block_id second_block stored)

connects : connect_block toy rules 1 block_id second_block stored ≡ ok after
unfolding bytes_eq to_le from_le from_be hash256 hash160 public_key verify ◌⊕◌ pack varint varbytes
    hash32 write_each pure lift reject_if read_raw read_uint read_varint read_varbytes
    read_varbytes_any read_hash32 read_times expect_end out_point outpoint_eq is_null tx_input
    input_is_replaceable check_witness_shape tx_output p2pkh p2sh transaction null_alone is_coinbase
    is_empty is_replaceable sum_values total_output first_witness check_inputs check_coinbase
    check_spending check_sanity write_input write_output write_witness serialize_body serialize
    read_input read_output read_witness read_witnesses read_tail read_outputs read deserialize size
    txid signature_hasher digest signature_hash set_witness set_witnesses signed_with
    verify_revealed verify_witness verify_input_signature is_p2sh is_spendable_at find erase put
    total discard overlay get_coin spend add add_outputs add_transaction remove_all put_all commit
    target_timespan subsidy check_transaction_final shared_hasher verify_p2sh_witness verify_p2sh
    verify_spend check_signature check_coin check_coins check_transaction_inputs pair_up
    merkle_levels merkle_root block_header has_auxpow coinbase_of write_coin read_coin write_entry
    read_entry write_undo read_entries read_undo find_undo delete_undo put_undo get_undo mark
    set_in_chain active_at prune_undo_behind find_block forget_locations forget_history
    unindex_transactions amount add_amount received_by sent_by new_keys touched drop_location
    drop_history put_history history_row index_transaction index_block spend_input spend_inputs
    outpoints connect_inputs connect_transaction connect_transactions write_block connect_block
connects = refl

is_stored : find_block block_id stored.blocks ≡ some second_block
unfolding bytes_eq to_le from_le from_be hash256 hash160 public_key verify ◌⊕◌ pack varint varbytes
    hash32 write_each pure lift reject_if read_raw read_uint read_varint read_varbytes
    read_varbytes_any read_hash32 read_times expect_end out_point outpoint_eq is_null tx_input
    input_is_replaceable check_witness_shape tx_output p2pkh p2sh transaction null_alone is_coinbase
    is_empty is_replaceable sum_values total_output first_witness check_inputs check_coinbase
    check_spending check_sanity write_input write_output write_witness serialize_body serialize
    read_input read_output read_witness read_witnesses read_tail read_outputs read deserialize size
    txid signature_hasher digest signature_hash set_witness set_witnesses signed_with
    verify_revealed verify_witness verify_input_signature is_p2sh is_spendable_at find erase put
    total discard overlay get_coin spend add add_outputs add_transaction remove_all put_all commit
    target_timespan subsidy check_transaction_final shared_hasher verify_p2sh_witness verify_p2sh
    verify_spend check_signature check_coin check_coins check_transaction_inputs pair_up
    merkle_levels merkle_root block_header has_auxpow coinbase_of write_coin read_coin write_entry
    read_entry write_undo read_entries read_undo find_undo delete_undo put_undo get_undo mark
    set_in_chain active_at prune_undo_behind find_block forget_locations forget_history
    unindex_transactions amount add_amount received_by sent_by new_keys touched drop_location
    drop_history put_history history_row index_transaction index_block spend_input spend_inputs
    outpoints connect_inputs connect_transaction connect_transactions write_block connect_block
is_stored = refl

stored-IsTable : IsTable stored.utxo
unfolding find
stored-IsTable = (refl, tt)

stored-HaveHeight : HaveHeight block_id 1 stored.blocks
stored-HaveHeight = (λ x. refl, tt)

stored-IsEntry : (p : OutPoint) (coin : Coin) → find p stored.utxo ≡ some coin → IsEntry (p, coin)
unfolding find
stored-IsEntry p coin e =
    let here : p ≡ first_outpoint = ground (arith, outpoint_eq_iff p first_outpoint) in
    let same : coin ≡ first_coin = ground arith in
    subst (λ q. IsEntry (q, coin)) (sym here)
      (subst (λ d. IsEntry (first_outpoint, d)) (sym same)
        (record { txid_length = refl; index_fits = omega arith; payload_length = refl }))

abbrev id_of : Result Bytes → Bytes
id_of (ok id) = id
id_of (err e) = []

reward_id : txid toy reward ≡ ok (id_of (txid toy reward))
unfolding bytes_eq to_le from_le from_be hash256 hash160 public_key verify ◌⊕◌ pack varint varbytes
    hash32 write_each pure lift reject_if read_raw read_uint read_varint read_varbytes
    read_varbytes_any read_hash32 read_times expect_end out_point outpoint_eq is_null tx_input
    input_is_replaceable check_witness_shape tx_output p2pkh p2sh transaction null_alone is_coinbase
    is_empty is_replaceable sum_values total_output first_witness check_inputs check_coinbase
    check_spending check_sanity write_input write_output write_witness serialize_body serialize
    read_input read_output read_witness read_witnesses read_tail read_outputs read deserialize size
    txid signature_hasher digest signature_hash set_witness set_witnesses signed_with
    verify_revealed verify_witness verify_input_signature is_p2sh is_spendable_at find erase put
    total discard overlay get_coin spend add add_outputs add_transaction remove_all put_all commit
    target_timespan subsidy check_transaction_final shared_hasher verify_p2sh_witness verify_p2sh
    verify_spend check_signature check_coin check_coins check_transaction_inputs pair_up
    merkle_levels merkle_root block_header has_auxpow coinbase_of write_coin read_coin write_entry
    read_entry write_undo read_entries read_undo find_undo delete_undo put_undo get_undo mark
    set_in_chain active_at prune_undo_behind find_block forget_locations forget_history
    unindex_transactions amount add_amount received_by sent_by new_keys touched drop_location
    drop_history put_history history_row index_transaction index_block spend_input spend_inputs
    outpoints connect_inputs connect_transaction connect_transactions write_block connect_block
reward_id = refl

payment_id : txid toy payment ≡ ok (id_of (txid toy payment))
unfolding bytes_eq to_le from_le from_be hash256 hash160 public_key verify ◌⊕◌ pack varint varbytes
    hash32 write_each pure lift reject_if read_raw read_uint read_varint read_varbytes
    read_varbytes_any read_hash32 read_times expect_end out_point outpoint_eq is_null tx_input
    input_is_replaceable check_witness_shape tx_output p2pkh p2sh transaction null_alone is_coinbase
    is_empty is_replaceable sum_values total_output first_witness check_inputs check_coinbase
    check_spending check_sanity write_input write_output write_witness serialize_body serialize
    read_input read_output read_witness read_witnesses read_tail read_outputs read deserialize size
    txid signature_hasher digest signature_hash set_witness set_witnesses signed_with
    verify_revealed verify_witness verify_input_signature is_p2sh is_spendable_at find erase put
    total discard overlay get_coin spend add add_outputs add_transaction remove_all put_all commit
    target_timespan subsidy check_transaction_final shared_hasher verify_p2sh_witness verify_p2sh
    verify_spend check_signature check_coin check_coins check_transaction_inputs pair_up
    merkle_levels merkle_root block_header has_auxpow coinbase_of write_coin read_coin write_entry
    read_entry write_undo read_entries read_undo find_undo delete_undo put_undo get_undo mark
    set_in_chain active_at prune_undo_behind find_block forget_locations forget_history
    unindex_transactions amount add_amount received_by sent_by new_keys touched drop_location
    drop_history put_history history_row index_transaction index_block spend_input spend_inputs
    outpoints connect_inputs connect_transaction connect_transactions write_block connect_block
payment_id = refl

reward_free : find (record { txid = id_of (txid toy reward); index = 0 }) stored.utxo ≡ none
unfolding bytes_eq to_le from_le from_be hash256 hash160 public_key verify ◌⊕◌ pack varint varbytes
    hash32 write_each pure lift reject_if read_raw read_uint read_varint read_varbytes
    read_varbytes_any read_hash32 read_times expect_end out_point outpoint_eq is_null tx_input
    input_is_replaceable check_witness_shape tx_output p2pkh p2sh transaction null_alone is_coinbase
    is_empty is_replaceable sum_values total_output first_witness check_inputs check_coinbase
    check_spending check_sanity write_input write_output write_witness serialize_body serialize
    read_input read_output read_witness read_witnesses read_tail read_outputs read deserialize size
    txid signature_hasher digest signature_hash set_witness set_witnesses signed_with
    verify_revealed verify_witness verify_input_signature is_p2sh is_spendable_at find erase put
    total discard overlay get_coin spend add add_outputs add_transaction remove_all put_all commit
    target_timespan subsidy check_transaction_final shared_hasher verify_p2sh_witness verify_p2sh
    verify_spend check_signature check_coin check_coins check_transaction_inputs pair_up
    merkle_levels merkle_root block_header has_auxpow coinbase_of write_coin read_coin write_entry
    read_entry write_undo read_entries read_undo find_undo delete_undo put_undo get_undo mark
    set_in_chain active_at prune_undo_behind find_block forget_locations forget_history
    unindex_transactions amount add_amount received_by sent_by new_keys touched drop_location
    drop_history put_history history_row index_transaction index_block spend_input spend_inputs
    outpoints connect_inputs connect_transaction connect_transactions write_block connect_block
reward_free = refl

payment_free : find (record { txid = id_of (txid toy payment); index = 0 }) stored.utxo ≡ none
unfolding bytes_eq to_le from_le from_be hash256 hash160 public_key verify ◌⊕◌ pack varint varbytes
    hash32 write_each pure lift reject_if read_raw read_uint read_varint read_varbytes
    read_varbytes_any read_hash32 read_times expect_end out_point outpoint_eq is_null tx_input
    input_is_replaceable check_witness_shape tx_output p2pkh p2sh transaction null_alone is_coinbase
    is_empty is_replaceable sum_values total_output first_witness check_inputs check_coinbase
    check_spending check_sanity write_input write_output write_witness serialize_body serialize
    read_input read_output read_witness read_witnesses read_tail read_outputs read deserialize size
    txid signature_hasher digest signature_hash set_witness set_witnesses signed_with
    verify_revealed verify_witness verify_input_signature is_p2sh is_spendable_at find erase put
    total discard overlay get_coin spend add add_outputs add_transaction remove_all put_all commit
    target_timespan subsidy check_transaction_final shared_hasher verify_p2sh_witness verify_p2sh
    verify_spend check_signature check_coin check_coins check_transaction_inputs pair_up
    merkle_levels merkle_root block_header has_auxpow coinbase_of write_coin read_coin write_entry
    read_entry write_undo read_entries read_undo find_undo delete_undo put_undo get_undo mark
    set_in_chain active_at prune_undo_behind find_block forget_locations forget_history
    unindex_transactions amount add_amount received_by sent_by new_keys touched drop_location
    drop_history put_history history_row index_transaction index_block spend_input spend_inputs
    outpoints connect_inputs connect_transaction connect_transactions write_block connect_block
payment_free = refl

-- One output, whose outpoint is free.
one_output :
    (tx : Transaction) (known id : Bytes) (q : OutPoint)
    → txid toy tx ≡ ok known
    → txid toy tx ≡ ok id
    → find (record { txid = known; index = 0 }) stored.utxo ≡ none
    → among q (outpoints id 0 1) ≡ true
    → find q stored.utxo ≡ none
unfolding outpoints
one_output tx known id q e e' free x =
    let same : id ≡ known = cc (e, e') in
    let here : q ≡ record { txid = id; index = 0 } =
      ground (arith, outpoint_eq_iff q (record { txid = id; index = 0 })) in
    subst (λ t. find t stored.utxo ≡ none)
      (sym (here ∙ ap (λ t. record { txid = t; index = 0 }) same)) free

disconnect_block-connect_block_example :
    (s : Storage) × (disconnect_block toy block_id after ≡ ok (second_block, s))
    × ((p : OutPoint) → find p s.utxo ≡ find p stored.utxo)
disconnect_block-connect_block_example =
    disconnect_block-connect_block toy rules 1 block_id second_block stored after stored-IsTable
      stored-IsEntry
      (
        λ id q e x. one_output reward _ id q reward_id e reward_free x,
        (λ id q e x. one_output payment _ id q payment_id e payment_free x, tt),
      )
      is_stored stored-HaveHeight connects
