-- ===== src/Tests/Pool.antt =====
-- A pool with one payment, entered on a chain with one coin.
use scarlet_coin.Utxo.{
  is_p2sh, is_spendable_at, find, erase, put, total, discard, overlay, get_coin, spend, add_outputs,
  add_transaction,
}
use scarlet_coin.Transaction.Signing.{
  signature_hasher, digest, signature_hash, set_witness, set_witnesses, signed_with,
  verify_revealed, verify_witness, verify_input_signature,
}
use scarlet_coin.Transaction.Codec.{
  write_input, write_output, write_witness, serialize_body, serialize, read_input, read_output,
  read_witness, read_witnesses, read_tail, read_outputs, read, deserialize, size, txid,
}
use scarlet_coin.Serialize.{
  ◌⊕◌, pack, varint, varbytes, hash32, write_each, pure, lift, reject_if, read_raw, read_uint,
  read_varint, read_varbytes, read_varbytes_any, read_hash32, read_times, expect_end,
}
use scarlet_coin.Crypto.{hash256, hash160, public_key, verify}
use scarlet_coin.Prelude.{
  ℕ, ◌/◌, ◌≤◌, ◌<◌, ◌≡◌, refl, Bool, true, false, none, some, List, [], length, All, if◌then◌else◌,
}
use scarlet_coin.Prelude.Bytes.{Bytes, bytes_eq, to_le, from_le, from_be}
use scarlet_coin.Prelude.Dict.{lookup, remove_item, delete, store}
use scarlet_coin.Outcome.{Result, ok, err}
use scarlet_coin.Params.{ChainParams, target_timespan, subsidy}
use scarlet_coin.Transaction.{
  outpoint_eq, out_point, is_null, tx_input, input_is_replaceable, check_witness_shape, tx_output,
  p2pkh, p2sh, transaction, null_alone, is_coinbase, is_empty, is_replaceable, sum_values,
  total_output, first_witness, check_inputs, check_coinbase, check_spending, check_sanity,
}
use scarlet_coin.Validation.{
  check_transaction_final, shared_hasher, verify_p2sh_witness, verify_p2sh, verify_spend,
  check_signature, check_coin, check_coins, check_transaction_inputs,
}
use scarlet_coin.Mempool.{
  MempoolEntry, Mempool, clear, remove, claim, insert, owned_by, release, push_child, push_children,
  take_out, weight, remove_loop,
}
use scarlet_coin.Mempool.Invariant.{IsPool, spends}
use scarlet_coin.Mempool.Children.{mem}
use scarlet_coin.Mempool.Remove.{remove-ok}
use scarlet_coin.Prelude.Sort.{place, sorted}
use scarlet_coin.Mempool.Accept.{
  ChainState, add, is_some, unconfirmed_coin, pool_view, note_owner, conflicts, minimum_fee,
  remember_verified, check_conflict, remove_each, replace_conflicts, make_way, screen, price,
  examine, fee_rate, is_cheaper, evict_loop, evict_if_needed, enter, add_checked,
}
use scarlet_coin.Mempool.Add.{add_cases, IsAnswer}
use scarlet_coin.Mempool.Blocks.{
  block_connected, catch_validation, drop_transaction, drop_owner, drop_conflicts, transactions_of,
  confirm, try_add, add_all, revalidate, block_disconnected,
}
use scarlet_coin.Mempool.Confirm.{is_spent_in}
use scarlet_coin.Mempool.Listener.{IsHealthy, block_connected_unspent}
use scarlet_coin.Mempool.History.{
  empty, IsReached, first, next, adds, reached-IsHealthy, no_double_spend,
}
use scarlet_coin.Mempool.Collect.{Selection, collect}
use scarlet_coin.Mempool.Selection.{sum_sizes, sum_fees, copies, IsOrdered, collect-IsFair}
use scarlet_coin.Tests.{toy}
use scarlet_coin.Tests.Money.{rules, first_outpoint, payment, start_view, second_block}

abbrev relay_rules : ChainParams
relay_rules = record rules { min_relay_fee_per_kb = 10 }

abbrev tip : ChainState
tip = record { height = 0; get_coin = start_view; has_transaction = λ id. false }

abbrev divide : ℕ → ℕ → ℕ
divide a b = a / b

abbrev room : ℕ
room = 1000

abbrev answer : Result MempoolEntry × Mempool
answer = add divide room toy relay_rules tip 5 true payment empty

abbrev entry_of : Result MempoolEntry → MempoolEntry
entry_of (ok e) = e
entry_of (err x) = record { transaction = payment; txid = []; fee = 0; size = 0; received = 0 }

abbrev payment_entry : MempoolEntry
payment_entry = entry_of answer.0

abbrev one_payment : Mempool
one_payment = answer.1

entered : answer.0 ≡ ok payment_entry
unfolding bytes_eq to_le from_le from_be remove_item lookup delete store hash256 hash160 public_key
    verify ◌⊕◌ pack varint varbytes hash32 write_each pure lift reject_if read_raw read_uint
    read_varint read_varbytes read_varbytes_any read_hash32 read_times expect_end out_point
    outpoint_eq is_null tx_input input_is_replaceable check_witness_shape tx_output p2pkh p2sh
    transaction null_alone is_coinbase is_empty is_replaceable sum_values total_output first_witness
    check_inputs check_coinbase check_spending check_sanity write_input write_output write_witness
    serialize_body serialize read_input read_output read_witness read_witnesses read_tail
    read_outputs read deserialize size txid signature_hasher digest signature_hash set_witness
    set_witnesses signed_with verify_revealed verify_witness verify_input_signature is_p2sh
    is_spendable_at find erase put total discard overlay get_coin spend add add_outputs
    add_transaction target_timespan subsidy check_transaction_final shared_hasher
    verify_p2sh_witness verify_p2sh verify_spend check_signature check_coin check_coins
    check_transaction_inputs clear claim insert owned_by release push_child push_children take_out
    weight remove_loop remove spends is_some unconfirmed_coin pool_view note_owner conflicts
    minimum_fee remember_verified check_conflict remove_each replace_conflicts make_way screen price
    examine place sorted fee_rate is_cheaper evict_loop evict_if_needed enter add_checked empty
entered = refl

found : lookup bytes_eq payment_entry.txid one_payment.by_txid ≡ some payment_entry
unfolding bytes_eq to_le from_le from_be remove_item lookup delete store hash256 hash160 public_key
    verify ◌⊕◌ pack varint varbytes hash32 write_each pure lift reject_if read_raw read_uint
    read_varint read_varbytes read_varbytes_any read_hash32 read_times expect_end out_point
    outpoint_eq is_null tx_input input_is_replaceable check_witness_shape tx_output p2pkh p2sh
    transaction null_alone is_coinbase is_empty is_replaceable sum_values total_output first_witness
    check_inputs check_coinbase check_spending check_sanity write_input write_output write_witness
    serialize_body serialize read_input read_output read_witness read_witnesses read_tail
    read_outputs read deserialize size txid signature_hasher digest signature_hash set_witness
    set_witnesses signed_with verify_revealed verify_witness verify_input_signature is_p2sh
    is_spendable_at find erase put total discard overlay get_coin spend add add_outputs
    add_transaction target_timespan subsidy check_transaction_final shared_hasher
    verify_p2sh_witness verify_p2sh verify_spend check_signature check_coin check_coins
    check_transaction_inputs clear claim insert owned_by release push_child push_children take_out
    weight remove_loop remove spends is_some unconfirmed_coin pool_view note_owner conflicts
    minimum_fee remember_verified check_conflict remove_each replace_conflicts make_way screen price
    examine place sorted fee_rate is_cheaper evict_loop evict_if_needed enter add_checked empty
found = refl

spending : spends first_outpoint payment_entry.transaction.inputs ≡ true
unfolding bytes_eq to_le from_le from_be remove_item lookup delete store hash256 hash160 public_key
    verify ◌⊕◌ pack varint varbytes hash32 write_each pure lift reject_if read_raw read_uint
    read_varint read_varbytes read_varbytes_any read_hash32 read_times expect_end out_point
    outpoint_eq is_null tx_input input_is_replaceable check_witness_shape tx_output p2pkh p2sh
    transaction null_alone is_coinbase is_empty is_replaceable sum_values total_output first_witness
    check_inputs check_coinbase check_spending check_sanity write_input write_output write_witness
    serialize_body serialize read_input read_output read_witness read_witnesses read_tail
    read_outputs read deserialize size txid signature_hasher digest signature_hash set_witness
    set_witnesses signed_with verify_revealed verify_witness verify_input_signature is_p2sh
    is_spendable_at find erase put total discard overlay get_coin spend add add_outputs
    add_transaction target_timespan subsidy check_transaction_final shared_hasher
    verify_p2sh_witness verify_p2sh verify_spend check_signature check_coin check_coins
    check_transaction_inputs clear claim insert owned_by release push_child push_children take_out
    weight remove_loop remove spends is_some unconfirmed_coin pool_view note_owner conflicts
    minimum_fee remember_verified check_conflict remove_each replace_conflicts make_way screen price
    examine place sorted fee_rate is_cheaper evict_loop evict_if_needed enter add_checked empty
spending = refl

reached : IsReached divide room toy relay_rules one_payment
reached = next first (adds tip 5 true payment)

healthy : IsHealthy relay_rules room one_payment
healthy = reached-IsHealthy divide room toy relay_rules reached

no_double_spend_example : payment_entry.txid ≡ payment_entry.txid
no_double_spend_example =
    no_double_spend divide room toy relay_rules first_outpoint payment_entry.txid payment_entry.txid
      payment_entry payment_entry reached found found spending spending

reached-IsHealthy_example : IsHealthy relay_rules room one_payment
reached-IsHealthy_example = reached-IsHealthy divide room toy relay_rules reached

empty-IsHealthy : IsHealthy relay_rules room empty
empty-IsHealthy = reached-IsHealthy divide room toy relay_rules first

add_cases_example : IsAnswer divide room relay_rules payment empty answer
add_cases_example =
    add_cases divide room toy relay_rules tip 5 true payment empty empty-IsHealthy.sound

abbrev next_tip : ChainState
next_tip = record { height = 1; get_coin = λ p. none; has_transaction = λ id. true }

abbrev clock : ℕ → ℕ
clock n = 6

returned :
    (block_connected divide room toy relay_rules next_tip clock second_block one_payment).0 ≡ ok tt
unfolding bytes_eq to_le from_le from_be remove_item lookup delete store hash256 hash160 public_key
    verify ◌⊕◌ pack varint varbytes hash32 write_each pure lift reject_if read_raw read_uint
    read_varint read_varbytes read_varbytes_any read_hash32 read_times expect_end out_point
    outpoint_eq is_null tx_input input_is_replaceable check_witness_shape tx_output p2pkh p2sh
    transaction null_alone is_coinbase is_empty is_replaceable sum_values total_output first_witness
    check_inputs check_coinbase check_spending check_sanity write_input write_output write_witness
    serialize_body serialize read_input read_output read_witness read_witnesses read_tail
    read_outputs read deserialize size txid signature_hasher digest signature_hash set_witness
    set_witnesses signed_with verify_revealed verify_witness verify_input_signature is_p2sh
    is_spendable_at find erase put total discard overlay get_coin spend add add_outputs
    add_transaction target_timespan subsidy check_transaction_final shared_hasher
    verify_p2sh_witness verify_p2sh verify_spend check_signature check_coin check_coins
    check_transaction_inputs clear claim insert owned_by release push_child push_children take_out
    weight remove_loop remove spends is_some unconfirmed_coin pool_view note_owner conflicts
    minimum_fee remember_verified check_conflict remove_each replace_conflicts make_way screen price
    examine place sorted fee_rate is_cheaper evict_loop evict_if_needed enter add_checked empty
    catch_validation drop_transaction drop_owner drop_conflicts transactions_of confirm try_add
    add_all revalidate block_connected block_disconnected
returned = refl

in_block : is_spent_in first_outpoint second_block.transactions ≡ true
unfolding bytes_eq to_le from_le from_be remove_item lookup delete store hash256 hash160 public_key
    verify ◌⊕◌ pack varint varbytes hash32 write_each pure lift reject_if read_raw read_uint
    read_varint read_varbytes read_varbytes_any read_hash32 read_times expect_end out_point
    outpoint_eq is_null tx_input input_is_replaceable check_witness_shape tx_output p2pkh p2sh
    transaction null_alone is_coinbase is_empty is_replaceable sum_values total_output first_witness
    check_inputs check_coinbase check_spending check_sanity write_input write_output write_witness
    serialize_body serialize read_input read_output read_witness read_witnesses read_tail
    read_outputs read deserialize size txid signature_hasher digest signature_hash set_witness
    set_witnesses signed_with verify_revealed verify_witness verify_input_signature is_p2sh
    is_spendable_at find erase put total discard overlay get_coin spend add add_outputs
    add_transaction target_timespan subsidy check_transaction_final shared_hasher
    verify_p2sh_witness verify_p2sh verify_spend check_signature check_coin check_coins
    check_transaction_inputs clear claim insert owned_by release push_child push_children take_out
    weight remove_loop remove spends is_some unconfirmed_coin pool_view note_owner conflicts
    minimum_fee remember_verified check_conflict remove_each replace_conflicts make_way screen price
    examine place sorted fee_rate is_cheaper evict_loop evict_if_needed enter add_checked empty
    catch_validation drop_transaction drop_owner drop_conflicts transactions_of confirm try_add
    add_all revalidate block_connected block_disconnected
in_block = refl

block_connected_unspent_example :
    lookup outpoint_eq first_outpoint
      (block_connected divide room toy relay_rules next_tip clock second_block
        one_payment).1.spent_by
    ≡ none
block_connected_unspent_example =
    block_connected_unspent divide room toy relay_rules next_tip clock second_block one_payment
      first_outpoint healthy returned in_block

abbrev payment_id : Bytes
payment_id = payment_entry.txid

remove-ok_example :
    (removed : List Bytes) × (pool' : Mempool) × (remove true payment_id one_payment
      ≡ ok (removed, pool'))
    × IsPool pool'
    × (lookup bytes_eq payment_id pool'.by_txid ≡ none)
    × ((q : Bytes)
        → lookup bytes_eq q pool'.by_txid
          ≡ (if mem q removed then none else lookup bytes_eq q one_payment.by_txid))
    × (◌≡◌ {A = Bool} true true
        → (r : Bytes) (e : MempoolEntry) (index : ℕ) → mem r removed ≡ true
        → lookup bytes_eq r one_payment.by_txid ≡ some e
        → index < length e.transaction.outputs
        → lookup outpoint_eq (record { txid = r; index = index }) pool'.spent_by ≡ none)
    × (pool'.total_bytes ≤ one_payment.total_bytes)
remove-ok_example = remove-ok true payment_id one_payment healthy.sound.valid

collect-IsFair_example :
    (sel : Selection) × (collect divide 500 1 one_payment ≡ some sel)
    × (sel.used ≡ sum_sizes sel.chosen)
    × (sel.used ≤ 500)
    × (sel.total_fee ≡ sum_fees sel.chosen)
    × All (λ (e : MempoolEntry). check_transaction_final e.transaction 1 ≡ true) sel.chosen
    × IsOrdered one_payment.by_txid [] sel.chosen
    × ((q : Bytes)
        → copies q sel.chosen ≤ (if is_some (lookup bytes_eq q one_payment.by_txid) then 1 else 0))
collect-IsFair_example = collect-IsFair divide 500 1 one_payment healthy.sound.valid
