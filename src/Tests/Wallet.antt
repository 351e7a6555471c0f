-- ===== src/Tests/Wallet.antt =====
-- A wallet with one key and two coins.
use scarlet_coin.Utxo.{
  is_p2sh, is_spendable_at, find, erase, put, total, discard, overlay, get_coin, spend, add,
  add_outputs, add_transaction,
}
use scarlet_coin.Builder.Accepted.{Owns, IsOwned, check_transaction_inputs-build_transaction}
use scarlet_coin.Validation.{check_transaction_inputs}
use scarlet_coin.Tests.{toy-Hashes32}
use scarlet_coin.Tests.Money.{rules, start_view}
use scarlet_coin.Prelude.{sym, subst, some, true, false, arith, All}
use scarlet_coin.Prelude.Int.{pos}
use scarlet_coin.Prelude.Bytes.{bytes_eq_iff}
use scarlet_coin.Transaction.{max_money}
use scarlet_coin.Transaction.Signing.{
  signature_hasher, digest, signature_hash, set_witness, set_witnesses, signed_with,
  verify_revealed, verify_witness, verify_input_signature,
}
use scarlet_coin.Transaction.Codec.{
  write_input, write_output, write_witness, serialize_body, serialize, read_input, read_output,
  read_witness, read_witnesses, read_tail, read_outputs, read, deserialize, size, txid,
}
use scarlet_coin.Serialize.{
  ◌⊕◌, pack, varint, varbytes, hash32, write_each, pure, lift, reject_if, read_raw, read_uint,
  read_varint, read_varbytes, read_varbytes_any, read_hash32, read_times, expect_end,
}
use scarlet_coin.Crypto.{hash256, hash160, public_key, verify}
use scarlet_coin.Prelude.Sort.{place, sorted}
use scarlet_coin.Prelude.{ℕ, ◌≤◌, ◌≡◌, refl, Bool, List, [], ◌∷◌, length}
use scarlet_coin.Prelude.Bytes.{Bytes, bytes_eq, to_le, from_le, from_be}
use scarlet_coin.Prelude.Dict.{Dict, remove_item, lookup, delete, store}
use scarlet_coin.Outcome.{Result, ok, err}
use scarlet_coin.Transaction.{
  out_point, outpoint_eq, is_null, tx_input, input_is_replaceable, check_witness_shape, tx_output,
  p2pkh, p2sh, transaction, null_alone, is_coinbase, is_empty, is_replaceable, sum_values,
  total_output, first_witness, check_inputs, check_coinbase, check_spending, check_sanity,
}
use scarlet_coin.Builder.{
  Item, Destination, hash, PrivateKey, BuiltTransaction, estimate_size, fee_for, sum_amounts,
  resolve_all, choose_coins, select_coins, build_transaction, max_inputs_for_budget, varint_size,
  fee_for_size, dust_threshold, total_value, at_least, least_of, required, gather, choose_exact,
  resolve, inputs_of, outputs_of, witnesses_of, sign_inputs, build_sweep_transaction, assemble,
  search_inputs, batches, inputs_per_transaction, build_each, build_sweep_transactions,
}
use scarlet_coin.Builder.Select.{count, IsSelection, select_coins-IsSelection}
use scarlet_coin.Builder.Balance.{IsBalanced, IsPaid, build_transaction-IsBalanced}
use scarlet_coin.Builder.Budget.{Fits, max_inputs_for_budget_lem}
use scarlet_coin.Tests.{toy, toy_key, toy_signature}
use scarlet_coin.Tests.Money.{owner, payment, first_outpoint, first_coin}

abbrev keys : Dict Bytes PrivateKey
keys = (owner, record { public = toy_key 5; sign = λ m. toy_signature 5 }) ∷ []

abbrev coins : List Item
coins = (first_outpoint, first_coin) ∷ []

abbrev payments : List (Destination × ℕ)
payments = (hash owner, 60) ∷ []

abbrev built : Result BuiltTransaction
built = build_transaction toy keys 0 10 0 coins payments owner

abbrev spending : BuiltTransaction
spending = bt_of built
  where
    bt_of : Result BuiltTransaction → BuiltTransaction
    bt_of (ok bt) = bt
    bt_of (err e) = record {
      transaction = payment;
      fee = 0;
      change = 0;
      total_input = 0;
      coins = [];
    }

builds : build_transaction toy keys 0 10 0 coins payments owner ≡ ok spending
unfolding bytes_eq to_le from_le from_be remove_item lookup delete store place sorted hash256
    hash160 public_key verify ◌⊕◌ pack varint varbytes hash32 write_each pure lift reject_if
    read_raw read_uint read_varint read_varbytes read_varbytes_any read_hash32 read_times expect_end
    out_point outpoint_eq is_null tx_input input_is_replaceable check_witness_shape tx_output p2pkh
    p2sh transaction null_alone is_coinbase is_empty is_replaceable sum_values total_output
    first_witness check_inputs check_coinbase check_spending check_sanity write_input write_output
    write_witness serialize_body serialize read_input read_output read_witness read_witnesses
    read_tail read_outputs read deserialize size txid signature_hasher digest signature_hash
    set_witness set_witnesses signed_with verify_revealed verify_witness verify_input_signature
    varint_size estimate_size fee_for_size dust_threshold total_value at_least least_of fee_for
    required gather choose_exact choose_coins select_coins resolve inputs_of outputs_of sum_amounts
    resolve_all witnesses_of sign_inputs build_sweep_transaction assemble build_transaction
    search_inputs max_inputs_for_budget
builds = refl

select_coins-IsSelection_example :
    IsSelection (pos 60) 10 1 coins (select_coins (pos 60) 10 1 coins)
select_coins-IsSelection_example = select_coins-IsSelection (pos 60) 10 1 coins

build_transaction-IsBalanced_example :
    IsBalanced spending.coins spending
    × ((f : Item → Bool) → count f spending.coins ≤ count f coins)
    × (targets : List (Bytes × ℕ)) × (resolve_all 0 payments ≡ ok targets)
    × IsPaid 10 targets owner spending
    × (fee_for (sum_amounts targets) 10 (length targets) (length spending.coins) ≤ spending.fee)
build_transaction-IsBalanced_example =
    build_transaction-IsBalanced toy keys 0 10 0 coins payments owner spending builds

max_inputs_for_budget_lem_example :
    Fits 1000 (max_inputs_for_budget 1000)
    × ((k : ℕ) → estimate_size k 1 ≤ 1000 → k ≤ max_inputs_for_budget 1000)
max_inputs_for_budget_lem_example = max_inputs_for_budget_lem 1000

abbrev wallet_key : PrivateKey
wallet_key = record { public = toy_key 5; sign = λ m. toy_signature 5 }

parses : public_key toy (toy_key 5) ≡ ok (toy_key 5)
unfolding bytes_eq to_le from_le from_be hash256 hash160 public_key verify
parses = refl

hashes : hash160 toy (toy_key 5) ≡ owner
unfolding bytes_eq to_le from_le from_be hash256 hash160 public_key verify
hashes = refl

verifies :
    (message : Bytes)
    → length message ≡ 32
    → verify toy (toy_key 5) message (toy_signature 5) ≡ ok true
unfolding verify from_be from_le
verifies message h = rw h refl

owner-Owns : Owns toy owner wallet_key
owner-Owns = record {
  key_length = refl;
  parsed = parses;
  hashed = hashes;
  signature_fits = λ message. refl;
  signs = λ message h. verifies message h;
}

keys-Own : (k : Bytes) (key : PrivateKey) → lookup bytes_eq k keys ≡ some key → Owns toy k key
unfolding lookup
keys-Own k key e =
    let who : k ≡ owner = ground (arith, bytes_eq_iff k owner) in
    let which : key ≡ wallet_key = ground arith in
    subst (λ t. Owns toy t key) (sym who) (subst (λ t. Owns toy owner t) (sym which) owner-Owns)

is_seen : start_view first_outpoint ≡ some first_coin
unfolding bytes_eq to_le from_le from_be out_point outpoint_eq is_null tx_input input_is_replaceable
    check_witness_shape tx_output p2pkh p2sh transaction null_alone is_coinbase is_empty
    is_replaceable sum_values total_output first_witness check_inputs check_coinbase check_spending
    check_sanity is_p2sh is_spendable_at find erase put total discard overlay get_coin spend add
    add_outputs add_transaction
is_seen = refl

is_mature : is_spendable_at first_coin 1 rules.coinbase_maturity ≡ true
unfolding bytes_eq to_le from_le from_be out_point outpoint_eq is_null tx_input input_is_replaceable
    check_witness_shape tx_output p2pkh p2sh transaction null_alone is_coinbase is_empty
    is_replaceable sum_values total_output first_witness check_inputs check_coinbase check_spending
    check_sanity is_p2sh is_spendable_at find erase put total discard overlay get_coin spend add
    add_outputs add_transaction
is_mature = refl

is_real : is_null first_outpoint ≡ false
unfolding bytes_eq to_le from_le from_be out_point outpoint_eq is_null tx_input input_is_replaceable
    check_witness_shape tx_output p2pkh p2sh transaction null_alone is_coinbase is_empty
    is_replaceable sum_values total_output first_witness check_inputs check_coinbase check_spending
    check_sanity is_p2sh is_spendable_at find erase put total discard overlay get_coin spend add
    add_outputs add_transaction
is_real = refl

spent_one : spending.coins ≡ coins
unfolding bytes_eq to_le from_le from_be remove_item lookup delete store place sorted hash256
    hash160 public_key verify ◌⊕◌ pack varint varbytes hash32 write_each pure lift reject_if
    read_raw read_uint read_varint read_varbytes read_varbytes_any read_hash32 read_times expect_end
    out_point outpoint_eq is_null tx_input input_is_replaceable check_witness_shape tx_output p2pkh
    p2sh transaction null_alone is_coinbase is_empty is_replaceable sum_values total_output
    first_witness check_inputs check_coinbase check_spending check_sanity write_input write_output
    write_witness serialize_body serialize read_input read_output read_witness read_witnesses
    read_tail read_outputs read deserialize size txid signature_hasher digest signature_hash
    set_witness set_witnesses signed_with verify_revealed verify_witness verify_input_signature
    varint_size estimate_size fee_for_size dust_threshold total_value at_least least_of fee_for
    required gather choose_exact choose_coins select_coins resolve inputs_of outputs_of sum_amounts
    resolve_all witnesses_of sign_inputs build_sweep_transaction assemble build_transaction
    search_inputs max_inputs_for_budget batches inputs_per_transaction build_each
    build_sweep_transactions
spent_one = refl

spent_value : total_value coins ≤ max_money
unfolding total_value
spent_value = omega arith

check_transaction_inputs-build_transaction_example :
    check_transaction_inputs toy start_view 1 rules true spending.transaction ≡ ok spending.fee
check_transaction_inputs-build_transaction_example =
    check_transaction_inputs-build_transaction toy keys 0 10 0 coins payments owner spending
      start_view 1 rules toy-Hashes32 keys-Own builds
      (subst (All (IsOwned start_view 1 rules.coinbase_maturity)) (sym spent_one)
        (record { seen = is_seen; mature = is_mature; plain = refl; real = is_real }, tt))
      (subst (λ l. total_value l ≤ max_money) (sym spent_one) spent_value)
