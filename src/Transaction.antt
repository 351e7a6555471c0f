-- ===== src/Transaction.antt =====
-- src/scarletcoin/core/transaction.py: outpoints, inputs, outputs and transactions, with the checks
-- of their constructors (`__post_init__`), and the sanity check. Serialisation is in `Codec`, and
-- signature digests are in `Signing`.
pub mod Sanity
pub mod Codec
pub mod Fields
pub mod RoundTrip
pub mod Signing
use scarlet_coin.Prelude.{
  ℕ, zero, suc, ◌+◌, ◌-◌, ◌*◌, ◌≡◌, Bool, true, false, not, ◌&&◌, ◌||◌, List, [], ◌∷◌, ltb, leb,
  ◌==◌, if◌then◌else◌, length, any, all, replicate, map,
}
use scarlet_coin.Prelude.Bytes.{Bytes, bytes_eq}
use scarlet_coin.Crypto.{pubkey_hash_length}
use scarlet_coin.Outcome.{Result, ok, err, ◌>>=◌, ◌>>◌, raise_if, each, transaction_error}

abbrev pub output_p2pkh : ℕ
output_p2pkh = 0

abbrev pub output_p2sh : ℕ
output_p2sh = 1

abbrev pub sequence_final : ℕ
sequence_final = 0xFFFFFFFF

abbrev pub max_money : ℕ
max_money = 21_000_000 * 100_000_000

abbrev pub max_coinbase_data : ℕ
max_coinbase_data = 100

abbrev pub max_witness_items : ℕ
max_witness_items = 100

abbrev pub max_witness_item_size : ℕ
max_witness_item_size = 520

abbrev pub null_hash : Bytes
null_hash = replicate 32 0

abbrev pub null_index : ℕ
null_index = 0xFFFFFFFF

pub record OutPoint : Type 0 where
  pub txid : Bytes
  pub index : ℕ

-- `OutPoint(txid, index)`
unfoldable pub out_point : Bytes → ℕ → Result OutPoint
out_point txid index = do
  raise_if (not (length txid == 32)) transaction_error
  raise_if (not (leb index 0xFFFFFFFF)) transaction_error
  ok (record { txid = txid; index = index })

-- `==` of the data class
unfoldable pub outpoint_eq : OutPoint → OutPoint → Bool
outpoint_eq a b = bytes_eq a.txid b.txid && a.index == b.index

unfoldable pub is_null : OutPoint → Bool
is_null p = bytes_eq p.txid null_hash && p.index == null_index

abbrev pub coinbase_outpoint : OutPoint
coinbase_outpoint = record { txid = null_hash; index = null_index }

pub record TxInput : Type 0 where
  pub prevout : OutPoint
  pub sequence : ℕ
  pub witness : List Bytes

unfoldable pub tx_input : OutPoint → ℕ → List Bytes → Result TxInput
tx_input prevout sequence witness = do
  raise_if (not (leb sequence 0xFFFFFFFF)) transaction_error
  ok (record { prevout = prevout; sequence = sequence; witness = witness })

unfoldable pub input_is_replaceable : TxInput → Bool
input_is_replaceable i = ltb i.sequence (sequence_final - 1)

unfoldable pub check_witness_shape : TxInput → Result (Unit {0})
check_witness_shape i = do
  raise_if (ltb max_witness_items (length i.witness)) transaction_error
  each (λ item. raise_if (ltb max_witness_item_size (length item)) transaction_error) i.witness

pub record TxOutput : Type 0 where
  pub type : ℕ
  pub value : ℕ
  pub payload : Bytes

unfoldable pub tx_output : ℕ → ℕ → Bytes → Result TxOutput
tx_output type value payload = do
  raise_if (not (type == output_p2pkh || type == output_p2sh)) transaction_error
  raise_if (ltb max_money value) transaction_error
  raise_if (not (length payload == pubkey_hash_length)) transaction_error
  ok (record { type = type; value = value; payload = payload })

unfoldable pub p2pkh : ℕ → Bytes → Result TxOutput
p2pkh value pubkey_hash = tx_output output_p2pkh value pubkey_hash

unfoldable pub p2sh : ℕ → Bytes → Result TxOutput
p2sh value script_hash = tx_output output_p2sh value script_hash

pub record Transaction : Type 0 where
  pub version : ℕ
  pub inputs : List TxInput
  pub outputs : List TxOutput
  pub lock_time : ℕ
  pub coinbase_data : Bytes

unfoldable pub transaction : ℕ → List TxInput → List TxOutput → ℕ → Bytes → Result Transaction
transaction version inputs outputs lock_time coinbase_data = do
  raise_if (not (leb version 0xFFFFFFFF)) transaction_error
  raise_if (not (leb lock_time 0xFFFFFFFF)) transaction_error
  ok (record {
    version = version;
    inputs = inputs;
    outputs = outputs;
    lock_time = lock_time;
    coinbase_data = coinbase_data;
  })

-- `len(inputs) == 1 and inputs[0].prevout.is_null`
unfoldable pub null_alone : List TxInput → Bool
null_alone (i ∷ []) = is_null i.prevout
null_alone _ = false

unfoldable pub is_coinbase : Transaction → Bool
unfolding null_alone
is_coinbase tx = null_alone tx.inputs

unfoldable pub is_empty {ℓ} : {A : Type ℓ} → List A → Bool
is_empty [] = true
is_empty (x ∷ xs) = false

unfoldable pub is_replaceable : Transaction → Bool
is_replaceable tx = not (is_empty tx.inputs) && all input_is_replaceable tx.inputs

unfoldable pub sum_values : List TxOutput → ℕ
sum_values [] = 0
sum_values (o ∷ os) = o.value + sum_values os

unfoldable pub total_output : Transaction → ℕ
total_output tx = sum_values tx.outputs

-- `witness` of `inputs[0]`
unfoldable pub first_witness : List TxInput → List Bytes
first_witness [] = []
first_witness (i ∷ is) = i.witness

-- The loop over the inputs, with the set `seen`.
unfoldable pub check_inputs : List OutPoint → List TxInput → Result (Unit {0})
check_inputs seen [] = ok tt
check_inputs seen (i ∷ is) =
    raise_if (is_null i.prevout) transaction_error
    >> (raise_if (any (outpoint_eq i.prevout) seen) transaction_error
        >> (check_witness_shape i >> check_inputs (i.prevout ∷ seen) is))

unfoldable pub check_coinbase : Transaction → Result (Unit {0})
unfolding first_witness is_empty
check_coinbase tx = do
  raise_if (ltb max_coinbase_data (length tx.coinbase_data)) transaction_error
  raise_if (not (is_empty (first_witness tx.inputs))) transaction_error

unfoldable pub check_spending : Transaction → Result (Unit {0})
unfolding is_empty
check_spending tx = do
  raise_if (not (is_empty tx.coinbase_data)) transaction_error
  check_inputs [] tx.inputs

unfoldable pub check_sanity : ℕ → Transaction → Result (Unit {0})
unfolding is_empty check_coinbase check_spending
check_sanity min_output_value tx = do
  raise_if (is_empty tx.inputs) transaction_error
  raise_if (is_empty tx.outputs) transaction_error
  raise_if (ltb max_money (total_output tx)) transaction_error
  each (λ o. raise_if (ltb o.value min_output_value) transaction_error) tx.outputs
  if is_coinbase tx then check_coinbase tx else check_spending tx
