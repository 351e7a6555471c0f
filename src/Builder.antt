-- ===== src/Builder.antt =====
-- src/scarletcoin/wallet/builder.py: sizes, fees, the choice of coins and the transactions made of
-- them. The amount of `select_coins` is an integer. The other
-- amounts, the rates and the sizes are native numbers, so that a test for a value below zero is left out
-- and one for a value that is not positive is a test for zero.
pub mod Select
pub mod Balance
pub mod Budget
pub mod Signed
pub mod Accepted
use scarlet_coin.Prelude.{
  ℕ, zero, suc, ◌+◌, ◌-◌, ◌*◌, ◌/◌, max, min, Bool, true, false, not, ◌&&◌, Option, none, some,
  List, [], ◌∷◌, ◌++◌, map, ltb, leb, ◌==◌, if◌then◌else◌, any, length, take, drop,
}
use scarlet_coin.Prelude.Int.{ℤ, pos, negsuc}
use scarlet_coin.Prelude.Bytes.{Bytes, bytes_eq}
use scarlet_coin.Prelude.Dict.{Dict, lookup}
use scarlet_coin.Prelude.Sort.{sorted}
use scarlet_coin.Outcome.{
  Result, ok, err, ◌>>=◌, ◌>>◌, raise_if, map_ok, value_error, insufficient_funds_error,
}
use scarlet_coin.Crypto.{Crypto}
use scarlet_coin.Transaction.{
  OutPoint, TxInput, tx_input, TxOutput, p2pkh, Transaction, transaction, sequence_final, is_empty,
}
use scarlet_coin.Transaction.Signing.{signature_hasher, digest, p2pkh_script_code, signed_with}
use scarlet_coin.Params.{ChainParams}
use scarlet_coin.Utxo.{Coin}

abbrev pub per_input_bytes : ℕ
per_input_bytes = 140

abbrev pub per_output_bytes : ℕ
per_output_bytes = 29

unfoldable pub varint_size : ℕ → ℕ
varint_size value =
    if ltb value 0xFD
    then 1
    else if leb value 0xFFFF
    then 3
    else if leb value 0xFFFFFFFF
    then 5
    else 9

unfoldable pub estimate_size : ℕ → ℕ → ℕ
unfolding varint_size
estimate_size inputs outputs =
    4
    + varint_size inputs
    + inputs * per_input_bytes
    + varint_size outputs
    + outputs * per_output_bytes
    + 4
    + 1

unfoldable pub fee_for_size : ℕ → ℕ → ℕ
fee_for_size size fee_per_kb =
    if ltb 0 fee_per_kb then max 1 ((size * fee_per_kb + 999) / 1000) else 0

unfoldable pub dust_threshold : ℕ → ℕ
unfolding fee_for_size
dust_threshold fee_per_kb = fee_for_size per_input_bytes fee_per_kb * 3

abbrev pub Item : Type 0
Item = OutPoint × Coin

unfoldable pub total_value : List Item → ℕ
total_value [] = 0
total_value ((p, coin) ∷ items) = coin.value + total_value items

-- `sorted(coins, key=value, reverse=True)` keeps the order of equal values.
abbrev is_larger : Item → Item → Bool
is_larger (p, a) (q, b) = ltb b.value a.value

unfoldable pub at_least : ℕ → List Item → List Item
at_least least [] = []
at_least least ((p, coin) ∷ items) =
    let rest = at_least least items in if leb least coin.value then (p, coin) ∷ rest else rest

-- `min(exact, key=value)`, the first of the least
unfoldable pub least_of : Item → List Item → Item
least_of (p, a) [] = (p, a)
least_of (p, a) ((q, b) ∷ items) = least_of (if ltb b.value a.value then (q, b) else (p, a)) items

module _ (amount fee_per_kb output_count : ℕ) where
  -- The fee with one change output.
  unfoldable pub fee_for : ℕ → ℕ
  unfolding estimate_size fee_for_size
  fee_for count = fee_for_size (estimate_size count (output_count + 1)) fee_per_kb

  unfoldable pub required : ℕ → ℕ
  unfolding fee_for
  required count = amount + fee_for count

  -- The loop over `usable`.
  unfoldable pub gather : List Item → List Item → ℕ → Result (List Item × ℕ)
  unfolding required
  gather [] chosen total = err insufficient_funds_error
  gather ((p, coin) ∷ items) chosen total =
      let chosen' = chosen ++ ((p, coin) ∷ []) in
      let total' = total + coin.value in
      if leb (required (length chosen')) total'
      then ok (chosen', fee_for (length chosen'))
      else gather items chosen' total'

  unfoldable pub choose_exact : List Item → List Item → Result (List Item × ℕ)
  unfolding gather least_of
  choose_exact [] usable = gather usable [] 0
  choose_exact (item ∷ items) usable = ok (least_of item items ∷ [], fee_for 1)

  -- `select_coins` after its first test
  unfoldable pub choose_coins : List Item → Result (List Item × ℕ)
  unfolding choose_exact at_least sorted
  choose_coins coins =
      let usable = sorted is_larger coins in choose_exact (at_least (required 1) usable) usable

unfoldable pub select_coins : ℤ → ℕ → ℕ → List Item → Result (List Item × ℕ)
unfolding choose_coins
select_coins (negsuc amount) fee_per_kb output_count coins = err value_error
select_coins (pos amount) fee_per_kb output_count coins =
    choose_coins amount fee_per_kb output_count coins

-- `Address | bytes`
pub data Destination : Type 0 where
  address : ℕ → Bytes → Destination
  hash : Bytes → Destination

-- `address_version` is the field of the chain parameters.
unfoldable pub resolve : ℕ → Destination → Result Bytes
resolve address_version (address version bytes) =
    if not (version == address_version) then err value_error else ok bytes
resolve address_version (hash bytes) =
    if not (length bytes == 20) then err value_error else ok bytes

-- `PrivateKey`: the bytes of its public key, and what `sign` gives for a digest.
pub record PrivateKey : Type 0 where
  pub public : Bytes
  pub sign : Bytes → Bytes

pub record BuiltTransaction : Type 0 where
  pub transaction : Transaction
  pub fee : ℕ
  pub change : ℕ
  pub total_input : ℕ
  pub coins : List Item

-- `TxInput(outpoint)` for each coin
unfoldable pub inputs_of : List Item → List TxInput
inputs_of [] = []
inputs_of ((p, coin) ∷ items) =
    record { prevout = p; sequence = sequence_final; witness = [] } ∷ inputs_of items

unfoldable pub outputs_of : List (Bytes × ℕ) → Result (List TxOutput)
outputs_of [] = ok []
outputs_of ((pubkey_hash, value) ∷ targets) =
    p2pkh value pubkey_hash >>= λ output. map_ok (λ more. output ∷ more) (outputs_of targets)

unfoldable pub sum_amounts : List (Bytes × ℕ) → ℕ
sum_amounts [] = 0
sum_amounts ((pubkey_hash, amount) ∷ targets) = amount + sum_amounts targets

unfoldable pub resolve_all : ℕ → List (Destination × ℕ) → Result (List (Bytes × ℕ))
unfolding resolve
resolve_all address_version [] = ok []
resolve_all address_version ((destination, amount) ∷ outputs) =
    resolve address_version destination >>= λ pubkey_hash.
    map_ok (λ more. (pubkey_hash, amount) ∷ more) (resolve_all address_version outputs)

module _ (c : Crypto) (keys : Dict Bytes PrivateKey) where
  -- The loop of `_sign_inputs`, from coin `index` on, on the state of the hasher.
  unfoldable pub witnesses_of : Bytes → ℕ → List Item → Result (List (ℕ × List Bytes))
  witnesses_of hasher index [] = ok []
  witnesses_of hasher index ((p, coin) ∷ items) = elim (lookup bytes_eq coin.payload keys) [
    | none ↦ err value_error
    | some key ↦ digest c hasher index coin.value (p2pkh_script_code coin.payload) >>= λ message.
        map_ok (λ more. (index, key.public ∷ key.sign message ∷ []) ∷ more)
          (witnesses_of hasher (index + 1) items)
  ]

  unfoldable pub sign_inputs : Transaction → List Item → Result Transaction
  unfolding witnesses_of
  sign_inputs unsigned items = do
    hasher ← signature_hasher unsigned
    witnesses ← witnesses_of hasher 0 items
    signed_with witnesses unsigned

  module _ (address_version fee_per_kb lock_time : ℕ) where
    unfoldable pub build_sweep_transaction : List Item → Destination → Result BuiltTransaction
    unfolding sign_inputs resolve inputs_of estimate_size fee_for_size total_value
    build_sweep_transaction items destination = do
      raise_if (is_empty items) insufficient_funds_error
      pubkey_hash ← resolve address_version destination
      let total = total_value items
      let fee = fee_for_size (estimate_size (length items) 1) fee_per_kb
      raise_if (leb total fee) insufficient_funds_error
      output ← p2pkh (total - fee) pubkey_hash
      unsigned ← transaction 1 (inputs_of items) (output ∷ []) lock_time []
      signed ← sign_inputs unsigned items
      ok (record {
        transaction = signed;
        fee = fee;
        change = 0;
        total_input = total;
        coins = items;
      })

    -- `build_transaction` once the coins are chosen.
    unfoldable pub assemble : List (Bytes × ℕ) → Bytes → List Item → ℕ → Result BuiltTransaction
    unfolding sum_amounts outputs_of inputs_of sign_inputs dust_threshold total_value
    assemble targets change_hash chosen fee = do
      let amount = sum_amounts targets
      let total_input = total_value chosen
      raise_if (ltb total_input (amount + fee)) insufficient_funds_error
      let change = total_input - amount - fee
      let keeps = ltb (dust_threshold fee_per_kb) change
      tx_outputs ← outputs_of (if keeps then targets ++ ((change_hash, change) ∷ []) else targets)
      unsigned ← transaction 1 (inputs_of chosen) tx_outputs lock_time []
      signed ← sign_inputs unsigned chosen
      ok (record {
        transaction = signed;
        fee = if keeps then fee else fee + change;
        change = if keeps then change else 0;
        total_input = total_input;
        coins = chosen;
      })

    unfoldable pub build_transaction :
        List Item → List (Destination × ℕ) → Bytes → Result BuiltTransaction
    unfolding assemble resolve_all select_coins
    build_transaction coins outputs change_hash = do
      raise_if (is_empty outputs) value_error
      targets ← resolve_all address_version outputs
      raise_if (any (λ (t : Bytes × ℕ). t.1 == 0) targets) value_error
      (chosen, fee) ← select_coins (pos (sum_amounts targets)) fee_per_kb (length targets) coins
      assemble targets change_hash chosen fee

-- The binary search of `_max_inputs_for_budget`, on a number of rounds.
unfoldable pub search_inputs : ℕ → ℕ → ℕ → ℕ → ℕ
unfolding estimate_size
search_inputs byte_budget zero low high = low
search_inputs byte_budget (suc n) low high =
    let mid = (low + high + 1) / 2 in
    let fits = leb (estimate_size mid 1) byte_budget in
    let rest =
      search_inputs byte_budget n (if fits then mid else low) (if fits then high else mid - 1) in
    if ltb low high then rest else low

unfoldable pub max_inputs_for_budget : ℕ → ℕ
unfolding search_inputs
max_inputs_for_budget byte_budget =
    if byte_budget == 0
    then 0
    else search_inputs byte_budget (byte_budget / per_input_bytes + 1) 0
        (byte_budget / per_input_bytes + 1)

-- `coins[start : start + size]` for `start` in steps of `size`, on a number of rounds.
unfoldable pub batches : ℕ → ℕ → List Item → List (List Item)
batches zero size items = []
batches (suc n) size [] = []
batches (suc n) size (item ∷ items) =
    take size (item ∷ items) ∷ batches n size (drop size (item ∷ items))

-- `none` for no limit
unfoldable pub inputs_per_transaction : ℕ → Option ℕ → ℕ
unfolding max_inputs_for_budget
inputs_per_transaction budget none = max 1 (max_inputs_for_budget budget)
inputs_per_transaction budget (some limit) =
    min (max 1 (max_inputs_for_budget budget)) (max 1 limit)

module _ (c : Crypto) (keys : Dict Bytes PrivateKey) (params : ChainParams)
    (address_version fee_per_kb lock_time : ℕ) where
  unfoldable pub build_each : Destination → List (List Item) → Result (List BuiltTransaction)
  unfolding build_sweep_transaction
  build_each destination [] = ok []
  build_each destination (batch ∷ more) =
      build_sweep_transaction c keys address_version fee_per_kb lock_time batch destination
      >>= λ built. map_ok (λ rest. built ∷ rest) (build_each destination more)

  unfoldable pub build_sweep_transactions :
      List Item → Destination → Option ℕ → Result (List BuiltTransaction)
  unfolding build_each batches inputs_per_transaction
  build_sweep_transactions items destination limit = do
    raise_if (is_empty items) insufficient_funds_error
    build_each destination
        (batches (length items) (inputs_per_transaction (params.max_block_size / 2) limit) items)
