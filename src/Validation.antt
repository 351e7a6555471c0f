-- ===== src/Validation.antt =====
-- src/scarletcoin/core/validation.py
pub mod Fee
use scarlet_coin.Prelude.{
  ℕ, zero, suc, ◌+◌, ◌-◌, ◌≡◌, Bool, true, false, not, ◌&&◌, ◌||◌, Option, none, some, List, [],
  ◌∷◌, ltb, leb, ◌==◌, if◌then◌else◌, length, get_elem?,
}
use scarlet_coin.Prelude.Bytes.{Bytes}
use scarlet_coin.Outcome.{
  Result, ok, err, ◌>>=◌, ◌>>◌, raise_if, validation_error, missing_input_error, index_error,
}
use scarlet_coin.Crypto.{Crypto}
use scarlet_coin.Transaction.{
  TxInput, Transaction, is_coinbase, total_output, output_p2pkh, output_p2sh, max_money,
}
use scarlet_coin.Transaction.Signing.{signature_hasher, digest, verify_input_signature}
use scarlet_coin.Script.{max_script_size, catch_script_error, evaluate_script}
use scarlet_coin.Utxo.{Coin, CoinView, is_spendable_at}
use scarlet_coin.Params.{ChainParams}

unfoldable pub check_transaction_final : Transaction → ℕ → Bool
check_transaction_final tx height = tx.lock_time == 0 || leb tx.lock_time height

-- `SignatureHasher(transaction) if verify_signatures else None`
unfoldable pub shared_hasher : Bool → Transaction → Result (Option Bytes)
shared_hasher true tx = signature_hasher tx >>= λ state. ok (some state)
shared_hasher false tx = ok none

module _ (c : Crypto) where
  -- `_verify_p2sh` on the witness of the input; `hasher` is the state of the shared hasher.
  unfoldable pub verify_p2sh_witness : ℕ → ℕ → Bytes → List Bytes → Result Bool
  verify_p2sh_witness index prevout_value hasher [] = ok false
  verify_p2sh_witness index prevout_value hasher (redeem_script ∷ arguments) =
      if ltb max_script_size (length redeem_script)
      then ok false
      else digest c hasher index prevout_value redeem_script >>= λ message.
          catch_script_error (evaluate_script c message redeem_script arguments)

  unfoldable pub verify_p2sh : Transaction → ℕ → ℕ → Bytes → Result Bool
  unfolding verify_p2sh_witness
  verify_p2sh tx index prevout_value hasher = elim (get_elem? tx.inputs index) [
    | none ↦ err index_error
    | some i ↦ verify_p2sh_witness index prevout_value hasher i.witness
  ]

  -- `valid` of the loop, by the type of the coin's output
  unfoldable pub verify_spend : Transaction → ℕ → Coin → Bytes → Result Bool
  unfolding verify_p2sh verify_input_signature
  verify_spend tx index coin hasher =
      if coin.output_type == output_p2pkh
      then verify_input_signature c tx index coin.value coin.payload (some hasher)
      else verify_p2sh tx index coin.value hasher

  -- `if verify_signatures`: there is a hasher exactly when the signatures are checked.
  unfoldable pub check_signature : Transaction → ℕ → Coin → Option Bytes → Result (Unit {0})
  check_signature tx index coin none = ok tt
  check_signature tx index coin (some hasher) =
      verify_spend tx index coin hasher >>= λ valid. raise_if (not valid) validation_error

  module _ (view : CoinView) (height : ℕ) (params : ChainParams) where
    -- One round of the loop, on the coin that the view has for the input; the new `total_in`.
    unfoldable pub check_coin : Transaction → ℕ → Option Bytes → Option Coin → ℕ → Result ℕ
    unfolding check_signature
    check_coin tx index hasher none total_in = err missing_input_error
    check_coin tx index hasher (some coin) total_in = do
      raise_if (not (is_spendable_at coin height params.coinbase_maturity)) validation_error
      raise_if (not (coin.output_type == output_p2pkh || coin.output_type == output_p2sh))
          validation_error
      check_signature tx index coin hasher
      raise_if (ltb max_money (total_in + coin.value)) validation_error
      ok (total_in + coin.value)

    -- The loop over the inputs, from input `index` on.
    unfoldable pub check_coins : Transaction → ℕ → Option Bytes → List TxInput → ℕ → Result ℕ
    unfolding check_coin
    check_coins tx index hasher [] total_in = ok total_in
    check_coins tx index hasher (i ∷ is) total_in =
        check_coin tx index hasher (view i.prevout) total_in >>= λ total_in'.
        check_coins tx (index + 1) hasher is total_in'

    unfoldable pub check_transaction_inputs : Bool → Transaction → Result ℕ
    unfolding check_coins shared_hasher
    check_transaction_inputs verify_signatures tx = do
      raise_if (is_coinbase tx) validation_error
      hasher ← shared_hasher verify_signatures tx
      total_in ← check_coins tx 0 hasher tx.inputs 0
      raise_if (ltb total_in (total_output tx)) validation_error
      ok (total_in - total_output tx)
