-- ===== src/Transaction/Signing.antt =====
-- src/scarletcoin/core/transaction.py: `SignatureHasher`, `signature_hash`, `signed_with` and
-- `verify_input_signature`. A `hashlib` object is the bytes that it has absorbed.
use scarlet_coin.Prelude.{
  ℕ, zero, suc, Bool, false, not, ◌||◌, Option, none, some, List, [], ◌∷◌, ◌++◌, ltb, ◌==◌, length,
  get_elem?, if◌then◌else◌,
}
use scarlet_coin.Prelude.Bytes.{Bytes, bytes_eq}
use scarlet_coin.Outcome.{
  Result, ok, err, ◌>>=◌, ◌>>◌, raise_if, map_ok, transaction_error, index_error,
}
use scarlet_coin.Crypto.{Crypto, hash160, public_key, verify, public_key_length, signature_length}
use scarlet_coin.Serialize.{◌⊕◌, uint32, uint64, varbytes}
use scarlet_coin.Transaction.{TxInput, tx_input, Transaction, transaction, output_p2pkh}
use scarlet_coin.Transaction.Codec.{serialize_body}

-- b"ScarletCoin/sighash/2"
abbrev pub sighash_tag : Bytes
sighash_tag =
    b'S' ∷ b'c' ∷ b'a' ∷ b'r' ∷ b'l' ∷ b'e' ∷ b't' ∷ b'C' ∷ b'o' ∷ b'i' ∷ b'n' ∷ b'/' ∷ b's' ∷ b'i'
    ∷ b'g' ∷ b'h' ∷ b'a' ∷ b's' ∷ b'h' ∷ b'/' ∷ b'2' ∷ []

-- `SignatureHasher.__init__`: the shared prefix.
unfoldable pub signature_hasher : Transaction → Result Bytes
signature_hasher tx = varbytes sighash_tag ⊕ (serialize_body tx)

-- `SignatureHasher.digest`
unfoldable pub digest : Crypto → Bytes → ℕ → ℕ → Bytes → Result Bytes
digest c state input_index prevout_value script_code =
    map_ok (λ more. c.sha256 (c.sha256 (state ++ more)))
      (uint32 input_index ⊕ uint64 prevout_value ⊕ varbytes script_code)

unfoldable pub signature_hash : Crypto → Transaction → ℕ → ℕ → Bytes → Result Bytes
unfolding digest
signature_hash c tx input_index prevout_value script_code = do
  raise_if (not (ltb input_index (length tx.inputs))) transaction_error
  state ← signature_hasher tx
  digest c state input_index prevout_value script_code

abbrev pub p2pkh_script_code : Bytes → Bytes
p2pkh_script_code pubkey_hash = output_p2pkh ∷ pubkey_hash

-- One assignment `inputs[index] = replace(inputs[index], witness=…)`
unfoldable pub set_witness : List TxInput → ℕ → List Bytes → Result (List TxInput)
set_witness [] index w = err index_error
set_witness (i ∷ is) zero w = map_ok (λ j. j ∷ is) (tx_input i.prevout i.sequence w)
set_witness (i ∷ is) (suc index) w = map_ok (λ js. i ∷ js) (set_witness is index w)

unfoldable pub set_witnesses : List (ℕ × List Bytes) → List TxInput → Result (List TxInput)
set_witnesses [] inputs = ok inputs
set_witnesses ((index, w) ∷ ws) inputs =
    set_witness inputs index w >>= λ more. set_witnesses ws more

unfoldable pub signed_with : List (ℕ × List Bytes) → Transaction → Result Transaction
unfolding set_witnesses set_witness
signed_with witnesses tx = do
  inputs ← set_witnesses witnesses tx.inputs
  transaction tx.version inputs tx.outputs tx.lock_time tx.coinbase_data

-- `hasher or SignatureHasher(self)`
abbrev or_hasher : Option Bytes → Transaction → Result Bytes
or_hasher none tx = signature_hasher tx
or_hasher (some state) tx = ok state

module _ (c : Crypto) where
  -- The part after the two lengths have been checked.
  unfoldable pub verify_revealed :
      Transaction → ℕ → ℕ → Bytes → Option Bytes → Bytes → Bytes → Result Bool
  verify_revealed tx input_index prevout_value pubkey_hash hasher key_bytes signature =
      elim (public_key c key_bytes) [
        | err e ↦ ok false
        | ok key ↦
            if not (bytes_eq (hash160 c key) pubkey_hash)
            then ok false
            else or_hasher hasher tx >>= λ state.
                digest c state input_index prevout_value (p2pkh_script_code pubkey_hash)
                >>= λ message. verify c key message signature
      ]

  unfoldable pub verify_witness :
      Transaction → ℕ → ℕ → Bytes → Option Bytes → List Bytes → Result Bool
  unfolding verify_revealed
  verify_witness tx input_index prevout_value pubkey_hash hasher (key ∷ signature ∷ []) =
      if not (length key == public_key_length) || not (length signature == signature_length)
      then ok false
      else verify_revealed tx input_index prevout_value pubkey_hash hasher key signature
  verify_witness tx input_index prevout_value pubkey_hash hasher _ = ok false

  unfoldable pub verify_input_signature : Transaction → ℕ → ℕ → Bytes → Option Bytes → Result Bool
  unfolding verify_witness
  verify_input_signature tx input_index prevout_value pubkey_hash hasher =
      elim (get_elem? tx.inputs input_index) [
        | none ↦ err index_error
        | some i ↦ verify_witness tx input_index prevout_value pubkey_hash hasher i.witness
      ]
