-- ===== src/Coinbase.antt =====
-- src/scarletcoin/core/coinbase.py
pub mod Height
use scarlet_coin.Prelude.{ℕ, ◌≡◌, not, List, [], ◌∷◌, ◌++◌, ltb, leb, length, take}
use scarlet_coin.Prelude.Bytes.{Bytes, to_le, from_le}
use scarlet_coin.Outcome.{Result, ok, err, ◌>>=◌, ◌>>◌, raise_if, transaction_error}
use scarlet_coin.Transaction.{
  Transaction, transaction, tx_input, p2pkh, coinbase_outpoint, sequence_final, is_coinbase,
  max_coinbase_data,
}

abbrev pub height_prefix_size : ℕ
height_prefix_size = 4

unfoldable pub encode_coinbase_data : ℕ → Bytes → Result Bytes
encode_coinbase_data height extra = do
  raise_if (not (leb height 0xFFFFFFFF)) transaction_error
  let encoded = to_le height_prefix_size height ++ extra
  raise_if (ltb max_coinbase_data (length encoded)) transaction_error
  ok encoded

unfoldable pub coinbase_height : Transaction → Result ℕ
coinbase_height tx = do
  raise_if (not (is_coinbase tx)) transaction_error
  raise_if (ltb (length tx.coinbase_data) height_prefix_size) transaction_error
  ok (from_le (take height_prefix_size tx.coinbase_data))

unfoldable pub build_coinbase : ℕ → ℕ → Bytes → Bytes → ℕ → Result Transaction
unfolding encode_coinbase_data
build_coinbase height reward pubkey_hash extra lock_time = do
  input ← tx_input coinbase_outpoint sequence_final []
  output ← p2pkh reward pubkey_hash
  encoded ← encode_coinbase_data height extra
  transaction 1 (input ∷ []) (output ∷ []) lock_time encoded
