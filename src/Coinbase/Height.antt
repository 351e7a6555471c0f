-- ===== src/Coinbase/Height.antt =====
-- The height that a coinbase commits to.
use scarlet_coin.Prelude.{
  ℕ, ◌≡◌, true, false, subst, ◌++◌, arith, ltb, length, take, length-append, take-append_self,
}
use scarlet_coin.Prelude.Bytes.{Bytes, to_le, from_le, length-to_le, from_le-to_le, bytes_eq_refl}
use scarlet_coin.Outcome.{ok, >>=-eq-ok}
use scarlet_coin.Transaction.{
  Transaction, transaction, tx_input, p2pkh, coinbase_outpoint, is_coinbase, is_null, null_hash,
}
use scarlet_coin.Coinbase.{encode_coinbase_data, coinbase_height, build_coinbase}

coinbase_outpoint-is_null : is_null coinbase_outpoint ≡ true
unfolding is_null
coinbase_outpoint-is_null = ground (arith, bytes_eq_refl null_hash)

take_prefix : (height : ℕ) (extra : Bytes) → take 4 (to_le 4 height ++ extra) ≡ to_le 4 height
take_prefix height extra =
    subst (λ n. take n (to_le 4 height ++ extra) ≡ to_le 4 height) (length-to_le 4 height)
      (take-append_self (to_le 4 height) extra)

encode_coinbase_data_lem :
    (height : ℕ) (extra bs : Bytes)
    → encode_coinbase_data height extra ≡ ok bs
    → (ltb (length bs) 4 ≡ false) × (from_le (take 4 bs) ≡ height)
unfolding encode_coinbase_data
encode_coinbase_data_lem height extra bs h =
    let size = length-append (to_le 4 height) extra in
    let width = length-to_le 4 height in
    let prefix = take_prefix height extra in
    let back = from_le-to_le 4 height in ground (arith, size, width, prefix, back)

-- A coinbase transaction that can be built for a height is a coinbase, and that height is read from
-- it.
pub coinbase_height-build_coinbase :
    (height reward : ℕ) (pubkey_hash extra : Bytes) (lock_time : ℕ) (tx : Transaction)
    → build_coinbase height reward pubkey_hash extra lock_time ≡ ok tx
    → (is_coinbase tx ≡ true) × (coinbase_height tx ≡ ok height)
unfolding build_coinbase coinbase_height tx_input transaction is_coinbase
coinbase_height-build_coinbase height reward hash extra lock tx h =
    let (o, _, h1) = >>=-eq-ok (p2pkh reward hash) _ h in
    let (bs, made, h2) = >>=-eq-ok (encode_coinbase_data height extra) _ h1 in
    let (wide, same) = encode_coinbase_data_lem height extra bs made in
    ground (arith, wide, same, coinbase_outpoint-is_null)
