-- ===== src/Chain/Index.antt =====
-- src/scarletcoin/core/chain.py: `_index_block`, with `index_transaction` of
-- src/scarletcoin/core/storage.py. The order of the new rows is that of a set, and is not modelled.
use scarlet_coin.Prelude.{
  ℕ, ◌+◌, ◌≡◌, sym, ap, ◌∙◌, ◌&&◌, none, some, List, [], ◌∷◌, ◌++◌, if◌then◌else◌, any, map,
}
use scarlet_coin.Prelude.Bytes.{Bytes, bytes_eq}
use scarlet_coin.Outcome.{Result, ok, err, ◌>>=◌, >>=-eq-ok}
use scarlet_coin.Crypto.{Crypto}
use scarlet_coin.Transaction.{TxInput, TxOutput, Transaction, is_coinbase}
use scarlet_coin.Transaction.Codec.{txid}
use scarlet_coin.Utxo.{Coins, find}
use scarlet_coin.Storage.{Storage, TxLocation, HistoryRow}

abbrev pub Amounts : Type 0
Amounts = List (Bytes × ℕ)

-- `amounts.get(key, 0)`
unfoldable pub amount : Bytes → Amounts → ℕ
amount key [] = 0
amount key ((k, n) ∷ more) = if bytes_eq key k then n else amount key more

-- `amounts[key] = amounts.get(key, 0) + n`
unfoldable pub add_amount : Bytes → ℕ → Amounts → Amounts
add_amount key n [] = (key, n) ∷ []
add_amount key n ((k, m) ∷ more) =
    if bytes_eq key k then (k, m + n) ∷ more else (k, m) ∷ add_amount key n more

unfoldable pub received_by : List TxOutput → Amounts → Amounts
unfolding add_amount
received_by [] amounts = amounts
received_by (o ∷ os) amounts = received_by os (add_amount o.payload o.value amounts)

unfoldable pub sent_by : Coins → List TxInput → Amounts → Amounts
unfolding add_amount
sent_by spent [] amounts = amounts
sent_by spent (i ∷ is) amounts = elim (find i.prevout spent) [
  | none ↦ sent_by spent is amounts
  | some coin ↦ sent_by spent is (add_amount coin.payload coin.value amounts)
]

-- The keys of the second dictionary that the first does not have.
unfoldable pub new_keys : Amounts → Amounts → List Bytes
new_keys seen [] = []
new_keys seen ((k, n) ∷ more) =
    let rest = new_keys seen more in if any (λ e. bytes_eq k (e.0)) seen then rest else k ∷ rest

-- `set(received) | set(sent)`
unfoldable pub touched : Amounts → Amounts → List Bytes
unfolding new_keys
touched received sent = map (λ e. e.0) received ++ new_keys received sent

unfoldable pub drop_location : Bytes → List TxLocation → List TxLocation
drop_location id [] = []
drop_location id (row ∷ rows) =
    let rest = drop_location id rows in if bytes_eq id row.txid then rest else row ∷ rest

-- `INSERT OR REPLACE INTO address_history`, whose key is the address and the id
unfoldable pub drop_history : HistoryRow → List HistoryRow → List HistoryRow
drop_history new [] = []
drop_history new (row ∷ rows) =
    let rest = drop_history new rows in
    if bytes_eq new.pubkey_hash row.pubkey_hash && bytes_eq new.txid row.txid
    then rest
    else row ∷ rest

unfoldable pub put_history : List HistoryRow → List HistoryRow → List HistoryRow
unfolding drop_history
put_history [] rows = rows
put_history (new ∷ more) rows = put_history more (new ∷ drop_history new rows)

module _ (c : Crypto) (block_id : Bytes) (height : ℕ) (spent : Coins) where
  unfoldable pub history_row : Bytes → Transaction → Amounts → Amounts → Bytes → HistoryRow
  unfolding amount
  history_row id tx received sent key = record {
    pubkey_hash = key;
    txid = id;
    height = height;
    received = amount key received;
    sent = amount key sent;
    coinbase = is_coinbase tx;
  }

  unfoldable pub index_transaction : ℕ → Transaction → Storage → Result Storage
  unfolding received_by sent_by history_row touched drop_location put_history
  index_transaction position tx s = do
    id ← txid c tx
    let received = received_by tx.outputs []
    let sent = sent_by spent tx.inputs []
    ok (record s {
      locations =
          record { txid = id; block_id = block_id; position = position; height = height }
          ∷ drop_location id s.locations;
      history =
          put_history (map (history_row id tx received sent) (touched received sent)) s.history;
    })

  unfoldable pub index_block : ℕ → List Transaction → Storage → Result Storage
  unfolding index_transaction
  index_block position [] s = ok s
  index_block position (tx ∷ txs) s =
      index_transaction position tx s >>= λ s'. index_block (position + 1) txs s'

  -- The index leaves the coins alone.
  pub utxo-index_block :
      (position : ℕ) (txs : List Transaction) (s s' : Storage)
      → index_block position txs s ≡ ok s'
      → s'.utxo ≡ s.utxo
  unfolding index_block index_transaction
  utxo-index_block position [] s s' h = cc
  utxo-index_block position (tx ∷ txs) s s' h =
      let (s1, a, b) = >>=-eq-ok (index_transaction position tx s) _ h in
      let (id, d, e) = >>=-eq-ok (txid c tx) _ a in
      utxo-index_block (position + 1) txs s1 s' b ∙ sym (ap (same s.utxo) e)
    where
      same : Coins → Result Storage → Coins
      same m (ok s) = s.utxo
      same m (err e) = m
