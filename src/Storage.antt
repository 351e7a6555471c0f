-- ===== src/Storage.antt =====
-- src/scarletcoin/core/storage.py: the tables that connecting and disconnecting a block change, as
-- lists of rows (the SQL is read as the operation that it performs), and the encoding of undo data of
-- src/scarletcoin/core/utxo.py. Rows are inserted at the front; `INSERT OR REPLACE` and `DELETE` drop
-- every row with the same key.
pub mod UndoTrip
use scarlet_coin.Prelude.{
  ℕ, ◌+◌, ◌-◌, ◌≡◌, Bool, true, false, not, ◌&&◌, Option, none, some, List, [], ◌∷◌, ltb, ◌==◌,
  if◌then◌else◌, any,
}
use scarlet_coin.Prelude.Bytes.{Bytes, bytes_eq}
use scarlet_coin.Outcome.{Result, ok, err, map_ok, storage_error}
use scarlet_coin.Serialize.{
  ◌⊕◌, raw, uint8, uint32, uint64, varint, hash32, write_each, Read, ◌>>=◌, ◌>>◌, pure, lift,
  read_raw, read_uint, read_varint, read_hash32, read_times, expect_end,
}
use scarlet_coin.Prelude.{length}
use scarlet_coin.Transaction.{OutPoint, out_point}
use scarlet_coin.Block.{Block}
use scarlet_coin.Utxo.{Coin, Coins}

-- `Coin.serialize`
unfoldable pub write_coin : Coin → Result Bytes
write_coin coin =
    uint64 coin.value
    ⊕ uint8 coin.output_type
    ⊕ raw coin.payload
    ⊕ uint32 coin.height
    ⊕ uint8 (if coin.is_coinbase then 1 else 0)

-- `Coin.read`
unfoldable pub read_coin : Read Coin
read_coin = do
  value ← read_uint 8
  output_type ← read_uint 1
  payload ← read_raw 20
  height ← read_uint 4
  flag ← read_uint 1
  pure (record {
    value = value;
    output_type = output_type;
    payload = payload;
    height = height;
    is_coinbase = not (flag == 0);
  })

abbrev pub Spent : Type 0
Spent = List (OutPoint × Coin)

unfoldable pub write_entry : (OutPoint × Coin) → Result Bytes
unfolding write_coin
write_entry (p, coin) = hash32 p.txid ⊕ uint32 p.index ⊕ write_coin coin

unfoldable pub read_entry : Read (OutPoint × Coin)
unfolding read_coin
read_entry = do
  txid ← read_hash32
  index ← read_uint 4
  outpoint ← lift (out_point txid index)
  coin ← read_coin
  pure (outpoint, coin)

unfoldable pub write_undo : Spent → Result Bytes
unfolding write_entry
write_undo spent = varint (length spent) ⊕ write_each write_entry spent

unfoldable pub read_entries : Read Spent
unfolding read_entry
read_entries = do count ← read_varint; read_times count read_entry

unfoldable pub read_undo : Bytes → Result Spent
unfolding read_entries
read_undo bytes = map_ok (λ p. p.0) ((read_entries >>= λ spent. expect_end >> pure spent) bytes)

-- A row of `blocks`; a pruned one has no transactions left.
pub record BlockRow : Type 0 where
  pub id : Bytes
  pub height : ℕ
  pub in_chain : Bool
  pub pruned : Bool
  pub block : Block

-- A row of `tx_location`
pub record TxLocation : Type 0 where
  pub txid : Bytes
  pub block_id : Bytes
  pub position : ℕ
  pub height : ℕ

-- A row of `address_history`
pub record HistoryRow : Type 0 where
  pub pubkey_hash : Bytes
  pub txid : Bytes
  pub height : ℕ
  pub received : ℕ
  pub sent : ℕ
  pub coinbase : Bool

pub record Storage : Type 0 where
  pub utxo : Coins
  pub undo : List (Bytes × Bytes)
  pub blocks : List BlockRow
  pub locations : List TxLocation
  pub history : List HistoryRow

unfoldable pub find_undo : Bytes → List (Bytes × Bytes) → Option Bytes
find_undo id [] = none
find_undo id ((k, bytes) ∷ rows) = if bytes_eq id k then some bytes else find_undo id rows

unfoldable pub delete_undo : Bytes → List (Bytes × Bytes) → List (Bytes × Bytes)
delete_undo id [] = []
delete_undo id ((k, bytes) ∷ rows) =
    let rest = delete_undo id rows in if bytes_eq id k then rest else (k, bytes) ∷ rest

unfoldable pub put_undo : Bytes → Spent → Storage → Result Storage
unfolding write_undo delete_undo
put_undo id spent s =
    map_ok (λ bytes. record s { undo = (id, bytes) ∷ delete_undo id s.undo }) (write_undo spent)

unfoldable pub get_undo : Bytes → Storage → Result Spent
unfolding find_undo read_undo
get_undo id s = elim (find_undo id s.undo) [
  | none ↦ err storage_error
  | some bytes ↦ read_undo bytes
]

unfoldable pub mark : Bytes → Bool → List BlockRow → List BlockRow
mark id in_chain [] = []
mark id in_chain (row ∷ rows) =
    (if bytes_eq id row.id then record row { in_chain = in_chain } else row) ∷ mark id in_chain rows

unfoldable pub set_in_chain : Bytes → Bool → Storage → Storage
unfolding mark
set_in_chain id in_chain s = record s { blocks = mark id in_chain s.blocks }

-- `SELECT hash FROM blocks WHERE in_chain = 1 AND height = ?`
unfoldable pub active_at : ℕ → List BlockRow → Option Bytes
active_at height [] = none
active_at height (row ∷ rows) =
    if row.in_chain && row.height == height then some row.id else active_at height rows

-- `prune_undo_at_height(height - depth)`, which does nothing when the difference is negative.
unfoldable pub prune_undo_behind : ℕ → ℕ → Storage → Storage
unfolding active_at delete_undo
prune_undo_behind height depth s =
    if ltb height depth then s else elim (active_at (height - depth) s.blocks) [
      | none ↦ s
      | some id ↦ record s { undo = delete_undo id s.undo }
    ]

-- `get_block`, without its cache: `None` for a block that is unknown or pruned
unfoldable pub find_block : Bytes → List BlockRow → Option Block
find_block id [] = none
find_block id (row ∷ rows) =
    if bytes_eq id row.id then (if row.pruned then none else some row.block) else find_block id rows

unfoldable pub forget_locations : List Bytes → List TxLocation → List TxLocation
forget_locations ids [] = []
forget_locations ids (row ∷ rows) =
    let rest = forget_locations ids rows in if any (bytes_eq row.txid) ids then rest else row ∷ rest

unfoldable pub forget_history : List Bytes → List HistoryRow → List HistoryRow
forget_history ids [] = []
forget_history ids (row ∷ rows) =
    let rest = forget_history ids rows in if any (bytes_eq row.txid) ids then rest else row ∷ rest

-- The chunks of 500 ids delete the same rows as one statement would.
unfoldable pub unindex_transactions : List Bytes → Storage → Storage
unfolding forget_locations forget_history
unindex_transactions ids s = record s {
  locations = forget_locations ids s.locations;
  history = forget_history ids s.history;
}
