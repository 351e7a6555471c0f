-- ===== src/Mempool/Blocks.antt =====
-- src/scarletcoin/core/mempool.py: `block_connected`, `block_disconnected` and `_revalidate`. Each
-- gives what it returns or raises, and the pool after the call.
use scarlet_coin.Prelude.{
  ℕ, Bool, true, false, not, Option, none, some, List, [], ◌∷◌, if◌then◌else◌, any, length, drop,
}
use scarlet_coin.Prelude.Bytes.{Bytes, bytes_eq}
use scarlet_coin.Prelude.Dict.{Dict, lookup}
use scarlet_coin.Outcome.{
  Result, ok, err, ◌>>=◌, validation_error, missing_input_error, premature_block_error,
  mempool_error, connect_error, key_error,
}
use scarlet_coin.Crypto.{Crypto}
use scarlet_coin.Params.{ChainParams}
use scarlet_coin.Transaction.{outpoint_eq, TxInput, Transaction, is_empty}
use scarlet_coin.Transaction.Codec.{txid}
use scarlet_coin.Block.{Block}
use scarlet_coin.Mempool.{MempoolEntry, Mempool, clear, remove}
use scarlet_coin.Mempool.Accept.{ChainState, add}

-- What a call that may raise leaves: its value or the exception, and the pool.
abbrev pub Run : Type 0
Run = Result (Unit {0}) × Mempool

-- One call after another.
abbrev pub and_then : Run → (Mempool → Run) → Run
and_then (ok a, pool) next = next pool
and_then (err x, pool) next = (err x, pool)

-- `except ValidationError`, with its subclasses, and `continue`
unfoldable pub catch_validation {ℓ} : {A : Type ℓ} → Result A → Result (Unit {0})
catch_validation (ok a) = ok tt
catch_validation (err validation_error) = ok tt
catch_validation (err missing_input_error) = ok tt
catch_validation (err premature_block_error) = ok tt
catch_validation (err mempool_error) = ok tt
catch_validation (err connect_error) = ok tt
catch_validation (err x) = err x

-- A call of `remove` whose result is not used.
unfoldable pub drop_transaction : Bool → Bytes → Mempool → Run
drop_transaction with_descendants id pool = elim (remove with_descendants id pool) [
  | err x ↦ (err x, pool)
  | ok (removed, pool') ↦ (ok tt, pool')
]

unfoldable pub drop_owner : Option Bytes → Mempool → Run
unfolding drop_transaction
drop_owner none pool = (ok tt, pool)
drop_owner (some id) pool = drop_transaction true id pool

unfoldable pub drop_conflicts : List TxInput → Mempool → Run
unfolding drop_owner
drop_conflicts [] pool = (ok tt, pool)
drop_conflicts (i ∷ is) pool =
    and_then (drop_owner (lookup outpoint_eq i.prevout pool.spent_by) pool)
      (λ pool'. drop_conflicts is pool')

-- `[self._by_txid[txid].transaction for txid in self._order]`
unfoldable pub transactions_of : List Bytes → Dict Bytes MempoolEntry → Result (List Transaction)
transactions_of [] m = ok []
transactions_of (id ∷ ids) m = elim (lookup bytes_eq id m) [
  | none ↦ err key_error
  | some e ↦ transactions_of ids m >>= λ txs. ok (e.transaction ∷ txs)
]

-- The transactions of a block, taken out with what conflicts with them.
unfoldable pub confirm : Crypto → List Transaction → Mempool → Run
unfolding drop_transaction drop_conflicts
confirm c [] pool = (ok tt, pool)
confirm c (tx ∷ txs) pool = elim (txid c tx) [
  | err x ↦ (err x, pool)
  | ok id ↦
      and_then (drop_transaction false id pool)
        (λ pool1. and_then (drop_conflicts tx.inputs pool1) (λ pool2. confirm c txs pool2))
]

module _ (divide : ℕ → ℕ → ℕ) (max_bytes : ℕ) (c : Crypto) (params : ChainParams)
    (chain : ChainState) where
  -- `add(transaction, verify_signatures=transaction.txid() not in self._verified)` in its `try`
  unfoldable pub try_add : ℕ → Transaction → Mempool → Run
  unfolding catch_validation
  try_add now tx pool = elim (txid c tx) [
    | err x ↦ (err x, pool)
    | ok id ↦
        let (result, pool') =
          add divide max_bytes c params chain now (not (any (bytes_eq id) pool.verified)) tx pool in
        (catch_validation result, pool')
  ]

  -- `now n` is the time at which the transaction before the last `n` is added.
  unfoldable pub add_all : (ℕ → ℕ) → List Transaction → Mempool → Run
  unfolding try_add
  add_all now [] pool = (ok tt, pool)
  add_all now (tx ∷ txs) pool =
      and_then (try_add (now (length txs)) tx pool) (λ pool'. add_all now txs pool')

  unfoldable pub revalidate : (ℕ → ℕ) → Mempool → Run
  unfolding transactions_of add_all clear
  revalidate now pool =
      if is_empty pool.by_txid
      then (ok tt, pool)
      else elim (transactions_of pool.order pool.by_txid) [
        | err x ↦ (err x, pool)
        | ok txs ↦ add_all now txs (clear pool)
      ]

  unfoldable pub block_connected : (ℕ → ℕ) → Block → Mempool → Run
  unfolding confirm revalidate
  block_connected now block pool =
      and_then (confirm c block.transactions pool) (λ pool'. revalidate now pool')

  -- The transactions after the coinbase are added at `back`, the pool's at `now`.
  unfoldable pub block_disconnected : (ℕ → ℕ) → (ℕ → ℕ) → Block → Mempool → Run
  unfolding revalidate
  block_disconnected back now block pool =
      and_then (add_all back (drop 1 block.transactions) pool) (λ pool'. revalidate now pool')
