-- ===== src/Mempool.antt =====
-- src/scarletcoin/core/mempool.py: the pool's state and the methods that change it. The lock makes
-- each method one step. `verify_signatures` is an argument of `add` as it is of the source.
pub mod Invariant
pub mod Children
pub mod Remove
pub mod Accept
pub mod Evict
pub mod Admission
pub mod Add
pub mod Blocks
pub mod Confirm
pub mod Listener
pub mod History
pub mod Collect
pub mod Selection
use scarlet_coin.Prelude.{
  ℕ, zero, suc, ◌+◌, ◌-◌, ◌*◌, ◌/◌, ◌≡◌, max, Bool, true, false, not, ◌&&◌, Option, none, some,
  List, [], ◌∷◌, ◌++◌, ltb, leb, if◌then◌else◌, any, length, get_elem?,
}
use scarlet_coin.Prelude.Bytes.{Bytes, bytes_eq}
use scarlet_coin.Prelude.Dict.{Dict, values, lookup, delete, store, sum_by, remove_item}
use scarlet_coin.Outcome.{
  Result, ok, err, ◌>>=◌, ◌>>◌, raise_if, value_error, mempool_error, unfinished,
}
use scarlet_coin.Transaction.{OutPoint, outpoint_eq, TxInput, TxOutput, Transaction}
use scarlet_coin.Utxo.{Coin, CoinView}

pub record MempoolEntry : Type 0 where
  pub transaction : Transaction
  pub txid : Bytes
  pub fee : ℕ
  pub size : ℕ
  pub received : ℕ

pub record Mempool : Type 0 where
  pub by_txid : Dict Bytes MempoolEntry
  pub spent_by : Dict OutPoint Bytes
  pub order : List Bytes
  pub total_bytes : ℕ
  pub verified : List Bytes

-- The four fields of `clear`; the ids in `verified` stay.
unfoldable pub clear : Mempool → Mempool
clear pool = record pool { by_txid = []; spent_by = []; order = []; total_bytes = 0 }

unfoldable pub claim : Bytes → List TxInput → Dict OutPoint Bytes → Dict OutPoint Bytes
claim id [] m = m
claim id (i ∷ is) m = claim id is (store outpoint_eq i.prevout id m)

unfoldable pub insert : MempoolEntry → Mempool → Mempool
unfolding claim
insert e pool = record pool {
  by_txid = store bytes_eq e.txid e pool.by_txid;
  order = pool.order ++ (e.txid ∷ []);
  total_bytes = pool.total_bytes + e.size;
  spent_by = claim e.txid e.transaction.inputs pool.spent_by;
}

-- `self._spent_by.get(txin.prevout) == current`
unfoldable pub owned_by : Bytes → Option Bytes → Bool
owned_by id none = false
owned_by id (some owner) = bytes_eq owner id

unfoldable pub release : Bytes → List TxInput → Dict OutPoint Bytes → Dict OutPoint Bytes
unfolding owned_by
release id [] m = m
release id (i ∷ is) m =
    release id is
      (if owned_by id (lookup outpoint_eq i.prevout m) then delete outpoint_eq i.prevout m else m)

unfoldable pub push_child : Option Bytes → List Bytes → List Bytes
push_child none pending = pending
push_child (some child) pending = child ∷ pending

-- The children over the outputs `index`, …, pushed one by one on the stack, whose top is the head.
unfoldable pub push_children : Bytes → ℕ → ℕ → Dict OutPoint Bytes → List Bytes → List Bytes
unfolding push_child
push_children id index zero spent_by pending = pending
push_children id index (suc n) spent_by pending =
    push_children id (index + 1) n spent_by
      (push_child (lookup outpoint_eq (record { txid = id; index = index }) spent_by) pending)

-- One entry taken out of the four fields; `ValueError` if `order` does not list it.
unfoldable pub take_out : Bytes → MempoolEntry → Mempool → Result Mempool
unfolding release
take_out id e pool = elim (remove_item bytes_eq id pool.order) [
  | none ↦ err value_error
  | some order ↦ ok (record pool {
    by_txid = delete bytes_eq id pool.by_txid;
    order = order;
    total_bytes = pool.total_bytes - e.size;
    spent_by = release id e.transaction.inputs pool.spent_by;
  })
]

-- What the loop of `remove` may still have to do: an entry, and each of its outputs, once.
unfoldable pub weight : MempoolEntry → ℕ
weight e = suc (length e.transaction.outputs)

-- The `while` loop of `remove`, on a number of rounds.
unfoldable pub remove_loop :
    Bool → ℕ → List Bytes → List Bytes → Mempool → Result (List Bytes × Mempool)
unfolding take_out push_children
remove_loop deep n [] removed pool = ok (removed, pool)
remove_loop deep zero (id ∷ pending) removed pool = err unfinished
remove_loop deep (suc n) (id ∷ pending) removed pool = elim (lookup bytes_eq id pool.by_txid) [
  | none ↦ remove_loop deep n pending removed pool
  | some e ↦ take_out id e pool >>= λ pool'.
      remove_loop deep n
        (if deep
          then push_children id 0 (length e.transaction.outputs) pool'.spent_by pending
          else pending)
        (removed ++ (id ∷ [])) pool'
]

unfoldable pub remove : Bool → Bytes → Mempool → Result (List Bytes × Mempool)
unfolding remove_loop weight
remove with_descendants id pool =
    remove_loop with_descendants (suc (sum_by weight pool.by_txid)) (id ∷ []) [] pool
