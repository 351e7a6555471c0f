-- ===== src/Mempool/History.antt =====
-- The pool over any sequence of calls: `add`, `remove`, `clear` and the chain's two events, with the
-- chain in whatever state each call finds it.
use scarlet_coin.Prelude.{ℕ, ◌≡◌, sym, ap, subst, inl, inr, Bool, true, some, []}
use scarlet_coin.Prelude.Bytes.{Bytes, bytes_eq}
use scarlet_coin.Prelude.Dict.{lookup}
use scarlet_coin.Outcome.{Result}
use scarlet_coin.Mempool.Evict.{Shrinks}
use scarlet_coin.Crypto.{Crypto}
use scarlet_coin.Params.{ChainParams}
use scarlet_coin.Transaction.{OutPoint, Transaction}
use scarlet_coin.Block.{Block}
use scarlet_coin.Mempool.{MempoolEntry, Mempool, clear}
use scarlet_coin.Mempool.Invariant.{spends}
use scarlet_coin.Mempool.Accept.{ChainState, add}
use scarlet_coin.Mempool.Add.{add_cases, IsAnswer}
use scarlet_coin.Mempool.Blocks.{block_connected, block_disconnected, drop_transaction}
use scarlet_coin.Mempool.Confirm.{drop_transaction-Shrinks}
use scarlet_coin.Mempool.Listener.{
  IsHealthy, IsHealthy-Shrinks, clear-IsHealthy, block_connected-IsHealthy,
  block_disconnected-IsHealthy,
}

-- `Mempool.__init__`
unfoldable pub empty : Mempool
empty = record { by_txid = []; spent_by = []; order = []; total_bytes = 0; verified = [] }

module _ (divide : ℕ → ℕ → ℕ) (max_bytes : ℕ) (c : Crypto) (params : ChainParams) where
  -- The pool after a call, whether it returned or raised.
  pub data Step (pool : Mempool) : Mempool → Type 0 where
    adds :
        (chain : ChainState) (now : ℕ) (verify : Bool) (tx : Transaction)
        → Step pool (add divide max_bytes c params chain now verify tx pool).1
    removes : (deep : Bool) (id : Bytes) → Step pool (drop_transaction deep id pool).1
    clears : Step pool (clear pool)
    connects :
        (chain : ChainState) (now : ℕ → ℕ) (block : Block)
        → Step pool (block_connected divide max_bytes c params chain now block pool).1
    disconnects :
        (chain : ChainState) (back now : ℕ → ℕ) (block : Block)
        → Step pool (block_disconnected divide max_bytes c params chain back now block pool).1

  pub data IsReached : Mempool → Type 0 where
    first : IsReached empty
    next : {pool pool' : Mempool} → IsReached pool → Step pool pool' → IsReached pool'

  Step-IsHealthy :
      {pool pool' : Mempool}
      → IsHealthy params max_bytes pool
      → Step pool pool'
      → IsHealthy params max_bytes pool'
  Step-IsHealthy {pool} h (adds chain now verify tx) =
      go _ (add_cases divide max_bytes c params chain now verify tx pool h.sound)
    where
      go :
          (r : Result MempoolEntry × Mempool)
          → IsAnswer divide max_bytes params tx pool r
          → IsHealthy params max_bytes r.1
      go r (inl (x, e)) = subst (IsHealthy params max_bytes) (sym (ap (λ t. t.1) e)) h
      go r (inr (d, pool', e, sound, fits, _, _, _, _)) =
          subst (IsHealthy params max_bytes) (sym (ap (λ t. t.1) e))
            (record { sound = sound; fits = fits })
  Step-IsHealthy {pool} h (removes deep id) =
      let (pool', run, s, _) = drop_transaction-Shrinks deep id pool h.sound.valid in
      IsHealthy-Shrinks params max_bytes pool _ h (subst (Shrinks pool) (sym (ap (λ t. t.1) run)) s)
  Step-IsHealthy {pool} h clears = clear-IsHealthy params max_bytes pool
  Step-IsHealthy {pool} h (connects chain now block) =
      block_connected-IsHealthy divide max_bytes c params chain now block pool h
  Step-IsHealthy {pool} h (disconnects chain back now block) =
      block_disconnected-IsHealthy divide max_bytes c params chain back now block pool h

  -- In every pool that such calls lead to from the empty one, whether they return or raise, the
  -- entries, their order, the count of bytes and the owners of the spent outputs describe one set
  -- of transactions, each entry pays the least fee for its size, and the pool is within
  -- `max_bytes`.
  pub reached-IsHealthy : {pool : Mempool} → IsReached pool → IsHealthy params max_bytes pool
  unfolding empty clear
  reached-IsHealthy first = clear-IsHealthy params max_bytes empty
  reached-IsHealthy (next before step) = Step-IsHealthy (reached-IsHealthy before) step

  -- In every pool that calls of `add`, `remove`, `clear`, `block_connected` and
  -- `block_disconnected` lead to from the empty one, with the chain in any state at each call, two
  -- pooled transactions that spend the same output are the same.
  pub no_double_spend :
      {pool : Mempool} (p : OutPoint) (a b : Bytes) (d e : MempoolEntry)
      → IsReached pool
      → lookup bytes_eq a pool.by_txid ≡ some d
      → lookup bytes_eq b pool.by_txid ≡ some e
      → spends p d.transaction.inputs ≡ true
      → spends p e.transaction.inputs ≡ true
      → a ≡ b
  no_double_spend p a b d e r x y u v =
      let h = reached-IsHealthy r in
      cc (h.sound.valid.owned p a d x u, h.sound.valid.owned p b e y v)
