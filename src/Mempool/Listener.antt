-- ===== src/Mempool/Listener.antt =====
-- The chain's events on the pool: soundness, and what a block leaves in it.
use scarlet_coin.Prelude.{
  ℕ, ◌≤◌, ◌≡◌, refl, ◌∙◌, sym, ap, subst, ◌⊎◌, inl, inr, true, false, not, none, some, List, [],
  ◌∷◌, arith, any, All, length, drop, Bool-cases, Option-cases,
}
use scarlet_coin.Prelude.Bytes.{Bytes, bytes_eq}
use scarlet_coin.Prelude.Dict.{Dict, lookup}
use scarlet_coin.Outcome.{Result, ok, err, ◌>>=◌, >>=-eq-ok, key_error}
use scarlet_coin.Crypto.{Crypto}
use scarlet_coin.Params.{ChainParams}
use scarlet_coin.Transaction.{OutPoint, outpoint_eq, Transaction, is_empty}
use scarlet_coin.Transaction.Codec.{txid}
use scarlet_coin.Block.{Block}
use scarlet_coin.Mempool.{MempoolEntry, Mempool, clear}
use scarlet_coin.Mempool.Invariant.{spends}
use scarlet_coin.Mempool.Accept.{ChainState, add}
use scarlet_coin.Mempool.Evict.{Shrinks}
use scarlet_coin.Mempool.Admission.{IsSound, IsSound-Shrinks}
use scarlet_coin.Mempool.Add.{IsAnswer, add_cases}
use scarlet_coin.Mempool.Blocks.{
  Run, and_then, catch_validation, transactions_of, confirm, try_add, add_all, revalidate,
  block_connected, block_disconnected,
}
use scarlet_coin.Mempool.Confirm.{is_spent_in, confirm-IsConfirmed}

-- Every entry's transaction satisfies `P`.
abbrev pub Every : (Transaction → Type 0) → Mempool → Type 0
Every P pool =
    (q : Bytes) (e : MempoolEntry) → lookup bytes_eq q pool.by_txid ≡ some e → P e.transaction

pub record IsHealthy (params : ChainParams) (max_bytes : ℕ) (pool : Mempool) : Type 0 where
  pub sound : IsSound params pool
  pub fits : pool.total_bytes ≤ max_bytes

pub IsHealthy-Shrinks :
    (params : ChainParams) (max_bytes : ℕ) (a b : Mempool)
    → IsHealthy params max_bytes a
    → Shrinks a b
    → IsHealthy params max_bytes b
IsHealthy-Shrinks params max_bytes a b h s = record {
  sound = IsSound-Shrinks params a b h.sound s;
  fits = omega (arith, h.fits, s.lighter);
}

pub clear-IsHealthy :
    (params : ChainParams) (max_bytes : ℕ) (pool : Mempool)
    → IsHealthy params max_bytes (clear pool)
unfolding clear lookup
clear-IsHealthy params max_bytes pool = record {
  sound = record {
    valid = record {
      distinct = tt;
      ordered = refl;
      counted = refl;
      named = λ q e x. absurd (cc x);
      owner = λ p id x. absurd (cc x);
      owned = λ p id e x y. absurd (cc x);
    };
    paid = λ q e x. absurd (cc x);
  };
  fits = omega arith;
}

lookup-clear :
    (pool : Mempool) (q : Bytes) (d : MempoolEntry)
    → ¬ (lookup bytes_eq q (clear pool).by_txid ≡ some d)
unfolding clear lookup
lookup-clear pool q d x = cc

transactions_of-All :
    (P : Transaction → Type 0) (ids : List Bytes) (m : Dict Bytes MempoolEntry)
    (txs : List Transaction)
    → ((q : Bytes) (e : MempoolEntry) → lookup bytes_eq q m ≡ some e → P e.transaction)
    → transactions_of ids m ≡ ok txs
    → All P txs
unfolding transactions_of
transactions_of-All P [] m txs every e =
    let none_left : [] ≡ txs = cc e in subst (All P) none_left tt
transactions_of-All P (id ∷ ids) m txs every e = elim (Option-cases (lookup bytes_eq id m)) [
  | inl x ↦
      let missing : transactions_of (id ∷ ids) m ≡ err key_error = rw (x, transactions_of) refl in
      absurd (cc (missing, e))
  | inr (d, x) ↦
      let found : transactions_of (id ∷ ids) m
          ≡ (transactions_of ids m >>= λ rest. ok (d.transaction ∷ rest)) =
        rw (x, transactions_of) refl in
      let (rest, e1, e2) = >>=-eq-ok (transactions_of ids m) _ (sym found ∙ e) in
      let whole : (d.transaction ∷ rest) ≡ txs = value e2 in
      subst (All P) whole (every id d x, transactions_of-All P ids m rest every e1)
]
  where
    value : {x y : List Transaction} → ok x ≡ ok y → x ≡ y
    value e = cc

module _ (divide : ℕ → ℕ → ℕ) (max_bytes : ℕ) (c : Crypto) (params : ChainParams)
    (chain : ChainState) (P : Transaction → Type 0) where
  -- A healthy pool whose transactions satisfy `P`.
  abbrev IsFine : Mempool → Type 0
  IsFine pool = IsHealthy params max_bytes pool × Every P pool

  answer-IsFine :
      (tx : Transaction) (pool : Mempool) (r : Result MempoolEntry × Mempool)
      → P tx
      → IsFine pool
      → IsAnswer divide max_bytes params tx pool r
      → IsFine r.1
  answer-IsFine tx pool r p h (inl (x, e)) = subst IsFine (sym (ap (λ t. t.1) e)) h
  answer-IsFine tx pool r p (h, every) (inr (d, pool', e, sound, fits, _, same, _, from)) =
      subst IsFine (sym (ap (λ t. t.1) e))
        (record { sound = sound; fits = fits }, λ q f x. ofP q f (from q f x))
    where
      ofP :
          (q : Bytes) (f : MempoolEntry)
          → (f ≡ d) ⊎ (lookup bytes_eq q pool.by_txid ≡ some f)
          → P f.transaction
      ofP q f (inl x) = subst P (sym (ap (λ (t : MempoolEntry). t.transaction) x ∙ same)) p
      ofP q f (inr x) = every q f x

  try_add-IsFine :
      (now : ℕ) (tx : Transaction) (pool : Mempool)
      → P tx
      → IsFine pool
      → IsFine (try_add divide max_bytes c params chain now tx pool).1
  unfolding try_add
  try_add-IsFine now tx pool p h = go (txid c tx)
    where
      go :
          (r : Result Bytes)
          → IsFine
              (elim r as (λ x. Run) [
                | err x ↦ (err x, pool)
                | ok id ↦
                    let (result, pool') =
                      add divide max_bytes c params chain now
                        (not (any (bytes_eq id) pool.verified))
                        tx
                        pool in
                    (catch_validation result, pool')
              ]).1
      go (err x) = h
      go (ok id) = answer-IsFine tx pool _ p h (
          add_cases divide max_bytes c params chain now (not (any (bytes_eq id) pool.verified)) tx
            pool h.0.sound)

  add_all-IsFine :
      (now : ℕ → ℕ) (txs : List Transaction) (pool : Mempool)
      → All P txs
      → IsFine pool
      → IsFine (add_all divide max_bytes c params chain now txs pool).1
  unfolding add_all
  add_all-IsFine now [] pool ps h = h
  add_all-IsFine now (tx ∷ txs) pool (p, ps) h =
      go (λ m k. add_all-IsFine now txs m ps k)
        (try_add divide max_bytes c params chain (now (length txs)) tx pool)
        (try_add-IsFine (now (length txs)) tx pool p h)
    where
      go :
          ((m : Mempool) → IsFine m → IsFine (add_all divide max_bytes c params chain now txs m).1)
          → (r : Run) → IsFine r.1
          → IsFine (and_then r (λ m. add_all divide max_bytes c params chain now txs m)).1
      go rec (ok a, m) k = rec m k
      go rec (err x, m) k = k

  revalidate-IsFine :
      (now : ℕ → ℕ) (pool : Mempool)
      → IsFine pool
      → IsFine (revalidate divide max_bytes c params chain now pool).1
  unfolding revalidate
  revalidate-IsFine now pool h = elim (Bool-cases (is_empty pool.by_txid)) [
    | inl x ↦ rw x h
    | inr x ↦ rw x (go (transactions_of pool.order pool.by_txid) refl)
  ]
    where
      go :
          (r : Result (List Transaction))
          → transactions_of pool.order pool.by_txid ≡ r
          → IsFine
              (elim r as (λ y. Run) [
                | err x ↦ (err x, pool)
                | ok txs ↦ add_all divide max_bytes c params chain now txs (clear pool)
              ]).1
      go (err x) e = h
      go (ok txs) e =
          add_all-IsFine now txs (clear pool)
            (transactions_of-All P pool.order pool.by_txid txs h.1 e)
            (clear-IsHealthy params max_bytes pool, λ q d x. absurd (lookup-clear pool q d x))

-- No property is asked of the transactions.
abbrev Any : Transaction → Type 0
Any tx = Unit

All-Any : (txs : List Transaction) → All Any txs
All-Any [] = tt
All-Any (tx ∷ txs) = (tt, All-Any txs)

-- What does not spend `p`.
abbrev Spares : OutPoint → Transaction → Type 0
Spares p tx = spends p tx.inputs ≡ false

module _ (divide : ℕ → ℕ → ℕ) (max_bytes : ℕ) (c : Crypto) (params : ChainParams)
    (chain : ChainState) where
  pub block_connected-IsHealthy :
      (now : ℕ → ℕ) (block : Block) (pool : Mempool)
      → IsHealthy params max_bytes pool
      → IsHealthy params max_bytes
          (block_connected divide max_bytes c params chain now block pool).1
  unfolding block_connected
  block_connected-IsHealthy now block pool h = go (confirm c block.transactions pool) (
      IsHealthy-Shrinks params max_bytes pool _ h
        (confirm-IsConfirmed c block.transactions pool h.sound.valid).0)
    where
      go :
          (r : Run)
          → IsHealthy params max_bytes r.1
          → IsHealthy params max_bytes
              (and_then r (λ m. revalidate divide max_bytes c params chain now m)).1
      go (ok a, m) k =
          (revalidate-IsFine divide max_bytes c params chain Any now m (k, λ q e x. tt)).0
      go (err x, m) k = k

  pub block_disconnected-IsHealthy :
      (back now : ℕ → ℕ) (block : Block) (pool : Mempool)
      → IsHealthy params max_bytes pool
      → IsHealthy params max_bytes
          (block_disconnected divide max_bytes c params chain back now block pool).1
  unfolding block_disconnected
  block_disconnected-IsHealthy back now block pool h =
      go (add_all divide max_bytes c params chain back (drop 1 block.transactions) pool)
        (add_all-IsFine divide max_bytes c params chain Any back (drop 1 block.transactions) pool
          (All-Any (drop 1 block.transactions)) (h, λ q e x. tt)).0
    where
      go :
          (r : Run)
          → IsHealthy params max_bytes r.1
          → IsHealthy params max_bytes
              (and_then r (λ m. revalidate divide max_bytes c params chain now m)).1
      go (ok a, m) k =
          (revalidate-IsFine divide max_bytes c params chain Any now m (k, λ q e x. tt)).0
      go (err x, m) k = k

  -- When `block_connected` returns on a valid pool within its limits, no pooled transaction spends
  -- an output that a transaction of the block spends.
  pub block_connected_unspent :
      (now : ℕ → ℕ) (block : Block) (pool : Mempool) (p : OutPoint)
      → IsHealthy params max_bytes pool
      → (block_connected divide max_bytes c params chain now block pool).0 ≡ ok tt
      → is_spent_in p block.transactions ≡ true
      → lookup outpoint_eq p
          (block_connected divide max_bytes c params chain now block pool).1.spent_by
        ≡ none
  unfolding block_connected
  block_connected_unspent now block pool p h e x =
      let (s, free) = confirm-IsConfirmed c block.transactions pool h.sound.valid in
      go (confirm c block.transactions pool) (IsHealthy-Shrinks params max_bytes pool _ h s)
        (λ y. free y p x) e
    where
      spared :
          (m : Mempool)
          → IsHealthy params max_bytes m
          → lookup outpoint_eq p m.spent_by ≡ none
          → Every (Spares p) m
      spared m k free q d y = elim (Bool-cases (spends p d.transaction.inputs)) [
        | inl z ↦ absurd (cc (free, k.sound.valid.owned p q d y z))
        | inr z ↦ z
      ]

      unspent :
          (m : Mempool)
          → IsHealthy params max_bytes m
          → Every (Spares p) m
          → lookup outpoint_eq p m.spent_by ≡ none
      unspent m k every = elim (Option-cases (lookup outpoint_eq p m.spent_by)) [
        | inl y ↦ y
        | inr (q, y) ↦
            let (d, known, z) = k.sound.valid.owner p q y in absurd (cc (every q d known, z))
      ]

      go :
          (r : Run)
          → IsHealthy params max_bytes r.1
          → (r.0 ≡ ok tt → lookup outpoint_eq p r.1.spent_by ≡ none)
          → (and_then r (λ m. revalidate divide max_bytes c params chain now m)).0 ≡ ok tt
          → lookup outpoint_eq p
              (and_then r (λ m. revalidate divide max_bytes c params chain now m)).1.spent_by
            ≡ none
      go (ok a, m) k free y =
          let (k', every) =
            revalidate-IsFine divide max_bytes c params chain (Spares p) now m
              (k, spared m k (free refl)) in
          unspent _ k' every
      go (err z, m) k free y = absurd (cc y)
