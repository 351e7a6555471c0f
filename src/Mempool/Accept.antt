-- ===== src/Mempool/Accept.antt =====
-- src/scarletcoin/core/mempool.py: `add` and what it calls.
use scarlet_coin.Prelude.{
  ℕ, ◌+◌, ◌*◌, ◌/◌, max, Bool, true, false, not, ◌&&◌, ◌||◌, Option, none, some, List, [], ◌∷◌, ltb,
  leb, ◌==◌, if◌then◌else◌, any, length, map, get_elem?,
}
use scarlet_coin.Prelude.Sort.{sorted}
use scarlet_coin.Prelude.Bytes.{Bytes, bytes_eq}
use scarlet_coin.Prelude.Dict.{Dict, values, lookup}
use scarlet_coin.Outcome.{
  Result, ok, err, ◌>>=◌, ◌>>◌, raise_if, each, transaction_error, mempool_error, key_error,
}
use scarlet_coin.Crypto.{Crypto}
use scarlet_coin.Transaction.{
  OutPoint, outpoint_eq, TxInput, TxOutput, Transaction, is_coinbase, is_replaceable, is_empty,
  check_sanity,
}
use scarlet_coin.Transaction.Codec.{txid, size}
use scarlet_coin.Params.{ChainParams}
use scarlet_coin.Utxo.{Coin, CoinView}
use scarlet_coin.Validation.{check_transaction_final, check_transaction_inputs}
use scarlet_coin.Mempool.{MempoolEntry, Mempool, insert, remove}

-- `is not None` of a lookup
unfoldable pub is_some {ℓ} : {A : Type ℓ} → Option A → Bool
is_some none = false
is_some (some a) = true

-- What the pool asks the chain: `height`, `get_coin`, and whether `get_transaction` finds the id.
pub record ChainState : Type 0 where
  pub height : ℕ
  pub get_coin : CoinView
  pub has_transaction : Bytes → Bool

-- The output of a pooled transaction as a coin; `none` past the last one.
unfoldable pub unconfirmed_coin : ℕ → Option TxOutput → Option Coin
unconfirmed_coin height none = none
unconfirmed_coin height (some o) = some (record {
  value = o.value;
  output_type = o.type;
  payload = o.payload;
  height = height;
  is_coinbase = false;
})

-- `_PoolView.get_coin`
unfoldable pub pool_view : Mempool → ChainState → ℕ → List OutPoint → CoinView
unfolding unconfirmed_coin is_some
pool_view pool chain height ignored p =
    if is_some (lookup outpoint_eq p pool.spent_by) && not (any (outpoint_eq p) ignored)
    then none
    else elim (lookup bytes_eq p.txid pool.by_txid) [
      | none ↦ chain.get_coin p
      | some e ↦ unconfirmed_coin height (get_elem? e.transaction.outputs p.index)
    ]

unfoldable pub note_owner : Option Bytes → List Bytes → List Bytes
note_owner none owners = owners
note_owner (some id) owners = if any (bytes_eq id) owners then owners else id ∷ owners

-- The set `conflicts`, as a list with no id twice; its order decides nothing but the error's text.
unfoldable pub conflicts : List TxInput → Dict OutPoint Bytes → List Bytes
unfolding note_owner
conflicts [] spent_by = []
conflicts (i ∷ is) spent_by =
    note_owner (lookup outpoint_eq i.prevout spent_by) (conflicts is spent_by)

-- The ceiling of `size * rate / 1000`. The quotient is exact here; the float one has the same ceiling
-- while the product has at most 40 bits.
unfoldable pub minimum_fee : ChainParams → ℕ → ℕ
minimum_fee params size = max 1 ((size * params.min_relay_fee_per_kb + 999) / 1000)

abbrev pub max_verified_cache : ℕ
max_verified_cache = 100000

unfoldable pub remember_verified : Bytes → Mempool → Mempool
remember_verified id pool =
    if leb max_verified_cache (length pool.verified)
    then record pool { verified = id ∷ [] }
    else if any (bytes_eq id) pool.verified
    then pool
    else record pool { verified = id ∷ pool.verified }

-- `except TransactionError`
abbrev pub as_mempool_error {ℓ} : {A : Type ℓ} → Result A → Result A
as_mempool_error (err transaction_error) = err mempool_error
as_mempool_error r = r

-- The local variables of `add` once the inputs have been checked.
pub record Candidate : Type 0 where
  pub id : Bytes
  pub size : ℕ
  pub replaces : List Bytes
  pub fee : ℕ

-- The two loops of `_replace_conflicts`
unfoldable pub check_conflict : ℕ → ℕ → Mempool → Bytes → Result (Unit {0})
check_conflict fee size pool id = elim (lookup bytes_eq id pool.by_txid) [
  | none ↦ err key_error
  | some old ↦
      raise_if (not (is_replaceable old.transaction)) mempool_error
      >> raise_if (leb (fee * old.size) (old.fee * size)) mempool_error
]

unfoldable pub remove_each : List Bytes → Mempool → Result Mempool
remove_each [] pool = ok pool
remove_each (id ∷ ids) pool = remove true id pool >>= λ (removed, pool'). remove_each ids pool'

unfoldable pub replace_conflicts : Transaction → ℕ → ℕ → List Bytes → Mempool → Result Mempool
unfolding check_conflict remove_each
replace_conflicts tx fee size ids pool = do
  raise_if (not (is_replaceable tx)) mempool_error
  each (check_conflict fee size pool) ids
  remove_each ids pool

unfoldable pub make_way : Transaction → Candidate → Mempool → Result Mempool
unfolding replace_conflicts
make_way tx cand pool =
    if is_empty cand.replaces
    then ok pool
    else replace_conflicts tx cand.fee cand.size cand.replaces pool

module _ (c : Crypto) (params : ChainParams) (chain : ChainState) where
  -- The checks that need no coin; the size.
  unfoldable pub screen : Bytes → Transaction → Mempool → Result ℕ
  unfolding is_some
  screen id tx pool = do
    raise_if (is_some (lookup bytes_eq id pool.by_txid)) mempool_error
    as_mempool_error (check_sanity params.min_output_value tx)
    raise_if (is_coinbase tx) mempool_error
    raise_if (chain.has_transaction id) mempool_error
    raise_if (not (check_transaction_final tx (chain.height + 1))) mempool_error
    size ← size tx
    raise_if (ltb (params.max_block_size / 2) size) mempool_error
    ok size

  -- The fee, on the coins as they are when the conflicts are ignored.
  unfoldable pub price : Bool → Bytes → List Bytes → Transaction → Mempool → Result ℕ
  unfolding pool_view
  price verify_signatures id owners tx pool =
      check_transaction_inputs c
        (pool_view pool chain (chain.height + 1)
          (if is_empty owners then [] else map (λ (i : TxInput). i.prevout) tx.inputs))
        (chain.height + 1) params (verify_signatures && not (any (bytes_eq id) pool.verified)) tx

  -- `add` up to the fee: nothing has changed yet.
  unfoldable pub examine : Bool → Transaction → Mempool → Result Candidate
  unfolding screen price conflicts
  examine verify_signatures tx pool = do
    id ← txid c tx
    size ← screen id tx pool
    let owners = conflicts tx.inputs pool.spent_by
    fee ← price verify_signatures id owners tx pool
    ok (record { id = id; size = size; replaces = owners; fee = fee })

-- `divide a b` is the float `a / b`, as a number that has its place in the order of the floats (a
-- float that is not negative is ordered as its bits are).
module _ (divide : ℕ → ℕ → ℕ) where
  unfoldable pub fee_rate : MempoolEntry → ℕ
  fee_rate e = if e.size == 0 then 0 else divide (e.fee * 1000) e.size

  -- by `(e.fee_rate, -e.received)`
  unfoldable pub is_cheaper : MempoolEntry → MempoolEntry → Bool
  unfolding fee_rate
  is_cheaper a b =
      ltb (fee_rate a) (fee_rate b) || (fee_rate a == fee_rate b && ltb b.received a.received)

  module _ (max_bytes : ℕ) where
    unfoldable pub evict_loop : List MempoolEntry → Mempool → Result Mempool
    evict_loop [] pool = ok pool
    evict_loop (e ∷ es) pool =
        if leb pool.total_bytes max_bytes
        then ok pool
        else (remove true e.txid pool >>= λ (removed, pool'). evict_loop es pool')

    unfoldable pub evict_if_needed : Mempool → Result Mempool
    unfolding evict_loop is_cheaper sorted
    evict_if_needed pool =
        if leb pool.total_bytes max_bytes
        then ok pool
        else evict_loop (sorted is_cheaper (values pool.by_txid)) pool

    unfoldable pub enter : MempoolEntry → Mempool → Result MempoolEntry × Mempool
    unfolding evict_if_needed remember_verified
    enter e pool = elim (evict_if_needed (insert e (remember_verified e.txid pool))) [
      | err x ↦ (err x, pool)
      | ok pool' ↦ (ok e, pool')
    ]

    unfoldable pub add_checked :
        ChainParams
        → ℕ
        → Transaction
        → Candidate
        → Result Mempool
        → Mempool
        → Result MempoolEntry × Mempool
    unfolding enter minimum_fee
    add_checked params now tx cand (err x) pool = (err x, pool)
    add_checked params now tx cand (ok room) pool =
        if ltb cand.fee (minimum_fee params cand.size)
        then (err mempool_error, room)
        else enter
            (record {
              transaction = tx;
              txid = cand.id;
              fee = cand.fee;
              size = cand.size;
              received = now;
            })
            room

    module _ (c : Crypto) (params : ChainParams) (chain : ChainState) where
      -- The entry or the exception, and the pool after the call; `now` is `time.time()`.
      unfoldable pub add : ℕ → Bool → Transaction → Mempool → Result MempoolEntry × Mempool
      unfolding examine make_way add_checked
      add now verify_signatures tx pool = elim (examine c params chain verify_signatures tx pool) [
        | err x ↦ (err x, pool)
        | ok cand ↦ add_checked params now tx cand (make_way tx cand pool) pool
      ]
