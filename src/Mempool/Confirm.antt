-- ===== src/Mempool/Confirm.antt =====
-- What `block_connected` takes out of the pool before it checks the rest again.
use scarlet_coin.Prelude.{
  ◌≡◌, refl, ◌∙◌, sym, ap, subst, inl, inr, Bool, true, false, ◌||◌, none, some, List, [], ◌∷◌,
  arith, any, Bool-cases, Option-cases,
}
use scarlet_coin.Prelude.Bytes.{Bytes, bytes_eq}
use scarlet_coin.Prelude.Dict.{lookup}
use scarlet_coin.Outcome.{Result, ok, err}
use scarlet_coin.Crypto.{Crypto}
use scarlet_coin.Transaction.{OutPoint, outpoint_eq, TxInput, Transaction}
use scarlet_coin.Transaction.Codec.{txid}
use scarlet_coin.Transaction.Sanity.{outpoint_eq_sound}
use scarlet_coin.Mempool.{Mempool}
use scarlet_coin.Mempool.Invariant.{IsPool, spends}
use scarlet_coin.Mempool.Evict.{Shrinks, self-Shrinks, then-Shrinks, remove-Shrinks}
use scarlet_coin.Mempool.Blocks.{
  Run, and_then, drop_transaction, drop_owner, drop_conflicts, confirm,
}

-- An outpoint that no entry spends is spent by none after a removal.
unspent-Shrinks :
    (a b : Mempool) (p : OutPoint)
    → IsPool a
    → Shrinks a b
    → lookup outpoint_eq p a.spent_by ≡ none
    → lookup outpoint_eq p b.spent_by ≡ none
unspent-Shrinks a b p h s x = elim (Option-cases (lookup outpoint_eq p b.spent_by)) [
  | inl y ↦ y
  | inr (id, y) ↦
      let (e, known, spent) = s.valid.owner p id y in
      absurd (cc (x, h.owned p id e (s.part id e known) spent))
]

-- `remove` as the listener calls it.
pub drop_transaction-Shrinks :
    (deep : Bool) (id : Bytes) (pool : Mempool)
    → IsPool pool
    → (pool' : Mempool) × (drop_transaction deep id pool ≡ (ok tt, pool'))
      × Shrinks pool pool'
      × (lookup bytes_eq id pool'.by_txid ≡ none)
unfolding drop_transaction
drop_transaction-Shrinks deep id pool h =
    let (removed, pool', run, s, gone) = remove-Shrinks deep id pool h in
    (pool', rw (run, drop_transaction) refl, s, gone)

drop_owner-Shrinks :
    (p : OutPoint) (pool : Mempool)
    → IsPool pool
    → (pool' : Mempool) × (drop_owner (lookup outpoint_eq p pool.spent_by) pool ≡ (ok tt, pool'))
      × Shrinks pool pool'
      × (lookup outpoint_eq p pool'.spent_by ≡ none)
unfolding drop_owner
drop_owner-Shrinks p pool h = elim (Option-cases (lookup outpoint_eq p pool.spent_by)) [
  | inl x ↦ (pool, ap (λ o. drop_owner o pool) x, self-Shrinks pool h, x)
  | inr (id, x) ↦
      let (pool', run, s, gone) = drop_transaction-Shrinks true id pool h in
      (pool', ap (λ o. drop_owner o pool) x ∙ run, s, freed id pool' s x gone)
]
  where
    freed :
        (id : Bytes) (pool' : Mempool)
        → Shrinks pool pool'
        → lookup outpoint_eq p pool.spent_by ≡ some id
        → lookup bytes_eq id pool'.by_txid ≡ none
        → lookup outpoint_eq p pool'.spent_by ≡ none
    freed id pool' s x gone = elim (Option-cases (lookup outpoint_eq p pool'.spent_by)) [
      | inl y ↦ y
      | inr (q, y) ↦
          let (e, known, spent) = s.valid.owner p q y in
          let before = h.owned p q e (s.part q e known) spent in
          absurd (cc (x, before, known, gone))
    ]

drop_conflicts-Shrinks :
    (is : List TxInput) (pool : Mempool)
    → IsPool pool
    → (pool' : Mempool) × (drop_conflicts is pool ≡ (ok tt, pool'))
      × Shrinks pool pool'
      × ((p : OutPoint) → spends p is ≡ true → lookup outpoint_eq p pool'.spent_by ≡ none)
unfolding drop_conflicts spends
drop_conflicts-Shrinks [] pool h = (pool, refl, self-Shrinks pool h, λ p x. absurd (cc x))
drop_conflicts-Shrinks (i ∷ is) pool h =
    let (next, run, s, free) = drop_owner-Shrinks i.prevout pool h in
    let (pool', run', s', rest) = drop_conflicts-Shrinks is next s.valid in
    (
      pool',
      ap (λ r. and_then r (λ m. drop_conflicts is m)) run ∙ run',
      then-Shrinks pool next pool' s s',
      λ p x. elim (Bool-cases (outpoint_eq i.prevout p)) [
        | inl y ↦
            let same : i.prevout ≡ p = outpoint_eq_sound i.prevout p y in
            unspent-Shrinks next pool' p s.valid s'
              (subst (λ q. lookup outpoint_eq q next.spent_by ≡ none) same free)
        | inr y ↦ rest p (other p x y)
      ],
    )
  where
    other :
        (p : OutPoint)
        → (outpoint_eq i.prevout p || spends p is) ≡ true
        → outpoint_eq i.prevout p ≡ false
        → spends p is ≡ true
    other p x y = ground arith

-- A transaction of the list spends the outpoint.
abbrev pub is_spent_in : OutPoint → List Transaction → Bool
is_spent_in p = any (λ (tx : Transaction). spends p tx.inputs)

spent_later :
    (p : OutPoint) (tx : Transaction) (txs : List Transaction)
    → is_spent_in p (tx ∷ txs) ≡ true
    → spends p tx.inputs ≡ false
    → is_spent_in p txs ≡ true
spent_later p tx txs x y = ground arith

-- The loop of `block_connected` only removes; when it ends, nothing in the pool spends what the
-- transactions spend.
abbrev pub IsConfirmed : List Transaction → Mempool → Run → Type 0
IsConfirmed txs pool run =
    Shrinks pool run.1
    × (run.0 ≡ ok tt
        → (p : OutPoint) → is_spent_in p txs ≡ true
        → lookup outpoint_eq p run.1.spent_by ≡ none)

pub confirm-IsConfirmed :
    (c : Crypto) (txs : List Transaction) (pool : Mempool)
    → IsPool pool
    → IsConfirmed txs pool (confirm c txs pool)
unfolding confirm
confirm-IsConfirmed c [] pool h = (self-Shrinks pool h, λ e p x. absurd (cc x))
confirm-IsConfirmed c (tx ∷ txs) pool h = go (λ m k. confirm-IsConfirmed c txs m k) (txid c tx)
  where
    go :
        ((m : Mempool) → IsPool m → IsConfirmed txs m (confirm c txs m))
        → (r : Result Bytes)
        → IsConfirmed (tx ∷ txs) pool (elim r [
          | err x ↦ (err x, pool)
          | ok id ↦
              and_then
                (drop_transaction false id pool)
                (λ pool1. and_then (drop_conflicts tx.inputs pool1) (λ pool2. confirm c txs pool2))
        ])
    go rec (err x) = (self-Shrinks pool h, λ e. absurd (cc e))
    go rec (ok id) =
        let (pool1, run1, s1, _) = drop_transaction-Shrinks false id pool h in
        let (pool2, run2, s2, free) = drop_conflicts-Shrinks tx.inputs pool1 s1.valid in
        let (s3, rest) = rec pool2 s2.valid in
        let joined : confirm c txs pool2
            ≡ and_then (drop_transaction false id pool) (λ pool1.
              and_then (drop_conflicts tx.inputs pool1) (λ pool2. confirm c txs pool2)) =
          sym (
            ap
              (λ r.
                and_then r (λ pool1.
                  and_then (drop_conflicts tx.inputs pool1) (λ pool2. confirm c txs pool2)))
              run1
            ∙ ap (λ r. and_then r (λ pool2. confirm c txs pool2)) run2) in
        subst (IsConfirmed (tx ∷ txs) pool) joined (
          then-Shrinks pool pool1 _ s1 (then-Shrinks pool1 pool2 _ s2 s3),
          λ e p x. elim (Bool-cases (spends p tx.inputs)) [
            | inl y ↦ unspent-Shrinks pool2 _ p s2.valid s3 (free p y)
            | inr y ↦ rest e p (spent_later p tx txs x y)
          ],
        )
