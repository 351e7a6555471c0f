-- ===== src/Mempool/Invariant.antt =====
-- What holds of the pool between two calls, and that entering and taking out one entry keep it.
use scarlet_coin.Prelude.{
  ℕ, ◌+◌, ◌-◌, ◌≤◌, ◌≡◌, refl, ◌∙◌, sym, ap, ◌↔◌, ◌⊎◌, inl, inr, Bool, true, false, ◌&&◌, ◌||◌,
  Option, none, some, List, [], ◌∷◌, ◌++◌, arith, if◌then◌else◌, Bool-cases,
}
use scarlet_coin.Prelude.Bytes.{Bytes, bytes_eq, bytes_eq_iff}
use scarlet_coin.Prelude.Dict.{
  Dict, keys, lookup, delete, store, IsDict, sum_by, lookup-delete, lookup-store, delete-IsDict,
  store-IsDict, sum_by-delete, sum_by-store, keys-store, remove_item-keys, remove_item,
}
use scarlet_coin.Outcome.{ok}
use scarlet_coin.Transaction.{OutPoint, outpoint_eq, TxInput}
use scarlet_coin.Transaction.Sanity.{outpoint_eq_iff}
use scarlet_coin.Mempool.{MempoolEntry, Mempool, weight, claim, insert, owned_by, release, take_out}

-- One of the inputs spends `p`.
unfoldable pub spends : OutPoint → List TxInput → Bool
spends p [] = false
spends p (i ∷ is) = outpoint_eq i.prevout p || spends p is

pub lookup-release :
    (id : Bytes) (is : List TxInput) (m : Dict OutPoint Bytes) (p : OutPoint)
    → lookup outpoint_eq p (release id is m) ≡ (
        if spends p is && owned_by id (lookup outpoint_eq p m)
        then none
        else lookup outpoint_eq p m)
unfolding release spends
lookup-release id [] m p = refl
lookup-release id (i ∷ is) m p = ground (
  arith,
  lookup-release id is (delete outpoint_eq i.prevout m) p,
  lookup-release id is m p,
  lookup-delete outpoint_eq outpoint_eq_iff i.prevout p m,
  outpoint_eq_iff i.prevout p,
)

pub lookup-claim :
    (id : Bytes) (is : List TxInput) (m : Dict OutPoint Bytes) (p : OutPoint)
    → lookup outpoint_eq p (claim id is m)
      ≡ (if spends p is then some id else lookup outpoint_eq p m)
unfolding claim spends
lookup-claim id [] m p = refl
lookup-claim id (i ∷ is) m p = ground (
  arith,
  lookup-claim id is (store outpoint_eq i.prevout id m) p,
  lookup-store outpoint_eq outpoint_eq_iff i.prevout p id m,
)

abbrev pub size_of : MempoolEntry → ℕ
size_of e = e.size

-- The dictionaries, the list and the count describe one set of entries: each entry stands under its
-- own id, `order` lists the ids, `total_bytes` is the sum of the sizes, and the owner of an outpoint
-- is the entry that spends it.
pub record IsPool (pool : Mempool) : Type 0 where
  pub distinct : IsDict bytes_eq pool.by_txid
  pub ordered : pool.order ≡ keys pool.by_txid
  pub counted : pool.total_bytes ≡ sum_by size_of pool.by_txid
  pub named :
      (id : Bytes) (e : MempoolEntry) → lookup bytes_eq id pool.by_txid ≡ some e → e.txid ≡ id
  pub owner :
      (p : OutPoint) (id : Bytes)
      → (lookup outpoint_eq p pool.spent_by ≡ some id)
      → (e : MempoolEntry) × (lookup bytes_eq id pool.by_txid ≡ some e)
        × (spends p e.transaction.inputs ≡ true)
  pub owned :
      (p : OutPoint) (id : Bytes) (e : MempoolEntry)
      → lookup bytes_eq id pool.by_txid ≡ some e
      → spends p e.transaction.inputs ≡ true
      → lookup outpoint_eq p pool.spent_by ≡ some id

pub owned_by_iff : (id : Bytes) (o : Option Bytes) → (owned_by id o ≡ true) ↔ (o ≡ some id)
unfolding owned_by
owned_by_iff id none = (λ h. cc, λ h. cc)
owned_by_iff id (some q) = ground (arith, bytes_eq_iff q id)

-- Taking out an entry of the pool succeeds.
pub taken : Bytes → MempoolEntry → Mempool → Mempool
taken id e pool = record pool {
  by_txid = delete bytes_eq id pool.by_txid;
  order = keys (delete bytes_eq id pool.by_txid);
  total_bytes = pool.total_bytes - e.size;
  spent_by = release id e.transaction.inputs pool.spent_by;
}

pub take_out-taken :
    (id : Bytes) (e : MempoolEntry) (pool : Mempool)
    → IsPool pool
    → lookup bytes_eq id pool.by_txid ≡ some e
    → take_out id e pool ≡ ok (taken id e pool)
unfolding take_out taken
take_out-taken id e pool h known =
    let listed : remove_item bytes_eq id pool.order
        ≡ some (keys (delete bytes_eq id pool.by_txid)) =
      ap (remove_item bytes_eq id) h.ordered
      ∙ remove_item-keys bytes_eq bytes_eq_iff id e pool.by_txid h.distinct known in
    rw (listed, take_out) refl

pub lookup-taken :
    (id q : Bytes) (e : MempoolEntry) (pool : Mempool)
    → lookup bytes_eq q (taken id e pool).by_txid
      ≡ (if bytes_eq id q then none else lookup bytes_eq q pool.by_txid)
unfolding taken
lookup-taken id q e pool = lookup-delete bytes_eq bytes_eq_iff id q pool.by_txid

pub total_bytes-taken :
    (id : Bytes) (e : MempoolEntry) (pool : Mempool)
    → (taken id e pool).total_bytes ≤ pool.total_bytes
unfolding taken
total_bytes-taken id e pool = omega arith

pub weight-taken :
    (id : Bytes) (e : MempoolEntry) (pool : Mempool)
    → IsPool pool
    → lookup bytes_eq id pool.by_txid ≡ some e
    → sum_by weight (taken id e pool).by_txid + weight e ≡ sum_by weight pool.by_txid
unfolding taken
weight-taken id e pool h known =
    sum_by-delete bytes_eq bytes_eq_iff weight id e pool.by_txid h.distinct known

pub owner-taken :
    (id : Bytes) (e : MempoolEntry) (pool : Mempool) (p : OutPoint)
    → lookup outpoint_eq p (taken id e pool).spent_by ≡ (
        if spends p e.transaction.inputs && owned_by id (lookup outpoint_eq p pool.spent_by)
        then none
        else lookup outpoint_eq p pool.spent_by)
unfolding taken
owner-taken id e pool p = lookup-release id e.transaction.inputs pool.spent_by p

module _ (id : Bytes) (e : MempoolEntry) (pool : Mempool) (h : IsPool pool)
    (known : lookup bytes_eq id pool.by_txid ≡ some e) where
  -- An owner that is left was the owner before, and is not the entry taken out.
  pub owner-taken_left :
      (p : OutPoint) (q : Bytes)
      → lookup outpoint_eq p (taken id e pool).spent_by ≡ some q
      → (lookup outpoint_eq p pool.spent_by ≡ some q) × (bytes_eq id q ≡ false)
  owner-taken_left p q x =
      let before : lookup outpoint_eq p pool.spent_by ≡ some q =
        ground (arith, owner-taken id e pool p) in
      let (d, e1, e2) = h.owner p q before in (before, other d e1 e2 before)
    where
      other :
          (d : MempoolEntry)
          → lookup bytes_eq q pool.by_txid ≡ some d
          → spends p d.transaction.inputs ≡ true
          → lookup outpoint_eq p pool.spent_by ≡ some q
          → bytes_eq id q ≡ false
      other d e1 e2 before = ground (
        arith,
        owner-taken id e pool p,
        owned_by_iff id (lookup outpoint_eq p pool.spent_by),
        bytes_eq_iff id q,
      )

  taken_owner :
      (p : OutPoint) (q : Bytes)
      → lookup outpoint_eq p (taken id e pool).spent_by ≡ some q
      → (d : MempoolEntry) × (lookup bytes_eq q (taken id e pool).by_txid ≡ some d)
        × (spends p d.transaction.inputs ≡ true)
  taken_owner p q x =
      let (before, other) = owner-taken_left p q x in
      let (d, e1, e2) = h.owner p q before in (d, rw (lookup-taken id q e pool, other) e1, e2)

  taken_owned :
      (p : OutPoint) (q : Bytes) (d : MempoolEntry)
      → lookup bytes_eq q (taken id e pool).by_txid ≡ some d
      → spends p d.transaction.inputs ≡ true
      → lookup outpoint_eq p (taken id e pool).spent_by ≡ some q
  taken_owned p q d x y = ground (
    arith,
    lookup-taken id q e pool,
    owner-taken id e pool p,
    h.owned p q d,
    owned_by_iff id (lookup outpoint_eq p pool.spent_by),
    bytes_eq_iff id q,
  )

pub taken-IsPool :
    (id : Bytes) (e : MempoolEntry) (pool : Mempool)
    → IsPool pool
    → lookup bytes_eq id pool.by_txid ≡ some e
    → IsPool (taken id e pool)
unfolding taken
taken-IsPool id e pool h known = record {
  distinct = delete-IsDict bytes_eq bytes_eq_iff id pool.by_txid h.distinct;
  ordered = refl;
  counted = omega (
    arith,
    h.counted,
    sum_by-delete bytes_eq bytes_eq_iff size_of id e pool.by_txid h.distinct known,
  );
  named = λ q d x. ground (arith, lookup-taken id q e pool, h.named q d);
  owner = λ p q x. taken_owner id e pool h known p q x;
  owned = λ p q d x y. taken_owned id e pool h known p q d x y;
}

-- An entry whose id is new and whose inputs no entry spends may enter.
pub insert-IsPool :
    (e : MempoolEntry) (pool : Mempool)
    → IsPool pool
    → lookup bytes_eq e.txid pool.by_txid ≡ none
    → ((p : OutPoint)
        → spends p e.transaction.inputs ≡ true
        → lookup outpoint_eq p pool.spent_by ≡ none)
    → IsPool (insert e pool)
unfolding insert
insert-IsPool e pool h fresh free = record {
  distinct = store-IsDict bytes_eq bytes_eq_iff e.txid e pool.by_txid h.distinct;
  ordered =
      ap (λ ids. ids ++ (e.txid ∷ [])) h.ordered
      ∙ sym (keys-store bytes_eq bytes_eq_iff e.txid e pool.by_txid fresh);
  counted =
      omega
        (arith, h.counted, sum_by-store bytes_eq bytes_eq_iff size_of e.txid e pool.by_txid fresh);
  named = λ q d x. ground (
    arith,
    h.named q d,
    lookup-store bytes_eq bytes_eq_iff e.txid q e pool.by_txid,
    bytes_eq_iff e.txid q,
  );
  owner = λ p q x. insert_owner p q (Bool-cases (spends p e.transaction.inputs)) x;
  owned = λ p q d x y. ground (
    arith,
    h.owned p q d,
    free p,
    lookup-store bytes_eq bytes_eq_iff e.txid q e pool.by_txid,
    bytes_eq_iff e.txid q,
    lookup-claim e.txid e.transaction.inputs pool.spent_by p,
  );
}
  where
    insert_owner :
        (p : OutPoint) (q : Bytes)
        → (spends p e.transaction.inputs ≡ true) ⊎ (spends p e.transaction.inputs ≡ false)
        → lookup outpoint_eq p (claim e.txid e.transaction.inputs pool.spent_by) ≡ some q
        → (d : MempoolEntry) × (lookup bytes_eq q (store bytes_eq e.txid e pool.by_txid) ≡ some d)
          × (spends p d.transaction.inputs ≡ true)
    insert_owner p q (inl s) x = (
      e,
      ground (
        arith,
        lookup-store bytes_eq bytes_eq_iff e.txid q e pool.by_txid,
        bytes_eq_iff e.txid q,
        lookup-claim e.txid e.transaction.inputs pool.spent_by p,
      ),
      s,
    )
    insert_owner p q (inr s) x =
        let before : lookup outpoint_eq p pool.spent_by ≡ some q =
          ground (arith, lookup-claim e.txid e.transaction.inputs pool.spent_by p) in
        let (d, e1, e2) = h.owner p q before in (d, old d e1, e2)
      where
        old :
            (d : MempoolEntry)
            → lookup bytes_eq q pool.by_txid ≡ some d
            → lookup bytes_eq q (store bytes_eq e.txid e pool.by_txid) ≡ some d
        old d e1 = ground (
          arith,
          lookup-store bytes_eq bytes_eq_iff e.txid q e pool.by_txid,
          bytes_eq_iff e.txid q,
        )
