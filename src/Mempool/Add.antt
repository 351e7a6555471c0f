-- ===== src/Mempool/Add.antt =====
-- `add` as a whole: what it keeps, what an accepted transaction has, and what a refusal leaves.
use scarlet_coin.Prelude.{
  ℕ, ◌≤◌, ◌≡◌, refl, ◌∙◌, sym, ap, subst, ◌⊎◌, inl, inr, Bool, true, none, some, arith, ltb,
  Bool-cases, Option-cases,
}
use scarlet_coin.Prelude.Bytes.{Bytes, bytes_eq, bytes_eq_iff}
use scarlet_coin.Prelude.Dict.{lookup, store, lookup-store}
use scarlet_coin.Outcome.{Result, ok, err, Error, mempool_error}
use scarlet_coin.Crypto.{Crypto}
use scarlet_coin.Params.{ChainParams}
use scarlet_coin.Transaction.{OutPoint, outpoint_eq, Transaction}
use scarlet_coin.Mempool.{MempoolEntry, Mempool, insert}
use scarlet_coin.Mempool.Invariant.{IsPool, insert-IsPool, spends}
use scarlet_coin.Mempool.Children.{mem}
use scarlet_coin.Mempool.Accept.{
  ChainState, Candidate, conflicts, minimum_fee, remember_verified, make_way, examine, enter,
  add_checked, add,
}
use scarlet_coin.Mempool.Evict.{Shrinks, absent-Shrinks, evict_if_needed-fits}
use scarlet_coin.Mempool.Admission.{
  IsSound, conflicts_complete, examine_fresh, IsSound-Shrinks, make_way-IsCleared, remember-IsSound,
  remember_rest,
}

pub insert-IsSound :
    (params : ChainParams) (e : MempoolEntry) (pool : Mempool)
    → IsSound params pool
    → minimum_fee params e.size ≤ e.fee
    → lookup bytes_eq e.txid pool.by_txid ≡ none
    → ((p : OutPoint)
        → spends p e.transaction.inputs ≡ true
        → lookup outpoint_eq p pool.spent_by ≡ none)
    → IsSound params (insert e pool)
unfolding insert
insert-IsSound params e pool h paid fresh free = record {
  valid = insert-IsPool e pool h.valid fresh free;
  paid = λ q d x. elim (Bool-cases (bytes_eq e.txid q)) [
    | inl y ↦
        let same : e ≡ d =
          ground (arith, lookup-store bytes_eq bytes_eq_iff e.txid q e pool.by_txid) in
        subst (λ (t : MempoolEntry). minimum_fee params t.size ≤ t.fee) same paid
    | inr y ↦
        h.paid q d (ground (arith, lookup-store bytes_eq bytes_eq_iff e.txid q e pool.by_txid))
  ];
}

-- Once the conflicts are gone, no entry spends an input of the candidate.
cleared_free :
    (params : ChainParams) (tx : Transaction) (pool room : Mempool)
    → IsPool pool
    → Shrinks pool room
    → ((id : Bytes)
        → mem id (conflicts tx.inputs pool.spent_by) ≡ true
        → lookup bytes_eq id room.by_txid ≡ none)
    → (p : OutPoint) → spends p tx.inputs ≡ true
    → lookup outpoint_eq p room.spent_by ≡ none
cleared_free params tx pool room h s gone p x =
    elim (Option-cases (lookup outpoint_eq p room.spent_by)) [
      | inl y ↦ y
      | inr (id, y) ↦
          let (e, known, spent) = s.valid.owner p id y in
          let before = h.owned p id e (s.part id e known) spent in
          absurd (cc (known, gone id (conflicts_complete p tx.inputs pool.spent_by id x before)))
    ]

module _ (divide : ℕ → ℕ → ℕ) (max_bytes : ℕ) where
  enter-ok :
      (params : ChainParams) (e : MempoolEntry) (room : Mempool)
      → IsSound params room
      → minimum_fee params e.size ≤ e.fee
      → lookup bytes_eq e.txid room.by_txid ≡ none
      → ((p : OutPoint)
          → spends p e.transaction.inputs ≡ true
          → lookup outpoint_eq p room.spent_by ≡ none)
      → (pool' : Mempool) × (enter divide max_bytes e room ≡ (ok e, pool'))
        × IsSound params pool'
        × (pool'.total_bytes ≤ max_bytes)
        × ((q : Bytes) (d : MempoolEntry)
            → lookup bytes_eq q pool'.by_txid ≡ some d
            → (d ≡ e) ⊎ (lookup bytes_eq q room.by_txid ≡ some d))
  unfolding enter
  enter-ok params e room h paid fresh free =
      let known = remember_verified e.txid room in
      let (table, spent) = remember_rest e.txid room in
      let sound =
        insert-IsSound params e known (remember-IsSound params e.txid room h) paid
          (ap (lookup bytes_eq e.txid) table ∙ fresh)
          (λ p x. ap (lookup outpoint_eq p) spent ∙ free p x) in
      let (pool', run, s, fits) =
        evict_if_needed-fits max_bytes divide (insert e known) sound.valid in
      (
        pool',
        rw (run, enter) refl,
        IsSound-Shrinks params (insert e known) pool' sound s,
        fits,
        λ q d x. inserted q d (unfold insert in s.part q d x) table,
      )
    where
      inserted :
          (q : Bytes) (d : MempoolEntry)
          → lookup bytes_eq q (store bytes_eq e.txid e (remember_verified e.txid room).by_txid)
            ≡ some d
          → (remember_verified e.txid room).by_txid ≡ room.by_txid
          → (d ≡ e) ⊎ (lookup bytes_eq q room.by_txid ≡ some d)
      inserted q d x t = elim (Bool-cases (bytes_eq e.txid q)) [
        | inl y ↦ inl (
            ground (
              arith,
              lookup-store bytes_eq bytes_eq_iff e.txid q e (remember_verified e.txid room).by_txid,
            ))
        | inr y ↦ inr (
            sym (ap (lookup bytes_eq q) t)
            ∙ ground (
              arith,
              lookup-store bytes_eq bytes_eq_iff e.txid q e (remember_verified e.txid room).by_txid,
            ))
      ]

  -- Either an exception and the pool as it was, or the entry in a sound pool that fits.
  abbrev pub IsAnswer : ChainParams → Transaction → Mempool → Result MempoolEntry × Mempool → Type 0
  IsAnswer params tx pool r =
      ((x : Error) × (r ≡ (err x, pool)))
      ⊎ ((e : MempoolEntry) × (pool' : Mempool) × (r ≡ (ok e, pool'))
          × IsSound params pool'
          × (pool'.total_bytes ≤ max_bytes)
          × (minimum_fee params e.size ≤ e.fee)
          × (e.transaction ≡ tx)
          × (lookup bytes_eq e.txid pool.by_txid ≡ none)
          × ((q : Bytes) (d : MempoolEntry)
              → lookup bytes_eq q pool'.by_txid ≡ some d
              → (d ≡ e) ⊎ (lookup bytes_eq q pool.by_txid ≡ some d)))

  add_checked-IsAnswer :
      (params : ChainParams) (now : ℕ) (tx : Transaction) (cand : Candidate) (pool : Mempool)
      (m : Result Mempool)
      → IsSound params pool
      → lookup bytes_eq cand.id pool.by_txid ≡ none
      → cand.replaces ≡ conflicts tx.inputs pool.spent_by
      → make_way tx cand pool ≡ m
      → IsAnswer params tx pool (add_checked divide max_bytes params now tx cand m pool)
  unfolding add_checked make_way
  add_checked-IsAnswer params now tx cand pool (err x) h fresh all e = inl (x, refl)
  add_checked-IsAnswer params now tx cand pool (ok room) h fresh all e =
      let (s, gone, or_paid) =
        make_way-IsCleared params tx cand.fee cand.size cand.replaces pool room h e in
      elim (Bool-cases (ltb cand.fee (minimum_fee params cand.size))) [
        | inl low ↦ rw low (elim or_paid [
          | inl same ↦ inl (mempool_error, ap (λ m. (err mempool_error, m)) same)
          | inr paid ↦ absurd (ground arith)
        ])
        | inr enough ↦
            let (pool', run, sound, fits, from) =
              enter-ok params entry room (IsSound-Shrinks params pool room h s) (ground arith)
                (absent-Shrinks pool room cand.id s fresh)
                (cleared_free params tx pool room h.valid s
                  (λ id x. gone id (subst (λ ids. mem id ids ≡ true) (sym all) x))) in
            rw enough (
              inr (
                entry,
                pool',
                run,
                sound,
                fits,
                ground arith,
                refl,
                fresh,
                λ q d x. before s q d (from q d x),
              ))
      ]
    where
      entry : MempoolEntry
      entry = record {
        transaction = tx;
        txid = cand.id;
        fee = cand.fee;
        size = cand.size;
        received = now;
      }

      before :
          {room : Mempool}
          → Shrinks pool room
          → (q : Bytes) (d : MempoolEntry) → (d ≡ entry) ⊎ (lookup bytes_eq q room.by_txid ≡ some d)
          → (d ≡ entry) ⊎ (lookup bytes_eq q pool.by_txid ≡ some d)
      before s q d (inl x) = inl x
      before s q d (inr x) = inr (s.part q d x)

  module _ (c : Crypto) (params : ChainParams) (chain : ChainState) where
    -- On a pool that is valid and in which every entry pays its least fee, `add` either raises and
    -- leaves the pool as it was, also where it was to replace transactions, or returns an entry
    -- with the transaction, a new id and at least the least fee; the pool is then again valid and
    -- paid for, within `max_bytes`, and holds nothing but that entry and what it held.
    pub add_cases :
        (now : ℕ) (verify : Bool) (tx : Transaction) (pool : Mempool)
        → IsSound params pool
        → IsAnswer params tx pool (add divide max_bytes c params chain now verify tx pool)
    unfolding add
    add_cases now verify tx pool h = go (examine c params chain verify tx pool) refl
      where
        go :
            (r : Result Candidate)
            → examine c params chain verify tx pool ≡ r
            → IsAnswer params tx pool (elim r [
              | err x ↦ (err x, pool)
              | ok cand ↦
                  add_checked divide max_bytes params now tx cand (make_way tx cand pool) pool
            ])
        go (err x) e = inl (x, refl)
        go (ok cand) e =
            let (fresh, all) = examine_fresh c params chain verify tx pool cand e in
            add_checked-IsAnswer params now tx cand pool (make_way tx cand pool) h fresh all refl
