-- ===== src/Mempool/Remove.antt =====
-- `remove`: the loop over the stack ends, raises nothing, and leaves no child of what it removed.
use scarlet_coin.Prelude.{
  ℕ, zero, suc, ◌+◌, ◌≤◌, ◌<◌, ◌≡◌, refl, ◌∙◌, sym, subst, inl, inr, Bool, true, false, none, some,
  List, [], ◌∷◌, ◌++◌, arith, if◌then◌else◌, length, Bool-cases, Option-cases,
}
use scarlet_coin.Prelude.Bytes.{Bytes, bytes_eq, bytes_eq_iff, bytes_eq_refl}
use scarlet_coin.Prelude.Dict.{lookup, sum_by}
use scarlet_coin.Outcome.{ok}
use scarlet_coin.Transaction.{outpoint_eq}
use scarlet_coin.Mempool.{MempoolEntry, Mempool, push_children, weight, remove_loop, remove}
use scarlet_coin.Mempool.Invariant.{
  IsPool, taken, take_out-taken, taken-IsPool, lookup-taken, owner-taken_left, total_bytes-taken,
  weight-taken,
}
use scarlet_coin.Mempool.Children.{
  mem, mem-append, output_of, length-push_children, push_children_keeps, push_children_finds,
}

-- Between two rounds of the loop, `start` being the pool before the first.
pub record Loop (deep : Bool) (start : Mempool) (pending removed : List Bytes) (pool : Mempool)
    : Type 0 where
  pub valid : IsPool pool
  pub lighter : pool.total_bytes ≤ start.total_bytes
  pub part :
      (q : Bytes) (e : MempoolEntry)
      → lookup bytes_eq q pool.by_txid ≡ some e
      → lookup bytes_eq q start.by_txid ≡ some e
  pub kept :
      (q : Bytes)
      → mem q removed ≡ false
      → lookup bytes_eq q pool.by_txid ≡ lookup bytes_eq q start.by_txid
  pub gone : (q : Bytes) → mem q removed ≡ true → lookup bytes_eq q pool.by_txid ≡ none
  pub closed :
      deep ≡ true
      → (r : Bytes) (e : MempoolEntry) (index : ℕ) (child : Bytes) → mem r removed ≡ true
      → lookup bytes_eq r start.by_txid ≡ some e
      → index < length e.transaction.outputs
      → lookup outpoint_eq (output_of r index) pool.spent_by ≡ some child
      → mem child pending ≡ true

abbrev next_pending : Bool → Bytes → MempoolEntry → Mempool → List Bytes → List Bytes
next_pending deep id e pool pending =
    if deep
    then push_children id 0 (length e.transaction.outputs) pool.spent_by pending
    else pending

length-next_pending :
    (deep : Bool) (id : Bytes) (e : MempoolEntry) (pool : Mempool) (pending : List Bytes)
    → length (next_pending deep id e pool pending) + 1 ≤ weight e + length pending
unfolding weight
length-next_pending true id e pool pending =
    omega (arith, length-push_children id 0 (length e.transaction.outputs) pool.spent_by pending)
length-next_pending false id e pool pending = omega arith

module _ (deep : Bool) (start : Mempool) where
  skip-Loop :
      (id : Bytes) (pending removed : List Bytes) (pool : Mempool)
      → lookup bytes_eq id pool.by_txid ≡ none
      → Loop deep start (id ∷ pending) removed pool
      → Loop deep start pending removed pool
  skip-Loop id pending removed pool absent h = record {
    valid = h.valid;
    lighter = h.lighter;
    part = h.part;
    kept = h.kept;
    gone = h.gone;
    closed = λ d r e index child x y z w.
        let (f, known, _) = h.valid.owner (output_of r index) child w in
        other child (h.closed d r e index child x y z w) f known;
  }
    where
      other :
          (child : Bytes)
          → mem child (id ∷ pending) ≡ true
          → (f : MempoolEntry) → lookup bytes_eq child pool.by_txid ≡ some f
          → mem child pending ≡ true
      other child x f known = ground (arith, bytes_eq_iff child id)

  next_pending_keeps :
      (q id : Bytes) (e : MempoolEntry) (pool : Mempool) (pending : List Bytes)
      → mem q pending ≡ true
      → mem q (next_pending deep id e pool pending) ≡ true
  next_pending_keeps q id e pool pending h = elim (Bool-cases deep) [
    | inl d ↦
        rw d (push_children_keeps q id 0 (length e.transaction.outputs) pool.spent_by pending h)
    | inr d ↦ rw d h
  ]

  next_pending_finds :
      (q id : Bytes) (e : MempoolEntry) (at : ℕ) (pool : Mempool) (pending : List Bytes)
      → deep ≡ true
      → at < length e.transaction.outputs
      → lookup outpoint_eq (output_of id at) pool.spent_by ≡ some q
      → mem q (next_pending deep id e pool pending) ≡ true
  next_pending_finds q id e at pool pending d le x = rw d (
      push_children_finds q id 0 (length e.transaction.outputs) at pool.spent_by pending le
        (subst (λ k. lookup outpoint_eq (output_of id k) pool.spent_by ≡ some q) (omega arith) x))

  take-Loop :
      (id : Bytes) (e : MempoolEntry) (pending removed : List Bytes) (pool : Mempool)
      → lookup bytes_eq id pool.by_txid ≡ some e
      → Loop deep start (id ∷ pending) removed pool
      → Loop deep start
          (next_pending deep id e (taken id e pool) pending)
          (removed ++ (id ∷ []))
          (taken id e pool)
  take-Loop id e pending removed pool known h = record {
    valid = taken-IsPool id e pool h.valid known;
    lighter = omega (arith, h.lighter, total_bytes-taken id e pool);
    part = λ q d x. ground (arith, lookup-taken id q e pool, h.part q d);
    kept = λ q x. ground (
      arith,
      lookup-taken id q e pool,
      h.kept q,
      mem-append q removed (id ∷ []),
      bytes_eq_iff id q,
      bytes_eq_iff q id,
    );
    gone = λ q x. ground (
      arith,
      lookup-taken id q e pool,
      h.gone q,
      mem-append q removed (id ∷ []),
      bytes_eq_iff id q,
      bytes_eq_iff q id,
    );
    closed = λ d r f index child x y z w. child_listed d r f index child x y z w;
  }
    where
      child_listed :
          deep ≡ true
          → (r : Bytes) (f : MempoolEntry) (index : ℕ) (child : Bytes)
          → mem r (removed ++ (id ∷ [])) ≡ true
          → lookup bytes_eq r start.by_txid ≡ some f
          → index < length f.transaction.outputs
          → lookup outpoint_eq (output_of r index) (taken id e pool).spent_by ≡ some child
          → mem child (next_pending deep id e (taken id e pool) pending) ≡ true
      child_listed d r f index child x y z w =
          let (before, other) =
            owner-taken_left id e pool h.valid known (output_of r index) child w in
          elim (Bool-cases (mem r removed)) [
            | inl old ↦
                next_pending_keeps child id e (taken id e pool) pending
                  (rest (h.closed d r f index child old y z before) other)
            | inr new ↦
                let here : r ≡ id =
                  ground (arith, mem-append r removed (id ∷ []), bytes_eq_iff r id) in
                let entry : f ≡ e = cc (here, y, h.part id e known) in
                next_pending_finds child id e index (taken id e pool) pending d
                  (subst (λ (g : MempoolEntry). index < length g.transaction.outputs) entry z)
                  (subst
                    (λ t.
                      lookup outpoint_eq (output_of t index) (taken id e pool).spent_by
                      ≡ some child)
                    here w)
          ]
        where
          rest :
              mem child (id ∷ pending) ≡ true → bytes_eq id child ≡ false → mem child pending ≡ true
          rest x y = ground (arith, bytes_eq_iff child id, bytes_eq_iff id child)

remove_loop_found :
    (deep : Bool) (n : ℕ) (id : Bytes) (pending removed : List Bytes) (pool : Mempool)
    (e : MempoolEntry)
    → IsPool pool
    → lookup bytes_eq id pool.by_txid ≡ some e
    → remove_loop deep (suc n) (id ∷ pending) removed pool
      ≡ remove_loop deep n
          (next_pending deep id e (taken id e pool) pending)
          (removed ++ (id ∷ []))
          (taken id e pool)
unfolding remove_loop
remove_loop_found deep n id pending removed pool e h known =
    rw (known, remove_loop) (rw (take_out-taken id e pool h known) refl)

-- With a round for each item of the stack and the weight of each entry, the loop ends.
pub remove_loop-ok :
    (deep : Bool) (start : Mempool) (n : ℕ) (pending removed : List Bytes) (pool : Mempool)
    → sum_by weight pool.by_txid + length pending ≤ n
    → Loop deep start pending removed pool
    → (removed' : List Bytes) × (pool' : Mempool) × (remove_loop deep n pending removed pool
        ≡ ok (removed', pool'))
      × Loop deep start [] removed' pool'
      × ((q : Bytes)
          → lookup bytes_eq q pool.by_txid ≡ none
          → lookup bytes_eq q pool'.by_txid ≡ none)
      × ((q : Bytes) → mem q pending ≡ true → lookup bytes_eq q pool'.by_txid ≡ none)
unfolding remove_loop
remove_loop-ok deep start n [] removed pool fuel h =
    (removed, pool, refl, h, λ q x. x, λ q x. absurd (cc x))
remove_loop-ok deep start zero (id ∷ pending) removed pool fuel h = absurd (omega arith)
remove_loop-ok deep start (suc n) (id ∷ pending) removed pool fuel h =
    elim (Option-cases (lookup bytes_eq id pool.by_txid)) [
      | inl e ↦
          let (removed', pool', run, done, less, all) =
            remove_loop-ok deep start n pending removed pool (omega arith)
              (skip-Loop deep start id pending removed pool e h) in
          (
            removed',
            pool',
            rw (e, remove_loop) run,
            done,
            less,
            λ q x. elim (Bool-cases (mem q pending)) [
              | inl y ↦ all q y
              | inr y ↦ less q (
                  subst (λ t. lookup bytes_eq t pool.by_txid ≡ none) (sym (head q id pending x y))
                    e)
            ],
          )
      | inr (e, known) ↦
          let next = next_pending deep id e (taken id e pool) pending in
          let (removed', pool', run, done, less, all) =
            remove_loop-ok deep start n next (removed ++ (id ∷ [])) (taken id e pool)
              (omega (
                arith,
                weight-taken id e pool h.valid known,
                length-next_pending deep id e (taken id e pool) pending,
              ))
              (take-Loop deep start id e pending removed pool known h) in
          let here : lookup bytes_eq id (taken id e pool).by_txid ≡ none =
            ground (arith, lookup-taken id id e pool, bytes_eq_refl id) in
          (
            removed',
            pool',
            remove_loop_found deep n id pending removed pool e h.valid known ∙ run,
            done,
            (λ q x. less q (ground (arith, lookup-taken id q e pool))),
            (λ q x. elim (Bool-cases (mem q pending)) [
              | inl y ↦ all q (next_pending_keeps deep start q id e (taken id e pool) pending y)
              | inr y ↦ less q (
                  subst (λ t. lookup bytes_eq t (taken id e pool).by_txid ≡ none)
                    (sym (head q id pending x y)) here)
            ]),
          )
    ]
  where
    head :
        (q id : Bytes) (pending : List Bytes)
        → mem q (id ∷ pending) ≡ true
        → mem q pending ≡ false
        → q ≡ id
    head q id pending x y = ground (arith, bytes_eq_iff q id)

start-Loop :
    (deep : Bool) (pool : Mempool) (id : Bytes) → IsPool pool → Loop deep pool (id ∷ []) [] pool
start-Loop deep pool id h = record {
  valid = h;
  lighter = omega arith;
  part = λ q e x. x;
  kept = λ q x. refl;
  gone = λ q x. absurd (cc x);
  closed = λ d r e index child x y z w. absurd (cc x);
}

-- On a valid pool the loop of `remove` ends and raises nothing. The pool is valid after it, no
-- longer holds the id, and holds what it held except the ids listed as removed; with descendants no
-- entry spends an output of a removed one. Its bytes are no more than before.
pub remove-ok :
    (deep : Bool) (id : Bytes) (pool : Mempool)
    → IsPool pool
    → (removed : List Bytes) × (pool' : Mempool) × (remove deep id pool ≡ ok (removed, pool'))
      × IsPool pool'
      × (lookup bytes_eq id pool'.by_txid ≡ none)
      × ((q : Bytes)
          → lookup bytes_eq q pool'.by_txid
            ≡ (if mem q removed then none else lookup bytes_eq q pool.by_txid))
      × (deep ≡ true
          → (r : Bytes) (e : MempoolEntry) (index : ℕ) → mem r removed ≡ true
          → lookup bytes_eq r pool.by_txid ≡ some e
          → index < length e.transaction.outputs
          → lookup outpoint_eq (record { txid = r; index = index }) pool'.spent_by ≡ none)
      × (pool'.total_bytes ≤ pool.total_bytes)
unfolding remove
remove-ok deep id pool h =
    let (removed, pool', run, done, _, all) =
      remove_loop-ok deep pool (suc (sum_by weight pool.by_txid)) (id ∷ []) [] pool (omega arith)
        (start-Loop deep pool id h) in
    (
      removed,
      pool',
      run,
      done.valid,
      all id (ground (arith, bytes_eq_refl id)),
      λ q. left removed pool' q done,
      λ d r e index x y z. childless removed pool' d r e index x y z done,
      done.lighter,
    )
  where
    left :
        (removed : List Bytes) (pool' : Mempool) (q : Bytes)
        → Loop deep pool [] removed pool'
        → lookup bytes_eq q pool'.by_txid
          ≡ (if mem q removed then none else lookup bytes_eq q pool.by_txid)
    left removed pool' q done = elim (Bool-cases (mem q removed)) [
      | inl x ↦ rw x (done.gone q x)
      | inr x ↦ rw x (done.kept q x)
    ]

    childless :
        (removed : List Bytes) (pool' : Mempool)
        → deep ≡ true
        → (r : Bytes) (e : MempoolEntry) (index : ℕ) → mem r removed ≡ true
        → lookup bytes_eq r pool.by_txid ≡ some e
        → index < length e.transaction.outputs
        → Loop deep pool [] removed pool'
        → lookup outpoint_eq (record { txid = r; index = index }) pool'.spent_by ≡ none
    childless removed pool' d r e index x y z done =
        elim (Option-cases (lookup outpoint_eq (output_of r index) pool'.spent_by)) [
          | inl free ↦ free
          | inr (child, w) ↦ absurd (cc (done.closed d r e index child x y z w))
        ]
