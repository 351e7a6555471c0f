-- ===== src/Mempool/Evict.antt =====
-- Removing one transaction after another, for conflicts and for room.
use scarlet_coin.Prelude.{
  ℕ, ◌≤◌, ◌≡◌, refl, ◌∙◌, sym, ap, subst, inl, inr, Bool, true, false, none, some, List, [], ◌∷◌,
  arith, if◌then◌else◌, any, leb, leb→le, Bool-cases, Option-cases,
}
use scarlet_coin.Prelude.Bytes.{Bytes, bytes_eq, bytes_eq_iff, bytes_eq_refl}
use scarlet_coin.Prelude.Dict.{Dict, lookup, values, sum_by}
use scarlet_coin.Outcome.{ok, ◌>>=◌}
use scarlet_coin.Prelude.Sort.{place, sorted}
use scarlet_coin.Mempool.{MempoolEntry, Mempool, remove}
use scarlet_coin.Mempool.Invariant.{IsPool, size_of}
use scarlet_coin.Mempool.Children.{mem}
use scarlet_coin.Mempool.Remove.{remove-ok}
use scarlet_coin.Mempool.Accept.{remove_each, is_cheaper, evict_loop, evict_if_needed}

-- A valid pool with nothing that the other one does not have.
pub record Shrinks (pool pool' : Mempool) : Type 0 where
  pub valid : IsPool pool'
  pub part :
      (q : Bytes) (e : MempoolEntry)
      → lookup bytes_eq q pool'.by_txid ≡ some e
      → lookup bytes_eq q pool.by_txid ≡ some e
  pub lighter : pool'.total_bytes ≤ pool.total_bytes

pub self-Shrinks : (pool : Mempool) → IsPool pool → Shrinks pool pool
self-Shrinks pool h = record { valid = h; part = λ q e x. x; lighter = omega arith }

pub then-Shrinks : (a b d : Mempool) → Shrinks a b → Shrinks b d → Shrinks a d
then-Shrinks a b d h k = record {
  valid = k.valid;
  part = λ q e x. h.part q e (k.part q e x);
  lighter = omega (arith, h.lighter, k.lighter);
}

-- What is absent stays absent.
pub absent-Shrinks :
    (a b : Mempool) (q : Bytes)
    → Shrinks a b
    → lookup bytes_eq q a.by_txid ≡ none
    → lookup bytes_eq q b.by_txid ≡ none
absent-Shrinks a b q h x = elim (Option-cases (lookup bytes_eq q b.by_txid)) [
  | inl y ↦ y
  | inr (e, y) ↦ absurd (cc (x, h.part q e y))
]

pub remove-Shrinks :
    (deep : Bool) (id : Bytes) (pool : Mempool)
    → IsPool pool
    → (removed : List Bytes) × (pool' : Mempool) × (remove deep id pool ≡ ok (removed, pool'))
      × Shrinks pool pool'
      × (lookup bytes_eq id pool'.by_txid ≡ none)
remove-Shrinks deep id pool h =
    let (removed, pool', run, valid, gone, left, _, fewer) = remove-ok deep id pool h in
    (
      removed,
      pool',
      run,
      record { valid = valid; part = λ q e x. part removed pool' q e (left q) x; lighter = fewer },
      gone,
    )
  where
    part :
        (removed : List Bytes) (pool' : Mempool) (q : Bytes) (e : MempoolEntry)
        → lookup bytes_eq q pool'.by_txid
          ≡ (if mem q removed then none else lookup bytes_eq q pool.by_txid)
        → lookup bytes_eq q pool'.by_txid ≡ some e
        → lookup bytes_eq q pool.by_txid ≡ some e
    part removed pool' q e l x = ground arith

pub remove_each-Shrinks :
    (ids : List Bytes) (pool : Mempool)
    → IsPool pool
    → (pool' : Mempool) × (remove_each ids pool ≡ ok pool')
      × Shrinks pool pool'
      × ((id : Bytes) → mem id ids ≡ true → lookup bytes_eq id pool'.by_txid ≡ none)
unfolding remove_each
remove_each-Shrinks [] pool h = (pool, refl, self-Shrinks pool h, λ id x. absurd (cc x))
remove_each-Shrinks (id ∷ ids) pool h =
    let (removed, next, run, s, gone) = remove-Shrinks true id pool h in
    let (pool', run', s', all) = remove_each-Shrinks ids next s.valid in
    (
      pool',
      ap (λ r. r >>= λ (removed, pool'). remove_each ids pool') run ∙ run',
      then-Shrinks pool next pool' s s',
      λ q x. elim (Bool-cases (mem q ids)) [
        | inl y ↦ all q y
        | inr y ↦
            absent-Shrinks next pool' q s'
              (subst (λ t. lookup bytes_eq t next.by_txid ≡ none) (sym (first q x y)) gone)
      ],
    )
  where
    first : (q : Bytes) → mem q (id ∷ ids) ≡ true → mem q ids ≡ false → q ≡ id
    first q x y = ground (arith, bytes_eq_iff q id)

-- One of the entries has the id.
abbrev listed : Bytes → List MempoolEntry → Bool
listed q = any (λ (e : MempoolEntry). bytes_eq q e.txid)

listed-place :
    (before : MempoolEntry → MempoolEntry → Bool) (q : Bytes) (x : MempoolEntry)
    (ys : List MempoolEntry)
    → listed q (place before x ys) ≡ listed q (x ∷ ys)
unfolding place
listed-place before q x [] = refl
listed-place before q x (y ∷ ys) = ground (arith, listed-place before q x ys)

listed-sorted :
    (before : MempoolEntry → MempoolEntry → Bool) (q : Bytes) (xs : List MempoolEntry)
    → listed q (sorted before xs) ≡ listed q xs
unfolding sorted
listed-sorted before q [] = refl
listed-sorted before q (x ∷ xs) =
    ground (arith, listed-sorted before q xs, listed-place before q x (sorted before xs))

listed-values :
    (m : Dict Bytes MempoolEntry) (q : Bytes) (e : MempoolEntry)
    → lookup bytes_eq q m ≡ some e
    → e.txid ≡ q
    → listed q (values m) ≡ true
unfolding lookup
listed-values [] q e x y = cc
listed-values ((k, d) ∷ m) q e x y = ground (arith, listed-values m q e, bytes_eq_iff q d.txid)

sum_by_nothing :
    (m : Dict Bytes MempoolEntry)
    → ((q : Bytes) → lookup bytes_eq q m ≡ none)
    → sum_by size_of m ≡ 0
unfolding lookup
sum_by_nothing [] h = refl
sum_by_nothing ((k, d) ∷ m) h = absurd (ground (arith, h k, bytes_eq_refl k))

-- A pool in which no id is found has no bytes.
no_bytes :
    (pool : Mempool)
    → IsPool pool
    → ((q : Bytes) → lookup bytes_eq q pool.by_txid ≡ none)
    → pool.total_bytes ≡ 0
no_bytes pool h none_found = h.counted ∙ sum_by_nothing pool.by_txid none_found

module _ (max_bytes : ℕ) (divide : ℕ → ℕ → ℕ) where
  -- Over a list with every entry of the pool, the loop ends at a pool that fits.
  evict_loop-fits :
      (es : List MempoolEntry) (pool : Mempool)
      → IsPool pool
      → ((q : Bytes) (e : MempoolEntry)
          → lookup bytes_eq q pool.by_txid ≡ some e
          → listed q es ≡ true)
      → (pool' : Mempool) × (evict_loop divide max_bytes es pool ≡ ok pool')
        × Shrinks pool pool'
        × (pool'.total_bytes ≤ max_bytes)
  unfolding evict_loop
  evict_loop-fits [] pool h all =
      (pool, refl, self-Shrinks pool h, omega (arith, no_bytes pool h (λ q. none_found q)))
    where
      none_found : (q : Bytes) → lookup bytes_eq q pool.by_txid ≡ none
      none_found q = elim (Option-cases (lookup bytes_eq q pool.by_txid)) [
        | inl x ↦ x
        | inr (e, x) ↦ absurd (cc (all q e x))
      ]
  evict_loop-fits (e ∷ es) pool h all = elim (Bool-cases (leb pool.total_bytes max_bytes)) [
    | inl x ↦ (pool, rw x refl, self-Shrinks pool h, leb→le _ _ x)
    | inr x ↦
        let (removed, next, run, s, gone) = remove-Shrinks true e.txid pool h in
        let (pool', run', s', fits) =
          evict_loop-fits es next s.valid
            (λ q d y. rest q d next gone y (all q d (s.part q d y))) in
        (
          pool',
          rw x
              (ap (λ r. r >>= λ (removed, pool'). evict_loop divide max_bytes es pool') run ∙ run'),
          then-Shrinks pool next pool' s s',
          fits,
        )
  ]
    where
      rest :
          (q : Bytes) (d : MempoolEntry) (next : Mempool)
          → lookup bytes_eq e.txid next.by_txid ≡ none
          → lookup bytes_eq q next.by_txid ≡ some d
          → listed q (e ∷ es) ≡ true
          → listed q es ≡ true
      rest q d next gone y l = ground (arith, bytes_eq_iff q e.txid)

  -- On a valid pool `_evict_if_needed` raises nothing and leaves a valid pool that fits.
  pub evict_if_needed-fits :
      (pool : Mempool)
      → IsPool pool
      → (pool' : Mempool) × (evict_if_needed divide max_bytes pool ≡ ok pool')
        × Shrinks pool pool'
        × (pool'.total_bytes ≤ max_bytes)
  unfolding evict_if_needed
  evict_if_needed-fits pool h = elim (Bool-cases (leb pool.total_bytes max_bytes)) [
    | inl x ↦ (pool, rw x refl, self-Shrinks pool h, leb→le _ _ x)
    | inr x ↦
        let (pool', run, s, fits) =
          evict_loop-fits (sorted (is_cheaper divide) (values pool.by_txid)) pool h (λ q e y.
            listed-sorted (is_cheaper divide) q (values pool.by_txid)
            ∙ listed-values pool.by_txid q e y (h.named q e y)) in
        (pool', rw x run, s, fits)
  ]
