-- ===== src/Mempool/Admission.antt =====
-- What the steps of `add` establish for one another.
use native.Mathlib.Nat.{
  mul-le-mul_right, mul_assoc, mul_comm, mul_right_comm, le_of_mul-le-mul_right, mul-zero,
}
use scarlet_coin.Prelude.{
  zero, suc, ℕ, ◌*◌, ◌≤◌, ◌<◌, ◌≡◌, refl, ◌∙◌, sym, ap, subst, ◌⊎◌, inl, inr, Bool, true, false,
  not, Option, none, some, List, [], ◌∷◌, arith, if◌then◌else◌, any, leb, Bool-cases, Option-cases,
  length,
}
use scarlet_coin.Prelude.Bytes.{Bytes, bytes_eq, bytes_eq_refl}
use scarlet_coin.Prelude.Dict.{Dict, lookup}
use scarlet_coin.Outcome.{
  ok, err, ◌>>◌, raise_if, each, >>=-eq-ok, >>_iff, raise_if_iff, mempool_error, key_error,
}
use scarlet_coin.Crypto.{Crypto}
use scarlet_coin.Params.{ChainParams}
use scarlet_coin.Transaction.{OutPoint, outpoint_eq, TxInput, Transaction, is_empty, is_replaceable}
use scarlet_coin.Transaction.Sanity.{outpoint_eq_iff}
use scarlet_coin.Transaction.Codec.{txid, size}
use scarlet_coin.Mempool.{MempoolEntry, Mempool}
use scarlet_coin.Mempool.Invariant.{IsPool, spends}
use scarlet_coin.Mempool.Children.{mem}
use scarlet_coin.Mempool.Accept.{
  ChainState, Candidate, note_owner, conflicts, minimum_fee, remember_verified, max_verified_cache,
  is_some, screen, price, check_conflict, replace_conflicts, examine,
}
use scarlet_coin.Mempool.Evict.{Shrinks, self-Shrinks, remove_each-Shrinks}

-- Every owner of an input is among the conflicts.
pub conflicts_complete :
    (p : OutPoint) (is : List TxInput) (spent_by : Dict OutPoint Bytes) (id : Bytes)
    → spends p is ≡ true
    → lookup outpoint_eq p spent_by ≡ some id
    → mem id (conflicts is spent_by) ≡ true
unfolding conflicts note_owner spends
conflicts_complete p [] spent_by id s x = cc
conflicts_complete p (i ∷ is) spent_by id s x = elim (Bool-cases (spends p is)) [
  | inl y ↦ keep (lookup outpoint_eq i.prevout spent_by) (conflicts_complete p is spent_by id y x)
  | inr y ↦
      let same : i.prevout ≡ p = ground (arith, outpoint_eq_iff i.prevout p) in
      subst (λ o. mem id (note_owner o (conflicts is spent_by)) ≡ true)
        (sym (subst (λ q. lookup outpoint_eq q spent_by ≡ some id) (sym same) x))
        (here (conflicts is spent_by))
]
  where
    keep :
        (o : Option Bytes)
        → mem id (conflicts is spent_by) ≡ true
        → mem id (note_owner o (conflicts is spent_by)) ≡ true
    keep none h = h
    keep (some q) h = ground arith

    here : (ids : List Bytes) → mem id (note_owner (some id) ids) ≡ true
    here ids = ground (arith, bytes_eq_refl id)

-- Besides, each entry pays the least fee for its size.
pub record IsSound (params : ChainParams) (pool : Mempool) : Type 0 where
  pub valid : IsPool pool
  pub paid :
      (q : Bytes) (e : MempoolEntry)
      → lookup bytes_eq q pool.by_txid ≡ some e
      → minimum_fee params e.size ≤ e.fee

-- `is_some` of a lookup that is not found
none_of_is_some : {A : Type 0} (o : Option A) → is_some o ≡ false → o ≡ none
unfolding is_some
none_of_is_some none h = refl
none_of_is_some (some a) h = cc

module _ (c : Crypto) (params : ChainParams) (chain : ChainState) where
  screen_fresh :
      (id : Bytes) (tx : Transaction) (pool : Mempool) {n : ℕ}
      → screen c params chain id tx pool ≡ ok n
      → lookup bytes_eq id pool.by_txid ≡ none
  unfolding screen
  screen_fresh id tx pool h =
      let (e, _) =
        (>>_iff (raise_if (is_some (lookup bytes_eq id pool.by_txid)) mempool_error) _).0 h in
      none_of_is_some (lookup bytes_eq id pool.by_txid)
        ((raise_if_iff (is_some (lookup bytes_eq id pool.by_txid)) mempool_error).0 e)

  -- What the checks leave behind: an id that is not in the pool, and every conflict.
  pub examine_fresh :
      (verify : Bool) (tx : Transaction) (pool : Mempool) (cand : Candidate)
      → examine c params chain verify tx pool ≡ ok cand
      → (lookup bytes_eq cand.id pool.by_txid ≡ none)
        × (cand.replaces ≡ conflicts tx.inputs pool.spent_by)
  unfolding examine
  examine_fresh verify tx pool cand h =
      let (id, e1, h1) = >>=-eq-ok (txid c tx) _ h in
      let (n, e2, h2) = >>=-eq-ok (screen c params chain id tx pool) _ h1 in
      let (fee, e3, h3) =
        >>=-eq-ok (price c params chain verify id (conflicts tx.inputs pool.spent_by) tx pool) _
          h2 in
      let same : id ≡ cand.id = ap (λ (x : Candidate). x.id) (value h3) in
      (
        subst (λ t. lookup bytes_eq t pool.by_txid ≡ none) same (screen_fresh id tx pool e2),
        sym (ap (λ (x : Candidate). x.replaces) (value h3)),
      )
    where
      value : {x y : Candidate} → ok x ≡ ok y → x ≡ y
      value e = cc

-- Shrinking keeps what each entry pays.
pub IsSound-Shrinks :
    (params : ChainParams) (a b : Mempool) → IsSound params a → Shrinks a b → IsSound params b
IsSound-Shrinks params a b h s = record {
  valid = s.valid;
  paid = λ q e x. h.paid q e (s.part q e x);
}

-- A transaction that outbids an entry pays the least fee, since the entry does.
outbid_paid :
    (params : ChainParams) (fee size : ℕ) (old : MempoolEntry)
    → minimum_fee params old.size ≤ old.fee
    → leb (fee * old.size) (old.fee * size) ≡ false
    → minimum_fee params size ≤ fee
unfolding minimum_fee
outbid_paid params fee size old paid more =
    let rate : ℕ = params.min_relay_fee_per_kb in
    let less : old.fee * size < fee * old.size = ground arith in
    let old_paid : old.size * rate ≤ 1000 * old.fee = omega (arith, paid) in
    let cross : (size * rate) * old.size ≤ (1000 * fee) * old.size = omega (
      arith,
      less,
      mul-le-mul_right size old_paid,
      mul_assoc 1000 old.fee size,
      mul_assoc 1000 fee old.size,
      mul_right_comm size rate old.size,
      mul_right_comm old.size rate size,
      ap (λ t. t * rate) (mul_comm size old.size),
    ) in
    let positive : (0 < old.size) × (0 < fee) = factors fee old.size less in
    let bound : size * rate ≤ 1000 * fee = le_of_mul-le-mul_right cross positive.0 in
    omega (arith, bound, positive.1)
  where
    factors : (a b : ℕ) {k : ℕ} → k < a * b → (0 < b) × (0 < a)
    factors zero b h = absurd (omega arith)
    factors (suc a) zero h = absurd (omega (arith, mul-zero (suc a)))
    factors (suc a) (suc b) h = (omega arith, omega arith)

check_conflict_paid :
    (params : ChainParams) (fee size : ℕ) (pool : Mempool) (id : Bytes)
    → IsSound params pool
    → check_conflict fee size pool id ≡ ok tt
    → minimum_fee params size ≤ fee
unfolding check_conflict
check_conflict_paid params fee size pool id h e =
    elim (Option-cases (lookup bytes_eq id pool.by_txid)) [
      | inl x ↦
          let no_entry : check_conflict fee size pool id ≡ err key_error =
            rw (x, check_conflict) refl in
          absurd (cc (no_entry, e))
      | inr (old, x) ↦
          let found : check_conflict fee size pool id ≡ (
              raise_if (not (is_replaceable old.transaction)) mempool_error
              >> raise_if (leb (fee * old.size) (old.fee * size)) mempool_error) =
            rw (x, check_conflict) refl in
          let (_, more) =
            (>>_iff (raise_if (not (is_replaceable old.transaction)) mempool_error) _).0
              (sym found ∙ e) in
          outbid_paid params fee size old (h.paid id old x)
            ((raise_if_iff (leb (fee * old.size) (old.fee * size)) mempool_error).0 more)
    ]

-- What the removals for a replacement leave.
abbrev pub IsCleared : ChainParams → ℕ → ℕ → List Bytes → Mempool → Mempool → Type 0
IsCleared params fee size ids pool room =
    Shrinks pool room
    × ((id : Bytes) → mem id ids ≡ true → lookup bytes_eq id room.by_txid ≡ none)
    × ((room ≡ pool) ⊎ (minimum_fee params size ≤ fee))

replace_conflicts-IsCleared :
    (params : ChainParams) (tx : Transaction) (fee size : ℕ) (id : Bytes) (ids : List Bytes)
    (pool room : Mempool)
    → IsSound params pool
    → replace_conflicts tx fee size (id ∷ ids) pool ≡ ok room
    → IsCleared params fee size (id ∷ ids) pool room
unfolding replace_conflicts
replace_conflicts-IsCleared params tx fee size id ids pool room h e =
    let (_, e1) = (>>_iff (raise_if (not (is_replaceable tx)) mempool_error) _).0 e in
    let (e2, e3) = (>>_iff (each (check_conflict fee size pool) (id ∷ ids)) _).0 e1 in
    let (_, e4, _) = >>=-eq-ok (check_conflict fee size pool id) _ e2 in
    let (room', run, s, gone) = remove_each-Shrinks (id ∷ ids) pool h.valid in
    let same : room' ≡ room = value (sym run ∙ e3) in
    (
      subst (Shrinks pool) same s,
      λ q x. subst (λ (m : Mempool). lookup bytes_eq q m.by_txid ≡ none) same (gone q x),
      inr (check_conflict_paid params fee size pool id h e4),
    )
  where
    value : {x y : Mempool} → ok x ≡ ok y → x ≡ y
    value e = cc

pub make_way-IsCleared :
    (params : ChainParams) (tx : Transaction) (fee size : ℕ) (ids : List Bytes)
    (pool room : Mempool)
    → IsSound params pool
    → (if is_empty ids then ok pool else replace_conflicts tx fee size ids pool) ≡ ok room
    → IsCleared params fee size ids pool room
unfolding is_empty
make_way-IsCleared params tx fee size [] pool room h e =
    let same : pool ≡ room = cc e in
    (subst (Shrinks pool) same (self-Shrinks pool h.valid), λ id x. absurd (cc x), inl (sym same))
make_way-IsCleared params tx fee size (id ∷ ids) pool room h e =
    replace_conflicts-IsCleared params tx fee size id ids pool room h e

-- The pool that `remember_verified` leaves has the same transactions.
pub remember-IsSound :
    (params : ChainParams) (id : Bytes) (pool : Mempool)
    → IsSound params pool
    → IsSound params (remember_verified id pool)
unfolding remember_verified
remember-IsSound params id pool h =
    by_cases (leb max_verified_cache (length pool.verified)) (any (bytes_eq id) pool.verified)
  where
    -- Only `verified` is new.
    kept : (ids : List Bytes) → IsSound params (record pool { verified = ids })
    kept ids = record {
      valid = record {
        distinct = h.valid.distinct;
        ordered = h.valid.ordered;
        counted = h.valid.counted;
        named = h.valid.named;
        owner = h.valid.owner;
        owned = h.valid.owned;
      };
      paid = h.paid;
    }

    by_cases :
        (full known : Bool)
        → IsSound params (
            if full
            then record pool { verified = id ∷ [] }
            else if known
            then pool
            else record pool { verified = id ∷ pool.verified })
    by_cases true known = kept (id ∷ [])
    by_cases false true = h
    by_cases false false = kept (id ∷ pool.verified)

pub remember_rest :
    (id : Bytes) (pool : Mempool)
    → ((remember_verified id pool).by_txid ≡ pool.by_txid)
      × ((remember_verified id pool).spent_by ≡ pool.spent_by)
unfolding remember_verified
remember_rest id pool = (
  rest (λ m. m.by_txid) (λ ids. refl) (leb max_verified_cache (length pool.verified))
      (any (bytes_eq id) pool.verified),
  rest (λ m. m.spent_by) (λ ids. refl) (leb max_verified_cache (length pool.verified))
      (any (bytes_eq id) pool.verified),
)
  where
    rest :
        {B : Type 0} (f : Mempool → B)
        → ((ids : List Bytes) → f (record pool { verified = ids }) ≡ f pool)
        → (full known : Bool)
        → f (
            if full
            then record pool { verified = id ∷ [] }
            else if known
            then pool
            else record pool { verified = id ∷ pool.verified })
          ≡ f pool
    rest f h true known = h (id ∷ [])
    rest f h false true = refl
    rest f h false false = h (id ∷ pool.verified)
