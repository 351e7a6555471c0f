-- ===== src/Mempool/Selection.antt =====
-- `collect` ends, and what it selects fits, is final, and stands in an order in which parents come
-- first.
use scarlet_coin.Prelude.{
  ℕ, zero, suc, ◌+◌, ◌≤◌, ◌≡◌, refl, sym, subst, Bool, true, false, some, List, [], ◌∷◌, ◌++◌,
  arith, if◌then◌else◌, All, length, length-append, append-nil, append_assoc,
}
use scarlet_coin.Prelude.Bytes.{Bytes, bytes_eq, bytes_eq_iff}
use scarlet_coin.Prelude.Dict.{Dict, lookup, values, IsDict}
use scarlet_coin.Validation.{check_transaction_final}
use scarlet_coin.Prelude.Sort.{place, sorted}
use scarlet_coin.Mempool.{MempoolEntry, Mempool}
use scarlet_coin.Mempool.Invariant.{IsPool}
use scarlet_coin.Mempool.Accept.{is_some}
use scarlet_coin.Mempool.Collect.{
  pays_more, entries, Selection, has_parents, choose, Verdict, stays, dropped, selects, judge,
  sweep, collect_loop, collect,
}

abbrev pub sum_sizes : List MempoolEntry → ℕ
sum_sizes [] = 0
sum_sizes (e ∷ es) = e.size + sum_sizes es

abbrev pub sum_fees : List MempoolEntry → ℕ
sum_fees [] = 0
sum_fees (e ∷ es) = e.fee + sum_fees es

-- How often an id stands in a list of entries.
abbrev pub copies : Bytes → List MempoolEntry → ℕ
copies q [] = 0
copies q (e ∷ es) = (if bytes_eq q e.txid then 1 else 0) + copies q es

-- Each entry's pooled parents are among those before it; `before` stand before the list.
abbrev pub IsOrdered : Dict Bytes MempoolEntry → List MempoolEntry → List MempoolEntry → Type 0
IsOrdered pool before [] = Unit
IsOrdered pool before (e ∷ es) =
    (has_parents pool before e.transaction.inputs ≡ true) × IsOrdered pool (before ++ (e ∷ [])) es

sum_sizes-append : (xs ys : List MempoolEntry) → sum_sizes (xs ++ ys) ≡ sum_sizes xs + sum_sizes ys
sum_sizes-append [] ys = omega arith
sum_sizes-append (x ∷ xs) ys = omega (arith, sum_sizes-append xs ys)

sum_fees-append : (xs ys : List MempoolEntry) → sum_fees (xs ++ ys) ≡ sum_fees xs + sum_fees ys
sum_fees-append [] ys = omega arith
sum_fees-append (x ∷ xs) ys = omega (arith, sum_fees-append xs ys)

copies-append :
    (q : Bytes) (xs ys : List MempoolEntry) → copies q (xs ++ ys) ≡ copies q xs + copies q ys
copies-append q [] ys = omega arith
copies-append q (x ∷ xs) ys = omega (arith, copies-append q xs ys)

append-All :
    (P : MempoolEntry → Type 0) (xs : List MempoolEntry) (e : MempoolEntry)
    → All P xs
    → P e
    → All P (xs ++ (e ∷ []))
append-All P [] e h p = (p, tt)
append-All P (x ∷ xs) e (h, hs) p = (h, append-All P xs e hs p)

append-IsOrdered :
    (pool : Dict Bytes MempoolEntry) (before xs : List MempoolEntry) (e : MempoolEntry)
    → IsOrdered pool before xs
    → has_parents pool (before ++ xs) e.transaction.inputs ≡ true
    → IsOrdered pool before (xs ++ (e ∷ []))
append-IsOrdered pool before [] e h p =
    (subst (λ t. has_parents pool t e.transaction.inputs ≡ true) (append-nil before) p, tt)
append-IsOrdered pool before (x ∷ xs) e (h, hs) p = (
  h,
  append-IsOrdered pool (before ++ (x ∷ [])) xs e hs (
      subst (λ t. has_parents pool t e.transaction.inputs ≡ true)
        (sym (append_assoc before (x ∷ []) xs)) p),
)

copies-place :
    (before : MempoolEntry → MempoolEntry → Bool) (q : Bytes) (x : MempoolEntry)
    (ys : List MempoolEntry)
    → copies q (place before x ys) ≡ copies q (x ∷ ys)
unfolding place
copies-place before q x [] = refl
copies-place before q x (y ∷ ys) = ground (arith, copies-place before q x ys)

copies-sorted :
    (before : MempoolEntry → MempoolEntry → Bool) (q : Bytes) (xs : List MempoolEntry)
    → copies q (sorted before xs) ≡ copies q xs
unfolding sorted
copies-sorted before q [] = refl
copies-sorted before q (x ∷ xs) =
    omega (arith, copies-place before q x (sorted before xs), copies-sorted before q xs)

module _ (max_bytes height : ℕ) (pool : Dict Bytes MempoolEntry) where
  -- The selection between two entries, `rest` being the candidates still there.
  pub record IsFair (start : Bytes → ℕ) (rest : Bytes → ℕ) (sel : Selection) : Type 0 where
    pub fits : sel.used ≤ max_bytes
    pub counted : sel.used ≡ sum_sizes sel.chosen
    pub fees : sel.total_fee ≡ sum_fees sel.chosen
    pub ordered : IsOrdered pool [] sel.chosen
    pub final :
        All (λ (e : MempoolEntry). check_transaction_final e.transaction height ≡ true) sel.chosen
    pub once : (q : Bytes) → copies q sel.chosen + rest q ≤ start q

  -- Fewer candidates are left.
  fewer-IsFair :
      {start rest rest' : Bytes → ℕ} {sel : Selection}
      → ((q : Bytes) → rest' q ≤ rest q)
      → IsFair start rest sel
      → IsFair start rest' sel
  fewer-IsFair le h = record {
    fits = h.fits;
    counted = h.counted;
    fees = h.fees;
    ordered = h.ordered;
    final = h.final;
    once = λ q. omega (arith, le q, h.once q);
  }

  judge-selects :
      (e : MempoolEntry) (sel : Selection)
      → judge max_bytes height pool e sel ≡ selects
      → (sel.used + e.size ≤ max_bytes)
        × (check_transaction_final e.transaction height ≡ true)
        × (has_parents pool sel.chosen e.transaction.inputs ≡ true)
  unfolding judge
  judge-selects e sel h = ground arith

  choose-IsFair :
      (start rest rest' : Bytes → ℕ) (e : MempoolEntry) (sel : Selection)
      → ((q : Bytes) → rest' q + copies q (e ∷ []) ≤ rest q)
      → judge max_bytes height pool e sel ≡ selects
      → IsFair start rest sel
      → IsFair start rest' (choose e sel)
  unfolding choose
  choose-IsFair start rest rest' e sel le j h =
      let (room, final, parents) = judge-selects e sel j in
      record {
        fits = room;
        counted = omega (arith, h.counted, sum_sizes-append sel.chosen (e ∷ []));
        fees = omega (arith, h.fees, sum_fees-append sel.chosen (e ∷ []));
        ordered = append-IsOrdered pool [] sel.chosen e h.ordered parents;
        final = append-All _ sel.chosen e h.final final;
        once = λ q. omega (arith, le q, h.once q, copies-append q sel.chosen (e ∷ []));
      }

  -- What a round leaves: the selection is still fair, and a round that progressed took a candidate.
  abbrev IsSwept :
      (Bytes → ℕ)
      → List MempoolEntry
      → List MempoolEntry
      → Bool
      → List MempoolEntry × Bool × Selection
      → Type 0
  IsSwept start es left progressed (left', progressed', sel') =
      IsFair start (λ q. copies q left') sel'
      × (length left' ≤ length left + length es)
      × (progressed ≡ false → progressed' ≡ true → length left' + 1 ≤ length left + length es)

  sweep-IsSwept :
      (start : Bytes → ℕ) (es left : List MempoolEntry) (progressed : Bool) (sel : Selection)
      → IsFair start (λ q. copies q left + copies q es) sel
      → IsSwept start es left progressed (sweep max_bytes height pool es left progressed sel)
  unfolding sweep
  sweep-IsSwept start [] left progressed sel h =
      (fewer-IsFair (λ q. omega arith) h, omega arith, λ x y. absurd (cc (x, y)))
  sweep-IsSwept start (e ∷ es) left progressed sel h =
      go (judge max_bytes height pool e sel) refl
        (sweep-IsSwept start es (left ++ (e ∷ [])) progressed sel
          (fewer-IsFair (λ q. omega (arith, copies-append q left (e ∷ []))) h))
        (sweep-IsSwept start es left progressed sel (fewer-IsFair (λ q. omega arith) h))
        (λ j. sweep-IsSwept start es left true (choose e sel) (
          choose-IsFair start (λ q. copies q left + copies q (e ∷ es)) _ e sel (λ q. omega arith) j
            h))
    where
      go :
          (v : Verdict)
          → judge max_bytes height pool e sel ≡ v
          → IsSwept start es
              (left ++ (e ∷ []))
              progressed
              (sweep max_bytes height pool es (left ++ (e ∷ [])) progressed sel)
          → IsSwept start es left progressed (sweep max_bytes height pool es left progressed sel)
          → (judge max_bytes height pool e sel ≡ selects
              → IsSwept start es left true
                  (sweep max_bytes height pool es left true (choose e sel)))
          → IsSwept start (e ∷ es) left progressed (elim v [
            | stays ↦ sweep max_bytes height pool es (left ++ (e ∷ [])) progressed sel
            | dropped ↦ sweep max_bytes height pool es left progressed sel
            | selects ↦ sweep max_bytes height pool es left true (choose e sel)
          ])
      go stays j (f, le, less) d s = (
        f,
        omega (arith, le, length-append left (e ∷ [])),
        λ x y. omega (arith, less x y, length-append left (e ∷ [])),
      )
      go dropped j a (f, le, less) s = (f, omega (arith, le), λ x y. omega (arith, less x y))
      go selects j a d s = let (f, le, _) = s j in (f, omega (arith, le), λ x y. omega (arith, le))

  collect_loop-IsFair :
      (start : Bytes → ℕ) (n : ℕ) (candidates : List MempoolEntry) (sel : Selection)
      → length candidates + 1 ≤ n
      → IsFair start (λ q. copies q candidates) sel
      → (sel' : Selection) × (collect_loop max_bytes height pool n candidates sel ≡ some sel')
        × IsFair start (λ q. 0) sel'
  unfolding collect_loop
  collect_loop-IsFair start zero candidates sel le h = absurd (omega arith)
  collect_loop-IsFair start (suc n) candidates sel le h =
      let (f, _, less) =
        sweep-IsSwept start candidates [] false sel (fewer-IsFair (λ q. omega arith) h) in
      go (sweep max_bytes height pool candidates [] false sel) (f, λ y. omega (arith, less refl y))
        (λ left sel' k g. collect_loop-IsFair start n left sel' k g) le
    where
      go :
          (r : List MempoolEntry × Bool × Selection)
          → IsFair start (λ q. copies q r.0) r.2 × (r.1 ≡ true → length r.0 + 1 ≤ length candidates)
          → ((left : List MempoolEntry) (sel' : Selection)
              → length left + 1 ≤ n
              → IsFair start (λ q. copies q left) sel'
              → (last : Selection) × (collect_loop max_bytes height pool n left sel' ≡ some last)
                × IsFair start (λ q. 0) last)
          → length candidates + 1 ≤ suc n
          → (last : Selection) × ((elim r.1 [
            | true ↦ collect_loop max_bytes height pool n r.0 r.2
            | false ↦ some r.2
          ])
              ≡ some last)
            × IsFair start (λ q. 0) last
      go (left, true, sel') (f, less) rec k = rec left sel' (omega (arith, less refl)) f
      go (left, false, sel') (f, less) rec k = (sel', refl, fewer-IsFair (λ q. omega arith) f)

-- On a valid pool an id stands once at most among the values.
copies_once :
    (m : Dict Bytes MempoolEntry) (q : Bytes)
    → IsDict bytes_eq m
    → ((k : Bytes) (e : MempoolEntry) → lookup bytes_eq k m ≡ some e → e.txid ≡ k)
    → copies q (values m) ≤ (if is_some (lookup bytes_eq q m) then 1 else 0)
unfolding lookup is_some
copies_once [] q d h = omega arith
copies_once ((k, e) ∷ m) q d h =
    let rest = copies_once m q d.1 (λ k' e' x. below k' e' x) in
    ground (arith, rest, h k e, bytes_eq_iff k k, bytes_eq_iff q k, bytes_eq_iff q e.txid)
  where
    below : (k' : Bytes) (e' : MempoolEntry) → lookup bytes_eq k' m ≡ some e' → e'.txid ≡ k'
    below k' e' x = ground (arith, h k' e', bytes_eq_iff k' k)

-- On a valid pool `collect` ends. The sizes of what it selects sum to `used`, which is at most
-- `max_bytes`, and the fees to `total_fee`; every selected transaction is final at the height and
-- comes after the pooled transactions that it spends; no id is selected twice, nor one that is not
-- in the pool.
pub collect-IsFair :
    (divide : ℕ → ℕ → ℕ) (max_bytes height : ℕ) (pool : Mempool)
    → IsPool pool
    → (sel : Selection) × (collect divide max_bytes height pool ≡ some sel)
      × (sel.used ≡ sum_sizes sel.chosen)
      × (sel.used ≤ max_bytes)
      × (sel.total_fee ≡ sum_fees sel.chosen)
      × All (λ (e : MempoolEntry). check_transaction_final e.transaction height ≡ true) sel.chosen
      × IsOrdered pool.by_txid [] sel.chosen
      × ((q : Bytes)
          → copies q sel.chosen ≤ (if is_some (lookup bytes_eq q pool.by_txid) then 1 else 0))
unfolding collect entries
collect-IsFair divide max_bytes height pool h =
    let (sel, run, f) =
      collect_loop-IsFair max_bytes height pool.by_txid (λ q. copies q (values pool.by_txid))
        (suc (length (entries divide pool))) (entries divide pool)
        (record { chosen = []; total_fee = 0; used = 0 }) (omega arith)
        (record {
          fits = omega arith;
          counted = refl;
          fees = refl;
          ordered = tt;
          final = tt;
          once = λ q. omega (arith, copies-sorted (pays_more divide) q (values pool.by_txid));
        }) in
    (
      sel,
      run,
      f.counted,
      f.fits,
      f.fees,
      f.final,
      f.ordered,
      λ q. omega (arith, f.once q, copies_once pool.by_txid q h.distinct h.named),
    )
