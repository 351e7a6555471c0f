-- ===== src/Chain/Window.antt =====
-- src/scarletcoin/core/chain.py: the blocks that `_window_work` counts.
use scarlet_coin.Prelude.{
  ℕ, zero, suc, ◌+◌, ◌-◌, ◌≤◌, ◌≡◌, refl, ◌∙◌, sym, ap, subst, ◌⊎◌, inl, inr, true, some, List,
  arith, ltb, Bool-cases,
}
use scarlet_coin.Prelude.Int.{pos, sub_ℕ}
use scarlet_coin.Prelude.Bytes.{Bytes}
use scarlet_coin.Params.{ChainParams, target_timespan}
use scarlet_coin.Chain.Retarget.{
  BlockIndexEntry, get_entry, ancestor_at, window_start, work_before, window_work,
}
use scarlet_coin.Chain.Ancestors.{parent_of, back, IsIndex, ancestor_at-back}

zero_or_suc : (n : ℕ) → (n ≡ 0) ⊎ ((m : ℕ) × (n ≡ suc m))
zero_or_suc zero = inl refl
zero_or_suc (suc m) = inr (m, refl)

sub_ℕ-suc : (m : ℕ) → sub_ℕ (suc m) 1 ≡ pos m
sub_ℕ-suc m = ground arith

some_inj : {a b : BlockIndexEntry} → some a ≡ some b → a ≡ b
some_inj e = cc

module _ (rows : List BlockIndexEntry) (newest duration : ℕ) where
  -- From `e` back to `s` over `k` parents, each of them no older than the window.
  abbrev pub Recent : ℕ → BlockIndexEntry → BlockIndexEntry → Type 0
  Recent zero e s = e ≡ s
  Recent (suc k) e s =
      (p : BlockIndexEntry) × (parent_of rows e ≡ some p)
      × (newest ≤ p.header.timestamp + duration)
      × Recent k p s

  -- The block before `s` does not exist or is older than the window; `worked` is its chain work.
  abbrev pub Stops : BlockIndexEntry → ℕ → Type 0
  Stops s worked =
      ((s.height ≡ 0) × (worked ≡ 0))
      ⊎ ((p : BlockIndexEntry) × (parent_of rows s ≡ some p)
          × (suc (p.header.timestamp + duration) ≤ newest)
          × (worked ≡ p.chainwork))

  module _ (w : IsIndex rows) where
    ancestor_at-parent :
        (id : Bytes) (e : BlockIndexEntry) (n : ℕ)
        → get_entry id rows ≡ some e
        → e.height ≡ suc n
        → (p : BlockIndexEntry) × (parent_of rows e ≡ some p)
          × (p.height ≡ n)
          × (ancestor_at rows e (pos n) ≡ some p)
    ancestor_at-parent id e n known h =
        let (p, e1, e2, _) = w.linked id e n known h in
        let (a, f1, f2, _) = ancestor_at-back rows w id e n known (omega (arith, h)) in
        let one : e.height - n ≡ 1 = omega (arith, h) in
        let one_back : back rows 1 e ≡ some a = subst (λ d. back rows d e ≡ some a) one f2 in
        let reached : some p ≡ some a = sym (rw (e1, back) refl) ∙ one_back in
        (p, e1, e2, f1 ∙ sym reached)

    work_before-Stops :
        (id : Bytes) (s : BlockIndexEntry)
        → get_entry id rows ≡ some s
        → (s.height ≡ 0)
          ⊎ ((p : BlockIndexEntry) × (parent_of rows s ≡ some p)
              × (suc (p.header.timestamp + duration) ≤ newest))
        → Stops s (work_before rows (ancestor_at rows s (sub_ℕ s.height 1)))
    unfolding work_before ancestor_at
    work_before-Stops id s known ends = elim (zero_or_suc s.height) [
      | inl h ↦ inl (h, ap (λ n. work_before rows (ancestor_at rows s (sub_ℕ n 1))) h)
      | inr (m, h) ↦
          let (p, e1, _, e2) = ancestor_at-parent id s m known h in
          let which : sub_ℕ s.height 1 ≡ pos m = ap (λ n. sub_ℕ n 1) h ∙ sub_ℕ-suc m in
          elim ends [
            | inl h0 ↦ absurd (omega (arith, h, h0))
            | inr (q, f1, old) ↦
                let same : p ≡ q = some_inj (sym e1 ∙ f1) in
                inr (
                  q,
                  f1,
                  old,
                  ap (λ i. work_before rows (ancestor_at rows s i)) which
                      ∙ ap (work_before rows) e2
                      ∙ ap (λ (t : BlockIndexEntry). t.chainwork) same,
                )
          ]
    ]

    pub window_start-Recent :
        (n : ℕ) (id : Bytes) (e : BlockIndexEntry)
        → get_entry id rows ≡ some e
        → e.height ≡ n
        → (k : ℕ) × (own : Bytes) × (get_entry own rows
            ≡ some (window_start rows n newest duration e))
          × Recent k e (window_start rows n newest duration e)
          × (((window_start rows n newest duration e).height ≡ 0)
              ⊎ ((p : BlockIndexEntry) × (parent_of rows (window_start rows n newest duration e)
                    ≡ some p)
                  × (suc (p.header.timestamp + duration) ≤ newest)))
    unfolding window_start
    window_start-Recent zero id e known h = (0, id, known, refl, inl h)
    window_start-Recent (suc n) id e known h =
        let (p, e1, e2, e3) = ancestor_at-parent id e n known h in
        let above : ltb 0 e.height ≡ true = ground arith in
        let lower : ancestor_at rows e (pos (e.height - 1)) ≡ some p =
          subst (λ m. ancestor_at rows e (pos m) ≡ some p) (omega (arith, h)) e3 in
        elim (Bool-cases (ltb (p.header.timestamp + duration) newest)) [
          | inl old ↦
              rw (above, window_start)
                (rw lower (rw old (0, id, known, refl, inr (p, e1, ground arith))))
          | inr recent ↦
              let (k, own, f1, f2, f3) = window_start-Recent n e.prev_hash p e1 e2 in
              rw (above, window_start)
                (rw lower (rw recent (suc k, own, f1, (p, e1, ground arith, f2), f3)))
        ]

-- `_window_work` ends. Following the parents of a known block `e` it reaches a block `s` over
-- blocks none of which is older than `e` by more than the window, and the block before `s`, if
-- there is one, is older than that. The result is the work of `e` less that of the block before
-- `s`, which counts as zero at height 0, and the time from `s` to the child, both as integers that
-- may be negative. It is assumed that every block above height 0 has its parent in the index one
-- below, that the parents of active blocks are active, and that an active block is the one that the
-- query for its height returns.
pub window_work-Recent :
    (rows : List BlockIndexEntry) (params : ChainParams) (id : Bytes) (e : BlockIndexEntry)
    (child_timestamp : ℕ)
    → IsIndex rows
    → get_entry id rows ≡ some e
    → (k : ℕ) × (s : BlockIndexEntry) × (worked : ℕ) × Recent rows e.header.timestamp
        (target_timespan params)
        k
        e
        s
      × Stops rows e.header.timestamp (target_timespan params) s worked
      × (window_work rows params e child_timestamp
          ≡ (sub_ℕ e.chainwork worked, sub_ℕ child_timestamp s.header.timestamp))
unfolding window_work
window_work-Recent rows params id e child_timestamp w known =
    let newest = e.header.timestamp in
    let duration = target_timespan params in
    let (k, own, f1, f2, f3) =
      window_start-Recent rows newest duration w e.height id e known refl in
    let s = window_start rows e.height newest duration e in
    (
      k,
      s,
      work_before rows (ancestor_at rows s (sub_ℕ s.height 1)),
      f2,
      work_before-Stops rows newest duration w own s f1 f3,
      refl,
    )
