-- ===== src/Chain/Ancestors.antt =====
-- src/scarletcoin/core/chain.py: `ancestor_at`, with its shortcut over the active chain.
use scarlet_coin.Prelude.{
  ℕ, zero, suc, ◌+◌, ◌-◌, ◌≤◌, ◌≡◌, refl, ◌∙◌, sym, ap, inl, inr, Bool, true, false, Option, none,
  some, List, arith, ltb, Bool-cases, if◌then◌else◌,
}
use scarlet_coin.Prelude.Int.{pos}
use scarlet_coin.Prelude.Bytes.{Bytes}
use scarlet_coin.Chain.Retarget.{
  BlockIndexEntry, get_entry, get_chain_entry, walk_back, ancestor_at,
}

if_eq :
    {A : Type 0} (b : Bool) (x y : A) (c : Bool)
    → b ≡ c
    → (if b then x else y) ≡ (if c then x else y)
if_eq b x y c e = ap (λ t. if t then x else y) e

module _ (rows : List BlockIndexEntry) where
  -- The parent, by the hash that the header names.
  abbrev pub parent_of : BlockIndexEntry → Option BlockIndexEntry
  parent_of e = get_entry e.prev_hash rows

  -- The entry `n` parents back.
  abbrev pub back : ℕ → BlockIndexEntry → Option BlockIndexEntry
  back zero e = some e
  back (suc n) e = elim (parent_of e) [ none ↦ none | some p ↦ back n p ]

  -- Each entry above height 0 has its parent one below; the active chain holds the parents of what it
  -- holds, and one entry of each height.
  pub record IsIndex : Type 0 where
    pub linked :
        (id : Bytes) (e : BlockIndexEntry) (n : ℕ)
        → get_entry id rows ≡ some e
        → e.height ≡ suc n
        → (p : BlockIndexEntry) × (parent_of e ≡ some p)
          × (p.height ≡ n)
          × (e.in_chain ≡ true → p.in_chain ≡ true)
    pub active :
        (id : Bytes) (e : BlockIndexEntry)
        → get_entry id rows ≡ some e
        → e.in_chain ≡ true
        → get_chain_entry e.height rows ≡ some e

  module _ (w : IsIndex) where
    -- On the active chain, `d` parents back is the active entry of that height.
    back-active :
        (d : ℕ) (id : Bytes) (e : BlockIndexEntry) (height : ℕ)
        → get_entry id rows ≡ some e
        → e.in_chain ≡ true
        → e.height ≡ d + height
        → (a : BlockIndexEntry) × (get_chain_entry height rows ≡ some a)
          × (back d e ≡ some a)
          × (a.height ≡ height)
    back-active zero id e height known on h =
        let same : e.height ≡ height = omega (arith, h) in
        (e, ap (λ n. get_chain_entry n rows) (sym same) ∙ w.active id e known on, refl, same)
    back-active (suc d) id e height known on h =
        let (p, e1, e2, e3) = w.linked id e (d + height) known (omega (arith, h)) in
        let (a, f1, f2, f3) = back-active d e.prev_hash p height e1 (e3 on) e2 in
        (a, f1, rw (e1, back) f2, f3)

    walk_back-back :
        (d fuel : ℕ) (id : Bytes) (e : BlockIndexEntry) (height : ℕ)
        → get_entry id rows ≡ some e
        → d ≤ fuel
        → e.height ≡ d + height
        → (a : BlockIndexEntry) × (walk_back rows fuel e height ≡ some a)
          × (back d e ≡ some a)
          × (a.height ≡ height)
    unfolding walk_back
    walk_back-back zero zero id e height known l h =
        let stop : ltb height e.height ≡ false = ground arith in
        (e, rw (stop, walk_back) refl, refl, omega (arith, h))
    walk_back-back zero (suc fuel) id e height known l h =
        let stop : ltb height e.height ≡ false = ground arith in
        (e, rw (stop, walk_back) refl, refl, omega (arith, h))
    walk_back-back (suc d) zero id e height known l h = absurd (omega (arith, l))
    walk_back-back (suc d) (suc fuel) id e height known l h =
        let more : ltb height e.height ≡ true = ground arith in
        elim (Bool-cases e.in_chain) [
          | inl on ↦
              let (a, f1, f2, f3) = back-active (suc d) id e height known on h in
              (a, rw (more, walk_back) (if_eq e.in_chain _ _ true on ∙ f1), f2, f3)
          | inr off ↦
              let (p, e1, e2, _) = w.linked id e (d + height) known (omega (arith, h)) in
              let (a, f1, f2, f3) =
                walk_back-back d fuel e.prev_hash p height e1 (omega (arith, l)) e2 in
              (
                a,
                rw (more, walk_back) (if_eq e.in_chain _ _ false off ∙ rw e1 f1),
                rw (e1, back) f2,
                f3,
              )
        ]

    -- `ancestor_at`, which takes a shortcut as soon as it meets the active chain, ends and finds,
    -- for every known block and every height up to its own, the block that following the parents
    -- one by one reaches, and that block has the height. It is assumed that every block above
    -- height 0 has its parent in the index one below, that the parents of active blocks are active,
    -- and that an active block is the one that the query for its height returns.
    pub ancestor_at-back :
        (id : Bytes) (e : BlockIndexEntry) (height : ℕ)
        → get_entry id rows ≡ some e
        → height ≤ e.height
        → (a : BlockIndexEntry) × (ancestor_at rows e (pos height) ≡ some a)
          × (back (e.height - height) e ≡ some a)
          × (a.height ≡ height)
    unfolding ancestor_at
    ancestor_at-back id e height known l =
        let inside : ltb e.height height ≡ false = ground arith in
        elim (Bool-cases e.in_chain) [
          | inl on ↦
              let (a, f1, f2, f3) =
                back-active (e.height - height) id e height known on (omega (arith, l)) in
              (a, rw inside (if_eq e.in_chain _ _ true on ∙ f1), f2, f3)
          | inr off ↦
              let (a, f1, f2, f3) =
                walk_back-back (e.height - height) e.height id e height known (omega arith)
                  (omega (arith, l)) in
              (a, rw inside (if_eq e.in_chain _ _ false off ∙ f1), f2, f3)
        ]
