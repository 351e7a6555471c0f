-- ===== src/Tests/Branches.antt =====
-- An active chain of two blocks and a side branch of two on its first.
use scarlet_coin.Prelude.{
  ℕ, suc, ◌+◌, ◌-◌, ◌≡◌, refl, subst, ◌⊎◌, inl, inr, Bool, true, false, some, List, [], ◌∷◌, arith,
}
use scarlet_coin.Prelude.Int.{pos, sub_ℕ}
use scarlet_coin.Prelude.Bytes.{Bytes, bytes_eq}
use scarlet_coin.Chain.Retarget.{
  BlockIndexEntry, get_entry, get_chain_entry, ancestor_at, window_work,
}
use scarlet_coin.Params.{target_timespan}
use scarlet_coin.Tests.Money.{rules}
use scarlet_coin.Chain.Window.{Recent, Stops, window_work-Recent}
use scarlet_coin.Chain.Ancestors.{parent_of, back, IsIndex, ancestor_at-back}

abbrev entry : ℕ → ℕ → ℕ → ℕ → Bool → BlockIndexEntry
entry id height parent timestamp in_chain = record {
  hash = id ∷ [];
  height = height;
  prev_hash = parent ∷ [];
  chainwork = height + 1;
  in_chain = in_chain;
  header = record {
    version = 1;
    prev_hash = parent ∷ [];
    merkle_root = [];
    timestamp = timestamp;
    bits = 0x207fffff;
    nonce = 0;
  };
  pruned = false;
}

abbrev genesis : BlockIndexEntry
genesis = entry 1 0 0 100 true

abbrev tip : BlockIndexEntry
tip = entry 2 1 1 160 true

abbrev side : BlockIndexEntry
side = entry 3 1 1 150 false

abbrev side_tip : BlockIndexEntry
side_tip = entry 4 2 3 220 false

abbrev rows : List BlockIndexEntry
rows = genesis ∷ tip ∷ side ∷ side_tip ∷ []

known_cases :
    (id : Bytes) (e : BlockIndexEntry)
    → get_entry id rows ≡ some e
    → (genesis ≡ e) ⊎ (tip ≡ e) ⊎ (side ≡ e) ⊎ (side_tip ≡ e)
unfolding get_entry
known_cases id e known = ground arith

-- What `linked` and `active` say of one entry.
abbrev Linked : BlockIndexEntry → Type 0
Linked e =
    (n : ℕ)
    → e.height ≡ suc n
    → (p : BlockIndexEntry) × (parent_of rows e ≡ some p)
      × (p.height ≡ n)
      × (e.in_chain ≡ true → p.in_chain ≡ true)

links : Linked genesis × Linked tip × Linked side × Linked side_tip
unfolding get_entry bytes_eq
links = (
  (λ n h. absurd (omega (arith, h))),
  (λ n h. (genesis, refl, omega (arith, h), λ on. refl)),
  (λ n h. (genesis, refl, omega (arith, h), λ on. refl)),
  (λ n h. (side, refl, omega (arith, h), λ on. cc)),
)

shown : (get_chain_entry 0 rows ≡ some genesis) × (get_chain_entry 1 rows ≡ some tip)
unfolding get_chain_entry
shown = (refl, refl)

Linked-known : (id : Bytes) (e : BlockIndexEntry) → get_entry id rows ≡ some e → Linked e
Linked-known id e known =
    let (first, second, third, fourth) = links in
    elim (known_cases id e known) [
      | inl h ↦ subst Linked h first
      | inr (inl h) ↦ subst Linked h second
      | inr (inr (inl h)) ↦ subst Linked h third
      | inr (inr (inr h)) ↦ subst Linked h fourth
    ]

abbrev Active : BlockIndexEntry → Type 0
Active e = e.in_chain ≡ true → get_chain_entry e.height rows ≡ some e

Active-known : (id : Bytes) (e : BlockIndexEntry) → get_entry id rows ≡ some e → Active e
Active-known id e known = elim (known_cases id e known) [
  | inl h ↦ subst Active h (λ on. shown.0)
  | inr (inl h) ↦ subst Active h (λ on. shown.1)
  | inr (inr (inl h)) ↦ subst Active h (λ on. absurd (cc on))
  | inr (inr (inr h)) ↦ subst Active h (λ on. absurd (cc on))
]

rows-IsIndex : IsIndex rows
rows-IsIndex = record { linked = λ id e n known. Linked-known id e known n; active = Active-known }

finds : get_entry (4 ∷ []) rows ≡ some side_tip
unfolding get_entry bytes_eq
finds = refl

ancestor_at-back_example :
    (a : BlockIndexEntry) × (ancestor_at rows side_tip (pos 0) ≡ some a)
    × (back rows (2 - 0) side_tip ≡ some a)
    × (a.height ≡ 0)
ancestor_at-back_example =
    ancestor_at-back rows rows-IsIndex (4 ∷ []) side_tip 0 finds (omega arith)

window_work-Recent_example :
    (k : ℕ) × (s : BlockIndexEntry) × (worked : ℕ) × Recent rows 220
      (target_timespan rules)
      k
      side_tip
      s
    × Stops rows 220 (target_timespan rules) s worked
    × (window_work rows rules side_tip 280 ≡ (sub_ℕ 3 worked, sub_ℕ 280 s.header.timestamp))
window_work-Recent_example = window_work-Recent rows rules (4 ∷ []) side_tip 280 rows-IsIndex finds
