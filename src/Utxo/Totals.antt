-- ===== src/Utxo/Totals.antt =====
-- The value in a coin table: it follows from what lookups see, and each update changes it by a known
-- amount.
use scarlet_coin.Prelude.{
  ◌+◌, ◌≤◌, ◌≡◌, refl, ◌∙◌, sym, false, none, some, [], ◌∷◌, arith, Bool-cases, inl, inr, subst,
}
use scarlet_coin.Transaction.{OutPoint, outpoint_eq}
use scarlet_coin.Transaction.Sanity.{outpoint_eq_refl, outpoint_eq_sound}
use scarlet_coin.Utxo.{Coin, Coins, find, erase, put, total}
use scarlet_coin.Utxo.Tables.{outpoint_eq_comm, find-erase, IsTable, erase-IsTable, erase_absent}

pub total-erase :
    (p : OutPoint) (c : Coin) (m : Coins)
    → IsTable m
    → find p m ≡ some c
    → total (erase p m) + c.value ≡ total m
unfolding total erase find
total-erase p c [] t h = cc
total-erase p c ((q, d) ∷ m) t h = elim (Bool-cases (outpoint_eq p q)) [
  | inl e ↦
      let same : p ≡ q = outpoint_eq_sound p q e in
      let gone : find p m ≡ none = subst (λ x. find x m ≡ none) (sym same) t.0 in
      ground (arith, erase_absent p m gone)
  | inr e ↦ ground (arith, total-erase p c m t.1)
]

pub total-erase-le : (p : OutPoint) (m : Coins) → total (erase p m) ≤ total m
unfolding total erase
total-erase-le p [] = omega arith
total-erase-le p ((q, d) ∷ m) = ground (arith, total-erase-le p m)

find_here : (q : OutPoint) (c : Coin) (m : Coins) → find q ((q, c) ∷ m) ≡ some c
unfolding find
find_here q c m = rw (outpoint_eq_refl q)

find_rest :
    (p q : OutPoint) (c : Coin) (m : Coins)
    → outpoint_eq p q ≡ false
    → find p ((q, c) ∷ m) ≡ find p m
unfolding find
find_rest p q c m h = rw h

-- What is left when one entry is taken out of both tables still agrees.
agree_rest :
    (q : OutPoint) (c : Coin) (m n : Coins)
    → find q m ≡ none
    → ((p : OutPoint) → find p ((q, c) ∷ m) ≡ find p n)
    → (p : OutPoint) → find p m ≡ find p (erase q n)
agree_rest q c m n absent h p = elim (Bool-cases (outpoint_eq q p)) [
  | inl e ↦
      let same : q ≡ p = outpoint_eq_sound q p e in
      rw (find-erase q p n, e) (subst (λ x. find x m ≡ none) same absent)
  | inr e ↦
      let flipped : outpoint_eq p q ≡ false = outpoint_eq_comm p q ∙ e in
      rw (find-erase q p n, e) (sym (find_rest p q c m flipped) ∙ h p)
]

-- Two tables in which every lookup agrees hold the same value.
pub total_ext :
    (m n : Coins)
    → IsTable m
    → IsTable n
    → ((p : OutPoint) → find p m ≡ find p n)
    → total m ≡ total n
unfolding total
total_ext [] [] t u h = refl
total_ext [] ((q, d) ∷ n) t u h = absurd (some_here (h q ∙ find_here q d n))
  where
    some_here : find q [] ≡ some d → ⊥
    some_here e = unfold find in cc e
total_ext ((q, c) ∷ m) n t u h =
    let here : find q n ≡ some c = sym (h q) ∙ find_here q c m in
    let rest = total_ext m (erase q n) t.1 (erase-IsTable q n u) (agree_rest q c m n t.0 h) in
    omega (arith, total-erase q c n u here)

pub total-put-le : (p : OutPoint) (c : Coin) (m : Coins) → total (put p c m) ≤ c.value + total m
unfolding total put
total-put-le p c m = omega (arith, total-erase-le p m)
