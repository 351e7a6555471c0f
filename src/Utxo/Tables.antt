-- ===== src/Utxo/Tables.antt =====
-- Coin tables: what a lookup sees after an update.
use scarlet_coin.Prelude.{◌≡◌, refl, false, none, some, List, [], ◌∷◌, arith, if◌then◌else◌, any}
use scarlet_coin.Transaction.{OutPoint, outpoint_eq}
use scarlet_coin.Transaction.Sanity.{outpoint_eq_refl, outpoint_eq_iff}
use scarlet_coin.Utxo.{Coin, Coins, find, erase, put, discard}

pub outpoint_eq_comm : (p q : OutPoint) → outpoint_eq p q ≡ outpoint_eq q p
outpoint_eq_comm p q = ground (arith, outpoint_eq_iff p q, outpoint_eq_iff q p)

pub find-erase :
    (p q : OutPoint) (m : Coins) → find q (erase p m) ≡ (if outpoint_eq p q then none else find q m)
unfolding find erase
find-erase p q [] = ground arith
find-erase p q ((r, c) ∷ m) =
    ground (arith, find-erase p q m, outpoint_eq_iff p r, outpoint_eq_iff q r, outpoint_eq_iff p q)

pub find-put :
    (p q : OutPoint) (c : Coin) (m : Coins)
    → find q (put p c m) ≡ (if outpoint_eq p q then some c else find q m)
unfolding find put
find-put p q c m = rw (find-erase p q m, outpoint_eq_comm q p) (ground arith)

pub any-discard :
    (p q : OutPoint) (ps : List OutPoint)
    → any (outpoint_eq q) (discard p ps)
      ≡ (if outpoint_eq p q then false else any (outpoint_eq q) ps)
unfolding discard
any-discard p q [] = ground arith
any-discard p q (r ∷ ps) =
    ground
      (arith, any-discard p q ps, outpoint_eq_iff p r, outpoint_eq_iff q r, outpoint_eq_iff p q)

-- No outpoint has two coins.
abbrev pub IsTable : Coins → Type 0
IsTable [] = Unit
IsTable ((q, c) ∷ m) = (find q m ≡ none) × IsTable m

pub erase-IsTable : (p : OutPoint) (m : Coins) → IsTable m → IsTable (erase p m)
unfolding erase
erase-IsTable p [] h = tt
erase-IsTable p ((q, c) ∷ m) h = ground (arith, erase-IsTable p m h.1, find-erase p q m)

pub put-IsTable : (p : OutPoint) (c : Coin) (m : Coins) → IsTable m → IsTable (put p c m)
unfolding put
put-IsTable p c m h = (rw (find-erase p p m, outpoint_eq_refl p) refl, erase-IsTable p m h)

pub erase_absent : (p : OutPoint) (m : Coins) → find p m ≡ none → erase p m ≡ m
unfolding erase find
erase_absent p [] h = refl
erase_absent p ((q, c) ∷ m) h = ground (arith, erase_absent p m)
