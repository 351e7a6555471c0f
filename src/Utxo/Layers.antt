-- ===== src/Utxo/Layers.antt =====
-- The overlay against the coin set that it stands for: every operation is the plain update of a
-- finite map, and writing the overlay back gives the set that the overlay showed.
use scarlet_coin.Prelude.{
  ◌≡◌, refl, sym, false, none, some, List, [], ◌∷◌, arith, if◌then◌else◌, any, Bool-cases,
  Option-cases, inl, inr, subst,
}
use scarlet_coin.Outcome.{ok}
use scarlet_coin.Transaction.{OutPoint, outpoint_eq}
use scarlet_coin.Transaction.Sanity.{outpoint_eq_sound}
use scarlet_coin.Utxo.{
  Coin, CoinView, Coins, CoinOverlay, first_of_two, find, erase, put, overlay, get_coin, spend, add,
}
use scarlet_coin.Utxo.Tables.{
  outpoint_eq_comm, find-erase, find-put, any-discard, IsTable, erase-IsTable, put-IsTable,
}

-- A successful spend gives the coin that the overlay showed, after it the outpoint shows none, and
-- every other outpoint shows what it did.
pub get_coin-spend :
    (p q : OutPoint) (o o' : CoinOverlay) (c : Coin)
    → spend p o ≡ ok (c, o')
    → (get_coin o p ≡ some c) × (get_coin o' q ≡ (if outpoint_eq p q then none else get_coin o q))
unfolding spend get_coin
get_coin-spend p q o o' c h = ground (arith, find-erase p q o.added, outpoint_eq_comm p q)

-- After a coin has been added its outpoint shows it, even if it was spent before, and every other
-- outpoint shows what it did.
pub get_coin-add :
    (p q : OutPoint) (c : Coin) (o : CoinOverlay)
    → get_coin (add p c o) q ≡ (if outpoint_eq p q then some c else get_coin o q)
unfolding add get_coin
get_coin-add p q c o = ground (arith, find-put p q c o.added, any-discard p q o.spent)

-- The table holds one coin for each outpoint, and nothing is both added and spent.
pub record IsLayered (o : CoinOverlay) : Type 0 where
  pub table : IsTable o.added
  pub apart :
      (p : OutPoint) (c : Coin) → find p o.added ≡ some c → any (outpoint_eq p) o.spent ≡ false

pub overlay-IsLayered : (base : CoinView) → IsLayered (overlay base)
unfolding overlay find
overlay-IsLayered base = record { table = tt; apart = λ p c h. refl }

pub spend-IsLayered :
    (p : OutPoint) (o o' : CoinOverlay) (c : Coin)
    → IsLayered o
    → spend p o ≡ ok (c, o')
    → IsLayered o'
unfolding spend
spend-IsLayered p o o' c h e = record {
  table = ground (arith, erase-IsTable p o.added h.table);
  apart = λ q d f. ground (arith, find-erase p q o.added, h.apart q d, outpoint_eq_comm p q);
}

pub add-IsLayered :
    (p : OutPoint) (c : Coin) (o : CoinOverlay) → IsLayered o → IsLayered (add p c o)
unfolding add
add-IsLayered p c o h = record {
  table = put-IsTable p c o.added h.table;
  apart = λ q d f. ground (arith, find-put p q c o.added, h.apart q d, any-discard p q o.spent);
}

-- `for outpoint in overlay.spent: storage.remove_coin(outpoint)`
unfoldable pub remove_all : List OutPoint → Coins → Coins
remove_all [] m = m
remove_all (p ∷ ps) m = remove_all ps (erase p m)

-- `for outpoint, coin in overlay.added.items(): storage.add_coin(outpoint, coin)`
unfoldable pub put_all : Coins → Coins → Coins
put_all [] m = m
put_all ((p, c) ∷ news) m = put_all news (put p c m)

unfoldable pub commit : CoinOverlay → Coins → Coins
commit o m = put_all o.added (remove_all o.spent m)

pub find-remove_all :
    (ps : List OutPoint) (q : OutPoint) (m : Coins)
    → find q (remove_all ps m) ≡ (if any (outpoint_eq q) ps then none else find q m)
unfolding remove_all
find-remove_all [] q m = refl
find-remove_all (p ∷ ps) q m =
    ground (arith, find-remove_all ps q (erase p m), find-erase p q m, outpoint_eq_comm p q)

pub find-put_all :
    (news : Coins) (q : OutPoint) (m : Coins)
    → IsTable news
    → find q (put_all news m) ≡ first_of_two (find q news) (find q m)
unfolding put_all find
find-put_all [] q m t = refl
find-put_all ((p, c) ∷ news) q m t = elim (Bool-cases (outpoint_eq q p)) [
  | inl e ↦
      let same : q ≡ p = outpoint_eq_sound q p e in
      let absent : find q news ≡ none = subst (λ x. find x news ≡ none) (sym same) t.0 in
      ground (arith, find-put_all news q (put p c m) t.1, find-put p q c m, outpoint_eq_comm p q)
  | inr e ↦
      ground (arith, find-put_all news q (put p c m) t.1, find-put p q c m, outpoint_eq_comm p q)
]

-- Writing an overlay back to the table that it was laid over gives the table of exactly what the
-- overlay showed, if the overlay has one coin for each outpoint and nothing is both added and
-- spent.
pub find-commit :
    (o : CoinOverlay) (m : Coins)
    → IsLayered o
    → ((p : OutPoint) → o.base p ≡ find p m)
    → (p : OutPoint) → find p (commit o m) ≡ get_coin o p
unfolding commit get_coin
find-commit o m h same p = elim (Option-cases (find p o.added)) [
  | inl e ↦ ground (
    arith,
    find-put_all o.added p (remove_all o.spent m) h.table,
    find-remove_all o.spent p m,
    same p,
  )
  | inr (c, e) ↦
      ground (arith, find-put_all o.added p (remove_all o.spent m) h.table, h.apart p c e)
]

remove_all-IsTable : (ps : List OutPoint) (m : Coins) → IsTable m → IsTable (remove_all ps m)
unfolding remove_all
remove_all-IsTable [] m t = t
remove_all-IsTable (p ∷ ps) m t = remove_all-IsTable ps (erase p m) (erase-IsTable p m t)

put_all-IsTable : (news m : Coins) → IsTable m → IsTable (put_all news m)
unfolding put_all
put_all-IsTable [] m t = t
put_all-IsTable ((p, c) ∷ news) m t = put_all-IsTable news (put p c m) (put-IsTable p c m t)

pub commit-IsTable : (o : CoinOverlay) (m : Coins) → IsTable m → IsTable (commit o m)
unfolding commit
commit-IsTable o m t = put_all-IsTable o.added _ (remove_all-IsTable o.spent m t)
