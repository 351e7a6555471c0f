-- ===== src/Prelude/Sort.antt =====
-- Python's `sorted` by a key: `before a b` says that the key of `a` is less than that of `b`.
use scarlet_coin.Prelude.{Bool, List, [], ◌∷◌, if◌then◌else◌}

-- `sorted`, which keeps the order of items neither of which comes before the other.
module _ {A : Type 0} (before : A → A → Bool) where
  unfoldable pub place : A → List A → List A
  place x [] = x ∷ []
  place x (y ∷ ys) = let rest = place x ys in if before y x then y ∷ rest else x ∷ y ∷ ys

  unfoldable pub sorted : List A → List A
  unfolding place
  sorted [] = []
  sorted (x ∷ xs) = place x (sorted xs)
