-- ===== src/Prelude/Dict.antt =====
-- Python's dictionaries as lists of items in insertion order, over the Boolean test on the keys that
-- stands for `==`.
use scarlet_coin.Prelude.{
  ℕ, ◌+◌, ◌≡◌, refl, sym, subst, ◌↔◌, inl, inr, Bool, true, Option, none, some, List, [], ◌∷◌, ◌++◌,
  arith, if◌then◌else◌, Bool-cases,
}

abbrev pub Dict {ℓ} : Type ℓ → Type ℓ → Type ℓ
Dict K V = List (K × V)

abbrev pub values {ℓ} : {K V : Type ℓ} → Dict K V → List V
values [] = []
values ((k, v) ∷ m) = v ∷ values m

abbrev pub keys {ℓ} : {K V : Type ℓ} → Dict K V → List K
keys [] = []
keys ((k, v) ∷ m) = k ∷ keys m

-- What the values amount to together, by a size for each.
abbrev pub sum_by {ℓ} : {K V : Type ℓ} → (V → ℕ) → Dict K V → ℕ
sum_by size [] = 0
sum_by size ((q, v) ∷ m) = size v + sum_by size m

unfoldable option_cons {ℓ} : {K : Type ℓ} → K → Option (List K) → Option (List K)
option_cons q none = none
option_cons q (some qs) = some (q ∷ qs)

-- `order.remove(k)`, what is left; `none` stands for its `ValueError`.
unfoldable pub remove_item : {K : Type 0} → (K → K → Bool) → K → List K → Option (List K)
unfolding option_cons
remove_item eq k [] = none
remove_item eq k (q ∷ qs) =
    let rest = remove_item eq k qs in if eq k q then some qs else option_cons q rest

module _ {K V : Type 0} (eq : K → K → Bool) where
  -- `m.get(k)`
  unfoldable pub lookup : K → Dict K V → Option V
  lookup k [] = none
  lookup k ((q, v) ∷ m) = if eq k q then some v else lookup k m

  -- `m.pop(k, None)` and `del m[k]`, what is left
  unfoldable pub delete : K → Dict K V → Dict K V
  delete k [] = []
  delete k ((q, v) ∷ m) = let rest = delete k m in if eq k q then rest else (q, v) ∷ rest

  -- `m[k] = v`: a known key keeps its place.
  unfoldable pub store : K → V → Dict K V → Dict K V
  store k v [] = (k, v) ∷ []
  store k v ((q, w) ∷ m) = let rest = store k v m in if eq k q then (k, v) ∷ m else (q, w) ∷ rest

  -- No key has two items.
  abbrev pub IsDict : Dict K V → Type 0
  IsDict [] = Unit
  IsDict ((q, v) ∷ m) = (lookup q m ≡ none) × IsDict m

  module _ (iff : (a b : K) → (eq a b ≡ true) ↔ (a ≡ b)) where
    pub lookup-delete :
        (k q : K) (m : Dict K V) → lookup q (delete k m) ≡ (if eq k q then none else lookup q m)
    unfolding lookup delete
    lookup-delete k q [] = ground arith
    lookup-delete k q ((r, v) ∷ m) = ground (arith, lookup-delete k q m, iff k r, iff q r, iff k q)

    pub lookup-store :
        (k q : K) (v : V) (m : Dict K V)
        → lookup q (store k v m) ≡ (if eq k q then some v else lookup q m)
    unfolding lookup store
    lookup-store k q v [] = ground (arith, iff k q, iff q k)
    lookup-store k q v ((r, w) ∷ m) =
        ground (arith, lookup-store k q v m, iff k r, iff q r, iff k q, iff q k)

    pub delete-IsDict : (k : K) (m : Dict K V) → IsDict m → IsDict (delete k m)
    unfolding delete
    delete-IsDict k [] h = tt
    delete-IsDict k ((q, v) ∷ m) h = ground (arith, delete-IsDict k m h.1, lookup-delete k q m)

    pub store-IsDict : (k : K) (v : V) (m : Dict K V) → IsDict m → IsDict (store k v m)
    unfolding store lookup
    store-IsDict k v [] h = (refl, tt)
    store-IsDict k v ((q, w) ∷ m) h =
        ground (arith, store-IsDict k v m h.1, lookup-store k q v m, iff k q, iff q k)

    pub delete_absent : (k : K) (m : Dict K V) → lookup k m ≡ none → delete k m ≡ m
    unfolding delete lookup
    delete_absent k [] h = refl
    delete_absent k ((q, v) ∷ m) h = ground (arith, delete_absent k m)

    pub sum_by-store :
        (size : V → ℕ) (k : K) (v : V) (m : Dict K V)
        → lookup k m ≡ none
        → sum_by size (store k v m) ≡ sum_by size m + size v
    unfolding store lookup
    sum_by-store size k v [] h = omega arith
    sum_by-store size k v ((q, w) ∷ m) h = ground (arith, sum_by-store size k v m)

    pub keys-store :
        (k : K) (v : V) (m : Dict K V) → lookup k m ≡ none → keys (store k v m) ≡ keys m ++ (k ∷ [])
    unfolding store lookup
    keys-store k v [] h = refl
    keys-store k v ((q, w) ∷ m) h = ground (arith, keys-store k v m)

    pub sum_by-delete :
        (size : V → ℕ) (k : K) (v : V) (m : Dict K V)
        → IsDict m
        → lookup k m ≡ some v
        → sum_by size (delete k m) + size v ≡ sum_by size m
    unfolding delete lookup
    sum_by-delete size k v [] d h = cc
    sum_by-delete size k v ((q, w) ∷ m) d h = elim (Bool-cases (eq k q)) [
      | inl e ↦
          let same : k ≡ q = (iff k q).0 e in
          let gone : lookup k m ≡ none = subst (λ x. lookup x m ≡ none) (sym same) d.0 in
          ground (arith, delete_absent k m gone)
      | inr e ↦ ground (arith, sum_by-delete size k v m d.1)
    ]

    -- Taking a known key out of the list of the keys leaves the keys of what is left.
    pub remove_item-keys :
        (k : K) (v : V) (m : Dict K V)
        → IsDict m
        → lookup k m ≡ some v
        → remove_item eq k (keys m) ≡ some (keys (delete k m))
    unfolding delete lookup remove_item option_cons
    remove_item-keys k v [] d h = cc
    remove_item-keys k v ((q, w) ∷ m) d h = elim (Bool-cases (eq k q)) [
      | inl e ↦
          let same : k ≡ q = (iff k q).0 e in
          let gone : lookup k m ≡ none = subst (λ x. lookup x m ≡ none) (sym same) d.0 in
          rw (e, delete_absent k m gone) refl
      | inr e ↦ ground (arith, remove_item-keys k v m d.1)
    ]
