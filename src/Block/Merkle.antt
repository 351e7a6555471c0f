-- ===== src/Block/Merkle.antt =====
-- The Merkle root of any transactions is computed within the fuel, and a repeated last id at an odd
-- level does not change it.
use scarlet_coin.Prelude.{
  ℕ, zero, suc, ◌+◌, ◌*◌, ◌≤◌, ◌≡◌, refl, ◌∙◌, ap, List, [], ◌∷◌, ◌++◌, arith, length,
  length-append,
}
use scarlet_coin.Prelude.Bytes.{Bytes}
use scarlet_coin.Outcome.{ok}
use scarlet_coin.Crypto.{Crypto, hash256}
use scarlet_coin.Block.{pair_up, merkle_levels, merkle_root}

module _ (c : Crypto) where
  length-pair_up : (level : List Bytes) → (length (pair_up c level) * 2 ≤ length level + 1)
  unfolding pair_up
  length-pair_up [] = omega arith
  length-pair_up (a ∷ []) = omega arith
  length-pair_up (a ∷ b ∷ level) = omega (arith, length-pair_up level)

  merkle_levels_total :
      (fuel : ℕ) (a : Bytes) (level : List Bytes)
      → length level ≤ fuel
      → (root : Bytes) × (merkle_levels c fuel (a ∷ level) ≡ ok root)
  unfolding merkle_levels pair_up
  merkle_levels_total fuel a [] h = (a, refl)
  merkle_levels_total zero a (b ∷ level) h = absurd (omega arith)
  merkle_levels_total (suc fuel) a (b ∷ level) h =
      merkle_levels_total fuel (hash256 c (a ++ b)) (pair_up c level)
        (omega (arith, length-pair_up level))

  -- There is a Merkle root for every list of ids but the empty one: the loop ends within its fuel.
  pub merkle_root_total :
      (id : Bytes) (ids : List Bytes) → (root : Bytes) × (merkle_root c (id ∷ ids) ≡ ok root)
  unfolding merkle_root
  merkle_root_total id ids = merkle_levels_total (suc (length ids)) id ids (omega arith)

  pair_up_repeat :
      (n : ℕ) (level : List Bytes) (id : Bytes)
      → length level ≡ n * 2
      → pair_up c (level ++ (id ∷ [])) ≡ pair_up c (level ++ (id ∷ id ∷ []))
  unfolding pair_up
  pair_up_repeat n [] id h = refl
  pair_up_repeat zero (a ∷ level) id h = absurd (omega arith)
  pair_up_repeat (suc n) (a ∷ []) id h = absurd (omega arith)
  pair_up_repeat (suc n) (a ∷ b ∷ level) id h =
      ap (λ x. hash256 c (a ++ b) ∷ x) (pair_up_repeat n level id (omega arith))

  -- More fuel than needed changes nothing.
  merkle_levels_fuel :
      (fuel more : ℕ) (a : Bytes) (level : List Bytes)
      → length level ≤ fuel
      → fuel ≤ more
      → merkle_levels c fuel (a ∷ level) ≡ merkle_levels c more (a ∷ level)
  unfolding merkle_levels pair_up
  merkle_levels_fuel fuel more a [] h k = refl
  merkle_levels_fuel zero more a (b ∷ level) h k = absurd (omega arith)
  merkle_levels_fuel (suc fuel) zero a (b ∷ level) h k = absurd (omega arith)
  merkle_levels_fuel (suc fuel) (suc more) a (b ∷ level) h k =
      merkle_levels_fuel fuel more (hash256 c (a ++ b)) (pair_up c level)
        (omega (arith, length-pair_up level)) (omega arith)

  -- The root of an odd number of ids, more than one, is also the root of the list that repeats the
  -- last of them.
  pub merkle_root_repeat :
      (n : ℕ) (a b : Bytes) (ids : List Bytes) (id : Bytes)
      → length ids ≡ n * 2
      → merkle_root c (a ∷ b ∷ (ids ++ (id ∷ []))) ≡ merkle_root c (a ∷ b ∷ (ids ++ (id ∷ id ∷ [])))
  unfolding merkle_root merkle_levels pair_up
  merkle_root_repeat n a b ids id h =
      let e = pair_up_repeat n ids id h in
      let x = length-append ids (id ∷ []) in
      let y = length-append ids (id ∷ id ∷ []) in
      let z = length-pair_up (ids ++ (id ∷ [])) in
      merkle_levels_fuel (suc (length (ids ++ (id ∷ [])))) (suc (length (ids ++ (id ∷ id ∷ []))))
        (hash256 c (a ++ b)) (pair_up c (ids ++ (id ∷ []))) (omega arith) (omega arith)
      ∙ ap (λ l. merkle_levels c (suc (length (ids ++ (id ∷ id ∷ [])))) (hash256 c (a ++ b) ∷ l)) e
