-- ===== src/Builder/Select.antt =====
-- `select_coins`: what it chooses covers the payment and the fee, and it raises only when all coins
-- together do not.
use scarlet_coin.Prelude.{
  ℕ, ◌+◌, ◌≤◌, ◌<◌, ◌≡◌, refl, sym, subst, ◌⊎◌, inl, inr, Bool, true, false, List, [], ◌∷◌, ◌++◌,
  arith, ltb, leb, leb→le, if◌then◌else◌, length, Bool-cases, append-nil, append_assoc, All,
}
use scarlet_coin.Prelude.Int.{ℤ, pos, negsuc}
use scarlet_coin.Prelude.Sort.{place, sorted}
use scarlet_coin.Outcome.{Result, ok, err, insufficient_funds_error, value_error}
use scarlet_coin.Builder.{
  Item, total_value, is_larger, at_least, least_of, fee_for, required, gather, choose_exact,
  choose_coins, select_coins,
}

-- How many items pass a test.
abbrev pub count : (Item → Bool) → List Item → ℕ
count f [] = 0
count f (x ∷ xs) = (if f x then 1 else 0) + count f xs

count-append : (f : Item → Bool) (xs ys : List Item) → count f (xs ++ ys) ≡ count f xs + count f ys
count-append f [] ys = omega arith
count-append f (x ∷ xs) ys = omega (arith, count-append f xs ys)

total_value-append : (xs ys : List Item) → total_value (xs ++ ys) ≡ total_value xs + total_value ys
unfolding total_value
total_value-append [] ys = omega arith
total_value-append (x ∷ xs) ys = omega (arith, total_value-append xs ys)

-- Sorting keeps every count, the value and the length.
count-place :
    (f : Item → Bool) (x : Item) (ys : List Item)
    → count f (place is_larger x ys) ≡ count f (x ∷ ys)
unfolding place
count-place f x [] = refl
count-place f x (y ∷ ys) = ground (arith, count-place f x ys)

count-sorted : (f : Item → Bool) (xs : List Item) → count f (sorted is_larger xs) ≡ count f xs
unfolding sorted
count-sorted f [] = refl
count-sorted f (x ∷ xs) = omega (arith, count-place f x (sorted is_larger xs), count-sorted f xs)

total_value-place :
    (x : Item) (ys : List Item) → total_value (place is_larger x ys) ≡ total_value (x ∷ ys)
unfolding place total_value
total_value-place x [] = refl
total_value-place x (y ∷ ys) = ground (arith, total_value-place x ys)

total_value-sorted : (xs : List Item) → total_value (sorted is_larger xs) ≡ total_value xs
unfolding sorted total_value
total_value-sorted [] = refl
total_value-sorted (x ∷ xs) =
    omega (arith, total_value-place x (sorted is_larger xs), total_value-sorted xs)

length-place : (x : Item) (ys : List Item) → length (place is_larger x ys) ≡ length (x ∷ ys)
unfolding place
length-place x [] = refl
length-place x (y ∷ ys) = ground (arith, length-place x ys)

length-sorted : (xs : List Item) → length (sorted is_larger xs) ≡ length xs
unfolding sorted
length-sorted [] = refl
length-sorted (x ∷ xs) = omega (arith, length-place x (sorted is_larger xs), length-sorted xs)

count-at_least :
    (f : Item → Bool) (least : ℕ) (xs : List Item) → count f (at_least least xs) ≤ count f xs
unfolding at_least
count-at_least f least [] = omega arith
count-at_least f least (x ∷ xs) = ground (arith, count-at_least f least xs)

-- `min` gives one of the items, and every one of them has the least value of `at_least`.
count-least_of :
    (f : Item → Bool) (x : Item) (ys : List Item) → count f (least_of x ys ∷ []) ≤ count f (x ∷ ys)
unfolding least_of
count-least_of f x [] = omega arith
count-least_of f x (y ∷ ys) = elim (Bool-cases (ltb y.1.value x.1.value)) [
  | inl e ↦ rw e (omega (arith, count-least_of f y ys))
  | inr e ↦ rw e (omega (arith, count-least_of f x ys))
]

least_of-All : (P : Item → Type 0) (x : Item) (ys : List Item) → P x → All P ys → P (least_of x ys)
unfolding least_of
least_of-All P x [] p ps = p
least_of-All P x (y ∷ ys) p (q, ps) = elim (Bool-cases (ltb y.1.value x.1.value)) [
  | inl e ↦ rw e (least_of-All P y ys q ps)
  | inr e ↦ rw e (least_of-All P x ys p ps)
]

at_least-All :
    (least : ℕ) (xs : List Item) → All (λ (x : Item). least ≤ x.1.value) (at_least least xs)
unfolding at_least
at_least-All least [] = tt
at_least-All least (x ∷ xs) = elim (Bool-cases (leb least x.1.value)) [
  | inl e ↦ rw e (leb→le _ _ e, at_least-All least xs)
  | inr e ↦ rw e (at_least-All least xs)
]

module _ (amount fee_per_kb output_count : ℕ) where
  -- The items with their fee pay the amount, and are among the coins, none more often than there.
  abbrev pub Covers : List Item → List Item × ℕ → Type 0
  Covers coins (chosen, fee) =
      (amount + fee ≤ total_value chosen)
      × (fee ≡ fee_for amount fee_per_kb output_count (length chosen))
      × ((f : Item → Bool) → count f chosen ≤ count f coins)

  -- With no coins left to take, all of them are too few.
  abbrev pub IsShort : List Item → Type 0
  IsShort coins =
      (length coins ≡ 0)
      ⊎ (total_value coins < required amount fee_per_kb output_count (length coins))

  abbrev pub IsChoice : List Item → Result (List Item × ℕ) → Type 0
  IsChoice coins r =
      ((choice : List Item × ℕ) × (r ≡ ok choice) × Covers coins choice)
      ⊎ ((r ≡ err insufficient_funds_error) × IsShort coins)

  gather-IsChoice :
      (items chosen : List Item) (total : ℕ)
      → total ≡ total_value chosen
      → (length chosen ≡ 0)
        ⊎ (total_value chosen < required amount fee_per_kb output_count (length chosen))
      → IsChoice (chosen ++ items) (gather amount fee_per_kb output_count items chosen total)
  unfolding gather
  gather-IsChoice [] chosen total e short =
      inr (refl, subst IsShort (sym (append-nil chosen)) short)
  gather-IsChoice (x ∷ items) chosen total e short =
      let more = chosen ++ (x ∷ []) in
      let whole : more ++ items ≡ chosen ++ (x ∷ items) = append_assoc chosen (x ∷ []) items in
      let sum : total + x.1.value ≡ total_value more =
        omega (arith, e, total_value-append chosen (x ∷ []), one x) in
      elim (Bool-cases
        (leb (required amount fee_per_kb output_count (length more)) (total + x.1.value))) [
          | inl y ↦ rw y (
              inl (
                (more, fee_for amount fee_per_kb output_count (length more)),
                refl,
                (enough more (total + x.1.value) y sum, refl, λ f. within f x items chosen),
              ))
          | inr y ↦ rw y (
              subst
                (λ l.
                  IsChoice l (gather amount fee_per_kb output_count items more (total + x.1.value)))
                whole
                (gather-IsChoice items more (total + x.1.value) sum
                  (inr (few more (total + x.1.value) y sum))))
        ]
    where
      one : (x : Item) → total_value (x ∷ []) ≡ x.1.value
      one x = unfold total_value in omega arith

      enough :
          (l : List Item) (t : ℕ)
          → leb (required amount fee_per_kb output_count (length l)) t ≡ true
          → t ≡ total_value l
          → amount + fee_for amount fee_per_kb output_count (length l) ≤ total_value l
      enough l t y z = unfold required in ground arith

      few :
          (l : List Item) (t : ℕ)
          → leb (required amount fee_per_kb output_count (length l)) t ≡ false
          → t ≡ total_value l
          → total_value l < required amount fee_per_kb output_count (length l)
      few l t y z = ground arith

      within :
          (f : Item → Bool) (x : Item) (items chosen : List Item)
          → count f (chosen ++ (x ∷ [])) ≤ count f (chosen ++ (x ∷ items))
      within f x items chosen =
          omega (arith, count-append f chosen (x ∷ []), count-append f chosen (x ∷ items))

  -- The choice from the items that suffice alone, or else from all.
  by_exact :
      (exact : List Item)
      → All (λ (x : Item). required amount fee_per_kb output_count 1 ≤ x.1.value) exact
      → (coins usable : List Item) → ((f : Item → Bool) → count f exact ≤ count f coins)
      → IsChoice usable (gather amount fee_per_kb output_count usable [] 0)
      → ((f : Item → Bool) → count f usable ≡ count f coins)
      → length usable ≡ length coins
      → total_value usable ≡ total_value coins
      → IsChoice coins (choose_exact amount fee_per_kb output_count exact usable)
  unfolding choose_exact
  by_exact [] all coins usable within (inl ((chosen, cost), e, (paid, fee, few))) counts lengths
        totals =
      inl ((chosen, cost), e, (paid, fee, λ f. omega (arith, few f, counts f)))
  by_exact [] all coins usable within (inr (e, short)) counts lengths totals =
      inr (e, too_short short)
    where
      too_short : IsShort usable → IsShort coins
      too_short (inl z) = inl (omega (arith, lengths))
      too_short (inr z) = inr (
          subst (λ n. total_value coins < required amount fee_per_kb output_count n) lengths
            (omega (arith, totals)))
  by_exact (x ∷ xs) (p, ps) coins usable within choice counts lengths totals =
      let least = least_of-All _ x xs p ps in
      inl (
        (least_of x xs ∷ [], fee_for amount fee_per_kb output_count 1),
        refl,
        (worth (least_of x xs) least, refl, λ f. omega (arith, count-least_of f x xs, within f)),
      )
    where
      worth :
          (y : Item)
          → required amount fee_per_kb output_count 1 ≤ y.1.value
          → amount + fee_for amount fee_per_kb output_count 1 ≤ total_value (y ∷ [])
      worth y h = unfold required in unfold total_value in omega arith

  choose_coins-IsChoice :
      (coins : List Item) → IsChoice coins (choose_coins amount fee_per_kb output_count coins)
  unfolding choose_coins total_value
  choose_coins-IsChoice coins =
      let usable = sorted is_larger coins in
      let least = required amount fee_per_kb output_count 1 in
      by_exact (at_least least usable) (at_least-All least usable) coins usable
        (λ f. omega (arith, count-at_least f least usable, count-sorted f coins))
        (gather-IsChoice usable [] 0 refl (inl refl)) (λ f. count-sorted f coins)
        (length-sorted coins) (total_value-sorted coins)

-- A negative amount is refused; for the others see `IsChoice`.
abbrev pub IsSelection : ℤ → ℕ → ℕ → List Item → Result (List Item × ℕ) → Type 0
IsSelection (negsuc amount) fee_per_kb output_count coins r = r ≡ err value_error
IsSelection (pos amount) fee_per_kb output_count coins r =
    IsChoice amount fee_per_kb output_count coins r

-- `select_coins` raises `ValueError` for a negative amount. For any other, what it chooses is worth
-- at least the amount and the fee of a transaction with that many inputs and a change output, and
-- is among the coins, none more often than there; and it raises only `InsufficientFundsError`, and
-- only when there is no coin or all of them together are worth less than the amount and the fee for
-- all of them.
pub select_coins-IsSelection :
    (amount : ℤ) (fee_per_kb output_count : ℕ) (coins : List Item)
    → IsSelection amount fee_per_kb output_count coins
        (select_coins amount fee_per_kb output_count coins)
unfolding select_coins
select_coins-IsSelection (negsuc amount) fee_per_kb output_count coins = refl
select_coins-IsSelection (pos amount) fee_per_kb output_count coins =
    choose_coins-IsChoice amount fee_per_kb output_count coins
