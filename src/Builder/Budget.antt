-- ===== src/Builder/Budget.antt =====
-- `_max_inputs_for_budget`: the search ends within its rounds at the largest count that fits.
use scarlet_coin.Prelude.{
  ℕ, zero, suc, ◌+◌, ◌-◌, ◌*◌, ◌/◌, ◌≤◌, ◌<◌, ◌≡◌, refl, ◌⊎◌, inl, inr, false, arith, ltb, leb,
  leb→le, ◌==◌, Bool-cases,
}
use scarlet_coin.Builder.{
  per_input_bytes, varint_size, estimate_size, search_inputs, max_inputs_for_budget,
}

varint_size_mono : (a b : ℕ) → a ≤ b → varint_size a ≤ varint_size b
unfolding varint_size
varint_size_mono a b h = ground arith

pub estimate_size_mono : (a b n : ℕ) → a ≤ b → estimate_size a n ≤ estimate_size b n
unfolding estimate_size
estimate_size_mono a b n h = omega (arith, varint_size_mono a b h)

-- The count fits, or nothing does and it is 0.
abbrev pub Fits : ℕ → ℕ → Type 0
Fits byte_budget count = (count ≡ 0) ⊎ (estimate_size count 1 ≤ byte_budget)

search_inputs_lem :
    (byte_budget n low high : ℕ)
    → low ≤ high
    → high ≤ low + n
    → Fits byte_budget low
    → ((k : ℕ) → estimate_size k 1 ≤ byte_budget → k ≤ high)
    → Fits byte_budget (search_inputs byte_budget n low high)
      × ((k : ℕ) → estimate_size k 1 ≤ byte_budget → k ≤ search_inputs byte_budget n low high)
unfolding search_inputs
search_inputs_lem b zero low high le fuel fit all = (fit, λ k x. omega (arith, all k x))
search_inputs_lem b (suc n) low high le fuel fit all = elim (Bool-cases (ltb low high)) [
  | inr y ↦ rw y (fit, λ k x. ground (arith, all k x))
  | inl y ↦ elim (Bool-cases (leb (estimate_size ((low + high + 1) / 2) 1) b)) [
    | inl z ↦
        rw (y, z)
          (search_inputs_lem b n ((low + high + 1) / 2) high (ground arith) (ground arith)
            (inr (leb→le _ _ z)) all)
    | inr z ↦
        rw (y, z)
          (search_inputs_lem b n low ((low + high + 1) / 2 - 1) (ground arith) (ground arith) fit
            (λ k x. below k ((low + high + 1) / 2) x z))
  ]
]
  where
    below : (k mid : ℕ) → estimate_size k 1 ≤ b → leb (estimate_size mid 1) b ≡ false → k ≤ mid - 1
    below k mid x z = elim (Bool-cases (leb mid k)) [
      | inl w ↦ absurd (ground (arith, estimate_size_mono mid k 1 (leb→le _ _ w)))
      | inr w ↦ ground arith
    ]

-- The binary search ends within its rounds: its result is the largest number of inputs with which a
-- transaction of one output fits in the budget, and 0 where none fits.
pub max_inputs_for_budget_lem :
    (byte_budget : ℕ)
    → Fits byte_budget (max_inputs_for_budget byte_budget)
      × ((k : ℕ) → estimate_size k 1 ≤ byte_budget → k ≤ max_inputs_for_budget byte_budget)
unfolding max_inputs_for_budget
max_inputs_for_budget_lem b = elim (Bool-cases (b == 0)) [
  | inl x ↦ rw x (inl refl, λ k y. absurd (ground (arith, large k)))
  | inr x ↦ rw x (
      search_inputs_lem b (b / per_input_bytes + 1) 0 (b / per_input_bytes + 1) (omega arith)
        (omega arith) (inl refl) (λ k y. omega (arith, large k, y)))
]
  where
    large : (k : ℕ) → k * per_input_bytes < estimate_size k 1
    large k = unfold estimate_size in omega arith
