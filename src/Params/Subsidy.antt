-- ===== src/Params/Subsidy.antt =====
-- The subsidies of all heights together: they never exceed twice what the heights before the first
-- halving pay.
use native.Mathlib.Nat.{
  div-add-mod, mod-lt, mul-le-mul_left, le_trans, pow-suc, div-div-eq-div-mul, div-eq_of_lt-le,
  div-le_self,
}
use scarlet_coin.Prelude.{
  ℕ, zero, suc, ◌+◌, ◌-◌, ◌*◌, ◌/◌, ◌%◌, ◌^◌, ◌≤◌, ◌<◌, ◌≡◌, refl, ◌∙◌, sym, ap, subst, arith,
}
use scarlet_coin.Transaction.{max_money}
use scarlet_coin.Params.{coin, ChainParams, subsidy}

-- The subsidies of the heights below `n`
abbrev pub issued : ChainParams → ℕ → ℕ
issued p zero = 0
issued p (suc n) = issued p n + subsidy p n

-- The value after `k` halvings, without the limit of 64
abbrev halved : ChainParams → ℕ → ℕ
halved p k = p.initial_subsidy / 2 ^ k

halved_next : (p : ChainParams) (k : ℕ) → halved p (suc k) * 2 ≤ halved p k
halved_next p k =
    let same : halved p (suc k) ≡ halved p k / 2 =
      ap (λ x. p.initial_subsidy / x) (pow-suc 2 k)
      ∙ sym (div-div-eq-div-mul p.initial_subsidy (2 ^ k) 2) in
    omega (arith, same)

subsidy-le : (p : ChainParams) (n : ℕ) → subsidy p n ≤ halved p (n / p.halving_interval)
unfolding subsidy
subsidy-le p n = ground arith

div_lem : (i q r : ℕ) → r < i → (q * i + r) / i ≡ q
div_lem i q r h = div-eq_of_lt-le i (omega arith) (omega arith)

same_interval :
    (a b s v w i r : ℕ)
    → a + (i - r) * v + w ≤ b
    → s ≤ v
    → r < i
    → (a + s) + (i - suc r) * v + w ≤ b
same_interval a b s v w i r h le lt =
    let one_less : i - r ≡ suc (i - suc r) = omega arith in
    let h' = subst (λ k. a + k * v + w ≤ b) one_less h in omega (arith, h', le)

next_interval :
    (a b s v v' i r : ℕ)
    → a + (i - r) * v + i * v ≤ b
    → s ≤ v
    → v' * 2 ≤ v
    → suc r ≡ i
    → (a + s) + (i - 0) * v' + i * v' ≤ b
next_interval a b s v v' i r h le less e =
    let last : i - r ≡ 1 = omega arith in
    let h' = subst (λ k. a + k * v + i * v ≤ b) last h in
    let none_off : i - 0 ≡ i = omega arith in
    omega (arith, h', le, mul-le-mul_left i less, ap (λ k. k * v') none_off)

-- `q` full intervals and `r` heights of the next one: what is issued, what the rest of the interval
-- can still issue, and as much as one more whole interval.
issued_bound :
    (p : ChainParams) (n q r : ℕ)
    → n ≡ q * p.halving_interval + r
    → r < p.halving_interval
    → issued p n + (p.halving_interval - r) * halved p q + p.halving_interval * halved p q
      ≤ 2 * (p.halving_interval * p.initial_subsidy)
issued_bound p zero (suc q) r e h = absurd (omega (arith, e))
issued_bound p zero zero (suc r) e h = absurd (omega (arith, e))
issued_bound p zero zero zero e h =
    let le = mul-le-mul_left p.halving_interval (div-le_self p.initial_subsidy (2 ^ 0)) in
    let none_off : p.halving_interval - 0 ≡ p.halving_interval = omega arith in
    omega (arith, le, ap (λ k. k * halved p 0) none_off)
issued_bound p (suc n) q (suc r) e h =
    let v : subsidy p n ≤ halved p q =
      subst (λ k. subsidy p n ≤ halved p k)
        (ap (λ x. x / p.halving_interval) here ∙ div_lem p.halving_interval q r (omega arith))
        (subsidy-le p n) in
    same_interval (issued p n) _ (subsidy p n) (halved p q) _ p.halving_interval r
      (issued_bound p n q r here (omega arith)) v (omega arith)
  where
    here : n ≡ q * p.halving_interval + r
    here = omega (arith, e)
issued_bound p (suc n) zero zero e h = absurd (omega (arith, e))
issued_bound p (suc n) (suc q) zero e h =
    let i = p.halving_interval in
    let here : n ≡ q * i + (i - 1) = omega (arith, e) in
    let v : subsidy p n ≤ halved p q =
      subst (λ k. subsidy p n ≤ halved p k)
        (ap (λ x. x / i) here ∙ div_lem i q (i - 1) (omega arith)) (subsidy-le p n) in
    next_interval (issued p n) _ (subsidy p n) (halved p q) (halved p (suc q)) i (i - 1)
      (issued_bound p n q (i - 1) here (omega arith)) v (halved_next p q) (omega arith)

-- However long the chain becomes, its subsidies sum to at most twice what the heights before the
-- first halving pay, provided that the halving interval is positive.
pub issued-le :
    (p : ChainParams) (n : ℕ)
    → 0 < p.halving_interval
    → issued p n ≤ 2 * (p.halving_interval * p.initial_subsidy)
issued-le p n h =
    let i = p.halving_interval in
    let le = issued_bound p n (n / i) (n % i) (omega (arith, div-add-mod n i)) (mod-lt n h) in
    le_trans (omega arith) le

-- With an initial subsidy of 50 coins that halves every 210,000 blocks, the subsidies of any number
-- of heights sum to at most `max_money`.
pub issued-max_money :
    (p : ChainParams) (n : ℕ)
    → p.initial_subsidy ≡ 50 * coin
    → p.halving_interval ≡ 210_000
    → issued p n ≤ max_money
issued-max_money p n first interval =
    let le = issued-le p n (omega (arith, interval)) in
    let size : p.halving_interval * p.initial_subsidy ≡ 210_000 * (50 * coin) =
      rw (first, interval) refl in
    omega (arith, le, size)
