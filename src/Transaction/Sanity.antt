-- ===== src/Transaction/Sanity.antt =====
-- `Transaction.check_sanity` against a description of a sane transaction that has no loop, no set
-- `seen` and no early return.
use scarlet_coin.Prelude.{
  ℕ, ◌≤◌, ◌≡◌, refl, ◌≢◌, ◌↔◌, Bool, true, false, List, [], ◌∷◌, arith, ltb, subst, if◌then◌else◌,
  length, any, All, Bool-cases, inl, inr, not,
}
use scarlet_coin.Prelude.Bytes.{bytes_eq_refl, bytes_eq_sound}
use scarlet_coin.Outcome.{
  Result, ok, raise_if, each, transaction_error, Error, >>_iff, raise_if_iff,
}
use scarlet_coin.Transaction.{
  OutPoint, outpoint_eq, is_null, coinbase_outpoint, TxInput, Transaction, is_empty, max_money,
  max_coinbase_data, max_witness_items, max_witness_item_size, is_coinbase, total_output,
  check_witness_shape, check_inputs, check_coinbase, check_spending, check_sanity, first_witness,
}

pub outpoint_eq_refl : (p : OutPoint) → outpoint_eq p p ≡ true
unfolding outpoint_eq
outpoint_eq_refl p = ground (arith, bytes_eq_refl p.txid)

pub outpoint_eq_sound : (p q : OutPoint) → outpoint_eq p q ≡ true → p ≡ q
unfolding outpoint_eq
outpoint_eq_sound p q h = ground (arith, bytes_eq_sound p.txid q.txid)

pub outpoint_eq_iff : (p q : OutPoint) → (outpoint_eq p q ≡ true) ↔ (p ≡ q)
outpoint_eq_iff p q =
    (outpoint_eq_sound p q, λ e. subst (λ t. outpoint_eq p t ≡ true) e (outpoint_eq_refl p))

-- `each` with a check that only tests: it passes exactly when every item passes.
pub each-raise_if {ℓ κ} :
    {A : Type ℓ} (test : A → Bool) (P : A → Type κ) (e : Error)
    → ((a : A) → (test a ≡ false) ↔ P a)
    → (xs : List A) → (each (λ a. raise_if (test a) e) xs ≡ ok tt) ↔ All P xs
each-raise_if test P e iff [] = (λ _. tt, λ _. refl)
each-raise_if test P e iff (x ∷ xs) = elim (Bool-cases (test x)) [
  | inl t ↦ rw t (λ h. cc, λ h. cc ((iff x).1 h.0))
  | inr t ↦ rw t (
    λ h. ((iff x).0 t, (each-raise_if test P e iff xs).0 h),
    λ h. (each-raise_if test P e iff xs).1 h.1,
  )
]

abbrev FitsWitness : TxInput → Type 0
FitsWitness i =
    (length i.witness ≤ max_witness_items)
    × All (λ item. length item ≤ max_witness_item_size) i.witness

check_witness_shape_iff : (i : TxInput) → (check_witness_shape i ≡ ok tt) ↔ FitsWitness i
unfolding check_witness_shape
check_witness_shape_iff i =
    let both =
      >>_iff (raise_if (ltb max_witness_items (length i.witness)) transaction_error)
        (each (λ item. raise_if (ltb max_witness_item_size (length item)) transaction_error)
          i.witness)
        {b = tt} in
    let items =
      each-raise_if (λ item. ltb max_witness_item_size (length item))
        (λ item. length item ≤ max_witness_item_size) transaction_error (λ item. ground arith)
        i.witness in
    let count = raise_if_iff (ltb max_witness_items (length i.witness)) transaction_error in
    (
      λ h. (few (count.0 (both.0 h).0), items.0 (both.0 h).1),
      λ h. both.1 (count.1 (ground arith), items.1 h.1),
    )
  where
    few : ltb max_witness_items (length i.witness) ≡ false → length i.witness ≤ max_witness_items
    few h = ground arith

-- A test that decides `P` fails exactly when `P` does.
pub false_iff {ℓ} : {P : Type ℓ} (t : Bool) → ((t ≡ true) ↔ P) → (t ≡ false) ↔ (¬ P)
false_iff true h = (λ e. cc, λ n. absurd (n (h.0 refl)))
false_iff false h = (λ _ p. cc (h.1 p), λ _. refl)

is_null_iff : (p : OutPoint) → (is_null p ≡ false) ↔ (p ≢ coinbase_outpoint)
unfolding is_null outpoint_eq
is_null_iff p = false_iff (is_null p) (outpoint_eq_iff p coinbase_outpoint)

not_seen_iff :
    (p : OutPoint) (seen : List OutPoint)
    → (any (outpoint_eq p) seen ≡ false) ↔ All (λ q. p ≢ q) seen
not_seen_iff p [] = (λ _. tt, λ _. refl)
not_seen_iff p (q ∷ seen) = elim (Bool-cases (outpoint_eq p q)) [
  | inl t ↦ rw t (λ h. cc, λ h. absurd (h.0 ((outpoint_eq_iff p q).0 t)))
  | inr f ↦ rw f (
    λ h. ((false_iff (outpoint_eq p q) (outpoint_eq_iff p q)).0 f, (not_seen_iff p seen).0 h),
    λ h. (not_seen_iff p seen).1 h.1,
  )
]

-- An ordinary input: it names a real outpoint and its witness is within the limits.
abbrev IsOrdinary : TxInput → Type 0
IsOrdinary i = (i.prevout ≢ coinbase_outpoint) × FitsWitness i

-- No outpoint is spent twice.
abbrev pub SpendsOnce : List TxInput → Type 0
SpendsOnce [] = Unit
SpendsOnce (i ∷ is) = All (λ j. j.prevout ≢ i.prevout) is × SpendsOnce is

abbrev Unseen : List OutPoint → TxInput → Type 0
Unseen seen i = IsOrdinary i × All (λ q. i.prevout ≢ q) seen

split-Unseen :
    (p : OutPoint) (seen : List OutPoint) (is : List TxInput)
    → All (Unseen (p ∷ seen)) is ↔ (All (λ j. j.prevout ≢ p) is × All (Unseen seen) is)
split-Unseen p seen [] = (λ _. (tt, tt), λ _. tt)
split-Unseen p seen (i ∷ is) =
    let rest = split-Unseen p seen is in
    (
      λ h. ((h.0.1.0, (rest.0 h.1).0), ((h.0.0, h.0.1.1), (rest.0 h.1).1)),
      λ h. ((h.1.0.0, (h.0.0, h.1.0.1)), rest.1 (h.0.1, h.1.1)),
    )

check_inputs_iff :
    (seen : List OutPoint) (is : List TxInput)
    → (check_inputs seen is ≡ ok tt) ↔ (All (Unseen seen) is × SpendsOnce is)
unfolding check_inputs
check_inputs_iff seen [] = (λ _. (tt, tt), λ _. refl)
check_inputs_iff seen (i ∷ is) =
    let null = raise_if_iff (is_null i.prevout) transaction_error in
    let twice = raise_if_iff (any (outpoint_eq i.prevout) seen) transaction_error in
    let loop = check_inputs_iff (i.prevout ∷ seen) is in
    let parted = split-Unseen i.prevout seen is in
    (
      λ h.
          let (a, h1) = (>>_iff _ _).0 h in
          let (b, h2) = (>>_iff _ _).0 h1 in
          let (c, d) = (>>_iff _ _).0 h2 in
          let (unseen, once) = loop.0 d in
          let (apart, others) = parted.0 unseen in
          (
            (
              (
                ((is_null_iff i.prevout).0 (null.0 a), (check_witness_shape_iff i).0 c),
                (not_seen_iff i.prevout seen).0 (twice.0 b),
              ),
              others,
            ),
            (apart, once),
          ),
      λ h. (>>_iff _ _).1 (
        null.1 ((is_null_iff i.prevout).1 h.0.0.0.0),
        (>>_iff _ _).1 (
          twice.1 ((not_seen_iff i.prevout seen).1 h.0.0.1),
          (>>_iff _ _).1
              ((check_witness_shape_iff i).1 h.0.0.0.1, loop.1 (parted.1 (h.1.0, h.0.1), h.1.1)),
        ),
      ),
    )

-- What `check_sanity` asks of a coinbase, and of any other transaction.
abbrev pub IsSaneCoinbase : Transaction → Type 0
IsSaneCoinbase tx = (length tx.coinbase_data ≤ max_coinbase_data) × (first_witness tx.inputs ≡ [])

abbrev pub IsSaneSpending : Transaction → Type 0
IsSaneSpending tx = (tx.coinbase_data ≡ []) × (All IsOrdinary tx.inputs × SpendsOnce tx.inputs)

pub record IsSane (min_output_value : ℕ) (tx : Transaction) : Type 0 where
  pub some_input : tx.inputs ≢ []
  pub some_output : tx.outputs ≢ []
  pub supply : total_output tx ≤ max_money
  pub no_dust : All (λ o. min_output_value ≤ o.value) tx.outputs
  pub coinbase : is_coinbase tx ≡ true → IsSaneCoinbase tx
  pub spending : is_coinbase tx ≡ false → IsSaneSpending tx

is_empty_iff {ℓ} : {A : Type ℓ} (xs : List A) → (is_empty xs ≡ true) ↔ (xs ≡ [])
unfolding is_empty
is_empty_iff [] = (λ _. refl, λ _. refl)
is_empty_iff (x ∷ xs) = (λ h. cc, λ h. cc)

not-false_iff : (b : Bool) → (not b ≡ false) ↔ (b ≡ true)
not-false_iff true = (λ _. refl, λ _. refl)
not-false_iff false = (λ h. cc, λ h. cc)

-- `if not xs: raise`, and `if xs: raise`
raise_if_empty_iff {ℓ} :
    {A : Type ℓ} (xs : List A) → (raise_if (is_empty xs) transaction_error ≡ ok tt) ↔ (xs ≢ [])
raise_if_empty_iff xs =
    let a = raise_if_iff (is_empty xs) transaction_error in
    let b = false_iff (is_empty xs) (is_empty_iff xs) in (λ h. b.0 (a.0 h), λ h. a.1 (b.1 h))

raise_if_full_iff {ℓ} :
    {A : Type ℓ} (xs : List A)
    → (raise_if (not (is_empty xs)) transaction_error ≡ ok tt) ↔ (xs ≡ [])
raise_if_full_iff xs =
    let a = raise_if_iff (not (is_empty xs)) transaction_error in
    let b = not-false_iff (is_empty xs) in
    let c = is_empty_iff xs in (λ h. c.0 (b.0 (a.0 h)), λ h. a.1 (b.1 (c.1 h)))

raise_above_iff : (m n : ℕ) → (raise_if (ltb m n) transaction_error ≡ ok tt) ↔ (n ≤ m)
raise_above_iff m n =
    let a = raise_if_iff (ltb m n) transaction_error in
    (λ h. not_above (a.0 h), λ h. a.1 (ground arith))
  where
    not_above : ltb m n ≡ false → n ≤ m
    not_above h = ground arith

check_coinbase_iff : (tx : Transaction) → (check_coinbase tx ≡ ok tt) ↔ IsSaneCoinbase tx
unfolding check_coinbase
check_coinbase_iff tx =
    let size = raise_above_iff max_coinbase_data (length tx.coinbase_data) in
    let bare = raise_if_full_iff (first_witness tx.inputs) in
    (
      λ h. let (a, b) = (>>_iff _ _).0 h in (size.0 a, bare.0 b),
      λ h. (>>_iff _ _).1 (size.1 h.0, bare.1 h.1),
    )

drop_seen : (is : List TxInput) → All (Unseen []) is ↔ All IsOrdinary is
drop_seen [] = (λ _. tt, λ _. tt)
drop_seen (i ∷ is) = (λ h. (h.0.0, (drop_seen is).0 h.1), λ h. ((h.0, tt), (drop_seen is).1 h.1))

check_spending_iff : (tx : Transaction) → (check_spending tx ≡ ok tt) ↔ IsSaneSpending tx
unfolding check_spending
check_spending_iff tx =
    let extra = raise_if_full_iff tx.coinbase_data in
    let loop = check_inputs_iff [] tx.inputs in
    let ordinary = drop_seen tx.inputs in
    (
      λ h. let (a, b) = (>>_iff _ _).0 h in (extra.0 a, (ordinary.0 (loop.0 b).0, (loop.0 b).1)),
      λ h. (>>_iff _ _).1 (extra.1 h.0, loop.1 (ordinary.1 h.1.0, h.1.1)),
    )

branch_iff {ℓ κ} :
    {P : Type ℓ} {Q : Type κ} (b : Bool) (m n : Result (Unit {0}))
    → ((m ≡ ok tt) ↔ P)
    → ((n ≡ ok tt) ↔ Q)
    → ((if b then m else n) ≡ ok tt) ↔ ((b ≡ true → P) × (b ≡ false → Q))
branch_iff true m n p q = (λ h. (λ _. p.0 h, λ e. cc), λ h. p.1 (h.0 refl))
branch_iff false m n p q = (λ h. (λ e. cc, λ _. q.0 h), λ h. q.1 (h.1 refl))

-- The sanity check of a transaction passes exactly on those that have inputs and outputs, whose
-- outputs sum to at most `max_money` and none is below the minimum, and that are either a coinbase
-- with short data and no witness, or have no coinbase data, only ordinary inputs with witnesses
-- within the limits, and no outpoint twice.
pub check_sanity_iff :
    (min_output_value : ℕ) (tx : Transaction)
    → (check_sanity min_output_value tx ≡ ok tt) ↔ IsSane min_output_value tx
unfolding check_sanity
check_sanity_iff least tx =
    let supply = raise_above_iff max_money (total_output tx) in
    let dust =
      each-raise_if (λ o. ltb o.value least) (λ o. least ≤ o.value) transaction_error
        (λ o. ground arith) tx.outputs in
    let kind =
      branch_iff (is_coinbase tx) (check_coinbase tx) (check_spending tx) (check_coinbase_iff tx)
        (check_spending_iff tx) in
    (
      λ h.
          let (a, h1) = (>>_iff _ _).0 h in
          let (b, h2) = (>>_iff _ _).0 h1 in
          let (c, h3) = (>>_iff _ _).0 h2 in
          let (d, e) = (>>_iff _ _).0 h3 in
          record {
            some_input = (raise_if_empty_iff tx.inputs).0 a;
            some_output = (raise_if_empty_iff tx.outputs).0 b;
            supply = supply.0 c;
            no_dust = dust.0 d;
            coinbase = (kind.0 e).0;
            spending = (kind.0 e).1;
          },
      λ s. (>>_iff _ _).1 (
        (raise_if_empty_iff tx.inputs).1 s.some_input,
        (>>_iff _ _).1 (
          (raise_if_empty_iff tx.outputs).1 s.some_output,
          (>>_iff _ _).1 (
            supply.1 s.supply,
            (>>_iff _ _).1 (dust.1 s.no_dust, kind.1 (s.coinbase, s.spending)),
          ),
        ),
      ),
    )
