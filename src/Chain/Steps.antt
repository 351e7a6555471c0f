-- ===== src/Chain/Steps.antt =====
-- Each step of `_connect_block` changes the value of the coins by the amount that the step accounts
-- for.
use scarlet_coin.Prelude.{
  ℕ, ◌+◌, ◌≤◌, ◌≡◌, refl, ◌∙◌, sym, ap, subst, true, not, inl, inr, Option, none, some, List, [],
  ◌∷◌, arith, if◌then◌else◌, Bool-cases,
}
use scarlet_coin.Prelude.Bytes.{Bytes}
use scarlet_coin.Outcome.{Result, ok, err, ◌>>=◌, raise_if, >>=-eq-ok, >>_iff, connect_error}
use scarlet_coin.Crypto.{Crypto}
use scarlet_coin.Transaction.{
  OutPoint, outpoint_eq, TxInput, Transaction, is_coinbase, total_output,
}
use scarlet_coin.Transaction.Codec.{txid}
use scarlet_coin.Params.{ChainParams}
use scarlet_coin.Utxo.{
  Coin, CoinView, Coins, CoinOverlay, find, erase, total, get_coin, add_outputs, add_transaction,
}
use scarlet_coin.Utxo.Tables.{find-erase}
use scarlet_coin.Utxo.Totals.{total-erase}
use scarlet_coin.Validation.{check_transaction_inputs, check_transaction_final}
use scarlet_coin.Validation.Fee.{AreSpendable, sum_coins, check_transaction_inputs_iff}
use scarlet_coin.Chain.Connect.{
  Progress, as_connect_error, spend_input, spend_inputs, connect_inputs, connect_transaction,
  connect_transactions,
}
use scarlet_coin.Chain.Shows.{Shows, spend-Shows, add_outputs-Shows, spend_input_lem}

module _ (c : Crypto) (params : ChainParams) (height : ℕ) where
  -- A view in which every coin of the table is found.
  abbrev IsBelow : Coins → CoinView → Type 0
  IsBelow t view = (p : OutPoint) (coin : Coin) → find p t ≡ some coin → view p ≡ some coin

  erase-IsBelow :
      (p : OutPoint) (t : Coins) (view : CoinView) → IsBelow t view → IsBelow (erase p t) view
  erase-IsBelow p t view h q coin e = elim (Bool-cases (outpoint_eq p q)) [
    | inl x ↦
        let no : find q (erase p t) ≡ none = rw (find-erase p q t, x) refl in absurd (cc (no, e))
    | inr x ↦
        let kept : find q (erase p t) ≡ find q t = rw (find-erase p q t, x) refl in
        h q coin (sym kept ∙ e)
  ]

  -- Spending the inputs takes away the value of the coins that the check found for them.
  spend_inputs-Shows :
      (tx : Transaction) (index : ℕ) (hasher : Option Bytes) (view : CoinView) (is : List TxInput)
      (coins : List Coin) (pr pr' : Progress) (base : CoinView) (t : Coins)
      → Shows pr.coins base t
      → IsBelow t view
      → AreSpendable c view height params tx index hasher is coins
      → spend_inputs is pr ≡ ok pr'
      → (t' : Coins) × Shows pr'.coins base t'
        × (total t' + sum_coins coins ≡ total t)
        × (pr'.fees ≡ pr.fees)
  unfolding spend_inputs spend_input
  spend_inputs-Shows tx index hasher view [] [] pr pr' base t h below a e =
      let same : pr ≡ pr' = cc e in
      (
        t,
        subst (λ (r : Progress). Shows r.coins base t) same h,
        omega arith,
        ap (λ (r : Progress). r.fees) (sym same),
      )
  spend_inputs-Shows tx index hasher view [] (coin ∷ coins) pr pr' base t h below a e = elim a [ ]
  spend_inputs-Shows tx index hasher view (i ∷ is) [] pr pr' base t h below a e = elim a [ ]
  spend_inputs-Shows tx index hasher view (i ∷ is) (coin ∷ coins) pr pr' base t h below (a, s, all)
        e =
      let (pr1, e1, e2) = >>=-eq-ok (spend_input i.prevout pr) _ e in
      let (coin', e3, fees) = spend_input_lem i.prevout pr pr1 e1 in
      let (h1, here) = spend-Shows i.prevout pr.coins pr1.coins base coin' t h e3 in
      let known = below i.prevout coin' here in
      let found : coin' ≡ coin = cc (known, a) in
      let sum = total-erase i.prevout coin' t h.table here in
      let (t', h', sum', fees') =
        spend_inputs-Shows tx (index + 1) hasher view is coins pr1 pr' base (erase i.prevout t) h1
          (erase-IsBelow i.prevout t view below) all e2 in
      (t', h', omega (arith, sum, sum', ap (λ (x : Coin). x.value) found), fees' ∙ fees)

  as_connect_error-ok : {A : Type 0} (r : Result A) {a : A} → as_connect_error r ≡ ok a → r ≡ ok a
  as_connect_error-ok (ok a) e = e
  as_connect_error-ok (err x) e = cc

  add_transaction-Shows :
      (tx : Transaction) (o o' : CoinOverlay) (base : CoinView) (t : Coins)
      → Shows o base t
      → add_transaction c tx height o ≡ ok o'
      → (t' : Coins) × Shows o' base t' × (total t' ≤ total t + total_output tx)
  unfolding add_transaction total_output
  add_transaction-Shows tx o o' base t h e =
      let (id, e1, e2) = >>=-eq-ok (txid c tx) _ e in
      let same : add_outputs id height (is_coinbase tx) 0 tx.outputs o ≡ o' = cc e2 in
      let (t', h', le) = add_outputs-Shows id height (is_coinbase tx) 0 tx.outputs o base t h in
      (t', subst (λ x. Shows x base t') same h', le)

  -- What a transaction may add to the coins and the fees together: a coinbase its outputs, any other
  -- transaction nothing.
  abbrev pub minted : Transaction → ℕ
  minted tx = if is_coinbase tx then total_output tx else 0

  connect_inputs-Shows :
      (tx : Transaction) (pr pr' : Progress) (base : CoinView) (t : Coins)
      → Shows pr.coins base t
      → connect_inputs c params height tx pr ≡ ok pr'
      → (t' : Coins) × Shows pr'.coins base t'
        × (total t' + pr'.fees + total_output tx ≡ total t + pr.fees + minted tx)
  unfolding connect_inputs
  connect_inputs-Shows tx pr pr' base t h e = elim (Bool-cases (is_coinbase tx)) [
    | inl x ↦
        let kept : connect_inputs c params height tx pr ≡ ok pr = rw x refl in
        let same : pr ≡ pr' = cc (kept, e) in
        let sum : minted tx ≡ total_output tx = rw x refl in
        (
          t,
          subst (λ (r : Progress). Shows r.coins base t) same h,
          omega (arith, sum, ap (λ (r : Progress). r.fees) same),
        )
    | inr x ↦
        let checked : connect_inputs c params height tx pr ≡ (
            as_connect_error (check_transaction_inputs c (get_coin pr.coins) height params true tx)
            >>= λ fee. spend_inputs tx.inputs (record pr { fees = pr.fees + fee })) =
          rw x refl in
        let none_new : minted tx ≡ 0 = rw x refl in
        let (fee, e1, e2) =
          >>=-eq-ok
            (as_connect_error
              (check_transaction_inputs c (get_coin pr.coins) height params true tx))
            _ (sym checked ∙ e) in
        let e3 =
          as_connect_error-ok (check_transaction_inputs c (get_coin pr.coins) height params true tx)
            e1 in
        let (_, hasher, _, coins, all, sum, _) =
          (check_transaction_inputs_iff c (get_coin pr.coins) height params true tx fee).0 e3 in
        let (t', h', less, fees) =
          spend_inputs-Shows tx 0 hasher (get_coin pr.coins) tx.inputs coins
            (record pr { fees = pr.fees + fee }) pr' base t h (λ p coin y. sym (h.same p) ∙ y) all
            e2 in
        (t', h', omega (arith, less, fees, sum, none_new))
  ]

  connect_transaction-Shows :
      (tx : Transaction) (pr pr' : Progress) (base : CoinView) (t : Coins)
      → Shows pr.coins base t
      → connect_transaction c params height tx pr ≡ ok pr'
      → (t' : Coins) × Shows pr'.coins base t'
        × (total t' + pr'.fees ≤ total t + pr.fees + minted tx)
  unfolding connect_transaction
  connect_transaction-Shows tx pr pr' base t h e =
      let (_, e0) =
        (>>_iff (raise_if (not (check_transaction_final tx height)) connect_error) _).0 e in
      let (pr1, e1, e2) = >>=-eq-ok (connect_inputs c params height tx pr) _ e0 in
      let (t1, h1, sum) = connect_inputs-Shows tx pr pr1 base t h e1 in
      let (id, _, e3) = >>=-eq-ok (txid c tx) _ e2 in
      let (o, e4, e5) = >>=-eq-ok (add_transaction c tx height pr1.coins) _ e3 in
      let (t2, h2, le) = add_transaction-Shows tx pr1.coins o base t1 h1 e4 in
      let last = value e5 in
      let coins : o ≡ pr'.coins = ap (λ (r : Progress). r.coins) last in
      let fees : pr1.fees ≡ pr'.fees = ap (λ (r : Progress). r.fees) last in
      (t2, subst (λ x. Shows x base t2) coins h2, omega (arith, sum, le, fees))
    where
      value : {x y : Progress} → ok x ≡ ok y → x ≡ y
      value e = cc

  abbrev pub all_minted : List Transaction → ℕ
  all_minted [] = 0
  all_minted (tx ∷ txs) = minted tx + all_minted txs

  pub connect_transactions-Shows :
      (txs : List Transaction) (pr pr' : Progress) (base : CoinView) (t : Coins)
      → Shows pr.coins base t
      → connect_transactions c params height txs pr ≡ ok pr'
      → (t' : Coins) × Shows pr'.coins base t'
        × (total t' + pr'.fees ≤ total t + pr.fees + all_minted txs)
  unfolding connect_transactions
  connect_transactions-Shows [] pr pr' base t h e =
      let same : pr ≡ pr' = cc e in
      (
        t,
        subst (λ (r : Progress). Shows r.coins base t) same h,
        omega (arith, ap (λ (r : Progress). r.fees) same),
      )
  connect_transactions-Shows (tx ∷ txs) pr pr' base t h e =
      let (pr1, e1, e2) = >>=-eq-ok (connect_transaction c params height tx pr) _ e in
      let (t1, h1, le1) = connect_transaction-Shows tx pr pr1 base t h e1 in
      let (t2, h2, le2) = connect_transactions-Shows txs pr1 pr' base t1 h1 e2 in
      (t2, h2, omega (arith, le1, le2))
