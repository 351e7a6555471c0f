-- ===== src/Validation/Fee.antt =====
-- What a successful `check_transaction_inputs` guarantees, and the fee that it returns.
use scarlet_coin.Prelude.{
  ℕ, ◌+◌, ◌-◌, ◌≤◌, ◌≡◌, refl, ◌∙◌, sym, ap, ◌↔◌, Bool, true, false, not, ◌||◌, Option, none, some,
  List, [], ◌∷◌, arith, ltb, ◌==◌, Option-cases, inl, inr,
}
use scarlet_coin.Prelude.Bytes.{Bytes}
use scarlet_coin.Outcome.{ok, validation_error, >>=-eq-ok, >>_iff, raise_if_iff}
use scarlet_coin.Crypto.{Crypto}
use scarlet_coin.Transaction.{
  TxInput, Transaction, is_coinbase, total_output, output_p2pkh, output_p2sh, max_money,
}
use scarlet_coin.Utxo.{Coin, CoinView, is_spendable_at}
use scarlet_coin.Params.{ChainParams}
use scarlet_coin.Validation.{
  check_signature, check_coin, check_coins, shared_hasher, check_transaction_inputs,
}

-- The coins that the inputs refer to, one for each, with their total value.
abbrev pub sum_coins : List Coin → ℕ
sum_coins [] = 0
sum_coins (coin ∷ coins) = coin.value + sum_coins coins

module _ (c : Crypto) (view : CoinView) (height : ℕ) (params : ChainParams) where
  -- What the loop checks of one input and its coin.
  pub record IsSpendable (tx : Transaction) (index : ℕ) (hasher : Option Bytes) (coin : Coin)
      : Type 0 where
    pub mature : is_spendable_at coin height params.coinbase_maturity ≡ true
    pub known_type : (coin.output_type == output_p2pkh || coin.output_type == output_p2sh) ≡ true
    pub authorised : check_signature c tx index coin hasher ≡ ok tt

  -- Each input from `index` on has a coin in the view that it may spend.
  abbrev pub AreSpendable : Transaction → ℕ → Option Bytes → List TxInput → List Coin → Type 0
  AreSpendable tx index hasher [] [] = Unit
  AreSpendable tx index hasher [] (coin ∷ coins) = ⊥
  AreSpendable tx index hasher (i ∷ is) [] = ⊥
  AreSpendable tx index hasher (i ∷ is) (coin ∷ coins) =
      (view i.prevout ≡ some coin)
      × IsSpendable tx index hasher coin
      × AreSpendable tx (index + 1) hasher is coins

  check_coin_iff :
      (tx : Transaction) (index : ℕ) (hasher : Option Bytes) (coin : Coin) (before after : ℕ)
      → (check_coin c view height params tx index hasher (some coin) before ≡ ok after)
        ↔ (IsSpendable tx index hasher coin × (after ≡ before + coin.value) × (after ≤ max_money))
  unfolding check_coin
  check_coin_iff tx index hasher coin before after = (
    λ h.
        let (a, h1) = (>>_iff _ _).0 h in
        let (b, h2) = (>>_iff _ _).0 h1 in
        let (d, h3) = (>>_iff _ _).0 h2 in
        let (e, h4) = (>>_iff _ _).0 h3 in
        let a' =
          (raise_if_iff (not (is_spendable_at coin height params.coinbase_maturity))
              validation_error).0
            a in
        let b' =
          (raise_if_iff (not (coin.output_type == output_p2pkh || coin.output_type == output_p2sh))
              validation_error).0
            b in
        let e' = (raise_if_iff (ltb max_money (before + coin.value)) validation_error).0 e in
        let last : ok (before + coin.value) ≡ ok after = h4 in
        let same : after ≡ before + coin.value = cc last in
        let mature : is_spendable_at coin height params.coinbase_maturity ≡ true =
          ground (arith, a') in
        let known : (coin.output_type == output_p2pkh || coin.output_type == output_p2sh) ≡ true =
          ground (arith, b') in
        let low : before + coin.value ≤ max_money = ground (arith, e') in
        (
          record { mature = mature; known_type = known; authorised = d },
          same,
          omega (arith, low, same),
        ),
    λ (s, same, le).
        let e' : ltb max_money (before + coin.value) ≡ false = ground arith in
        rw (s.mature, s.known_type, s.authorised, e', same) refl,
  )

  check_coins_sound :
      (tx : Transaction) (index : ℕ) (hasher : Option Bytes) (is : List TxInput) (before after : ℕ)
      → before ≤ max_money
      → check_coins c view height params tx index hasher is before ≡ ok after
      → (coins : List Coin) × AreSpendable tx index hasher is coins
        × (after ≡ before + sum_coins coins)
        × (after ≤ max_money)
  unfolding check_coins
  check_coins_sound tx index hasher [] before after le h = ([], tt, ground arith, ground arith)
  check_coins_sound tx index hasher (i ∷ is) before after le h =
      let (t, x, y) =
        >>=-eq-ok (check_coin c view height params tx index hasher (view i.prevout) before) _ h in
      elim (Option-cases (view i.prevout)) [
        | inl e ↦
            let at =
              λ (v : Option Coin). check_coin c view height params tx index hasher v before in
            let no : at none ≡ ok t = sym (ap at e) ∙ x in absurd (unfold check_coin in cc no)
        | inr (coin, e) ↦
            let at =
              λ (v : Option Coin). check_coin c view height params tx index hasher v before in
            let (s, same, le') =
              (check_coin_iff tx index hasher coin before t).0 (sym (ap at e) ∙ x) in
            let (coins, all, sum, le'') =
              check_coins_sound tx (index + 1) hasher is t after le' y in
            (coin ∷ coins, (e, s, all), omega (arith, sum, same), le'')
      ]

  check_coins_complete :
      (tx : Transaction) (index : ℕ) (hasher : Option Bytes) (is : List TxInput) (before : ℕ)
      (coins : List Coin)
      → AreSpendable tx index hasher is coins
      → before + sum_coins coins ≤ max_money
      → check_coins c view height params tx index hasher is before ≡ ok (before + sum_coins coins)
  unfolding check_coins
  check_coins_complete tx index hasher [] before [] h le = ap ok (omega arith)
  check_coins_complete tx index hasher [] before (coin ∷ coins) h le = elim h [ ]
  check_coins_complete tx index hasher (i ∷ is) before [] h le = elim h [ ]
  check_coins_complete tx index hasher (i ∷ is) before (coin ∷ coins) (e, s, all) le =
      let x =
        (check_coin_iff tx index hasher coin before (before + coin.value)).1
          (s, refl, omega arith) in
      rw (e, x)
        (check_coins_complete tx (index + 1) hasher is (before + coin.value) coins all (omega arith)
          ∙ ap ok (omega arith))

  pub check_transaction_inputs_iff :
      (verify_signatures : Bool) (tx : Transaction) (fee : ℕ)
      → (check_transaction_inputs c view height params verify_signatures tx ≡ ok fee) ↔ (
          (is_coinbase tx ≡ false)
          × (hasher : Option Bytes) × (shared_hasher verify_signatures tx ≡ ok hasher)
          × (coins : List Coin) × AreSpendable tx 0 hasher tx.inputs coins
          × (sum_coins coins ≡ total_output tx + fee)
          × (sum_coins coins ≤ max_money))
  unfolding check_transaction_inputs
  check_transaction_inputs_iff verify_signatures tx fee = (
    λ h.
        let (a, h1) = (>>_iff _ _).0 h in
        let (hasher, b, h2) = >>=-eq-ok (shared_hasher verify_signatures tx) _ h1 in
        let (total_in, d, h3) =
          >>=-eq-ok (check_coins c view height params tx 0 hasher tx.inputs 0) _ h2 in
        let (e, h4) = (>>_iff _ _).0 h3 in
        let (coins, all, sum, le) =
          check_coins_sound tx 0 hasher tx.inputs 0 total_in (omega arith) d in
        let e' = (raise_if_iff _ _).0 e in
        let last : ok (total_in - total_output tx) ≡ ok fee = h4 in
        let same : fee ≡ total_in - total_output tx = cc last in
        ((raise_if_iff _ _).0 a, hasher, b, coins, all, ground arith, ground arith),
    λ (a, hasher, b, coins, all, sum, le).
        let d = check_coins_complete tx 0 hasher tx.inputs 0 coins all (omega arith) in
        let e : ltb (0 + sum_coins coins) (total_output tx) ≡ false = ground arith in
        rw (a, b, d, e) (ap ok (omega arith)),
  )
