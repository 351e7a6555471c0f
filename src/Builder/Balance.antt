-- ===== src/Builder/Balance.antt =====
-- `build_transaction`: what goes in comes out, as outputs or as the fee.
use scarlet_coin.Prelude.{
  ℕ, zero, suc, ◌+◌, ◌-◌, ◌≤◌, ◌<◌, ◌≡◌, refl, ◌∙◌, sym, ap, subst, ◌⊎◌, inl, inr, Bool, true,
  false, not, List, [], ◌∷◌, ◌++◌, map, arith, ltb, ltb→lt, leb, ◌==◌, if◌then◌else◌, length, any,
}
use scarlet_coin.Prelude.Int.{pos}
use scarlet_coin.Prelude.Bytes.{Bytes}
use scarlet_coin.Prelude.Dict.{Dict}
use scarlet_coin.Outcome.{
  ok, raise_if, >>=-eq-ok, >>_iff, raise_if_iff, map_ok-eq-ok, transaction_error, value_error,
  insufficient_funds_error,
}
use scarlet_coin.Crypto.{Crypto}
use scarlet_coin.Transaction.{
  OutPoint, TxInput, tx_input, TxOutput, tx_output, p2pkh, Transaction, transaction, sum_values,
  total_output, is_empty,
}
use scarlet_coin.Transaction.Signing.{signature_hasher, set_witness, set_witnesses, signed_with}
use scarlet_coin.Builder.{
  Item, total_value, fee_for, select_coins, dust_threshold, Destination, PrivateKey,
  BuiltTransaction, inputs_of, outputs_of, sum_amounts, resolve_all, witnesses_of, sign_inputs,
  assemble, build_transaction,
}
use scarlet_coin.Builder.Select.{count, Covers, IsChoice, select_coins-IsSelection}

abbrev pub prevouts : List TxInput → List OutPoint
prevouts = map (λ (i : TxInput). i.prevout)

-- Witnesses leave the outpoints alone.
prevouts-set_witness :
    (inputs : List TxInput) (index : ℕ) (w : List Bytes) (inputs' : List TxInput)
    → set_witness inputs index w ≡ ok inputs'
    → prevouts inputs' ≡ prevouts inputs
unfolding set_witness tx_input
prevouts-set_witness [] index w inputs' e = cc
prevouts-set_witness (i ∷ is) zero w inputs' e =
    let (j, e1, e2) = map_ok-eq-ok _ (tx_input i.prevout i.sequence w) e in
    let (_, e3) = (>>_iff (raise_if (not (leb i.sequence 0xFFFFFFFF)) transaction_error) _).0 e1 in
    sym (ap prevouts e2) ∙ ap (λ p. p ∷ prevouts is) (sym (point e3))
  where
    point : {j k : TxInput} → ok j ≡ ok k → j.prevout ≡ k.prevout
    point e = cc
prevouts-set_witness (i ∷ is) (suc index) w inputs' e =
    let (js, e1, e2) = map_ok-eq-ok _ (set_witness is index w) e in
    sym (ap prevouts e2) ∙ ap (λ l. i.prevout ∷ l) (prevouts-set_witness is index w js e1)

prevouts-set_witnesses :
    (ws : List (ℕ × List Bytes)) (inputs inputs' : List TxInput)
    → set_witnesses ws inputs ≡ ok inputs'
    → prevouts inputs' ≡ prevouts inputs
unfolding set_witnesses
prevouts-set_witnesses [] inputs inputs' e = ap prevouts (sym (value e))
  where
    value : {x y : List TxInput} → ok x ≡ ok y → x ≡ y
    value e = cc
prevouts-set_witnesses ((index, w) ∷ ws) inputs inputs' e =
    let (more, e1, e2) = >>=-eq-ok (set_witness inputs index w) _ e in
    prevouts-set_witnesses ws more inputs' e2 ∙ prevouts-set_witness inputs index w more e1

-- `Transaction(...)` has the fields that it is given.
transaction_fields :
    (version : ℕ) (inputs : List TxInput) (outputs : List TxOutput) (lock_time : ℕ)
    (coinbase : Bytes) (tx : Transaction)
    → transaction version inputs outputs lock_time coinbase ≡ ok tx
    → (tx.inputs ≡ inputs) × (tx.outputs ≡ outputs)
unfolding transaction
transaction_fields version inputs outputs lock_time coinbase tx e = ground arith

-- Signing changes neither the outpoints nor the outputs.
sign_inputs_lem :
    (c : Crypto) (keys : Dict Bytes PrivateKey) (unsigned : Transaction) (items : List Item)
    (signed : Transaction)
    → sign_inputs c keys unsigned items ≡ ok signed
    → (prevouts signed.inputs ≡ prevouts unsigned.inputs) × (signed.outputs ≡ unsigned.outputs)
unfolding sign_inputs signed_with
sign_inputs_lem c keys unsigned items signed e =
    let (hasher, e1, e2) = >>=-eq-ok (signature_hasher unsigned) _ e in
    let (ws, e3, e4) = >>=-eq-ok (witnesses_of c keys hasher 0 items) _ e2 in
    let (inputs, e5, e6) = >>=-eq-ok (set_witnesses ws unsigned.inputs) _ e4 in
    let (same, outputs) =
      transaction_fields unsigned.version inputs unsigned.outputs unsigned.lock_time
        unsigned.coinbase_data signed e6 in
    (ap prevouts same ∙ prevouts-set_witnesses ws unsigned.inputs inputs e5, outputs)

sum_values-outputs_of :
    (targets : List (Bytes × ℕ)) (outputs : List TxOutput)
    → outputs_of targets ≡ ok outputs
    → sum_values outputs ≡ sum_amounts targets
unfolding outputs_of sum_values sum_amounts
sum_values-outputs_of [] outputs e = ap sum_values (sym (value e))
  where
    value : {x y : List TxOutput} → ok x ≡ ok y → x ≡ y
    value e = cc
sum_values-outputs_of ((h, v) ∷ targets) outputs e =
    let (o, e1, e2) = >>=-eq-ok (p2pkh v h) _ e in
    let (more, e3, e4) = map_ok-eq-ok _ (outputs_of targets) e2 in
    sym (ap sum_values e4) ∙ both o more (paid o e1) (sum_values-outputs_of targets more e3)
  where
    paid : (o : TxOutput) → p2pkh v h ≡ ok o → o.value ≡ v
    paid o e = unfold p2pkh in unfold tx_output in ground arith

    both :
        (o : TxOutput) (more : List TxOutput)
        → o.value ≡ v
        → sum_values more ≡ sum_amounts targets
        → o.value + sum_values more ≡ v + sum_amounts targets
    both o more x y = omega arith

sum_amounts-append :
    (xs ys : List (Bytes × ℕ)) → sum_amounts (xs ++ ys) ≡ sum_amounts xs + sum_amounts ys
unfolding sum_amounts
sum_amounts-append [] ys = omega arith
sum_amounts-append (x ∷ xs) ys = omega (arith, sum_amounts-append xs ys)

prevouts-inputs_of :
    (items : List Item) → prevouts (inputs_of items) ≡ map (λ (x : Item). x.0) items
unfolding inputs_of
prevouts-inputs_of [] = refl
prevouts-inputs_of ((p, coin) ∷ items) = ap (λ l. p ∷ l) (prevouts-inputs_of items)

-- The payments alone with no change, or followed by change that is worth an output.
abbrev pub IsPaid : ℕ → List (Bytes × ℕ) → Bytes → BuiltTransaction → Type 0
IsPaid fee_per_kb targets change_hash bt =
    ((bt.change ≡ 0) × (outputs_of targets ≡ ok bt.transaction.outputs))
    ⊎ ((dust_threshold fee_per_kb < bt.change)
        × (outputs_of (targets ++ ((change_hash, bt.change) ∷ [])) ≡ ok bt.transaction.outputs))

-- What a built transaction says of its coins and its fee.
abbrev pub IsBalanced : List Item → BuiltTransaction → Type 0
IsBalanced chosen bt =
    (bt.coins ≡ chosen)
    × (bt.total_input ≡ total_value chosen)
    × (prevouts bt.transaction.inputs ≡ map (λ (x : Item). x.0) chosen)
    × (total_output bt.transaction + bt.fee ≡ total_value chosen)

-- With the change as an output, or in the fee, nothing is left over.
settled :
    (fee_per_kb : ℕ) (targets : List (Bytes × ℕ)) (change_hash : Bytes) (chosen : List Item)
    (fee change : ℕ) (signed : Transaction) (keeps : Bool)
    → ltb (dust_threshold fee_per_kb) change ≡ keeps
    → total_value chosen - sum_amounts targets - fee ≡ change
    → sum_amounts targets + fee ≤ total_value chosen
    → outputs_of (if keeps then targets ++ ((change_hash, change) ∷ []) else targets)
      ≡ ok signed.outputs
    → (total_output signed + (if keeps then fee else fee + change) ≡ total_value chosen)
      × (fee ≤ (if keeps then fee else fee + change))
      × IsPaid fee_per_kb targets change_hash (record {
        transaction = signed;
        fee = if keeps then fee else fee + change;
        change = if keeps then change else 0;
        total_input = total_value chosen;
        coins = chosen;
      })
unfolding total_output sum_amounts
settled rate targets change_hash chosen fee change signed true worth left enough e = (
  omega (
    arith,
    sum_values-outputs_of (targets ++ ((change_hash, change) ∷ [])) signed.outputs e,
    sum_amounts-append targets ((change_hash, change) ∷ []),
  ),
  omega arith,
  inr (ltb→lt _ _ worth, e),
)
settled rate targets change_hash chosen fee change signed false worth left enough e =
    (omega (arith, sum_values-outputs_of targets signed.outputs e), omega arith, inl (refl, e))

module _ (c : Crypto) (keys : Dict Bytes PrivateKey)
    (address_version fee_per_kb lock_time : ℕ) where
  assemble-IsBalanced :
      (targets : List (Bytes × ℕ)) (change_hash : Bytes) (chosen : List Item) (fee : ℕ)
      (bt : BuiltTransaction)
      → assemble c keys address_version fee_per_kb lock_time targets change_hash chosen fee ≡ ok bt
      → IsBalanced chosen bt × (fee ≤ bt.fee) × IsPaid fee_per_kb targets change_hash bt
  unfolding assemble
  assemble-IsBalanced targets change_hash chosen fee bt e =
      let total = total_value chosen in
      let amount = sum_amounts targets in
      let change = total - amount - fee in
      let keeps = ltb (dust_threshold fee_per_kb) change in
      let (e1, e2) =
        (>>_iff (raise_if (ltb total (amount + fee)) insufficient_funds_error) _).0 e in
      let enough = (raise_if_iff (ltb total (amount + fee)) insufficient_funds_error).0 e1 in
      let (outputs, e3, e4) =
        >>=-eq-ok (outputs_of (if keeps then targets ++ ((change_hash, change) ∷ []) else targets))
          _ e2 in
      let (unsigned, e5, e6) =
        >>=-eq-ok (transaction 1 (inputs_of chosen) outputs lock_time []) _ e4 in
      let (signed, e7, e8) = >>=-eq-ok (sign_inputs c keys unsigned chosen) _ e6 in
      let (ins, outs) = transaction_fields 1 (inputs_of chosen) outputs lock_time [] unsigned e5 in
      let (points, same) = sign_inputs_lem c keys unsigned chosen signed e7 in
      let whole : outputs_of (if keeps then targets ++ ((change_hash, change) ∷ []) else targets)
          ≡ ok signed.outputs =
        e3 ∙ ap (λ o. ok o) (sym (same ∙ outs)) in
      let (sum, least, paid) =
        settled fee_per_kb targets change_hash chosen fee change signed keeps refl refl
          (ground arith) whole in
      subst
        (λ (b : BuiltTransaction).
          IsBalanced chosen b × (fee ≤ b.fee) × IsPaid fee_per_kb targets change_hash b)
        (value e8)
        ((refl, refl, points ∙ ap prevouts ins ∙ prevouts-inputs_of chosen, sum), least, paid)
    where
      value : {x y : BuiltTransaction} → ok x ≡ ok y → x ≡ y
      value e = cc

  -- The transaction that `build_transaction` returns spends the outpoints of the chosen coins, in
  -- order, and its outputs and its fee together are worth exactly these coins; they are among the
  -- coins given, none more often than there. Its outputs are the payments, and change only if that
  -- is above the dust threshold, and the fee is at least the one for the estimated size.
  pub build_transaction-IsBalanced :
      (coins : List Item) (outputs : List (Destination × ℕ)) (change_hash : Bytes)
      (bt : BuiltTransaction)
      → build_transaction c keys address_version fee_per_kb lock_time coins outputs change_hash
        ≡ ok bt
      → IsBalanced bt.coins bt
        × ((f : Item → Bool) → count f bt.coins ≤ count f coins)
        × (targets : List (Bytes × ℕ)) × (resolve_all address_version outputs ≡ ok targets)
        × IsPaid fee_per_kb targets change_hash bt
        × (fee_for (sum_amounts targets) fee_per_kb (length targets) (length bt.coins) ≤ bt.fee)
  unfolding build_transaction
  build_transaction-IsBalanced coins outputs change_hash bt e =
      let (_, e1) = (>>_iff (raise_if (is_empty outputs) value_error) _).0 e in
      let (targets, e2, e3) = >>=-eq-ok (resolve_all address_version outputs) _ e1 in
      let (_, e4) =
        (>>_iff (raise_if (any (λ (t : Bytes × ℕ). t.1 == 0) targets) value_error) _).0 e3 in
      let (choice, e5, e6) =
        >>=-eq-ok (select_coins (pos (sum_amounts targets)) fee_per_kb (length targets) coins) _
          e4 in
      let (balanced, least, paid) =
        assemble-IsBalanced targets change_hash choice.0 choice.1 bt e6 in
      let (_, cost, within) =
        chosen_covers targets choice
          (select_coins-IsSelection (pos (sum_amounts targets)) fee_per_kb (length targets) coins)
          e5 in
      (
        subst (λ l. IsBalanced l bt) (sym balanced.0) balanced,
        (λ f. subst (λ l. count f l ≤ count f coins) (sym balanced.0) (within f)),
        targets,
        e2,
        paid,
        subst (λ l. fee_for (sum_amounts targets) fee_per_kb (length targets) (length l) ≤ bt.fee)
            (sym balanced.0) (omega (arith, cost, least)),
      )
    where
      chosen_covers :
          (targets : List (Bytes × ℕ)) (choice : List Item × ℕ)
          → IsChoice
              (sum_amounts targets)
              fee_per_kb
              (length targets)
              coins
              (select_coins (pos (sum_amounts targets)) fee_per_kb (length targets) coins)
          → select_coins (pos (sum_amounts targets)) fee_per_kb (length targets) coins ≡ ok choice
          → Covers (sum_amounts targets) fee_per_kb (length targets) coins choice
      chosen_covers targets choice (inl (other, x, k)) y =
          subst (Covers (sum_amounts targets) fee_per_kb (length targets) coins) (pair (sym x ∙ y))
            k
        where
          pair : {a b : List Item × ℕ} → ok a ≡ ok b → a ≡ b
          pair e = cc
      chosen_covers targets choice (inr (x, k)) y = absurd (cc (x, y))

  -- The unsigned transaction that was signed.
  abbrev pub IsSignedOf : BuiltTransaction → Type 0
  IsSignedOf bt =
      (outs : List TxOutput) × (unsigned : Transaction) × (transaction 1 (inputs_of bt.coins) outs
          lock_time []
        ≡ ok unsigned)
      × (sign_inputs c keys unsigned bt.coins ≡ ok bt.transaction)

  assemble-IsSignedOf :
      (targets : List (Bytes × ℕ)) (change_hash : Bytes) (chosen : List Item) (fee : ℕ)
      (bt : BuiltTransaction)
      → assemble c keys address_version fee_per_kb lock_time targets change_hash chosen fee ≡ ok bt
      → IsSignedOf bt
  unfolding assemble
  assemble-IsSignedOf targets change_hash chosen fee bt e =
      let total = total_value chosen in
      let change = total - sum_amounts targets - fee in
      let keeps = ltb (dust_threshold fee_per_kb) change in
      let (_, e2) =
        (>>_iff (raise_if (ltb total (sum_amounts targets + fee)) insufficient_funds_error) _).0
          e in
      let (outs, e3, e4) =
        >>=-eq-ok (outputs_of (if keeps then targets ++ ((change_hash, change) ∷ []) else targets))
          _ e2 in
      let (unsigned, e5, e6) =
        >>=-eq-ok (transaction 1 (inputs_of chosen) outs lock_time []) _ e4 in
      let (signed, e7, e8) = >>=-eq-ok (sign_inputs c keys unsigned chosen) _ e6 in
      subst IsSignedOf (value e8) (outs, unsigned, e5, e7)
    where
      value : {x y : BuiltTransaction} → ok x ≡ ok y → x ≡ y
      value e = cc

  pub build_transaction-IsSignedOf :
      (coins : List Item) (outputs : List (Destination × ℕ)) (change_hash : Bytes)
      (bt : BuiltTransaction)
      → build_transaction c keys address_version fee_per_kb lock_time coins outputs change_hash
        ≡ ok bt
      → IsSignedOf bt
  unfolding build_transaction
  build_transaction-IsSignedOf coins outputs change_hash bt e =
      let (_, e1) = (>>_iff (raise_if (is_empty outputs) value_error) _).0 e in
      let (targets, e2, e3) = >>=-eq-ok (resolve_all address_version outputs) _ e1 in
      let (_, e4) =
        (>>_iff (raise_if (any (λ (t : Bytes × ℕ). t.1 == 0) targets) value_error) _).0 e3 in
      let (choice, e5, e6) =
        >>=-eq-ok (select_coins (pos (sum_amounts targets)) fee_per_kb (length targets) coins) _
          e4 in
      assemble-IsSignedOf targets change_hash choice.0 choice.1 bt e6
