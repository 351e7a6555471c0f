-- ===== src/Chain/Restore.antt =====
-- A block that is disconnected leaves the coins that were there before it was connected.
use scarlet_coin.Prelude.{
  ℕ, ◌+◌, ◌≡◌, refl, ◌∙◌, sym, ap, subst, true, false, not, Option, none, List, [], ◌∷◌, ◌++◌,
  arith, if◌then◌else◌, length, append_assoc, inl, inr, Bool-cases, Option-cases, All,
}
use scarlet_coin.Prelude.Bytes.{Bytes}
use scarlet_coin.Outcome.{ok, ◌>>=◌, raise_if, >>=-eq-ok, >>_iff, connect_error}
use scarlet_coin.Crypto.{Crypto}
use scarlet_coin.Params.{ChainParams}
use scarlet_coin.Transaction.{OutPoint, Transaction, is_coinbase}
use scarlet_coin.Transaction.Codec.{txid}
use scarlet_coin.Utxo.{Coin, Coins, find, get_coin, add_outputs, add_transaction}
use scarlet_coin.Utxo.Layers.{remove_all, put_all, find-remove_all, find-put_all}
use scarlet_coin.Validation.{check_transaction_final, check_transaction_inputs}
use scarlet_coin.Block.Codec.{txids}
use scarlet_coin.Chain.Connect.{
  Progress, as_connect_error, spend_inputs, outpoints, connect_inputs, connect_transaction,
  connect_transactions,
}
use scarlet_coin.Chain.Disconnect.{remove_outputs}
use scarlet_coin.Chain.Undoing.{
  IsUndoing, among, among-append, fees-IsUndoing, spend_inputs-IsUndoing, get_coin-add_outputs,
  created-IsUndoing,
}

module _ (c : Crypto) where
  -- None of the outputs of the transaction has a coin in the table.
  abbrev pub AreNew : Coins → Transaction → Type 0
  AreNew m tx =
      (id : Bytes) (q : OutPoint)
      → txid c tx ≡ ok id
      → among q (outpoints id 0 (length tx.outputs)) ≡ true
      → find q m ≡ none

  module _ (params : ChainParams) (height : ℕ) (m : Coins) where
    connect_inputs-IsUndoing :
        (tx : Transaction) (pr pr' : Progress)
        → IsUndoing m pr
        → connect_inputs c params height tx pr ≡ ok pr'
        → IsUndoing m pr' × (pr'.created ≡ pr.created)
    unfolding connect_inputs
    connect_inputs-IsUndoing tx pr pr' h e = elim (Bool-cases (is_coinbase tx)) [
      | inl x ↦
          let kept : connect_inputs c params height tx pr ≡ ok pr = rw x refl in
          let same : pr ≡ pr' = cc (kept, e) in
          (subst (IsUndoing m) same h, ap (λ (r : Progress). r.created) (sym same))
      | inr x ↦
          let checked : connect_inputs c params height tx pr ≡ (
              as_connect_error
                (check_transaction_inputs c (get_coin pr.coins) height params true tx)
              >>= λ fee. spend_inputs tx.inputs (record pr { fees = pr.fees + fee })) =
            rw x refl in
          let (fee, _, e2) =
            >>=-eq-ok
              (as_connect_error
                (check_transaction_inputs c (get_coin pr.coins) height params true tx))
              _ (sym checked ∙ e) in
          spend_inputs-IsUndoing m tx.inputs _ pr' (fees-IsUndoing m pr (pr.fees + fee) h) e2
    ]

    connect_transaction-IsUndoing :
        (tx : Transaction) (pr pr' : Progress)
        → AreNew m tx
        → IsUndoing m pr
        → connect_transaction c params height tx pr ≡ ok pr'
        → IsUndoing m pr'
          × (id : Bytes) × (txid c tx ≡ ok id)
          × (pr'.created ≡ outpoints id 0 (length tx.outputs) ++ pr.created)
    unfolding connect_transaction add_transaction
    connect_transaction-IsUndoing tx pr pr' fresh h e =
        let (_, e0) =
          (>>_iff (raise_if (not (check_transaction_final tx height)) connect_error) _).0 e in
        let (pr1, e1, e2) = >>=-eq-ok (connect_inputs c params height tx pr) _ e0 in
        let (h1, same) = connect_inputs-IsUndoing tx pr pr1 h e1 in
        let (id, e3, e4) = >>=-eq-ok (txid c tx) _ e2 in
        let (o, e5, e6) = >>=-eq-ok (add_transaction c tx height pr1.coins) _ e4 in
        let (id', e7, e8) = >>=-eq-ok (txid c tx) _ e5 in
        let one : id' ≡ id = ids (sym e7 ∙ e3) in
        let last = value e6 in
        let added : add_outputs id' height (is_coinbase tx) 0 tx.outputs pr1.coins ≡ o = cc e8 in
        (
          subst (IsUndoing m) last (
              created-IsUndoing m pr1 (outpoints id 0 (length tx.outputs)) o h1
                (λ q x. fresh id q e3 x)
                (λ q x.
                  sym (ap (λ t. get_coin t q) added)
                  ∙ get_coin-add_outputs q id' height (is_coinbase tx) 0 tx.outputs pr1.coins (
                      subst (λ t. among q (outpoints t 0 (length tx.outputs)) ≡ false) (sym one)
                        x))),
          id,
          e3,
          sym (ap (λ (r : Progress). r.created) last)
              ∙ ap (λ t. outpoints id 0 (length tx.outputs) ++ t) same,
        )
      where
        value : {x y : Progress} → ok x ≡ ok y → x ≡ y
        value e = cc

        ids : {x y : Bytes} → ok x ≡ ok y → x ≡ y
        ids e = cc

    -- What the loop leaves, with the outpoints that it created; `remove_outputs` takes away these.
    abbrev pub IsUndoable : List Transaction → Progress → Progress → Type 0
    IsUndoable txs pr pr' =
        IsUndoing m pr'
        × (news : List OutPoint) × (pr'.created ≡ news ++ pr.created)
        × ((t : Coins)
            → (t' : Coins) × (remove_outputs c txs t ≡ ok t')
              × ((q : OutPoint) → find q t' ≡ (if among q news then none else find q t)))
        × (ids : List Bytes) × (txids c txs ≡ ok ids)

    remove_outputs_step :
        (tx : Transaction) (txs : List Transaction) (id : Bytes) (t : Coins)
        → txid c tx ≡ ok id
        → remove_outputs c (tx ∷ txs) t
          ≡ remove_outputs c txs (remove_all (outpoints id 0 (length tx.outputs)) t)
    unfolding remove_outputs
    remove_outputs_step tx txs id t e = rw (e, remove_outputs) refl

    txids_step :
        (tx : Transaction) (txs : List Transaction) (id : Bytes) (ids : List Bytes)
        → txid c tx ≡ ok id
        → txids c txs ≡ ok ids
        → txids c (tx ∷ txs) ≡ ok (id ∷ ids)
    unfolding txids
    txids_step tx txs id ids e f = rw (e, txids) (rw f refl)

    both :
        (news outs : List OutPoint) (t : Coins) (q : OutPoint) {r : Option Coin}
        → r ≡ (if among q news then none else find q (remove_all outs t))
        → r ≡ (if among q (news ++ outs) then none else find q t)
    both news outs t q h = ground (arith, among-append q news outs, find-remove_all outs q t)

    pub connect_transactions-IsUndoable :
        (txs : List Transaction) (pr pr' : Progress)
        → All (AreNew m) txs
        → IsUndoing m pr
        → connect_transactions c params height txs pr ≡ ok pr'
        → IsUndoable txs pr pr'
    unfolding connect_transactions remove_outputs txids
    connect_transactions-IsUndoable [] pr pr' fresh h e =
        let same : pr ≡ pr' = cc e in
        (
          subst (IsUndoing m) same h,
          [],
          ap (λ (r : Progress). r.created) (sym same),
          λ t. (t, refl, λ q. refl),
          [],
          refl,
        )
    connect_transactions-IsUndoable (tx ∷ txs) pr pr' (new, fresh) h e =
        let (pr1, e1, e2) = >>=-eq-ok (connect_transaction c params height tx pr) _ e in
        let (h1, id, named, made) = connect_transaction-IsUndoing tx pr pr1 new h e1 in
        let (h2, news, more, removes, ids, all) =
          connect_transactions-IsUndoable txs pr1 pr' fresh h1 e2 in
        let outs = outpoints id 0 (length tx.outputs) in
        (
          h2,
          news ++ outs,
          more ∙ ap (λ t. news ++ t) made ∙ sym (append_assoc news outs pr.created),
          λ t.
              let (t', run, look) = removes (remove_all outs t) in
              (t', remove_outputs_step tx txs id t named ∙ run, λ q. both news outs t q (look q)),
          id ∷ ids,
          txids_step tx txs id ids named all,
        )

-- The coins before: `remove_outputs` and the entries of `undo`, on the table that was written.
pub restored :
    (m : Coins) (pr : Progress) (q : OutPoint) (t t' : Coins)
    → IsUndoing m pr
    → find q t ≡ get_coin pr.coins q
    → find q t' ≡ (if among q pr.created then none else find q t)
    → find q (put_all pr.undo t') ≡ find q m
restored m pr q t t' h written removed = elim (Option-cases (find q pr.undo)) [
  | inl x ↦ elim (Bool-cases (among q pr.created)) [
    | inl y ↦ ground (arith, find-put_all pr.undo q t' h.table, h.new q)
    | inr y ↦ ground (arith, find-put_all pr.undo q t' h.table, h.same q)
  ]
  | inr (coin, x) ↦ ground (arith, find-put_all pr.undo q t' h.table, h.known q coin)
]
