-- ===== src/Chain/Supply.antt =====
-- A connected block creates at most its subsidy: the value of the coins before and after
-- `_connect_block`.
use scarlet_coin.Prelude.{
  ℕ, ◌+◌, ◌-◌, ◌≤◌, ◌≡◌, refl, ◌∙◌, sym, ap, true, false, inl, inr, List, [], ◌∷◌, arith, ltb,
  Bool-cases, Option-cases, All,
}
use scarlet_coin.Prelude.Bytes.{Bytes}
use scarlet_coin.Outcome.{
  ok, raise_if, map_ok-eq-ok, >>=-eq-ok, >>_iff, raise_if_iff, connect_error,
}
use scarlet_coin.Crypto.{Crypto}
use scarlet_coin.Transaction.{Transaction, is_coinbase, total_output}
use scarlet_coin.Params.{ChainParams, subsidy}
use scarlet_coin.Utxo.{CoinView, find, total, overlay, get_coin}
use scarlet_coin.Utxo.Tables.{IsTable}
use scarlet_coin.Utxo.Totals.{total_ext}
use scarlet_coin.Utxo.Layers.{overlay-IsLayered, commit, find-commit, commit-IsTable}
use scarlet_coin.Chain.Connect.{
  Progress, undo_keep_blocks, start, write_block, connect_block, connect_transactions,
}
use scarlet_coin.Block.{Block, coinbase_of}
use scarlet_coin.Storage.{
  Storage, Spent, put_undo, write_undo, set_in_chain, prune_undo_behind, active_at,
}
use scarlet_coin.Chain.Index.{index_block, utxo-index_block}
use scarlet_coin.Chain.Shows.{Shows}
use scarlet_coin.Chain.Steps.{all_minted, connect_transactions-Shows}

module _ (c : Crypto) (params : ChainParams) (height : ℕ) where
  utxo-put_undo :
      (id : Bytes) (spent : Spent) (s s' : Storage) → put_undo id spent s ≡ ok s' → s'.utxo ≡ s.utxo
  unfolding put_undo
  utxo-put_undo id spent s s' e =
      let (bytes, _, last) = map_ok-eq-ok _ (write_undo spent) e in
      ap (λ (x : Storage). x.utxo) (sym last)

  utxo-prune_undo_behind :
      (depth : ℕ) (s : Storage) → (prune_undo_behind height depth s).utxo ≡ s.utxo
  unfolding prune_undo_behind
  utxo-prune_undo_behind depth s = elim (Bool-cases (ltb height depth)) [
    | inl x ↦ rw x refl
    | inr x ↦ elim (Option-cases (active_at (height - depth) s.blocks)) [
      | inl y ↦ rw (x, y) refl
      | inr (id, y) ↦ rw (x, y) refl
    ]
  ]

  pub utxo-write_block :
      (id : Bytes) (block : Block) (pr : Progress) (s s' : Storage)
      → write_block c params height id block pr s ≡ ok s'
      → s'.utxo ≡ commit pr.coins s.utxo
  unfolding write_block set_in_chain
  utxo-write_block id block pr s s' e =
      let (s1, e1, e2) =
        >>=-eq-ok (put_undo id pr.undo (record s { utxo = commit pr.coins s.utxo })) _ e in
      let (s2, e3, e4) =
        >>=-eq-ok (index_block c id height pr.spent 0 block.transactions s1) _ e2 in
      let last : prune_undo_behind height undo_keep_blocks (set_in_chain id true s2) ≡ s' = cc e4 in
      ap (λ (x : Storage). x.utxo) (sym last)
      ∙ utxo-prune_undo_behind undo_keep_blocks (set_in_chain id true s2)
      ∙ utxo-index_block c id height pr.spent 0 block.transactions s1 s2 e3
      ∙ utxo-put_undo id pr.undo (record s { utxo = commit pr.coins s.utxo }) s1 e1

  pub start-Shows :
      (s : Storage) → IsTable s.utxo → Shows (start s).coins (λ p. find p s.utxo) s.utxo
  unfolding overlay get_coin find
  start-Shows s table = record {
    table = table;
    layered = overlay-IsLayered (λ p. find p s.utxo);
    over = refl;
    same = λ p. refl;
  }

  only_coinbase :
      (txs : List Transaction)
      → All (λ tx. is_coinbase tx ≡ false) txs
      → (all_minted c params height) txs ≡ 0
  only_coinbase [] h = refl
  only_coinbase (tx ∷ txs) (x, h) = rw (x, only_coinbase txs h) refl

  -- Connecting a block whose first transaction is its only coinbase, to a table with one coin for
  -- each outpoint, keeps one coin for each outpoint, and the coins are then worth at most the
  -- subsidy of the height more than before.
  pub total-connect_block :
      (id : Bytes) (block : Block) (coinbase : Transaction) (txs : List Transaction)
      (s s' : Storage)
      → block.transactions ≡ coinbase ∷ txs
      → is_coinbase coinbase ≡ true
      → All (λ tx. is_coinbase tx ≡ false) txs
      → IsTable s.utxo
      → connect_block c params height id block s ≡ ok s'
      → IsTable s'.utxo × (total s'.utxo ≤ total s.utxo + subsidy params height)
  unfolding connect_block coinbase_of
  total-connect_block id block coinbase txs s s' shape first others table e =
      let (pr, e1, e2) =
        >>=-eq-ok (connect_transactions c params height block.transactions (start s)) _ e in
      let (cb, e3, e4) = >>=-eq-ok (coinbase_of block) _ e2 in
      let (e5, e6) =
        (>>_iff (raise_if (ltb (subsidy params height + pr.fees) (total_output cb)) connect_error)
            _).0
          e4 in
      let paid =
        (raise_if_iff (ltb (subsidy params height + pr.fees) (total_output cb)) connect_error).0
          e5 in
      let (t, h, le) =
        connect_transactions-Shows c params height block.transactions (start s) pr _ s.utxo
          (start-Shows s table) e1 in
      let whole = utxo-write_block id block pr s s' e6 in
      let same : total (commit pr.coins s.utxo) ≡ total t =
        total_ext _ t (commit-IsTable pr.coins s.utxo table) h.table (λ p.
          find-commit pr.coins s.utxo h.layered (λ q. ap (λ (v : CoinView). v q) h.over) p
          ∙ sym (h.same p)) in
      let is_first : cb ≡ coinbase = first_of block.transactions shape e3 in
      let new : (all_minted c params height) block.transactions ≡ total_output coinbase =
        ap (all_minted c params height) shape
        ∙ rw (first, only_coinbase txs others) (omega arith) in
      (
        rw whole (commit-IsTable pr.coins s.utxo table),
        rw whole
            (bound _ _ (total s.utxo) pr.fees _ _ _ same le new (ap total_output is_first) paid),
      )
    where
      first_of :
          (l : List Transaction) {cb : Transaction}
          → l ≡ coinbase ∷ txs
          → coinbase_of (record block { transactions = l }) ≡ ok cb
          → cb ≡ coinbase
      first_of [] x y = cc
      first_of (tx ∷ _) x y = cc

      bound :
          (a b d fees minted paid first : ℕ)
          → a ≡ b
          → b + fees ≤ d + 0 + minted
          → minted ≡ first
          → paid ≡ first
          → ltb (subsidy params height + fees) paid ≡ false
          → a ≤ d + subsidy params height
      bound a b d fees minted paid first p q r s t = ground arith
