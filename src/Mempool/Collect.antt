-- ===== src/Mempool/Collect.antt =====
-- src/scarletcoin/core/mempool.py: `entries` and `collect`.
use scarlet_coin.Prelude.{
  ℕ, zero, suc, ◌+◌, Bool, true, false, not, ◌&&◌, ◌||◌, Option, none, some, List, [], ◌∷◌, ◌++◌,
  ltb, ◌==◌, if◌then◌else◌, any, all, length,
}
use scarlet_coin.Prelude.Bytes.{Bytes, bytes_eq}
use scarlet_coin.Prelude.Dict.{Dict, lookup, values}
use scarlet_coin.Transaction.{TxInput}
use scarlet_coin.Validation.{check_transaction_final}
use scarlet_coin.Prelude.Sort.{sorted}
use scarlet_coin.Mempool.{MempoolEntry, Mempool}
use scarlet_coin.Mempool.Accept.{is_some, fee_rate}

-- `a < b` on byte strings
unfoldable pub bytes_lt : Bytes → Bytes → Bool
bytes_lt a [] = false
bytes_lt [] (y ∷ ys) = true
bytes_lt (x ∷ xs) (y ∷ ys) = ltb x y || (x == y && bytes_lt xs ys)

-- `key=lambda e: (-e.fee_rate, e.received, e.txid)`
unfoldable pub pays_more : (ℕ → ℕ → ℕ) → MempoolEntry → MempoolEntry → Bool
unfolding fee_rate bytes_lt
pays_more divide a b =
    ltb (fee_rate divide b) (fee_rate divide a)
    || (fee_rate divide a == fee_rate divide b
        && (ltb a.received b.received || (a.received == b.received && bytes_lt a.txid b.txid)))

unfoldable pub entries : (ℕ → ℕ → ℕ) → Mempool → List MempoolEntry
unfolding pays_more sorted
entries divide pool = sorted (pays_more divide) (values pool.by_txid)

-- The local variables of `collect`; `chosen` are the entries behind `selected` and `selected_ids`.
pub record Selection : Type 0 where
  pub chosen : List MempoolEntry
  pub total_fee : ℕ
  pub used : ℕ

-- `txin.prevout.txid in selected_ids`
unfoldable pub is_chosen : Bytes → List MempoolEntry → Bool
is_chosen id = any (λ (e : MempoolEntry). bytes_eq id e.txid)

-- `parents <= selected_ids`
unfoldable pub has_parents : Dict Bytes MempoolEntry → List MempoolEntry → List TxInput → Bool
unfolding is_chosen is_some
has_parents pool chosen = all (λ (i : TxInput).
    not (is_some (lookup bytes_eq i.prevout.txid pool)) || is_chosen i.prevout.txid chosen)

unfoldable pub choose : MempoolEntry → Selection → Selection
choose e sel = record {
  chosen = sel.chosen ++ (e ∷ []);
  total_fee = sel.total_fee + e.fee;
  used = sel.used + e.size;
}

-- What one round does with an entry: it stays a candidate, is dropped, or is selected.
pub data Verdict : Type 0 where
  stays dropped selects : Verdict

module _ (max_bytes height : ℕ) (pool : Dict Bytes MempoolEntry) where
  unfoldable pub judge : MempoolEntry → Selection → Verdict
  unfolding has_parents
  judge e sel =
      if ltb max_bytes (sel.used + e.size)
      then stays
      else if not (check_transaction_final e.transaction height)
      then dropped
      else if has_parents pool sel.chosen e.transaction.inputs
      then selects
      else stays

  -- One round of the `for` loop: the candidates left, whether it progressed, and the selection.
  unfoldable pub sweep :
      List MempoolEntry
      → List MempoolEntry
      → Bool
      → Selection
      → List MempoolEntry × Bool × Selection
  unfolding judge choose
  sweep [] left progressed sel = (left, progressed, sel)
  sweep (e ∷ es) left progressed sel = elim (judge e sel) [
    | stays ↦ sweep es (left ++ (e ∷ [])) progressed sel
    | dropped ↦ sweep es left progressed sel
    | selects ↦ sweep es left true (choose e sel)
  ]

  -- The `while` loop, on a number of rounds.
  unfoldable pub collect_loop : ℕ → List MempoolEntry → Selection → Option Selection
  unfolding sweep
  collect_loop zero candidates sel = none
  collect_loop (suc n) candidates sel =
      let (left, progressed, sel') = sweep candidates [] false sel in
      elim progressed [ true ↦ collect_loop n left sel' | false ↦ some sel' ]

-- `none` if the rounds do not suffice.
unfoldable pub collect : (ℕ → ℕ → ℕ) → ℕ → ℕ → Mempool → Option Selection
unfolding collect_loop entries
collect divide max_bytes height pool =
    let candidates = entries divide pool in
    collect_loop max_bytes height pool.by_txid (suc (length candidates)) candidates
      (record { chosen = []; total_fee = 0; used = 0 })
