-- ===== src/Chain/Shows.antt =====
-- A table stands for what an overlay shows: each operation of the overlay is an operation on it.
use scarlet_coin.Prelude.{
  ℕ, ◌+◌, ◌≤◌, ◌≡◌, ◌∙◌, sym, ap, Bool, none, some, List, [], ◌∷◌, arith, if◌then◌else◌,
}
use scarlet_coin.Prelude.Bytes.{Bytes}
use scarlet_coin.Outcome.{ok, >>=-eq-ok}
use scarlet_coin.Transaction.{OutPoint, outpoint_eq, TxOutput, sum_values}
use scarlet_coin.Utxo.{
  Coin, CoinView, Coins, CoinOverlay, find, erase, put, total, get_coin, spend, add, add_outputs,
}
use scarlet_coin.Utxo.Tables.{find-erase, find-put, IsTable, erase-IsTable, put-IsTable}
use scarlet_coin.Utxo.Totals.{total-put-le}
use scarlet_coin.Utxo.Layers.{
  get_coin-spend, get_coin-add, IsLayered, spend-IsLayered, add-IsLayered,
}
use scarlet_coin.Chain.Connect.{Progress, spend_input}

-- A table with exactly the coins that the overlay shows.
pub record Shows (o : CoinOverlay) (base : CoinView) (t : Coins) : Type 0 where
  pub table : IsTable t
  pub layered : IsLayered o
  pub over : o.base ≡ base
  pub same : (p : OutPoint) → find p t ≡ get_coin o p

base-spend :
    (p : OutPoint) (o o' : CoinOverlay) (c : Coin) → spend p o ≡ ok (c, o') → o'.base ≡ o.base
unfolding spend
base-spend p o o' c h = ground arith

pub spend-Shows :
    (p : OutPoint) (o o' : CoinOverlay) (base : CoinView) (c : Coin) (t : Coins)
    → Shows o base t
    → spend p o ≡ ok (c, o')
    → Shows o' base (erase p t) × (find p t ≡ some c)
spend-Shows p o o' base c t h e = (
  record {
    table = erase-IsTable p t h.table;
    layered = spend-IsLayered p o o' c h.layered e;
    over = base-spend p o o' c e ∙ h.over;
    same = λ q.
        find-erase p q t
        ∙ ap (λ x. if outpoint_eq p q then none else x) (h.same q)
        ∙ sym ((get_coin-spend p q o o' c e).1);
  },
  h.same p ∙ (get_coin-spend p p o o' c e).0,
)

add-Shows :
    (p : OutPoint) (c : Coin) (o : CoinOverlay) (base : CoinView) (t : Coins)
    → Shows o base t
    → Shows (add p c o) base (put p c t)
unfolding add
add-Shows p c o base t h = record {
  table = put-IsTable p c t h.table;
  layered = add-IsLayered p c o h.layered;
  over = h.over;
  same = λ q.
      find-put p q c t
      ∙ ap (λ x. if outpoint_eq p q then some c else x) (h.same q)
      ∙ sym (get_coin-add p q c o);
}

-- New outputs add at most their values.
pub add_outputs-Shows :
    (id : Bytes) (height : ℕ) (coinbase : Bool) (index : ℕ) (outputs : List TxOutput)
    (o : CoinOverlay) (base : CoinView) (t : Coins)
    → Shows o base t
    → (t' : Coins) × Shows (add_outputs id height coinbase index outputs o) base t'
      × (total t' ≤ total t + sum_values outputs)
unfolding add_outputs sum_values
add_outputs-Shows id height coinbase index [] o base t h = (t, h, omega arith)
add_outputs-Shows id height coinbase index (out ∷ outputs) o base t h =
    let p : OutPoint = record { txid = id; index = index } in
    let c : Coin = record {
      value = out.value;
      output_type = out.type;
      payload = out.payload;
      height = height;
      is_coinbase = coinbase;
    } in
    let (t', h', le) =
      add_outputs-Shows id height coinbase (index + 1) outputs (add p c o) base (put p c t)
        (add-Shows p c o base t h) in
    (t', h', omega (arith, total-put-le p c t, le))

pub spend_input_lem :
    (p : OutPoint) (pr pr' : Progress)
    → spend_input p pr ≡ ok pr'
    → (coin : Coin) × (spend p pr.coins ≡ ok (coin, pr'.coins)) × (pr'.fees ≡ pr.fees)
unfolding spend_input
spend_input_lem p pr pr' e =
    let ((coin, o), e1, e2) = >>=-eq-ok (spend p pr.coins) _ e in
    let coins : o ≡ pr'.coins = ap (λ (r : Progress). r.coins) (value e2) in
    let fees : pr.fees ≡ pr'.fees = ap (λ (r : Progress). r.fees) (value e2) in
    (coin, e1 ∙ ap (λ x. ok (coin, x)) coins, sym fees)
  where
    value : {x y : Progress} → ok x ≡ ok y → x ≡ y
    value e = cc
