-- ===== src/Utxo.antt =====
-- src/scarletcoin/core/utxo.py: coins, and the overlay of pending additions and spends. `Coins` is the
-- coin table that the overlay's dictionary and the storage share.
pub mod Tables
pub mod Totals
pub mod Layers
use scarlet_coin.Prelude.{
  ℕ, ◌+◌, ◌≡◌, Bool, true, false, Option, none, some, List, [], ◌∷◌, leb, ◌==◌, if◌then◌else◌, any,
}
use scarlet_coin.Prelude.Bytes.{Bytes}
use scarlet_coin.Outcome.{Result, ok, err, ◌>>=◌, key_error}
use scarlet_coin.Crypto.{Crypto}
use scarlet_coin.Transaction.{
  OutPoint, outpoint_eq, TxOutput, Transaction, output_p2sh, is_coinbase,
}
use scarlet_coin.Transaction.Codec.{txid}

pub record Coin : Type 0 where
  pub value : ℕ
  pub output_type : ℕ
  pub payload : Bytes
  pub height : ℕ
  pub is_coinbase : Bool

unfoldable pub is_p2sh : Coin → Bool
is_p2sh coin = coin.output_type == output_p2sh

-- `height - self.height >= maturity`, over the integers.
unfoldable pub is_spendable_at : Coin → ℕ → ℕ → Bool
is_spendable_at coin height maturity =
    if coin.is_coinbase then leb (coin.height + maturity) height else true

-- `CoinView.get_coin`
abbrev pub CoinView : Type 0
CoinView = OutPoint → Option Coin

-- A dictionary, or a table, from outpoints to coins.
abbrev pub Coins : Type 0
Coins = List (OutPoint × Coin)

unfoldable pub find : OutPoint → Coins → Option Coin
find p [] = none
find p ((q, coin) ∷ m) = if outpoint_eq p q then some coin else find p m

unfoldable pub erase : OutPoint → Coins → Coins
erase p [] = []
erase p ((q, coin) ∷ m) = let rest = erase p m in if outpoint_eq p q then rest else (q, coin) ∷ rest

unfoldable pub put : OutPoint → Coin → Coins → Coins
put p coin m = (p, coin) ∷ erase p m

unfoldable pub total : Coins → ℕ
total [] = 0
total ((q, coin) ∷ m) = coin.value + total m

-- `set.discard`
unfoldable pub discard : OutPoint → List OutPoint → List OutPoint
discard p [] = []
discard p (q ∷ qs) = let rest = discard p qs in if outpoint_eq p q then rest else q ∷ rest

pub record CoinOverlay : Type 0 where
  pub base : CoinView
  pub added : Coins
  pub spent : List OutPoint

unfoldable pub overlay : CoinView → CoinOverlay
overlay base = record { base = base; added = []; spent = [] }

abbrev pub first_of_two : Option Coin → Option Coin → Option Coin
first_of_two (some coin) other = some coin
first_of_two none other = other

unfoldable pub get_coin : CoinOverlay → OutPoint → Option Coin
get_coin o p =
    if any (outpoint_eq p) o.spent then none else first_of_two (find p o.added) (o.base p)

unfoldable pub spend : OutPoint → CoinOverlay → Result (Coin × CoinOverlay)
spend p o = elim (get_coin o p) [
  | none ↦ err key_error
  | some coin ↦ ok (coin, record o { added = erase p o.added; spent = p ∷ o.spent })
]

unfoldable pub add : OutPoint → Coin → CoinOverlay → CoinOverlay
add p coin o = record o { spent = discard p o.spent; added = put p coin o.added }

-- The loop of `add_transaction`, from output `index` on.
unfoldable pub add_outputs : Bytes → ℕ → Bool → ℕ → List TxOutput → CoinOverlay → CoinOverlay
add_outputs id height coinbase index [] o = o
add_outputs id height coinbase index (output ∷ outputs) o =
    add_outputs id height coinbase (index + 1) outputs (
      add (record { txid = id; index = index })
        (record {
          value = output.value;
          output_type = output.type;
          payload = output.payload;
          height = height;
          is_coinbase = coinbase;
        })
        o)

unfoldable pub add_transaction : Crypto → Transaction → ℕ → CoinOverlay → Result CoinOverlay
unfolding add_outputs
add_transaction c tx height o = do
  id ← txid c tx
  ok (add_outputs id height (is_coinbase tx) 0 tx.outputs o)
