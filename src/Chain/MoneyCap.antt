-- ===== src/Chain/MoneyCap.antt =====
-- The active chain as a sequence of connected blocks, and the money in it.
use scarlet_coin.Prelude.{ℕ, suc, ◌*◌, ◌≤◌, ◌≡◌, true, false, List, ◌∷◌, arith, All}
use scarlet_coin.Prelude.Bytes.{Bytes}
use scarlet_coin.Outcome.{ok}
use scarlet_coin.Crypto.{Crypto}
use scarlet_coin.Transaction.{Transaction, is_coinbase, max_money}
use scarlet_coin.Params.{coin, ChainParams, subsidy}
use scarlet_coin.Params.Subsidy.{issued, issued-max_money}
use scarlet_coin.Utxo.{total}
use scarlet_coin.Utxo.Tables.{IsTable}
use scarlet_coin.Block.{Block}
use scarlet_coin.Storage.{Storage}
use scarlet_coin.Chain.Connect.{connect_block}
use scarlet_coin.Chain.Supply.{total-connect_block}

-- The storage once the block of the given height is the tip: the genesis block pays the subsidy of
-- height 0, and each later block was connected and has its only coinbase in first position.
pub data ActiveChain (c : Crypto) (params : ChainParams) : ℕ → Storage → Type 0 where
  genesis :
      {s : Storage} → IsTable s.utxo → total s.utxo ≤ subsidy params 0 → ActiveChain c params 0 s
  extend :
      {height : ℕ} {s s' : Storage} (id : Bytes) (block : Block) (coinbase : Transaction)
      (txs : List Transaction)
      → ActiveChain c params height s
      → block.transactions ≡ coinbase ∷ txs
      → is_coinbase coinbase ≡ true
      → All (λ tx. is_coinbase tx ≡ false) txs
      → connect_block c params (suc height) id block s ≡ ok s'
      → ActiveChain c params (suc height) s'

module _ (c : Crypto) (params : ChainParams) where
  supply-le :
      (height : ℕ) (s : Storage)
      → ActiveChain c params height s
      → IsTable s.utxo × (total s.utxo ≤ issued params (suc height))
  supply-le height s (genesis table le) = (table, omega (arith, le))
  supply-le height s
        (extend {height = h} {s = s0} id block coinbase txs chain shape first others e) =
      let (table, le) = supply-le h s0 chain in
      let (table', le') =
        total-connect_block c params (suc h) id block coinbase txs s0 s shape first others table
          e in
      (table', omega (arith, le, le'))

  -- Whatever blocks have been connected after genesis, with the schedule of the networks (50 coins
  -- that halve every 210,000 blocks) all unspent coins together are worth at most `max_money`.
  -- Genesis is a coin table worth at most the subsidy of height 0, and each later block has its
  -- only coinbase in first position.
  pub total-max_money :
      (height : ℕ) (s : Storage)
      → params.initial_subsidy ≡ 50 * coin
      → params.halving_interval ≡ 210_000
      → ActiveChain c params height s
      → total s.utxo ≤ max_money
  total-max_money height s first interval chain =
      let (_, le) = supply-le height s chain in
      let cap = issued-max_money params (suc height) first interval in omega (arith, le, cap)
