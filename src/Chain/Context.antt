-- ===== src/Chain/Context.antt =====
-- src/scarletcoin/core/chain.py: the check of a block against its parent, and of its AuxPoW proof.
use scarlet_coin.Prelude.{ℕ, ◌+◌, Bool, false, not, none, some, List, ltb, leb, ◌==◌, if◌then◌else◌}
use scarlet_coin.Outcome.{
  Error, Result, ok, err, ◌>>=◌, ◌>>◌, raise_if, validation_error, premature_block_error,
  transaction_error, block_error, auxpow_error,
}
use scarlet_coin.Crypto.{Crypto}
use scarlet_coin.Params.{ChainParams}
use scarlet_coin.Coinbase.{coinbase_height}
use scarlet_coin.Block.{Block, coinbase_of}
use scarlet_coin.AuxPow.Proof.{AuxPow}
use scarlet_coin.AuxPow.Validate.{validate_auxpow}
use scarlet_coin.Pow.{bits_to_target}
use scarlet_coin.Block.Codec.{header_hash}
use scarlet_coin.Chain.Retarget.{BlockIndexEntry, median_time_past, next_bits_after}

-- `except (TransactionError, BlockError)`
unfoldable pub claim_error : Error → Error
claim_error transaction_error = validation_error
claim_error block_error = validation_error
claim_error e = e

unfoldable pub claimed_height : Result ℕ → Result ℕ
unfolding claim_error
claimed_height (ok height) = ok height
claimed_height (err e) = err (claim_error e)

unfoldable pub check_context :
    List BlockIndexEntry → ChainParams → ℕ → Block → BlockIndexEntry → ℕ → Result (Unit {0})
unfolding claimed_height
check_context rows params now block parent height = do
  expected ← next_bits_after rows params parent block.header.timestamp
  raise_if (not (block.header.bits == expected)) validation_error
  median ← median_time_past rows params parent
  raise_if (leb block.header.timestamp median) validation_error
  raise_if (ltb (now + params.max_future_time) block.header.timestamp) premature_block_error
  claimed ← claimed_height (coinbase_of block >>= coinbase_height)
  raise_if (not (claimed == height)) validation_error

unfoldable pub auxpow_active_at : ChainParams → ℕ → Bool
auxpow_active_at params height =
    if params.auxpow_chain_id == 0 then false else elim params.auxpow_activation_height [
      | none ↦ false
      | some activation ↦ leb activation height
    ]

-- `except AuxPoWError`
unfoldable pub proof_verdict : Result (Unit {0}) → Result (Unit {0})
proof_verdict (ok done) = ok done
proof_verdict (err auxpow_error) = err validation_error
proof_verdict (err e) = err e

-- The proof of a block that has one; its height takes no part.
unfoldable pub validate_block_auxpow : Crypto → ChainParams → Block → AuxPow → Result (Unit {0})
unfolding proof_verdict
validate_block_auxpow c params block auxpow = do
  aux_block_hash ← header_hash c block.header
  aux_target ← bits_to_target block.header.bits
  proof_verdict (validate_auxpow c auxpow aux_block_hash aux_target params.auxpow_chain_id)
