-- ===== src/Params.antt =====
-- src/scarletcoin/core/params.py: the consensus parameters and the subsidy schedule. The network
-- constants (ports, magic bytes, seeds, address versions, genesis text) take no part in validation.
pub mod Subsidy
use scarlet_coin.Prelude.{ℕ, ◌*◌, ◌/◌, ◌^◌, Bool, Option, List, leb, if◌then◌else◌}
use scarlet_coin.Prelude.Bytes.{Bytes}
use scarlet_coin.Outcome.{Result, ok, err, value_error}

abbrev pub coin : ℕ
coin = 100_000_000

pub record ChainParams : Type 0 where
  pub target_spacing : ℕ
  pub retarget_interval : ℕ
  pub pow_limit_bits : ℕ
  pub max_adjustment_factor : ℕ
  pub per_block_retarget : Bool
  pub retarget_fork_height : ℕ
  pub retarget_measure_fork_height : ℕ
  pub initial_subsidy : ℕ
  pub halving_interval : ℕ
  pub coinbase_maturity : ℕ
  pub max_block_size : ℕ
  pub max_future_time : ℕ
  pub median_time_blocks : ℕ
  pub min_relay_fee_per_kb : ℕ
  pub min_output_value : ℕ
  pub auxpow_chain_id : ℕ
  pub auxpow_activation_height : Option ℕ
  pub checkpoints : List (ℕ × Bytes)

unfoldable pub target_timespan : ChainParams → ℕ
target_timespan p = p.target_spacing * p.retarget_interval

-- Heights are never negative here, and `>>` is a division by a power of two. A halving interval of
-- zero would raise in the source; `Subsidy` assumes it positive.
unfoldable pub subsidy : ChainParams → ℕ → ℕ
subsidy p height =
    let halvings = height / p.halving_interval in
    if leb 64 halvings then 0 else p.initial_subsidy / 2 ^ halvings
