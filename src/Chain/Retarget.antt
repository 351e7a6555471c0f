-- ===== src/Chain/Retarget.antt =====
-- src/scarletcoin/core/chain.py: ancestors, the median time and the target that a child of a block
-- must state, over the index of all known blocks (`BlockIndexEntry`, `get_entry` and
-- `get_chain_entry` of src/scarletcoin/core/storage.py). The clock is an argument.
use scarlet_coin.Prelude.{
  ℕ, zero, suc, ◌+◌, ◌-◌, ◌*◌, ◌/◌, ◌%◌, Bool, true, false, not, ◌&&◌, ◌||◌, Option, none, some,
  List, [], ◌∷◌, ltb, ◌==◌, if◌then◌else◌, length, get_elem?, min,
}
use scarlet_coin.Prelude.Int.{ℤ, pos, negsuc, sub_ℕ}
use scarlet_coin.Prelude.Bytes.{Bytes, bytes_eq}
use scarlet_coin.Prelude.Sort.{sorted}
use scarlet_coin.Outcome.{Result, ok, err, ◌>>=◌, ◌>>◌, raise_if, value_error, zero_division_error}
use scarlet_coin.Params.{ChainParams, target_timespan}
use scarlet_coin.Block.{BlockHeader}
use scarlet_coin.Pow.{bits_to_target, next_bits, bits_from_work}

pub record BlockIndexEntry : Type 0 where
  pub hash : Bytes
  pub height : ℕ
  pub prev_hash : Bytes
  pub chainwork : ℕ
  pub in_chain : Bool
  pub header : BlockHeader
  pub pruned : Bool

unfoldable pub get_entry : Bytes → List BlockIndexEntry → Option BlockIndexEntry
get_entry id [] = none
get_entry id (e ∷ rows) = if bytes_eq id e.hash then some e else get_entry id rows

unfoldable pub get_chain_entry : ℕ → List BlockIndexEntry → Option BlockIndexEntry
get_chain_entry height [] = none
get_chain_entry height (e ∷ rows) =
    if e.in_chain && e.height == height then some e else get_chain_entry height rows

module _ (rows : List BlockIndexEntry) where
  -- At most `n` entries, from the given one backwards.
  unfoldable pub timestamps_back : ℕ → Option BlockIndexEntry → List ℕ
  timestamps_back zero walker = []
  timestamps_back (suc n) none = []
  timestamps_back (suc n) (some e) =
      e.header.timestamp ∷ timestamps_back n (get_entry e.prev_hash rows)

  -- `statistics.median_low`: the middle of the sorted data, the lower one of two.
  unfoldable pub median_low : List ℕ → Result ℕ
  median_low times = elim (get_elem? (sorted ltb times) ((length times - 1) / 2)) [
    | none ↦ err value_error
    | some median ↦ ok median
  ]

  unfoldable pub median_time_past : ChainParams → BlockIndexEntry → Result ℕ
  unfolding timestamps_back median_low
  median_time_past params e = median_low (timestamps_back params.median_time_blocks (some e))

  -- `while walker is not None and walker.height > height`; `Ancestors` shows that the height of the
  -- first entry is enough fuel.
  unfoldable pub walk_back : ℕ → BlockIndexEntry → ℕ → Option BlockIndexEntry
  walk_back zero walker height = if ltb height walker.height then none else some walker
  walk_back (suc fuel) walker height = elim (ltb height walker.height) [
    | false ↦ some walker
    | true ↦
        if walker.in_chain
        then get_chain_entry height rows
        else elim (get_entry walker.prev_hash rows) [
          | none ↦ none
          | some previous ↦ walk_back fuel previous height
        ]
  ]

  unfoldable pub ancestor_at : BlockIndexEntry → ℤ → Option BlockIndexEntry
  unfolding walk_back
  ancestor_at e (negsuc n) = none
  ancestor_at e (pos height) =
      if ltb e.height height
      then none
      else if e.in_chain
      then get_chain_entry height rows
      else walk_back e.height e height

  -- `while start.height > 0`, each round one block further down. The cutoff may be negative in the
  -- source, so the duration is added on the other side.
  unfoldable pub window_start : ℕ → ℕ → ℕ → BlockIndexEntry → BlockIndexEntry
  unfolding ancestor_at
  window_start zero newest duration start = start
  window_start (suc fuel) newest duration start = elim (ltb 0 start.height) [
    | false ↦ start
    | true ↦ elim (ancestor_at start (pos (start.height - 1))) [
      | none ↦ start
      | some prev ↦ elim (ltb (prev.header.timestamp + duration) newest) [
        | true ↦ start
        | false ↦ window_start fuel newest duration prev
      ]
    ]
  ]

  unfoldable pub work_before : Option BlockIndexEntry → ℕ
  work_before none = 0
  work_before (some before) = before.chainwork

  unfoldable pub window_work : ChainParams → BlockIndexEntry → ℕ → ℤ × ℤ
  unfolding ancestor_at window_start work_before target_timespan
  window_work params parent child_timestamp =
      let start =
        window_start parent.height parent.header.timestamp (target_timespan params) parent in
      (
        sub_ℕ parent.chainwork (work_before (ancestor_at start (sub_ℕ start.height 1))),
        sub_ℕ child_timestamp start.header.timestamp,
      )

  -- `_next_bits_from_work`
  unfoldable pub next_bits_from_work : ChainParams → BlockIndexEntry → ℕ → Result ℕ
  unfolding window_work
  next_bits_from_work params parent child_timestamp = do
    pow_limit ← bits_to_target params.pow_limit_bits
    let (work, elapsed) = window_work params parent child_timestamp
    bits_from_work work elapsed params.target_spacing pow_limit parent.header.bits
        params.max_adjustment_factor

  -- `next_bits` on the time from the ancestor at `first_height` to `last`
  unfoldable pub scaled_bits : ChainParams → BlockIndexEntry → ℕ → ℕ → ℕ → Result ℕ
  unfolding ancestor_at
  scaled_bits params parent first_height last timespan =
      elim (ancestor_at parent (pos first_height)) [
        | none ↦ ok parent.header.bits
        | some first ↦ bits_to_target params.pow_limit_bits >>= λ pow_limit.
            next_bits parent.header.bits (sub_ℕ last first.header.timestamp) timespan pow_limit
              params.max_adjustment_factor
      ]

  -- `_next_bits_time_ratio`
  unfoldable pub next_bits_time_ratio : ChainParams → BlockIndexEntry → ℕ → ℕ → Result ℕ
  unfolding scaled_bits
  next_bits_time_ratio params parent height child_timestamp =
      let lookback = min height params.retarget_interval in
      scaled_bits params parent (height - lookback) child_timestamp
        (params.target_spacing * lookback)

  -- The rule before per-block retargeting. A height that the interval divides is at least as large.
  unfoldable pub next_bits_periodic : ChainParams → BlockIndexEntry → ℕ → Result ℕ
  unfolding scaled_bits target_timespan
  next_bits_periodic params parent height = do
    raise_if (params.retarget_interval == 0) zero_division_error
    if height % params.retarget_interval == 0
        then scaled_bits params parent (height - params.retarget_interval) parent.header.timestamp
            (target_timespan params)
        else ok parent.header.bits

  unfoldable pub next_bits_after : ChainParams → BlockIndexEntry → ℕ → Result ℕ
  unfolding next_bits_periodic next_bits_time_ratio next_bits_from_work
  next_bits_after params parent child_timestamp =
      let height = parent.height + 1 in
      if not params.per_block_retarget || ltb height params.retarget_fork_height
      then next_bits_periodic params parent height
      else if ltb (parent.header.timestamp + params.max_future_time) child_timestamp
      then ok params.pow_limit_bits
      else if ltb height params.retarget_measure_fork_height
      then next_bits_time_ratio params parent height child_timestamp
      else next_bits_from_work params parent child_timestamp
