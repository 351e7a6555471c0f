-- ===== src/Block/Valid.antt =====
-- `check_sanity` of a block against a description without a loop, a set or an early return.
use scarlet_coin.Prelude.{
  ℕ, ◌≤◌, ◌<◌, ◌≡◌, ◌≢◌, ◌⊎◌, Bool, true, false, none, List, [], ◌∷◌, length, All,
}
use scarlet_coin.Prelude.Bytes.{Bytes, from_le}
use scarlet_coin.Outcome.{ok}
use scarlet_coin.Crypto.{Crypto}
use scarlet_coin.Transaction.{Transaction, is_coinbase}
use scarlet_coin.Transaction as Tx
use scarlet_coin.Transaction.Sanity.{IsSane}
use scarlet_coin.Pow.{bits_to_target}
use scarlet_coin.Block.{Block, merkle_root}
use scarlet_coin.Block.Codec.{header_hash, size, txids}

-- No id is there twice.
abbrev pub IsDistinct : List Bytes → Type 0
IsDistinct [] = Unit
IsDistinct (id ∷ ids) = All (λ other. id ≢ other) ids × IsDistinct ids

-- One coinbase, in first position
abbrev pub IsLed : List Transaction → Type 0
IsLed [] = ⊥
IsLed (tx ∷ txs) = (is_coinbase tx ≡ true) × All (λ t. is_coinbase t ≡ false) txs

-- The hash of the header is at most the target that its bits stand for.
abbrev pub HasWork : Crypto → ℕ → Block → Type 0
HasWork c pow_limit block =
    (id : Bytes) × (target : ℕ) × (header_hash c block.header ≡ ok id)
    × (bits_to_target block.header.bits ≡ ok target)
    × (0 < target)
    × (target ≤ pow_limit)
    × (length id ≡ 32)
    × (from_le id ≤ target)

module _ (c : Crypto) (pow_limit max_block_size min_output_value : ℕ) where
  pub record IsValidBlock (is_auxpow_active : Bool) (block : Block) : Type 0 where
    pub fits : (n : ℕ) × (size block ≡ ok n) × (n ≤ max_block_size)
    pub worked : (is_auxpow_active ≡ false) ⊎ (block.auxpow ≡ none) → HasWork c pow_limit block
    pub led : IsLed block.transactions
    pub sane : All (IsSane min_output_value) block.transactions
    pub rooted :
        (ids : List Bytes) × (txids c block.transactions ≡ ok ids)
        × IsDistinct ids
        × (merkle_root c ids ≡ ok block.header.merkle_root)
