-- ===== src/Block.antt =====
-- src/scarletcoin/core/block.py: the Merkle root, headers, blocks and their check. `Codec` has the
-- encodings.
pub mod Codec
pub mod HeaderTrip
pub mod Merkle
pub mod Valid
pub mod Check
use scarlet_coin.Prelude.{
  ℕ, zero, suc, ◌+◌, ◌≡◌, Bool, true, false, not, ◌&&◌, ◌||◌, Option, none, some, List, [], ◌∷◌,
  ◌++◌, leb, ◌==◌, if◌then◌else◌, length,
}
use scarlet_coin.Prelude.Bytes.{Bytes}
use scarlet_coin.Outcome.{Result, ok, err, ◌>>=◌, ◌>>◌, raise_if, block_error}
use scarlet_coin.Crypto.{Crypto, hash256}
use scarlet_coin.Transaction.{Transaction}
use scarlet_coin.AuxPow.Proof.{AuxPow}

abbrev pub block_header_size : ℕ
block_header_size = 80

-- One level up: a lone last node is its own sibling.
unfoldable pub pair_up : Crypto → List Bytes → List Bytes
pair_up c [] = []
pair_up c (a ∷ []) = hash256 c (a ++ a) ∷ []
pair_up c (a ∷ b ∷ level) = hash256 c (a ++ b) ∷ pair_up c level

-- `while len(level) > 1`: each round makes the level shorter, so its length is enough fuel.
unfoldable pub merkle_levels : Crypto → ℕ → List Bytes → Result Bytes
unfolding pair_up
merkle_levels c fuel [] = err block_error
merkle_levels c fuel (root ∷ []) = ok root
merkle_levels c zero (a ∷ b ∷ level) = err block_error
merkle_levels c (suc fuel) (a ∷ b ∷ level) = merkle_levels c fuel (pair_up c (a ∷ b ∷ level))

unfoldable pub merkle_root : Crypto → List Bytes → Result Bytes
unfolding merkle_levels
merkle_root c txids = merkle_levels c (length txids) txids

pub record BlockHeader : Type 0 where
  pub version : ℕ
  pub prev_hash : Bytes
  pub merkle_root : Bytes
  pub timestamp : ℕ
  pub bits : ℕ
  pub nonce : ℕ

unfoldable pub block_header : ℕ → Bytes → Bytes → ℕ → ℕ → ℕ → Result BlockHeader
block_header version prev_hash merkle_root timestamp bits nonce = do
  raise_if (not (length prev_hash == 32)) block_error
  raise_if (not (length merkle_root == 32)) block_error
  raise_if
      (not (
        leb version 0xFFFFFFFF
        && leb timestamp 0xFFFFFFFF
        && leb bits 0xFFFFFFFF
        && leb nonce 0xFFFFFFFF))
      block_error
  ok (record {
    version = version;
    prev_hash = prev_hash;
    merkle_root = merkle_root;
    timestamp = timestamp;
    bits = bits;
    nonce = nonce;
  })

pub record Block : Type 0 where
  pub header : BlockHeader
  pub transactions : List Transaction
  pub auxpow : Option AuxPow

unfoldable pub has_auxpow : Block → Bool
has_auxpow block = elim block.auxpow [ none ↦ false | some a ↦ true ]

-- `Block.coinbase`
unfoldable pub coinbase_of : Block → Result Transaction
coinbase_of block = elim block.transactions [ [] ↦ err block_error | tx ∷ _ ↦ ok tx ]
