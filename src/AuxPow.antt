-- ===== src/AuxPow.antt =====
-- src/scarletcoin/core/auxpow.py: merged-mining proofs. `Header` is the encoding of the parent header, `Commitment`
-- the marker in the parent coinbase, and `Proof` the proof with its validation.
pub mod Header
pub mod Commitment
pub mod Proof
pub mod Validate
pub mod Ambiguity
use scarlet_coin.Prelude.{
  ℕ, zero, suc, ◌+◌, ◌/◌, ◌%◌, ◌≡◌, Bool, not, ◌&&◌, List, [], ◌∷◌, ◌++◌, ltb, leb, ◌==◌,
  if◌then◌else◌, length,
}
use scarlet_coin.Prelude.Bytes.{Bytes}
use scarlet_coin.Outcome.{Result, ok, err, ◌>>=◌, ◌>>◌, raise_if, auxpow_error}
use scarlet_coin.Crypto.{Crypto, hash256}

abbrev pub max_merkle_branch_depth : ℕ
max_merkle_branch_depth = 30

pub record ParentBlockHeader : Type 0 where
  pub version : ℕ
  pub prev_hash : Bytes
  pub merkle_root : Bytes
  pub timestamp : ℕ
  pub bits : ℕ
  pub nonce : ℕ

unfoldable pub parent_block_header : ℕ → Bytes → Bytes → ℕ → ℕ → ℕ → Result ParentBlockHeader
parent_block_header version prev_hash merkle_root timestamp bits nonce = do
  raise_if (not (length prev_hash == 32)) auxpow_error
  raise_if (not (length merkle_root == 32)) auxpow_error
  raise_if
      (not (
        leb version 0xFFFFFFFF
        && leb timestamp 0xFFFFFFFF
        && leb bits 0xFFFFFFFF
        && leb nonce 0xFFFFFFFF))
      auxpow_error
  ok (record {
    version = version;
    prev_hash = prev_hash;
    merkle_root = merkle_root;
    timestamp = timestamp;
    bits = bits;
    nonce = nonce;
  })

module _ (c : Crypto) where
  -- The loop of `check_merkle_branch`: `current` moves up one level for each sibling.
  unfoldable pub climb : Bytes → List Bytes → ℕ → Result Bytes
  climb current [] index = ok current
  climb current (sibling ∷ branch) index =
      let parent =
        if index % 2 == 1 then hash256 c (sibling ++ current) else hash256 c (current ++ sibling) in
      raise_if (not (length sibling == 32)) auxpow_error >> climb parent branch (index / 2)

  unfoldable pub check_merkle_branch : Bytes → List Bytes → ℕ → Result Bytes
  unfolding climb
  check_merkle_branch leaf branch index = do
    raise_if (not (length leaf == 32)) auxpow_error
    raise_if (ltb max_merkle_branch_depth (length branch)) auxpow_error
    climb leaf branch index
