-- ===== src/AuxPow/Commitment.antt =====
-- src/scarletcoin/core/auxpow.py: `AuxPoWCommitment`, building and finding it, and the slot that a
-- nonce determines.
pub mod Search
use scarlet_coin.Prelude.{
  ℕ, zero, suc, ◌+◌, ◌*◌, ◌/◌, ◌%◌, ◌^◌, ◌≡◌, Bool, true, false, not, ◌&&◌, Option, none, some,
  List, [], ◌∷◌, ◌++◌, ltb, leb, ◌==◌, if◌then◌else◌, length, take, drop,
}
use scarlet_coin.Prelude.Bytes.{Bytes, bytes_eq, to_le, from_le}
use scarlet_coin.Outcome.{Result, ok, err, ◌>>=◌, ◌>>◌, raise_if, auxpow_error}

abbrev pub merged_mining_header : Bytes
merged_mining_header = 0xFA ∷ 0xBE ∷ 0x6D ∷ 0x6D ∷ []

pub record Commitment : Type 0 where
  pub aux_root : Bytes
  pub tree_size : ℕ
  pub nonce : ℕ

unfoldable pub commitment : Bytes → ℕ → ℕ → Result Commitment
commitment aux_root tree_size nonce = do
  raise_if (not (length aux_root == 32)) auxpow_error
  raise_if (not (leb 1 tree_size && leb tree_size 0xFFFFFFFF)) auxpow_error
  raise_if (not (leb nonce 0xFFFFFFFF)) auxpow_error
  ok (record { aux_root = aux_root; tree_size = tree_size; nonce = nonce })

-- `while size > 1`: each round halves the size, so the size is enough fuel.
unfoldable pub halvings : ℕ → ℕ → ℕ
halvings zero size = 0
halvings (suc fuel) size = let more = halvings fuel (size / 2) in if ltb 1 size then more + 1 else 0

unfoldable pub aux_tree_height : Commitment → ℕ
unfolding halvings
aux_tree_height m = halvings m.tree_size m.tree_size

unfoldable pub build_auxpow_commitment : Bytes → ℕ → ℕ → Result Bytes
build_auxpow_commitment aux_root tree_size nonce = do
  raise_if (not (length aux_root == 32)) auxpow_error
  raise_if (not (leb 1 tree_size && leb tree_size 0xFFFFFFFF)) auxpow_error
  raise_if (not (leb nonce 0xFFFFFFFF)) auxpow_error
  ok (merged_mining_header ++ (aux_root ++ (to_le 4 tree_size ++ to_le 4 nonce)))

-- `except AuxPoWError: continue`
abbrev accepted : Result Commitment → List Commitment
accepted (ok m) = m ∷ []
accepted (err e) = []

-- What one marker contributes, from the bytes after it.
unfoldable pub commitment_at : Bytes → List Commitment
commitment_at rest =
    if ltb (length rest) 40
    then []
    else accepted (
        commitment (take 32 rest) (from_le (take 4 (drop 32 rest)))
          (from_le (take 4 (drop 36 rest))))

-- The search loop. `skip` bytes at the front belong to the last marker found, since `find` goes on
-- from its end.
unfoldable pub scan : ℕ → Bytes → List Commitment
unfolding commitment_at
scan skip [] = []
scan (suc skip) (b ∷ bs) = scan skip bs
scan zero (b ∷ bs) =
    let found = commitment_at (drop 3 bs) ++ scan 3 bs in
    let missed = scan zero bs in
    if bytes_eq (take 4 (b ∷ bs)) merged_mining_header then found else missed

abbrev sole : List Commitment → Result (Option Commitment)
sole [] = ok none
sole (m ∷ []) = ok (some m)
sole _ = err auxpow_error

unfoldable pub parse_auxpow_commitment : Bytes → Result (Option Commitment)
unfolding scan
parse_auxpow_commitment coinbase_data = sole (scan zero coinbase_data)

unfoldable pub get_expected_index : ℕ → ℕ → ℕ → ℕ
get_expected_index nonce chain_id aux_tree_height =
    let r0 = nonce % 2 ^ 32 in
    let r1 = (r0 * 1103515245 + 12345) % 2 ^ 64 in
    let r2 = (r1 + chain_id) % 2 ^ 64 in
    let r3 = (r2 * 1103515245 + 12345) % 2 ^ 64 in
    if aux_tree_height == 0 then 0 else r3 % 2 ^ aux_tree_height
