-- ===== src/AuxPow/Ambiguity.antt =====
-- The proof's branch may be shorter than the tree that the commitment names: `validate_auxpow` does
-- not compare the two, so an inner node of the tree can pass for a leaf.
use scarlet_coin.Prelude.{
  ℕ, ◌≡◌, refl, ◌∙◌, sym, ap, not, Option, none, some, [], ◌∷◌, ◌++◌, ltb, ◌==◌, length, arith,
}
use scarlet_coin.Prelude.Bytes.{Bytes}
use scarlet_coin.Outcome.{ok, ◌>>◌, raise_if, each, auxpow_error, >>_iff, >>=-eq-ok}
use scarlet_coin.Crypto.{Crypto, Hashes32, hash256, length-hash256}
use scarlet_coin.AuxPow.{max_merkle_branch_depth, climb, check_merkle_branch}
use scarlet_coin.AuxPow.Commitment.{Commitment, parse_auxpow_commitment}
use scarlet_coin.AuxPow.Proof.{AuxPow}
use scarlet_coin.AuxPow.Validate.{check_structure, check_commitment, check_parent, validate_auxpow}

module _ (c : Crypto) (hashes : Hashes32 c) (proof : AuxPow) (leaf b s : Bytes) where
  -- Two siblings above the leaf in slot 2, and one above the node next to the leaf's parent.
  abbrev pub deep : AuxPow
  deep = record proof { aux_merkle_branch = b ∷ s ∷ []; aux_chain_index = 2 }

  abbrev pub shallow : AuxPow
  shallow = record proof { aux_merkle_branch = hash256 c (leaf ++ b) ∷ []; aux_chain_index = 2 }

  deep_root :
      (root : Bytes)
      → check_merkle_branch c leaf (b ∷ s ∷ []) 2 ≡ ok root
      → (length s ≡ 32) × (root ≡ hash256 c (s ++ hash256 c (leaf ++ b)))
  unfolding check_merkle_branch climb
  deep_root root h = let x : length s ≡ 32 = ground arith in (x, ground arith)

  shallow_root :
      length s ≡ 32
      → check_merkle_branch c s (hash256 c (leaf ++ b) ∷ []) 2
        ≡ ok (hash256 c (s ++ hash256 c (leaf ++ b)))
  unfolding check_merkle_branch climb
  shallow_root x = let y = length-hash256 c hashes (leaf ++ b) in rw (x, y) refl

  shallow_structure : check_structure deep ≡ ok tt → check_structure shallow ≡ ok tt
  unfolding check_structure
  shallow_structure h =
      let y = length-hash256 c hashes (leaf ++ b) in
      let (p1, h1) =
        (>>_iff
            (raise_if (ltb max_merkle_branch_depth (length proof.coinbase_merkle_branch))
              auxpow_error)
            _).0
          h in
      let (p3, h3) =
        (>>_iff
            (each (λ (x : Bytes). raise_if (not (length x == 32)) auxpow_error)
              proof.coinbase_merkle_branch)
            _).0
          h1 in
      let (p4, p5) =
        (>>_iff (each (λ (x : Bytes). raise_if (not (length x == 32)) auxpow_error) (b ∷ s ∷ []))
            _).0
          h3 in
      rw (p1, p3, y) p5

  same_commitment :
      (chain_id : ℕ) (root : Bytes) (found : Option Commitment)
      → check_commitment deep chain_id root found ≡ check_commitment shallow chain_id root found
  unfolding check_commitment
  same_commitment chain_id root none = refl
  same_commitment chain_id root (some m) = refl

  -- For a hash of 32 bytes, a proof that is valid for the hash `leaf` in slot 2, with the siblings
  -- `b` and `s` on its branch, gives a proof that is valid for `s`: its branch is the one hash of
  -- `leaf` and `b`, and all else is kept.
  pub validate_auxpow_inner_node :
      (aux_target chain_id : ℕ)
      → validate_auxpow c deep leaf aux_target chain_id ≡ ok tt
      → validate_auxpow c shallow s aux_target chain_id ≡ ok tt
  unfolding validate_auxpow check_parent
  validate_auxpow_inner_node aux_target chain_id h =
      let (p1, h1) = (>>_iff (raise_if (chain_id == 0) auxpow_error) _).0 h in
      let (p2, h2) = (>>_iff (check_structure deep) _).0 h1 in
      let (p3, h3) = (>>_iff (raise_if (not (length leaf == 32)) auxpow_error) _).0 h2 in
      let (root, p4, h4) = >>=-eq-ok (check_merkle_branch c leaf (b ∷ s ∷ []) 2) _ h3 in
      let (found, p5, h5) =
        >>=-eq-ok (parse_auxpow_commitment proof.coinbase_tx.coinbase_data) _ h4 in
      let (size, same) = deep_root root p4 in
      let node = hash256 c (s ++ hash256 c (leaf ++ b)) in
      let h6 =
        ap (λ x. check_commitment deep chain_id x found >> check_parent c deep aux_target)
          (sym same)
        ∙ h5 in
      let h7 =
        ap (λ r. r >> check_parent c deep aux_target) (sym (same_commitment chain_id node found))
        ∙ h6 in
      rw (p1, shallow_structure p2, size, shallow_root size, p5) h7
