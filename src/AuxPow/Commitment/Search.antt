-- ===== src/AuxPow/Commitment/Search.antt =====
-- The commitment that was built is the one found.
use scarlet_coin.Prelude.{
  ℕ, zero, suc, ◌≤◌, ◌<◌, ◌≡◌, refl, ap, true, false, some, [], ◌∷◌, ◌++◌, ltb, length, take, drop,
  arith, length-append, append_assoc, length-drop, take-append_self, drop-append_self, subst,
  Bool-cases, inl, inr,
}
use scarlet_coin.Prelude.Bytes.{Bytes, bytes_eq, to_le, from_le, length-to_le, from_le-to_le}
use scarlet_coin.Outcome.{ok}
use scarlet_coin.AuxPow.Commitment.{
  merged_mining_header, commitment, build_auxpow_commitment, commitment_at, scan,
  parse_auxpow_commitment,
}

commitment_at_short : (rest : Bytes) → length rest < 40 → commitment_at rest ≡ []
unfolding commitment_at
commitment_at_short rest h = let short : ltb (length rest) 40 ≡ true = ground arith in rw short refl

-- A stretch too short for a marker and a commitment holds none.
scan_short : (skip : ℕ) (bs : Bytes) → length bs ≤ 43 → scan skip bs ≡ []
unfolding scan
scan_short skip [] h = refl
scan_short (suc skip) (b ∷ bs) h = scan_short skip bs (omega arith)
scan_short zero (b ∷ bs) h =
    let here = commitment_at_short (drop 3 bs) (omega (arith, length-drop 3 bs)) in
    let found = scan_short 3 bs (omega arith) in
    let missed = scan_short zero bs (omega arith) in
    elim (Bool-cases (bytes_eq (take 4 (b ∷ bs)) merged_mining_header)) [
      | inl e ↦ rw (e, here, found) refl
      | inr e ↦ rw (e, missed) refl
    ]

built :
    (aux_root : Bytes) (tree_size nonce : ℕ) (bytes : Bytes)
    → build_auxpow_commitment aux_root tree_size nonce ≡ ok bytes
    → (length aux_root ≡ 32)
      × (1 ≤ tree_size)
      × (tree_size ≤ 0xFFFFFFFF)
      × (nonce ≤ 0xFFFFFFFF)
      × (bytes ≡ merged_mining_header ++ (aux_root ++ (to_le 4 tree_size ++ to_le 4 nonce)))
unfolding build_auxpow_commitment
built aux_root tree_size nonce bytes h =
    let a : length aux_root ≡ 32 = ground arith in
    let b : 1 ≤ tree_size = ground arith in
    let d : tree_size ≤ 0xFFFFFFFF = ground arith in
    let e : nonce ≤ 0xFFFFFFFF = ground arith in (a, b, d, e, ground arith)

-- The 40 bytes after the marker are read back as the commitment.
commitment_at-built :
    (aux_root : Bytes) (tree_size nonce : ℕ)
    → length aux_root ≡ 32
    → 1 ≤ tree_size
    → tree_size ≤ 0xFFFFFFFF
    → nonce ≤ 0xFFFFFFFF
    → commitment_at (aux_root ++ (to_le 4 tree_size ++ to_le 4 nonce))
      ≡ record { aux_root = aux_root; tree_size = tree_size; nonce = nonce } ∷ []
unfolding commitment_at commitment to_le
commitment_at-built aux_root tree_size nonce size low high small =
    let t = to_le 4 tree_size in
    let n = to_le 4 nonce in
    let all : ltb (length (aux_root ++ (t ++ n))) 40 ≡ false = ground (
      arith,
      length-append aux_root (t ++ n),
      length-append t n,
      length-to_le 4 tree_size,
      length-to_le 4 nonce,
    ) in
    let x : take 32 (aux_root ++ (t ++ n)) ≡ aux_root =
      subst (λ k. take k (aux_root ++ (t ++ n)) ≡ aux_root) size
        (take-append_self aux_root (t ++ n)) in
    let y : drop 32 (aux_root ++ (t ++ n)) ≡ t ++ n =
      subst (λ k. drop k (aux_root ++ (t ++ n)) ≡ t ++ n) size
        (drop-append_self aux_root (t ++ n)) in
    let thirty_six : length (aux_root ++ t) ≡ 36 =
      omega (arith, length-append aux_root t, size, length-to_le 4 tree_size) in
    let z : drop 36 (aux_root ++ (t ++ n)) ≡ n =
      subst (λ k. drop k (aux_root ++ (t ++ n)) ≡ n) thirty_six
        (subst (λ bs. drop (length (aux_root ++ t)) bs ≡ n) (append_assoc aux_root t n)
          (drop-append_self (aux_root ++ t) n)) in
    let v : from_le (take 4 (t ++ n)) ≡ tree_size = from_le-to_le 4 tree_size (omega arith) in
    let y4 : take 4 (drop 32 (aux_root ++ (t ++ n))) ≡ t = ap (λ bs. take 4 bs) y in
    let z4 : take 4 (drop 36 (aux_root ++ (t ++ n))) ≡ n = ap (λ bs. take 4 bs) z in
    let w : from_le (take 4 n) ≡ nonce = from_le-to_le 4 nonce (omega arith) in
    let good : commitment aux_root tree_size nonce
        ≡ ok (record { aux_root = aux_root; tree_size = tree_size; nonce = nonce }) =
      ground arith in
    rw (all, x, y4, z4, v, w, good) refl

-- If a commitment can be built of a root, a tree size and a nonce, the search in its bytes finds
-- exactly these, also where the root contains the marker again.
pub parse-build_auxpow_commitment :
    (aux_root : Bytes) (tree_size nonce : ℕ) (bytes : Bytes)
    → build_auxpow_commitment aux_root tree_size nonce ≡ ok bytes
    → parse_auxpow_commitment bytes
      ≡ ok (some (record { aux_root = aux_root; tree_size = tree_size; nonce = nonce }))
unfolding parse_auxpow_commitment scan bytes_eq
parse-build_auxpow_commitment aux_root tree_size nonce bytes h =
    let (size, low, high, small, e) = built aux_root tree_size nonce bytes h in
    let t = to_le 4 tree_size in
    let n = to_le 4 nonce in
    let rest = scan_short 0 (aux_root ++ (t ++ n)) (
      omega (
        arith,
        length-append aux_root (t ++ n),
        length-append t n,
        length-to_le 4 tree_size,
        length-to_le 4 nonce,
      )) in
    rw (e, commitment_at-built aux_root tree_size nonce size low high small, rest) refl
