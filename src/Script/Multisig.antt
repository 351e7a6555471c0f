-- ===== src/Script/Multisig.antt =====
-- `OP_CHECKMULTISIG`: the greedy matching of signatures to keys finds a matching whenever there is
-- one in order.
use scarlet_coin.Prelude.{
  ℕ, ◌+◌, ◌≡◌, refl, ap, ◌∙◌, sym, true, none, some, List, [], ◌∷◌, arith, length, Bool-cases,
  Option-cases, subst, inl, inr, ◌↔◌,
}
use scarlet_coin.Prelude.Bytes.{Bytes}
use scarlet_coin.Crypto.{Crypto}
use scarlet_coin.Script.{verify_signature, next_key, match_signatures}

module _ (c : Crypto) (digest : Bytes) where
  -- Each signature is valid for a key of its own, and the keys stand in the order of the signatures.
  pub data Matches : List Bytes → List Bytes → Type 0 where
    done : {keys : List Bytes} → Matches [] keys
    use_key :
        {key signature : Bytes} {keys signatures : List Bytes}
        → verify_signature c digest key signature ≡ true
        → Matches signatures keys
        → Matches (signature ∷ signatures) (key ∷ keys)
    skip_key :
        {key : Bytes} {keys signatures : List Bytes}
        → Matches signatures keys
        → Matches signatures (key ∷ keys)

  drop_signature :
      {signature : Bytes} {signatures keys : List Bytes}
      → Matches (signature ∷ signatures) keys
      → Matches signatures keys
  drop_signature (use_key v m) = skip_key m
  drop_signature (skip_key m) = skip_key (drop_signature m)

  -- The first key that verifies leaves at least as many keys as any other choice.
  next_key-Matches :
      {signature : Bytes} {signatures keys : List Bytes}
      → Matches (signature ∷ signatures) keys
      → (rest : List Bytes) × (next_key c digest signature keys ≡ some rest)
        × Matches signatures rest
  unfolding next_key
  next_key-Matches (use_key {keys = keys} v m) = (keys, rw v refl, m)
  next_key-Matches {signature} (skip_key {key = key} {keys = keys} m) =
      elim (Bool-cases (verify_signature c digest key signature)) [
        | inl v ↦ (keys, rw v refl, drop_signature m)
        | inr v ↦ let (rest, e, left) = next_key-Matches m in (rest, rw v e, left)
      ]

  next_key_sound :
      (signature : Bytes) (signatures keys rest : List Bytes)
      → next_key c digest signature keys ≡ some rest
      → Matches signatures rest
      → Matches (signature ∷ signatures) keys
  unfolding next_key
  next_key_sound signature signatures [] rest e m = cc
  next_key_sound signature signatures (key ∷ keys) rest e m =
      elim (Bool-cases (verify_signature c digest key signature)) [
        | inl v ↦ use_key v (subst (λ t. Matches signatures t) (sym (ground arith)) m)
        | inr v ↦ skip_key (next_key_sound signature signatures keys rest (ground arith) m)
      ]

  match_signatures_complete :
      (signatures keys : List Bytes) (n : ℕ)
      → Matches signatures keys
      → match_signatures c digest signatures keys n ≡ some (n + length signatures)
  unfolding match_signatures
  match_signatures_complete [] keys n m = ap some (omega arith)
  match_signatures_complete (s ∷ ss) keys n m =
      let (rest, e, left) = next_key-Matches m in
      rw (e, match_signatures)
        (match_signatures_complete ss rest (n + 1) left ∙ ap some (omega arith))

  match_signatures_sound :
      (signatures keys : List Bytes) (n k : ℕ)
      → match_signatures c digest signatures keys n ≡ some k
      → Matches signatures keys
  unfolding match_signatures
  match_signatures_sound [] keys n k e = done
  match_signatures_sound (s ∷ ss) keys n k e = elim (Option-cases (next_key c digest s keys)) [
    | inl x ↦
        let p : match_signatures c digest (s ∷ ss) keys n ≡ none = rw (x, match_signatures) refl in
        cc
    | inr (rest, x) ↦
        let p : match_signatures c digest (s ∷ ss) keys n
            ≡ match_signatures c digest ss rest (n + 1) =
          rw (x, match_signatures) refl in
        next_key_sound s ss keys rest x (match_signatures_sound ss rest (n + 1) k (sym p ∙ e))
  ]

  -- The loop of `OP_CHECKMULTISIG` counts every signature exactly when each is valid for a key of
  -- its own, in the order of the keys.
  pub match_signatures_iff :
      (signatures keys : List Bytes)
      → (match_signatures c digest signatures keys 0 ≡ some (length signatures))
        ↔ Matches signatures keys
  match_signatures_iff signatures keys = (
    match_signatures_sound signatures keys 0 (length signatures),
    λ m. match_signatures_complete signatures keys 0 m ∙ ap some (omega arith),
  )

  -- It never counts fewer.
  pub match_signatures_all_or_none :
      (signatures keys : List Bytes) (k : ℕ)
      → match_signatures c digest signatures keys 0 ≡ some k
      → k ≡ length signatures
  match_signatures_all_or_none signatures keys k e =
      let whole =
        match_signatures_complete signatures keys 0
          (match_signatures_sound signatures keys 0 k e) in
      ground (arith, whole)
