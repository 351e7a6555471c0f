-- ===== src/Script/Spend.antt =====
-- Spending an m-of-n script: when the evaluation succeeds, and when it never does.
use scarlet_coin.Prelude.{
  ℕ, suc, ◌+◌, ◌≤◌, ◌<◌, ◌≡◌, ◌≢◌, refl, ap, ◌∙◌, sym, ◌↔◌, Bool, true, false, Option, none, some,
  List, [], ◌∷◌, ◌++◌, arith, ltb, leb, ◌==◌, length, length-append, subst, Bool-cases, inl, inr,
  reverse, if◌then◌else◌,
}
use mathlib.Core.List.{reverse-append}
use scarlet_coin.Prelude.Bytes.{Bytes}
use scarlet_coin.Outcome.{Result, ok, err, ◌>>=◌}
use scarlet_coin.Crypto.{Crypto}
use scarlet_coin.Script.{
  Stack, op_checkmultisig, max_stack_items, multisig_redeem, match_signatures, multisig_verdict,
  check_multisig, step, run, is_truthy, catch_script_error, evaluate_script,
}
use scarlet_coin.Script.Redeem.{multisig_ops, decode_ops-multisig_redeem}
use scarlet_coin.Script.Multisig.{Matches, match_signatures_iff}
use scarlet_coin.Script.Pushes.{length-reverse}
use scarlet_coin.Script.Loaded.{loaded, run_fits, run_full, check_loaded, check_short}

module _ (c : Crypto) (digest : Bytes) where
  -- The last round of the loop, by what the operation returns.
  abbrev verdict_of : Result (Option Stack) → Result Bool
  verdict_of (err e) = err e
  verdict_of (ok none) = ok false
  verdict_of (ok (some stack)) =
      if ltb max_stack_items (length stack) then ok false else ok (is_truthy stack)

  step_checkmultisig :
      (stack : Stack) → step c digest op_checkmultisig [] stack ≡ check_multisig c digest stack
  unfolding step
  step_checkmultisig stack = refl

  run_last :
      (index : ℕ) (stack : Stack)
      → index ≤ 200
      → run c digest index ((op_checkmultisig, []) ∷ []) stack
        ≡ verdict_of (check_multisig c digest stack)
  unfolding run
  run_last index stack h =
      let a : ltb 200 index ≡ false = ground arith in
      rw (a, step_checkmultisig stack) (same (check_multisig c digest stack))
    where
      same : (r : Result (Option Stack)) → (r >>= λ after. verdict_of (ok after)) ≡ verdict_of r
      same (ok none) = refl
      same (ok (some s)) = refl
      same (err e) = refl

  module _ (keys : List Bytes) (m : ℕ) (script : Bytes) (made : multisig_redeem keys m ≡ ok script)
      (least : 1 ≤ m) (fits : m ≤ length keys) (most : length keys ≤ 15) where
    evaluate_lem :
        (arguments : List Bytes)
        → evaluate_script c digest script arguments
          ≡ catch_script_error (run c digest 1 (multisig_ops keys m) (reverse arguments))
    unfolding evaluate_script
    evaluate_lem arguments = rw ((decode_ops-multisig_redeem keys m script made).0) refl

    -- With room on the stack the result is that of `OP_CHECKMULTISIG` on the loaded stack.
    evaluate_room :
        (arguments : List Bytes)
        → length arguments + length keys + 2 ≤ max_stack_items
        → evaluate_script c digest script arguments
          ≡ catch_script_error (
              verdict_of (
                check_multisig c digest
                  (loaded c digest keys m least fits most (reverse arguments))))
    evaluate_room arguments room =
        evaluate_lem arguments
        ∙ ap catch_script_error (
            run_fits c digest keys m least fits most (reverse arguments)
              (omega (arith, length-reverse arguments))
            ∙ run_last _ _ (omega arith))

    evaluate_full :
        (arguments : List Bytes)
        → max_stack_items < length arguments + length keys + 2
        → evaluate_script c digest script arguments ≡ ok false
    evaluate_full arguments full =
        evaluate_lem arguments
        ∙ ap catch_script_error (
            run_full c digest keys m least fits most (reverse arguments)
              (omega (arith, length-reverse arguments)))

    verdict_iff :
        (r : Option ℕ) (extra : List Bytes)
        → length extra ≤ 18
        → (catch_script_error (verdict_of (ok (multisig_verdict c digest r m extra))) ≡ ok true)
          ↔ (r ≡ some m)
    unfolding multisig_verdict
    verdict_iff none extra h = (λ e. cc, λ e. cc)
    verdict_iff (some k) extra h = elim (Bool-cases (k == m)) [
      | inl e ↦
          let full : ltb 20 (suc (length extra)) ≡ false = ground arith in
          (λ x. ap some (ground arith), λ x. rw (e, full) refl)
      | inr e ↦
          let p : k ≢ m = ground arith in
          let no : catch_script_error (verdict_of (ok (multisig_verdict c digest (some k) m extra)))
              ≡ ok false =
            rw e refl in
          (λ x. cc, λ x. ground arith)
    ]

    matched_iff :
        (signatures : List Bytes)
        → length signatures ≡ m
        → (match_signatures c digest signatures keys 0 ≡ some m) ↔ Matches c digest signatures keys
    matched_iff signatures count =
        subst
          (λ n.
            (match_signatures c digest signatures keys 0 ≡ some n)
            ↔ Matches c digest signatures keys)
          count (match_signatures_iff c digest signatures keys)

    evaluate_iff :
        (extra signatures : List Bytes)
        → length signatures ≡ m
        → (evaluate_script c digest script (extra ++ signatures) ≡ ok true) ↔ (
            (length extra + m + length keys + 2 ≤ max_stack_items)
            × Matches c digest signatures keys)
    evaluate_iff extra signatures count =
        let size = length-append extra signatures in
        elim (Bool-cases (leb (length extra + m + length keys + 2) 20)) [
          | inr b ↦
              let no = evaluate_full (extra ++ signatures) (ground arith) in
              (λ e. cc, λ (h, _). ground arith)
          | inl b ↦
              let room : length extra + m + length keys + 2 ≤ 20 = ground arith in
              let e1 = evaluate_room (extra ++ signatures) (omega (arith, size, count)) in
              let e2 =
                check_loaded c digest keys m least fits most (reverse extra) signatures count in
              let e3 : evaluate_script c digest script (extra ++ signatures)
                  ≡ catch_script_error (
                      verdict_of (
                        ok (
                          multisig_verdict c digest (match_signatures c digest signatures keys 0) m
                            (reverse extra)))) =
                e1 ∙ rw (reverse-append extra signatures, e2) refl in
              let v =
                verdict_iff (match_signatures c digest signatures keys 0) (reverse extra)
                  (omega (arith, length-reverse extra)) in
              let w = matched_iff signatures count in
              (λ h. (room, w.0 (v.0 (sym e3 ∙ h))), λ (_, h). e3 ∙ v.1 (w.1 h))
        ]

    evaluate_short :
        (arguments : List Bytes)
        → length arguments < m
        → evaluate_script c digest script arguments ≡ ok false
    evaluate_short arguments short =
        elim (Bool-cases (leb (length arguments + length keys + 2) 20)) [
          | inr b ↦ evaluate_full arguments (ground arith)
          | inl b ↦
              evaluate_room arguments (ground arith)
              ∙ rw
                  (check_short c digest keys m least fits most (reverse arguments)
                    (omega (arith, length-reverse arguments)))
                  refl
        ]

  -- For a script that `multisig_redeem` makes of `keys` with the threshold `m`, and any arguments
  -- that end in `m` signatures, the evaluation succeeds exactly when these are signatures that
  -- match distinct keys in the order of the keys, and all arguments, the keys and the two counts
  -- fit on the stack.
  pub evaluate_script-multisig_redeem :
      (keys : List Bytes) (m : ℕ) (script : Bytes) (extra signatures : List Bytes)
      → multisig_redeem keys m ≡ ok script
      → length signatures ≡ m
      → (evaluate_script c digest script (extra ++ signatures) ≡ ok true) ↔ (
          (length extra + m + length keys + 2 ≤ max_stack_items) × Matches c digest signatures keys)
  evaluate_script-multisig_redeem keys m script extra signatures made count =
      let (_, least, fits, most) = decode_ops-multisig_redeem keys m script made in
      evaluate_iff keys m script made least fits most extra signatures count

  -- A script that `multisig_redeem` makes with the threshold `m` of more than `18 - m` keys is
  -- never satisfied: whatever the arguments are, the evaluation returns `False`.
  pub unspendable_multisig :
      (keys : List Bytes) (m : ℕ) (script : Bytes) (arguments : List Bytes)
      → multisig_redeem keys m ≡ ok script
      → 18 < m + length keys
      → evaluate_script c digest script arguments ≡ ok false
  unspendable_multisig keys m script arguments made large =
      let (_, least, fits, most) = decode_ops-multisig_redeem keys m script made in
      elim (Bool-cases (ltb (length arguments) m)) [
        | inl b ↦ evaluate_short keys m script made least fits most arguments (ground arith)
        | inr b ↦ evaluate_full keys m script made least fits most arguments (ground arith)
      ]
