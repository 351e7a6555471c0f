-- ===== src/Script/Loaded.antt =====
-- An m-of-n script runs to its `OP_CHECKMULTISIG` and what that finds on the stack.
use scarlet_coin.Prelude.{
  ℕ, suc, ◌+◌, ◌-◌, ◌≤◌, ◌<◌, ◌≡◌, refl, ◌∙◌, false, some, List, [], ◌∷◌, ◌++◌, arith, ltb, leb,
  length, length-append, subst, Bool-cases, inl, inr, reverse,
}
use mathlib.Core.List.{reverse-reverse}
use scarlet_coin.Prelude.Bytes.{Bytes}
use scarlet_coin.Outcome.{ok, err, script_error}
use scarlet_coin.Crypto.{Crypto}
use scarlet_coin.Script.{
  Stack, op_1, op_checkmultisig, max_stack_items, pop, pop_many, small_int, match_signatures,
  multisig_verdict, with_threshold, with_key_count, check_multisig, run,
}
use scarlet_coin.Script.Redeem.{multisig_ops}
use scarlet_coin.Script.Pushes.{
  run_round, run_round_full, run_pushes, run_overflow, step_small, pop_many-append, pop_many_short,
  pushed, pushed-reverse, length-reverse,
}

length-pushed :
    (keys : List Bytes) (stack : Stack) → length (pushed keys stack) ≡ length keys + length stack
length-pushed keys stack =
    rw (pushed-reverse keys stack, length-append (reverse keys) stack, length-reverse keys) refl

module _ (c : Crypto) (digest : Bytes) (keys : List Bytes) (m : ℕ) (least : 1 ≤ m)
    (fits : m ≤ length keys) (most : length keys ≤ 15) where
  -- The stack when `OP_CHECKMULTISIG` is reached.
  abbrev pub loaded : Stack → Stack
  loaded stack = (length keys ∷ []) ∷ pushed keys ((m ∷ []) ∷ stack)

  pub run_fits :
      (stack : Stack)
      → length stack + length keys + 2 ≤ max_stack_items
      → run c digest 1 (multisig_ops keys m) stack
        ≡ run c digest (1 + 1 + length keys + 1) ((op_checkmultisig, []) ∷ []) (loaded stack)
  run_fits stack room =
      run_round c digest 1 (op_1 - 1 + m) [] _ stack _ (omega arith)
        (step_small c digest m stack least (omega arith)) (omega arith)
      ∙ run_pushes c digest keys (1 + 1) _ ((m ∷ []) ∷ stack) (omega arith) (omega arith)
      ∙ run_round c digest (1 + 1 + length keys) (op_1 - 1 + length keys) [] _ _ _ (omega arith)
          (step_small c digest (length keys) _ (omega arith) most)
          (omega (arith, length-pushed keys ((m ∷ []) ∷ stack)))

  pub run_full :
      (stack : Stack)
      → max_stack_items < length stack + length keys + 2
      → run c digest 1 (multisig_ops keys m) stack ≡ ok false
  run_full stack full = elim (Bool-cases (leb (suc (length stack)) 20)) [
    | inr a ↦
        run_round_full c digest 1 (op_1 - 1 + m) [] _ stack _ (omega arith)
          (step_small c digest m stack least (omega arith)) (ground arith)
    | inl a ↦
        let one : suc (length stack) ≤ 20 = ground arith in
        run_round c digest 1 (op_1 - 1 + m) [] _ stack _ (omega arith)
          (step_small c digest m stack least (omega arith)) one
        ∙ elim (Bool-cases (leb (length keys + suc (length stack)) 20)) [
          | inr b ↦
              run_overflow c digest keys (1 + 1) _ ((m ∷ []) ∷ stack) (omega arith) one
                (ground arith)
          | inl b ↦
              run_pushes c digest keys (1 + 1) _ ((m ∷ []) ∷ stack) (omega arith) (ground arith)
              ∙ run_round_full c digest (1 + 1 + length keys) (op_1 - 1 + length keys) [] _ _ _
                  (omega arith) (step_small c digest (length keys) _ (omega arith) most)
                  (omega (arith, length-pushed keys ((m ∷ []) ∷ stack)))
        ]
  ]

  small_int_lem : (n : ℕ) → 1 ≤ n → n ≤ 15 → small_int (n ∷ []) ≡ some n
  unfolding small_int
  small_int_lem n low high = ground arith

  pop_keys : (stack : Stack) → pop_many (length keys) (pushed keys stack) ≡ ok (reverse keys, stack)
  pop_keys stack = rw (pushed-reverse keys stack) (
      subst (λ n. pop_many n (reverse keys ++ stack) ≡ ok (reverse keys, stack))
        (length-reverse keys) (pop_many-append (reverse keys) stack))

  -- With enough arguments the top `m` are matched against the keys.
  pub check_loaded :
      (extra signatures : List Bytes)
      → length signatures ≡ m
      → check_multisig c digest (loaded (reverse signatures ++ extra))
        ≡ ok (multisig_verdict c digest (match_signatures c digest signatures keys 0) m extra)
  unfolding check_multisig with_key_count with_threshold pop
  check_loaded extra signatures count =
      let stack : Stack = reverse signatures ++ extra in
      let a = small_int_lem (length keys) (omega arith) most in
      let b : ltb 15 (length keys) ≡ false = ground arith in
      let d = pop_keys ((m ∷ []) ∷ stack) in
      let e = small_int_lem m least (omega arith) in
      let f : ltb (length keys) m ≡ false = ground arith in
      let g : pop_many m stack ≡ ok (reverse signatures, extra) =
        subst (λ n. pop_many n stack ≡ ok (reverse signatures, extra))
          (length-reverse signatures ∙ count) (pop_many-append (reverse signatures) extra) in
      rw (a, b, d, e, f, g, reverse-reverse signatures, reverse-reverse keys) refl

  pub check_short :
      (stack : Stack) → length stack < m → check_multisig c digest (loaded stack) ≡ err script_error
  unfolding check_multisig with_key_count with_threshold pop
  check_short stack short =
      let a = small_int_lem (length keys) (omega arith) most in
      let b : ltb 15 (length keys) ≡ false = ground arith in
      let d = pop_keys ((m ∷ []) ∷ stack) in
      let e = small_int_lem m least (omega arith) in
      let f : ltb (length keys) m ≡ false = ground arith in
      rw (a, b, d, e, f, pop_many_short m stack short) refl
