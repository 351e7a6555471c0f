-- ===== src/Script/Pushes.antt =====
-- The evaluation loop on pushes: how far it goes before the stack limit stops it.
use scarlet_coin.Prelude.{
  ℕ, zero, suc, ◌+◌, ◌-◌, ◌≤◌, ◌<◌, ◌≡◌, refl, ◌∙◌, sym, true, false, some, List, [], ◌∷◌, ◌++◌,
  arith, ltb, length, length-append, append_assoc, Bool-cases, inl, inr, reverse,
}
use mathlib.Core.List.{reverse-append}
use scarlet_coin.Prelude.Bytes.{Bytes}
use scarlet_coin.Outcome.{ok, err, script_error}
use scarlet_coin.Crypto.{Crypto}
use scarlet_coin.Script.{Op, Stack, op_1, max_stack_items, pop_many, step, run}
use scarlet_coin.Script.Redeem.{key_pushes}

pub pop_many-append :
    (xs : List Bytes) (rest : Stack) → pop_many (length xs) (xs ++ rest) ≡ ok (xs, rest)
unfolding pop_many
pop_many-append [] rest = refl
pop_many-append (x ∷ xs) rest = rw (pop_many-append xs rest)

pub pop_many_short : (n : ℕ) (xs : Stack) → length xs < n → pop_many n xs ≡ err script_error
unfolding pop_many
pop_many_short zero xs h = elim h [ ]
pop_many_short (suc n) [] h = refl
pop_many_short (suc n) (x ∷ xs) h = rw (pop_many_short n xs (omega arith))

-- The stack after the keys have been pushed one by one.
abbrev pub pushed : List Bytes → Stack → Stack
pushed [] stack = stack
pushed (key ∷ keys) stack = pushed keys (key ∷ stack)

pub pushed-reverse : (keys : List Bytes) (stack : Stack) → pushed keys stack ≡ reverse keys ++ stack
pushed-reverse [] stack = refl
pushed-reverse (key ∷ keys) stack =
    pushed-reverse keys (key ∷ stack)
    ∙ sym (rw (reverse-append (key ∷ []) keys) (append_assoc (reverse keys) (key ∷ []) stack))

pub length-reverse : (xs : List Bytes) → length (reverse xs) ≡ length xs
length-reverse [] = refl
length-reverse (x ∷ xs) =
    rw (reverse-append (x ∷ []) xs)
      (omega (arith, length-append (reverse xs) (x ∷ []), length-reverse xs))

module _ (c : Crypto) (digest : Bytes) where
  -- One round of the loop, when the new stack fits and when it does not.
  pub run_round :
      (index op : ℕ) (bytes : Bytes) (ops : List Op) (stack stack' : Stack)
      → index ≤ 200
      → step c digest op bytes stack ≡ ok (some stack')
      → length stack' ≤ max_stack_items
      → run c digest index ((op, bytes) ∷ ops) stack ≡ run c digest (index + 1) ops stack'
  unfolding run
  run_round index op bytes ops stack stack' hi e hs =
      let a : ltb 200 index ≡ false = ground arith in
      let b : ltb 20 (length stack') ≡ false = ground arith in rw (a, e, b) refl

  pub run_round_full :
      (index op : ℕ) (bytes : Bytes) (ops : List Op) (stack stack' : Stack)
      → index ≤ 200
      → step c digest op bytes stack ≡ ok (some stack')
      → max_stack_items < length stack'
      → run c digest index ((op, bytes) ∷ ops) stack ≡ ok false
  unfolding run
  run_round_full index op bytes ops stack stack' hi e hs =
      let a : ltb 200 index ≡ false = ground arith in
      let b : ltb 20 (length stack') ≡ true = ground arith in rw (a, e, b) refl

  step_key : (key : Bytes) (stack : Stack) → step c digest 33 key stack ≡ ok (some (key ∷ stack))
  unfolding step
  step_key key stack = refl

  -- The pushes fit: the loop goes on with every key on the stack.
  pub run_pushes :
      (keys : List Bytes) (index : ℕ) (ops : List Op) (stack : Stack)
      → index + length keys ≤ 200
      → length keys + length stack ≤ max_stack_items
      → run c digest index (key_pushes keys ++ ops) stack
        ≡ run c digest (index + length keys) ops (pushed keys stack)
  run_pushes [] index ops stack hi hs = let e : index + 0 ≡ index = omega arith in rw e
  run_pushes (key ∷ keys) index ops stack hi hs =
      let e : index + 1 + length keys ≡ index + suc (length keys) = omega arith in
      run_round index 33 key _ stack (key ∷ stack) (omega arith) (step_key key stack) (omega arith)
      ∙ run_pushes keys (index + 1) ops (key ∷ stack) (omega arith) (omega arith)
      ∙ rw e

  pub run_overflow :
      (keys : List Bytes) (index : ℕ) (ops : List Op) (stack : Stack)
      → index + length keys ≤ 200
      → length stack ≤ max_stack_items
      → max_stack_items < length keys + length stack
      → run c digest index (key_pushes keys ++ ops) stack ≡ ok false
  run_overflow [] index ops stack hi hl hs = absurd (omega arith)
  run_overflow (key ∷ keys) index ops stack hi hl hs = elim (Bool-cases (ltb (length stack) 20)) [
    | inl room ↦
        let fits : suc (length stack) ≤ 20 = ground arith in
        run_round index 33 key _ stack (key ∷ stack) (omega arith) (step_key key stack) fits
        ∙ run_overflow keys (index + 1) ops (key ∷ stack) (omega arith) fits (omega arith)
    | inr room ↦
        run_round_full index 33 key _ stack (key ∷ stack) (omega arith) (step_key key stack)
          (ground arith)
  ]

  pub step_small :
      (n : ℕ) (stack : Stack)
      → 1 ≤ n
      → n ≤ 15
      → step c digest (op_1 - 1 + n) [] stack ≡ ok (some ((n ∷ []) ∷ stack))
  unfolding step
  step_small n stack low high = ground arith
