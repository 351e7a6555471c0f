-- ===== src/Script/Escape.antt =====
-- The one exception that leaves `evaluate_script`: `OP_DUP` on an empty stack raises an `IndexError`,
-- which is no `ScriptError`.
use scarlet_coin.Prelude.{
  ℕ, zero, suc, ◌+◌, ◌≤◌, ◌≡◌, refl, ap, ◌⊎◌, inl, inr, ◌↔◌, Bool, true, false, Option, none, some,
  List, [], ◌∷◌, ◌++◌, arith, ltb, leb, ◌||◌, ◌&&◌, ◌==◌, if◌then◌else◌, length, reverse,
  Bool-cases,
}
use scarlet_coin.Prelude.Bytes.{Bytes}
use scarlet_coin.Outcome.{Result, ok, err, ◌>>=◌, script_error, index_error}
use scarlet_coin.Crypto.{Crypto}
use scarlet_coin.Script.{
  Op, Stack, op_dup, op_1, op_16, op_pushbytes_max, op_pushdata1, op_pushdata2, op_equal,
  op_equalverify, op_hash160, op_checksig, op_checkmultisig, max_script_ops, max_stack_items,
  max_pubkeys, pop, pop_many, small_int, dup, with_threshold, with_key_count, check_multisig, step,
  run, decode_ops, evaluate_script,
}
use scarlet_coin.Script.Extent.{decode_ops-Ends}

-- A result, or the `ScriptError` that `evaluate_script` catches.
abbrev IsCaught : {A : Type 0} → Result A → Type 0
IsCaught {A} r = ((a : A) × (r ≡ ok a)) ⊎ (r ≡ err script_error)

IsCaught-bind :
    {A B : Type 0} (m : Result A) (k : A → Result B)
    → IsCaught m
    → ((a : A) → IsCaught (k a))
    → IsCaught (m >>= k)
IsCaught-bind m k (inl (a, e)) h = rw e (h a)
IsCaught-bind m k (inr e) h = rw e (inr refl)

if_cases :
    {A : Type 0} (P : A → Type 0) (b : Bool) (x y : A)
    → (b ≡ true → P x)
    → (b ≡ false → P y)
    → P (if b then x else y)
if_cases P true x y f g = f refl
if_cases P false x y f g = g refl

IsCaught-pop : (stack : Stack) → IsCaught (pop stack)
unfolding pop
IsCaught-pop [] = inr refl
IsCaught-pop (item ∷ stack) = inl ((item, stack), refl)

IsCaught-pop_many : (n : ℕ) (stack : Stack) → IsCaught (pop_many n stack)
unfolding pop_many
IsCaught-pop_many zero stack = inl (([], stack), refl)
IsCaught-pop_many (suc n) stack = IsCaught-bind (pop stack) _ (IsCaught-pop stack) (λ (item, s1).
    IsCaught-bind (pop_many n s1) _ (IsCaught-pop_many n s1)
      (λ (items, s2). inl ((item ∷ items, s2), refl)))

-- One operation is caught, or it is `OP_DUP` on an empty stack.
data StepOutcome (opcode : ℕ) (stack : Stack) (r : Result (Option Stack)) : Type 0 where
  caught : IsCaught r → StepOutcome opcode stack r
  escapes : r ≡ err index_error → opcode ≡ op_dup → stack ≡ [] → StepOutcome opcode stack r

module _ (c : Crypto) (digest : Bytes) where
  IsCaught-with_threshold :
      (pubkeys : List Bytes) (key_count : ℕ) (threshold : Option ℕ) (stack : Stack)
      → IsCaught (with_threshold c digest pubkeys key_count threshold stack)
  unfolding with_threshold
  IsCaught-with_threshold pubkeys key_count none stack = inl (none, refl)
  IsCaught-with_threshold pubkeys key_count (some threshold) stack =
      if_cases IsCaught (ltb key_count threshold) _ _ (λ _. inl (none, refl))
        (λ _.
          IsCaught-bind (pop_many threshold stack) _ (IsCaught-pop_many threshold stack)
            (λ p. inl (_, refl)))

  IsCaught-with_key_count :
      (key_count : Option ℕ) (stack : Stack) → IsCaught (with_key_count c digest key_count stack)
  unfolding with_key_count
  IsCaught-with_key_count none stack = inl (none, refl)
  IsCaught-with_key_count (some key_count) stack =
      if_cases IsCaught (ltb max_pubkeys key_count) _ _ (λ _. inl (none, refl))
        (λ _.
          IsCaught-bind (pop_many key_count stack) _ (IsCaught-pop_many key_count stack)
            (λ (pubkeys, s2).
              IsCaught-bind (pop s2) _ (IsCaught-pop s2)
                (λ (item, s3). IsCaught-with_threshold pubkeys key_count (small_int item) s3)))

  IsCaught-check_multisig : (stack : Stack) → IsCaught (check_multisig c digest stack)
  unfolding check_multisig
  IsCaught-check_multisig stack =
      IsCaught-bind (pop stack) _ (IsCaught-pop stack)
        (λ (item, s1). IsCaught-with_key_count (small_int item) s1)

  dup-StepOutcome :
      (opcode : ℕ) (stack : Stack) → opcode ≡ op_dup → StepOutcome opcode stack (dup stack)
  unfolding dup
  dup-StepOutcome opcode [] e = StepOutcome.escapes refl e refl
  dup-StepOutcome opcode (item ∷ stack) e = StepOutcome.caught (inl (_, refl))

  IsCaught-compare :
      (stack : Stack) (after : Bytes → Bytes → Stack → Option Stack)
      → IsCaught (pop stack >>= λ (a, s1). pop s1 >>= λ (b, s2). ok (after a b s2))
  IsCaught-compare stack after =
      IsCaught-bind (pop stack) _ (IsCaught-pop stack) (λ (a, s1).
        IsCaught-bind (pop s1) _ (IsCaught-pop s1) (λ (b, s2). inl (after a b s2, refl)))

  step-StepOutcome :
      (opcode : ℕ) (bytes : Bytes) (stack : Stack)
      → StepOutcome opcode stack (step c digest opcode bytes stack)
  unfolding step
  step-StepOutcome opcode bytes stack =
      elim (Bool-cases
        (leb opcode op_pushbytes_max || opcode == op_pushdata1 || opcode == op_pushdata2)) [
          | inl t1 ↦ rw t1 (StepOutcome.caught (inl (_, refl)))
          | inr t1 ↦ elim (Bool-cases (leb op_1 opcode && leb opcode op_16)) [
            | inl t2 ↦ rw (t1, t2) (StepOutcome.caught (inl (_, refl)))
            | inr t2 ↦ elim (Bool-cases (opcode == op_dup)) [
              | inl t3 ↦ rw (t1, t2, t3) (dup-StepOutcome opcode stack (ground (arith, t3)))
              | inr t3 ↦ elim (Bool-cases (opcode == op_equal)) [
                | inl t4 ↦ rw (t1, t2, t3, t4) (StepOutcome.caught (IsCaught-compare stack _))
                | inr t4 ↦ elim (Bool-cases (opcode == op_equalverify)) [
                  | inl t5 ↦ rw (t1, t2, t3, t4, t5) (StepOutcome.caught (IsCaught-compare stack _))
                  | inr t5 ↦ elim (Bool-cases (opcode == op_hash160)) [
                    | inl t6 ↦
                        rw (t1, t2, t3, t4, t5, t6)
                          (StepOutcome.caught
                            (IsCaught-bind (pop stack) _ (IsCaught-pop stack) (λ p. inl (_, refl))))
                    | inr t6 ↦ elim (Bool-cases (opcode == op_checksig)) [
                      | inl t7 ↦
                          rw (t1, t2, t3, t4, t5, t6, t7)
                            (StepOutcome.caught (IsCaught-compare stack _))
                      | inr t7 ↦ elim (Bool-cases (opcode == op_checkmultisig)) [
                        | inl t8 ↦
                            rw (t1, t2, t3, t4, t5, t6, t7, t8)
                              (StepOutcome.caught (IsCaught-check_multisig stack))
                        | inr t8 ↦
                            rw (t1, t2, t3, t4, t5, t6, t7, t8)
                              (StepOutcome.caught (inl (none, refl)))
                      ]
                    ]
                  ]
                ]
              ]
            ]
          ]
        ]

  -- The operations take the loop from the first stack to the second.
  abbrev pub Leads : List Op → Stack → Stack → Type 0
  Leads [] before after = before ≡ after
  Leads ((opcode, bytes) ∷ ops) before after =
      (next : Stack) × (step c digest opcode bytes before ≡ ok (some next))
      × (length next ≤ max_stack_items)
      × Leads ops next after

  -- Some operations, the first with number `index`, lead to an empty stack, and the next one is an
  -- `OP_DUP` whose number is within the limit.
  abbrev pub ReachesDup : ℕ → List Op → Stack → Type 0
  ReachesDup index ops stack =
      (before : List Op) × (bytes : Bytes) × (after : List Op) × (ops
        ≡ before ++ ((op_dup, bytes) ∷ after))
      × Leads before stack []
      × (index + length before ≤ max_script_ops)

  abbrev RunOutcome : ℕ → List Op → Stack → Result Bool → Type 0
  RunOutcome index ops stack r = IsCaught r ⊎ ((r ≡ err index_error) × ReachesDup index ops stack)

  run-RunOutcome_next :
      (index opcode : ℕ) (bytes : Bytes) (ops : List Op) (stack next : Stack) {r : Result Bool}
      → step c digest opcode bytes stack ≡ ok (some next)
      → length next ≤ max_stack_items
      → RunOutcome (index + 1) ops next r
      → RunOutcome index ((opcode, bytes) ∷ ops) stack r
  run-RunOutcome_next index opcode bytes ops stack next e fits (inl h) = inl h
  run-RunOutcome_next index opcode bytes ops stack next e fits
        (inr (h, (before, pushed, after, whole, leads, early))) =
      inr (
        h,
        (
          (opcode, bytes) ∷ before,
          pushed,
          after,
          ap (λ l. (opcode, bytes) ∷ l) whole,
          (next, e, fits, leads),
          omega (arith, early),
        ),
      )

  run-RunOutcome :
      (index : ℕ) (ops : List Op) (stack : Stack)
      → RunOutcome index ops stack (run c digest index ops stack)
  unfolding run
  run-RunOutcome index [] stack = inl (inl (_, refl))
  run-RunOutcome index ((opcode, bytes) ∷ ops) stack =
      elim (Bool-cases (ltb max_script_ops index)) [
        | inl late ↦ rw late (inl (inl (false, refl)))
        | inr early ↦ rw early (elim (step-StepOutcome opcode bytes stack) [
          | StepOutcome.caught (inl (none, e)) ↦ rw e (inl (inl (false, refl)))
          | StepOutcome.caught (inl (some next, e)) ↦
              elim (Bool-cases (ltb max_stack_items (length next))) [
                | inl full ↦ rw (e, full) (inl (inl (false, refl)))
                | inr fits ↦
                    rw (e, fits)
                      (run-RunOutcome_next index opcode bytes ops stack next e
                        (ground (arith, fits)) (run-RunOutcome (index + 1) ops next))
              ]
          | StepOutcome.caught (inr e) ↦ rw e (inl (inr refl))
          | StepOutcome.escapes e which empty ↦
              rw e (inr (refl, ([], bytes, ops, rw which refl, empty, ground (arith, early))))
        ])
      ]

  step-dup : (bytes : Bytes) → step c digest op_dup bytes [] ≡ err index_error
  unfolding step dup
  step-dup bytes = refl

  run-ReachesDup :
      (index : ℕ) (before after : List Op) (bytes : Bytes) (stack : Stack)
      → Leads before stack []
      → index + length before ≤ max_script_ops
      → run c digest index (before ++ ((op_dup, bytes) ∷ after)) stack ≡ err index_error
  unfolding run
  run-ReachesDup index [] after bytes stack empty early =
      let soon : ltb max_script_ops index ≡ false = ground (arith, early) in
      rw (empty, soon, step-dup bytes) refl
  run-ReachesDup index ((opcode, pushed) ∷ before) after bytes stack (next, e, fits, more) early =
      let soon : ltb max_script_ops index ≡ false = ground (arith, early) in
      let small : ltb max_stack_items (length next) ≡ false = ground (arith, fits) in
      rw (soon, e, small)
        (run-ReachesDup (index + 1) before after bytes next more (omega (arith, early)))

  IsCaught-decode_ops : (script : Bytes) → IsCaught (decode_ops script)
  IsCaught-decode_ops script = elim (decode_ops-Ends script).0 [
    | inl (ops, e, _) ↦ inl (ops, e)
    | inr e ↦ inr e
  ]

  run_reached :
      (ops ops' : List Op) (stack : Stack)
      → ok ops ≡ ok ops'
      → ReachesDup 1 ops' stack
      → run c digest 1 ops stack ≡ err index_error
  run_reached ops ops' stack same (before, bytes, after, whole, leads, early) =
      let which : ops ≡ before ++ ((op_dup, bytes) ∷ after) = cc (same, whole) in
      rw which (run-ReachesDup 1 before after bytes stack leads early)

  -- `evaluate_script` ends: it returns a Boolean or raises an `IndexError`. It raises exactly where
  -- the script decodes to operations some of which, from the arguments as the stack, lead to an
  -- empty stack, and the next one, within the limit on operations, is an `OP_DUP`.
  pub evaluate_script-ReachesDup :
      (script : Bytes) (arguments : List Bytes)
      → (((b : Bool) × (evaluate_script c digest script arguments ≡ ok b))
          ⊎ (evaluate_script c digest script arguments ≡ err index_error))
        × ((evaluate_script c digest script arguments ≡ err index_error) ↔ (
            (ops : List Op) × (decode_ops script ≡ ok ops) × ReachesDup 1 ops (reverse arguments)))
  unfolding evaluate_script
  evaluate_script-ReachesDup script arguments = elim (IsCaught-decode_ops script) [
    | inr e ↦ rw e (inl (false, refl), (λ h. cc, λ (ops, h, _). cc))
    | inl (ops, e) ↦ rw e (elim (run-RunOutcome 1 ops (reverse arguments)) [
      | inl (inl (b, h)) ↦ rw h (
        inl (b, refl),
        (λ f. cc, λ (ops', same, reached). absurd (cc (h, run_reached ops ops' _ same reached))),
      )
      | inl (inr h) ↦ rw h (
        inl (false, refl),
        (λ f. cc, λ (ops', same, reached). absurd (cc (h, run_reached ops ops' _ same reached))),
      )
      | inr (h, reached) ↦ rw h (inr refl, (λ _. (ops, refl, reached), λ _. refl))
    ])
  ]
