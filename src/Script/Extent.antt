-- ===== src/Script/Extent.antt =====
-- `decode_ops` ends, and its operations take up the whole script.
use scarlet_coin.Prelude.{
  ℕ, zero, suc, ◌+◌, ◌≤◌, ◌<◌, ◌≡◌, refl, ◌⊎◌, inl, inr, List, [], ◌∷◌, arith, ltb, leb, ◌==◌,
  if◌then◌else◌, length, take, drop, length-drop, length-take, Bool-cases,
}
use scarlet_coin.Prelude.Bytes.{Bytes, from_le}
use scarlet_coin.Outcome.{Result, ok, err, map_ok, script_error}
use scarlet_coin.Crypto.{byte_at}
use scarlet_coin.Script.{
  Op, op_pushbytes_max, op_pushdata1, op_pushdata2, is_plain, max_script_size, take_push, decode_op,
  decode_from, decode_ops,
}

-- The bytes of an operation before its data: the opcode, and the length that two of the pushes state.
abbrev pub overhead : ℕ → ℕ
overhead opcode = if opcode == op_pushdata1 then 2 else if opcode == op_pushdata2 then 3 else 1

abbrev pub extent : Op → ℕ
extent (opcode, bytes) = overhead opcode + length bytes

abbrev pub extents : List Op → ℕ
extents [] = 0
extents (op ∷ ops) = extent op + extents ops

-- The loop ends with operations that take up so many bytes, or as on a malformed script.
abbrev pub Ends : ℕ → Result (List Op) → Type 0
Ends n r = ((ops : List Op) × (r ≡ ok ops) × (extents ops ≡ n)) ⊎ (r ≡ err script_error)

Ends-map_ok :
    (op : Op) (n m : ℕ) (r : Result (List Op))
    → Ends n r
    → m ≡ extent op + n
    → Ends m (map_ok (λ ops. op ∷ ops) r)
Ends-map_ok op n m r (inl (ops, e, h)) size = rw e (inl (op ∷ ops, refl, omega (arith, h, size)))
Ends-map_ok op n m r (inr e) size = rw e (inr refl)

module _ (more : Bytes → Result (List Op)) where
  Ends-take_push :
      (opcode n m : ℕ) (rest : Bytes)
      → ((bs : Bytes) → length bs ≤ length rest → Ends (length bs) (more bs))
      → m ≡ overhead opcode + length rest
      → Ends m (take_push more opcode n rest)
  unfolding take_push
  Ends-take_push opcode n m rest h size = elim (Bool-cases (ltb (length rest) n)) [
    | inl e ↦ rw e (inr refl)
    | inr e ↦
        let fits : n ≤ length rest = ground (arith, e) in
        let left = length-drop n rest in
        let taken = length-take n rest in
        rw e (
          Ends-map_ok (opcode, take n rest) (length (drop n rest)) m (more (drop n rest))
            (h (drop n rest) (omega (arith, left))) (omega (arith, left, taken, size, fits)))
  ]

  Ends-decode_op :
      (opcode : ℕ) (rest : Bytes)
      → ((bs : Bytes) → length bs ≤ length rest → Ends (length bs) (more bs))
      → Ends (length (opcode ∷ rest)) (decode_op more opcode rest)
  unfolding decode_op
  Ends-decode_op opcode rest h = elim (Bool-cases (leb opcode op_pushbytes_max)) [
    | inl a ↦ rw a (Ends-take_push opcode opcode (suc (length rest)) rest h (ground arith))
    | inr a ↦ elim (Bool-cases (opcode == op_pushdata1)) [
      | inl b ↦ elim (Bool-cases (ltb (length rest) 1)) [
        | inl d ↦ rw (a, b, d) (inr refl)
        | inr d ↦
            rw (a, b, d)
              (Ends-take_push opcode (byte_at rest 0) (suc (length rest)) (drop 1 rest)
                (λ bs le. h bs (omega (arith, length-drop 1 rest)))
                (ground (arith, b, d, length-drop 1 rest)))
      ]
      | inr b ↦ elim (Bool-cases (opcode == op_pushdata2)) [
        | inl b2 ↦ elim (Bool-cases (ltb (length rest) 2)) [
          | inl d ↦ rw (a, b, b2, d) (inr refl)
          | inr d ↦
              rw (a, b, b2, d)
                (Ends-take_push opcode (from_le (take 2 rest)) (suc (length rest)) (drop 2 rest)
                  (λ bs le. h bs (omega (arith, length-drop 2 rest)))
                  (ground (arith, b, b2, d, length-drop 2 rest)))
        ]
        | inr b2 ↦
            let one : overhead opcode ≡ 1 = rw (b, b2) refl in
            elim (Bool-cases (is_plain opcode)) [
              | inl d ↦
                  rw (a, b, b2, d)
                    (Ends-map_ok (opcode, []) (length rest) (suc (length rest)) (more rest)
                      (h rest (omega arith)) (omega (arith, one)))
              | inr d ↦ rw (a, b, b2, d) (inr refl)
            ]
      ]
    ]
  ]

Ends-decode_from :
    (fuel : ℕ) (bs : Bytes) → length bs ≤ fuel → Ends (length bs) (decode_from fuel bs)
unfolding decode_from
Ends-decode_from fuel [] h = inl ([], refl, refl)
Ends-decode_from zero (opcode ∷ rest) h = absurd (omega arith)
Ends-decode_from (suc fuel) (opcode ∷ rest) h =
    Ends-decode_op (decode_from fuel) opcode rest
      (λ bs le. Ends-decode_from fuel bs (omega (arith, h, le)))

-- `decode_ops` ends on every script: it raises only `ScriptError`, always on a script that is
-- longer than the limit, and otherwise returns operations that take up exactly the bytes of the
-- script, each its opcode, the length that it states and its data.
pub decode_ops-Ends :
    (script : Bytes)
    → Ends (length script) (decode_ops script)
      × (max_script_size < length script → decode_ops script ≡ err script_error)
unfolding decode_ops
decode_ops-Ends script = elim (Bool-cases (ltb max_script_size (length script))) [
  | inl long ↦ rw long (inr refl, λ h. refl)
  | inr short ↦ rw short (
    Ends-decode_from (length script) script (omega arith),
    λ h. absurd (ground (arith, short, h)),
  )
]
