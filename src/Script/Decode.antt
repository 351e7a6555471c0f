-- ===== src/Script/Decode.antt =====
-- `decode_ops`: more fuel changes nothing, and an encoded push decodes to the data that was pushed.
use scarlet_coin.Prelude.{
  ℕ, zero, suc, ◌/◌, ◌%◌, ◌≤◌, ◌≡◌, refl, ◌∙◌, true, false, List, [], ◌∷◌, ◌++◌, arith, ltb, leb,
  length, take, drop, length-drop, length-append, append_assoc, take-append_self, drop-append_self,
  Bool-cases, inl, inr,
}
use scarlet_coin.Prelude.Bytes.{Bytes, to_le, from_le, from_le-to_le}
use scarlet_coin.Outcome.{Result, ok, map_ok}
use scarlet_coin.Crypto.{byte_at}
use scarlet_coin.Script.{
  Op, op_pushbytes_max, op_pushdata1, op_pushdata2, push_data, take_push, decode_op, decode_from,
}

take_push_cong :
    (f g : Bytes → Result (List Op)) (op n : ℕ) (rest : Bytes)
    → ((xs : Bytes) → length xs ≤ length rest → f xs ≡ g xs)
    → take_push f op n rest ≡ take_push g op n rest
unfolding take_push
take_push_cong f g op n rest h = let e = h (drop n rest) (omega (arith, length-drop n rest)) in rw e

decode_op_cong :
    (f g : Bytes → Result (List Op)) (op : ℕ) (rest : Bytes)
    → ((xs : Bytes) → length xs ≤ length rest → f xs ≡ g xs)
    → decode_op f op rest ≡ decode_op g op rest
unfolding decode_op
decode_op_cong f g op rest h =
    let shorter = λ (k : ℕ) (xs : Bytes) (le : length xs ≤ length (drop k rest)).
      h xs (omega (arith, length-drop k rest)) in
    let a = take_push_cong f g op op rest h in
    let b = take_push_cong f g op (byte_at rest 0) (drop 1 rest) (shorter 1) in
    let c = take_push_cong f g op (from_le (take 2 rest)) (drop 2 rest) (shorter 2) in
    let d = h rest (omega arith) in rw (a, b, c, d)

-- Fuel beyond the length of the script changes nothing in the decoding loop.
decode_from_fuel :
    (f g : ℕ) (bs : Bytes) → length bs ≤ f → length bs ≤ g → decode_from f bs ≡ decode_from g bs
unfolding decode_from
decode_from_fuel f g [] hf hg = refl
decode_from_fuel zero g (op ∷ rest) hf hg = absurd (omega arith)
decode_from_fuel (suc f) zero (op ∷ rest) hf hg = absurd (omega arith)
decode_from_fuel (suc f) (suc g) (op ∷ rest) hf hg =
    decode_op_cong _ _ op rest (λ xs le. decode_from_fuel f g xs (omega arith) (omega arith))

-- The loop with enough fuel.
abbrev pub decode : Bytes → Result (List Op)
decode bs = decode_from (length bs) bs

pub decode-cons : (op : ℕ) (rest : Bytes) → decode (op ∷ rest) ≡ decode_op decode op rest
unfolding decode_from
decode-cons op rest =
    decode_op_cong _ _ op rest
      (λ xs le. decode_from_fuel (length rest) (length xs) xs le (omega arith))

take_push-append :
    (op : ℕ) (bytes rest : Bytes)
    → take_push decode op (length bytes) (bytes ++ rest)
      ≡ map_ok (λ ops. (op, bytes) ∷ ops) (decode rest)
unfolding take_push
take_push-append op bytes rest =
    let size : ltb (length (bytes ++ rest)) (length bytes) ≡ false = long_enough in
    rw (size, take-append_self bytes rest, drop-append_self bytes rest)
  where
    long_enough : ltb (length (bytes ++ rest)) (length bytes) ≡ false
    long_enough = let l = length-append bytes rest in ground (arith, l)

-- A direct push, of at most 75 bytes.
decode-direct :
    (bytes rest : Bytes)
    → length bytes ≤ op_pushbytes_max
    → decode (length bytes ∷ (bytes ++ rest))
      ≡ map_ok (λ ops. (length bytes, bytes) ∷ ops) (decode rest)
unfolding decode_op
decode-direct bytes rest h =
    let small : leb (length bytes) op_pushbytes_max ≡ true = ground arith in
    decode-cons (length bytes) (bytes ++ rest)
    ∙ rw small (take_push-append (length bytes) bytes rest)

decode-pushdata1 :
    (bytes rest : Bytes)
    → decode (op_pushdata1 ∷ length bytes ∷ (bytes ++ rest))
      ≡ map_ok (λ ops. (op_pushdata1, bytes) ∷ ops) (decode rest)
unfolding decode_op
decode-pushdata1 bytes rest =
    let some_length : ltb (length (length bytes ∷ (bytes ++ rest))) 1 ≡ false = ground arith in
    decode-cons op_pushdata1 (length bytes ∷ (bytes ++ rest))
    ∙ rw some_length (take_push-append op_pushdata1 bytes rest)

decode-pushdata2 :
    (bytes rest : Bytes)
    → length bytes ≤ 0xFFFF
    → decode (op_pushdata2 ∷ (to_le 2 (length bytes) ++ (bytes ++ rest)))
      ≡ map_ok (λ ops. (op_pushdata2, bytes) ∷ ops) (decode rest)
unfolding decode_op to_le
decode-pushdata2 bytes rest h =
    let two : from_le (to_le 2 (length bytes)) ≡ length bytes =
      from_le-to_le 2 (length bytes) (omega arith) in
    let two' : from_le ((length bytes % 256) ∷ (length bytes / 256 % 256) ∷ []) ≡ length bytes =
      two in
    decode-cons op_pushdata2 (to_le 2 (length bytes) ++ (bytes ++ rest))
    ∙ rw (long, two') (take_push-append op_pushdata2 bytes rest)
  where
    long : ltb (suc (suc (length (bytes ++ rest)))) 2 ≡ false
    long = ground arith

-- Whatever `push_data` writes is decoded as one operation that pushes those bytes, before what the
-- rest of the script is decoded as; its opcode is a push, and is the length when that is at most
-- `op_pushbytes_max`.
pub decode-push_data :
    (bytes pushed rest : Bytes)
    → push_data bytes ≡ ok pushed
    → (op : ℕ) × (decode (pushed ++ rest) ≡ map_ok (λ ops. (op, bytes) ∷ ops) (decode rest))
      × ((op ≤ op_pushdata2) × (length bytes ≤ op_pushbytes_max → op ≡ length bytes))
unfolding push_data
decode-push_data bytes pushed rest h = elim (Bool-cases (leb (length bytes) op_pushbytes_max)) [
  | inl a ↦
      let e : pushed ≡ length bytes ∷ bytes = ground arith in
      (length bytes, rw e (decode-direct bytes rest (ground arith)), (ground arith, λ _. refl))
  | inr a ↦ elim (Bool-cases (leb (length bytes) 0xFF)) [
    | inl b ↦
        let e : pushed ≡ op_pushdata1 ∷ length bytes ∷ bytes = ground arith in
        (
          op_pushdata1,
          rw e (decode-pushdata1 bytes rest),
          (omega arith, λ le. absurd (ground arith)),
        )
    | inr b ↦
        let fits : length bytes ≤ 0xFFFF = ground arith in
        let e : pushed ≡ op_pushdata2 ∷ (to_le 2 (length bytes) ++ bytes) = ground arith in
        (
          op_pushdata2,
          rw (e, append_assoc (to_le 2 (length bytes)) bytes rest)
              (decode-pushdata2 bytes rest fits),
          (omega arith, λ le. absurd (ground arith)),
        )
  ]
]
