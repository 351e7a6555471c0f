-- ===== src/Script.antt =====
-- src/scarletcoin/core/script.py. The stack is a list whose head is the top, so the witness arguments
-- are loaded reversed. `decode_from` is the `while` loop of `decode_ops` over the bytes not yet
-- decoded; each round consumes at least one byte, so the length of the script is enough fuel.
pub mod Decode
pub mod Extent
pub mod Multisig
pub mod Redeem
pub mod Pushes
pub mod Loaded
pub mod Spend
pub mod Escape
use scarlet_coin.Prelude.{
  ℕ, zero, suc, ◌+◌, ◌-◌, ◌≡◌, Bool, true, false, not, ◌&&◌, ◌||◌, Option, none, some, List, [],
  ◌∷◌, ◌++◌, ltb, leb, ◌==◌, if◌then◌else◌, length, take, drop, reverse, any, all, map,
}
use scarlet_coin.Prelude.Bytes.{Bytes, bytes_eq, to_le, from_le}
use scarlet_coin.Outcome.{
  Result, ok, err, ◌>>=◌, ◌>>◌, raise_if, map_ok, script_error, index_error, unfinished,
}
use scarlet_coin.Crypto.{Crypto, hash256, public_key, verify, byte_at}

abbrev pub max_script_size : ℕ
max_script_size = 520

abbrev pub max_pubkeys : ℕ
max_pubkeys = 15

abbrev pub max_stack_items : ℕ
max_stack_items = 20

abbrev pub max_script_ops : ℕ
max_script_ops = 200

abbrev pub op_pushbytes_max : ℕ
op_pushbytes_max = 0x4B

abbrev pub op_pushdata1 : ℕ
op_pushdata1 = 0x4C

abbrev pub op_pushdata2 : ℕ
op_pushdata2 = 0x4D

abbrev pub op_1 : ℕ
op_1 = 0x51

abbrev pub op_16 : ℕ
op_16 = 0x60

abbrev pub op_dup : ℕ
op_dup = 0x76

abbrev pub op_equal : ℕ
op_equal = 0x87

abbrev pub op_equalverify : ℕ
op_equalverify = 0x88

abbrev pub op_hash160 : ℕ
op_hash160 = 0xA9

abbrev pub op_checksig : ℕ
op_checksig = 0xAC

abbrev pub op_checkmultisig : ℕ
op_checkmultisig = 0xAE

unfoldable pub push_data : Bytes → Result Bytes
push_data bytes =
    let n = length bytes in
    if leb n op_pushbytes_max
    then ok (n ∷ bytes)
    else if leb n 0xFF
    then ok (op_pushdata1 ∷ n ∷ bytes)
    else if leb n 0xFFFF
    then ok (op_pushdata2 ∷ (to_le 2 n ++ bytes))
    else err script_error

unfoldable pub push_small_int : ℕ → Result Bytes
push_small_int value = do
  raise_if (not (leb 1 value && leb value 16)) script_error
  ok ((op_1 - 1 + value) ∷ [])

unfoldable pub p2pkh_redeem : Bytes → Result Bytes
unfolding push_data
p2pkh_redeem pubkey_hash = do
  raise_if (not (length pubkey_hash == 20)) script_error
  pushed ← push_data pubkey_hash
  ok ((op_dup ∷ op_hash160 ∷ []) ++ (pushed ++ (op_equalverify ∷ op_checksig ∷ [])))

abbrev pub bad_key : Bytes → Bool
bad_key key = not (length key == 33) || not (byte_at key 0 == 0x02 || byte_at key 0 == 0x03)

-- `b"".join(push_data(key) for key in pubkeys)`
unfoldable pub push_all : List Bytes → Result Bytes
push_all [] = ok []
push_all (key ∷ keys) = push_data key >>= λ a. push_all keys >>= λ b. ok (a ++ b)

unfoldable pub multisig_redeem : List Bytes → ℕ → Result Bytes
unfolding push_all push_small_int
multisig_redeem pubkeys threshold = do
  raise_if (length pubkeys == 0 || ltb max_pubkeys (length pubkeys)) script_error
  raise_if (not (leb 1 threshold && leb threshold (length pubkeys))) script_error
  raise_if (any bad_key pubkeys) script_error
  first ← push_small_int threshold
  keys ← push_all pubkeys
  last ← push_small_int (length pubkeys)
  ok (first ++ (keys ++ (last ++ (op_checkmultisig ∷ []))))

abbrev pub Op : Type 0
Op = ℕ × Bytes

-- `opcode in (OP_DUP, …) or OP_1 <= opcode <= OP_16`
abbrev pub is_plain : ℕ → Bool
is_plain opcode =
    opcode == op_dup
    || opcode == op_equal
    || opcode == op_equalverify
    || opcode == op_hash160
    || opcode == op_checksig
    || opcode == op_checkmultisig
    || (leb op_1 opcode && leb opcode op_16)

-- A push of `n` bytes from what follows the opcode and its length; `more` decodes what is left.
unfoldable pub take_push : (Bytes → Result (List Op)) → ℕ → ℕ → Bytes → Result (List Op)
take_push more opcode n rest =
    if ltb (length rest) n
    then err script_error
    else map_ok (λ ops. (opcode, take n rest) ∷ ops) (more (drop n rest))

unfoldable pub decode_op : (Bytes → Result (List Op)) → ℕ → Bytes → Result (List Op)
unfolding take_push
decode_op more opcode rest =
    if leb opcode op_pushbytes_max
    then take_push more opcode opcode rest
    else if opcode == op_pushdata1
    then (if ltb (length rest) 1
        then err script_error
        else take_push more opcode (byte_at rest 0) (drop 1 rest))
    else if opcode == op_pushdata2
    then (if ltb (length rest) 2
        then err script_error
        else take_push more opcode (from_le (take 2 rest)) (drop 2 rest))
    else if is_plain opcode
    then map_ok (λ ops. (opcode, []) ∷ ops) (more rest)
    else err script_error

unfoldable pub decode_from : ℕ → Bytes → Result (List Op)
unfolding decode_op
decode_from fuel [] = ok []
decode_from zero (opcode ∷ rest) = err unfinished
decode_from (suc fuel) (opcode ∷ rest) = decode_op (λ bs. decode_from fuel bs) opcode rest

unfoldable pub decode_ops : Bytes → Result (List Op)
unfolding decode_from
decode_ops script = do
  raise_if (ltb max_script_size (length script)) script_error
  decode_from (length script) script

abbrev pub Stack : Type 0
Stack = List Bytes

unfoldable pub pop : Stack → Result (Bytes × Stack)
pop [] = err script_error
pop (item ∷ stack) = ok (item, stack)

-- `[_pop(stack) for _ in range(n)]`, in the order of the pops
unfoldable pub pop_many : ℕ → Stack → Result (List Bytes × Stack)
unfolding pop
pop_many zero stack = ok ([], stack)
pop_many (suc n) stack = pop stack >>= λ (item, stack').
    pop_many n stack' >>= λ (items, stack''). ok (item ∷ items, stack'')

unfoldable pub small_int : Bytes → Option ℕ
small_int (b ∷ []) = if leb 1 b && leb b 16 then some b else none
small_int _ = none

-- `stack.append(stack[-1])`: an empty stack raises an `IndexError`, which is no `ScriptError`.
unfoldable pub dup : Stack → Result (Option Stack)
dup [] = err index_error
dup (item ∷ stack) = ok (some (item ∷ item ∷ stack))

-- `any(byte != 0 for byte in stack[-1])`, after the test for an empty stack
abbrev pub is_truthy : Stack → Bool
is_truthy [] = false
is_truthy (item ∷ stack) = any (λ b. not (b == 0)) item

-- `except ScriptError: return False`; any other exception goes on to the caller.
abbrev pub catch_script_error : Result Bool → Result Bool
catch_script_error (ok b) = ok b
catch_script_error (err script_error) = ok false
catch_script_error (err e) = err e

module _ (c : Crypto) (digest : Bytes) where
  -- `_verify_signature`, which turns every error of the key or of the signature into `False`
  unfoldable pub verify_signature : Bytes → Bytes → Bool
  verify_signature pubkey signature =
      elim (public_key c pubkey >>= λ key. verify c key digest signature) [
        | ok valid ↦ valid
        | err e ↦ false
      ]

  -- The inner `while`: the keys after the first one that verifies, or `none` when they run out.
  unfoldable pub next_key : Bytes → List Bytes → Option (List Bytes)
  next_key signature [] = none
  next_key signature (key ∷ keys) =
      let rest = next_key signature keys in
      if verify_signature key signature then some keys else rest

  -- The `for` loop over the signatures; `none` is its `return False`.
  unfoldable pub match_signatures : List Bytes → List Bytes → ℕ → Option ℕ
  match_signatures [] keys matched = some matched
  match_signatures (signature ∷ signatures) keys matched = elim (next_key signature keys) [
    | none ↦ none
    | some rest ↦ match_signatures signatures rest (matched + 1)
  ]

  -- `OP_CHECKMULTISIG` from its last test back to its first: the verdict on the count of matched
  -- signatures, the part after the threshold has been popped, the part after the key count, and the
  -- whole. `none` is a `return False`.
  unfoldable pub multisig_verdict : Option ℕ → ℕ → Stack → Option Stack
  multisig_verdict none threshold stack = none
  multisig_verdict (some matched) threshold stack =
      if not (matched == threshold) then none else some ((1 ∷ []) ∷ stack)

  unfoldable pub with_threshold : List Bytes → ℕ → Option ℕ → Stack → Result (Option Stack)
  unfolding multisig_verdict
  with_threshold pubkeys key_count none stack = ok none
  with_threshold pubkeys key_count (some threshold) stack =
      if ltb key_count threshold
      then ok none
      else pop_many threshold stack >>= λ (signatures, rest). ok (
          multisig_verdict (match_signatures (reverse signatures) (reverse pubkeys) 0) threshold
            rest)

  unfoldable pub with_key_count : Option ℕ → Stack → Result (Option Stack)
  unfolding with_threshold
  with_key_count none stack = ok none
  with_key_count (some key_count) stack =
      if ltb max_pubkeys key_count
      then ok none
      else pop_many key_count stack >>= λ (pubkeys, s2).
          pop s2 >>= λ (item, s3). with_threshold pubkeys key_count (small_int item) s3

  unfoldable pub check_multisig : Stack → Result (Option Stack)
  unfolding with_key_count
  check_multisig stack = pop stack >>= λ (item, s1). with_key_count (small_int item) s1

  unfoldable pub step : ℕ → Bytes → Stack → Result (Option Stack)
  unfolding dup
  step opcode bytes stack =
      if leb opcode op_pushbytes_max || opcode == op_pushdata1 || opcode == op_pushdata2
      then ok (some (bytes ∷ stack))
      else if leb op_1 opcode && leb opcode op_16
      then ok (some (((opcode - op_1 + 1) ∷ []) ∷ stack))
      else if opcode == op_dup
      then dup stack
      else if opcode == op_equal
      then (do
        (a, s1) ← pop stack
        (b, s2) ← pop s1
        ok (some ((if bytes_eq a b then 1 ∷ [] else 0 ∷ []) ∷ s2)))
      else if opcode == op_equalverify
      then (do (a, s1) ← pop stack; (b, s2) ← pop s1; ok (if bytes_eq a b then some s2 else none))
      else if opcode == op_hash160
      then (do (a, s1) ← pop stack; ok (some (take 20 (hash256 c a) ∷ s1)))
      else if opcode == op_checksig
      then (do
        (pubkey, s1) ← pop stack
        (signature, s2) ← pop s1
        ok (if verify_signature pubkey signature then some ((1 ∷ []) ∷ s2) else none))
      else if opcode == op_checkmultisig
      then check_multisig stack
      else ok none

  -- The loop over the operations, numbered from `index`.
  unfoldable pub run : ℕ → List Op → Stack → Result Bool
  run index [] stack = ok (is_truthy stack)
  run index ((opcode, bytes) ∷ ops) stack =
      let rest = λ (stack' : Stack). run (index + 1) ops stack' in
      if ltb max_script_ops index
      then ok false
      else step opcode bytes stack >>= λ after. elim after [
        | none ↦ ok false
        | some stack' ↦ if ltb max_stack_items (length stack') then ok false else rest stack'
      ]

  unfoldable pub evaluate_script : Bytes → List Bytes → Result Bool
  unfolding run decode_ops
  evaluate_script script arguments =
      catch_script_error (decode_ops script >>= λ ops. run 1 ops (reverse arguments))
