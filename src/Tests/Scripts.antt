-- ===== src/Tests/Scripts.antt =====
-- Scripts of one and two keys.
use scarlet_coin.Prelude.{
  ℕ, ◌+◌, ◌≤◌, ◌<◌, ◌≡◌, refl, ◌↔◌, ◌⊎◌, Bool, true, false, some, List, [], ◌∷◌, ◌++◌, replicate,
  arith,
}
use scarlet_coin.Prelude.Bytes.{Bytes}
use scarlet_coin.Outcome.{Result, ok, err, map_ok, index_error, script_error}
use scarlet_coin.Script.{
  Op, max_script_size, op_dup, op_pushdata2, op_pushbytes_max, max_pubkeys, max_stack_items,
  multisig_redeem, push_data, decode_ops, decode_from, match_signatures, evaluate_script,
  push_small_int, p2pkh_redeem, push_all, take_push, decode_op, pop, pop_many, small_int, dup,
  verify_signature, next_key, multisig_verdict, with_threshold, with_key_count, check_multisig,
  step, run,
}
use scarlet_coin.Script.Decode.{decode, decode-push_data}
use scarlet_coin.Script.Extent.{Ends, decode_ops-Ends}
use scarlet_coin.Script.Multisig.{Matches, match_signatures_iff}
use scarlet_coin.Script.Redeem.{multisig_ops, decode_ops-multisig_redeem}
use scarlet_coin.Script.Spend.{evaluate_script-multisig_redeem, unspendable_multisig}
use scarlet_coin.Script.Escape.{ReachesDup, evaluate_script-ReachesDup}
use scarlet_coin.Tests.{toy, toy_key, toy_signature}

abbrev two_keys : List Bytes
two_keys = toy_key 5 ∷ toy_key 6 ∷ []

abbrev one_of_two : Bytes
one_of_two = 0x51 ∷ 33 ∷ (toy_key 5 ++ (33 ∷ (toy_key 6 ++ (0x52 ∷ 0xAE ∷ []))))

one_of_two_lem : multisig_redeem two_keys 1 ≡ ok one_of_two
unfolding push_data push_small_int p2pkh_redeem push_all multisig_redeem take_push decode_op
    decode_from decode_ops pop pop_many small_int dup verify_signature next_key match_signatures
    multisig_verdict with_threshold with_key_count check_multisig step run evaluate_script
one_of_two_lem = refl

evaluate_script-multisig_redeem_example :
    (evaluate_script toy [] one_of_two ([] ++ (toy_signature 6 ∷ [])) ≡ ok true)
    ↔ ((0 + 1 + 2 + 2 ≤ max_stack_items) × Matches toy [] (toy_signature 6 ∷ []) two_keys)
evaluate_script-multisig_redeem_example =
    evaluate_script-multisig_redeem toy [] two_keys 1 one_of_two [] (toy_signature 6 ∷ [])
      one_of_two_lem refl

abbrev ten_keys : List Bytes
ten_keys = replicate 10 (toy_key 5)

abbrev script_of : Result Bytes → Bytes
script_of (ok bytes) = bytes
script_of (err e) = []

abbrev nine_of_ten : Bytes
nine_of_ten = script_of (multisig_redeem ten_keys 9)

nine_of_ten_lem : multisig_redeem ten_keys 9 ≡ ok nine_of_ten
unfolding push_data push_small_int p2pkh_redeem push_all multisig_redeem take_push decode_op
    decode_from decode_ops pop pop_many small_int dup verify_signature next_key match_signatures
    multisig_verdict with_threshold with_key_count check_multisig step run evaluate_script
nine_of_ten_lem = refl

unspendable_multisig_example :
    evaluate_script toy [] nine_of_ten (replicate 9 (toy_signature 5)) ≡ ok false
unspendable_multisig_example =
    unspendable_multisig toy [] ten_keys 9 nine_of_ten (replicate 9 (toy_signature 5))
      nine_of_ten_lem (omega arith)

abbrev dup_drop : Bytes
dup_drop = 0x76 ∷ 0x87 ∷ []

dup_drop_lem : decode_ops dup_drop ≡ ok ((op_dup, []) ∷ (0x87, []) ∷ [])
unfolding push_data push_small_int p2pkh_redeem push_all multisig_redeem take_push decode_op
    decode_from decode_ops pop pop_many small_int dup verify_signature next_key match_signatures
    multisig_verdict with_threshold with_key_count check_multisig step run evaluate_script
dup_drop_lem = refl

escapes : evaluate_script toy [] dup_drop [] ≡ err index_error
unfolding push_data push_small_int p2pkh_redeem push_all multisig_redeem take_push decode_op
    decode_from decode_ops pop pop_many small_int dup verify_signature next_key match_signatures
    multisig_verdict with_threshold with_key_count check_multisig step run evaluate_script
escapes = refl

evaluate_script-ReachesDup_example :
    (((b : Bool) × (evaluate_script toy [] dup_drop [] ≡ ok b))
      ⊎ (evaluate_script toy [] dup_drop [] ≡ err index_error))
    × ((evaluate_script toy [] dup_drop [] ≡ err index_error)
        ↔ ((ops : List Op) × (decode_ops dup_drop ≡ ok ops) × ReachesDup toy [] 1 ops []))
evaluate_script-ReachesDup_example = evaluate_script-ReachesDup toy [] dup_drop []

decode_ops-Ends_example :
    Ends 2 (decode_ops dup_drop) × (max_script_size < 2 → decode_ops dup_drop ≡ err script_error)
decode_ops-Ends_example = decode_ops-Ends dup_drop

three_pushed : push_data (1 ∷ 2 ∷ 3 ∷ []) ≡ ok (3 ∷ 1 ∷ 2 ∷ 3 ∷ [])
unfolding push_data push_small_int p2pkh_redeem push_all multisig_redeem take_push decode_op
    decode_from decode_ops pop pop_many small_int dup verify_signature next_key match_signatures
    multisig_verdict with_threshold with_key_count check_multisig step run evaluate_script
three_pushed = refl

decode-push_data_example :
    (op : ℕ) × (decode (3 ∷ 1 ∷ 2 ∷ 3 ∷ dup_drop)
      ≡ map_ok (λ ops. (op, 1 ∷ 2 ∷ 3 ∷ []) ∷ ops) (decode dup_drop))
    × ((op ≤ op_pushdata2) × (3 ≤ op_pushbytes_max → op ≡ 3))
decode-push_data_example =
    decode-push_data (1 ∷ 2 ∷ 3 ∷ []) (3 ∷ 1 ∷ 2 ∷ 3 ∷ []) dup_drop three_pushed

match_signatures_iff_example :
    (match_signatures toy [] (toy_signature 6 ∷ []) two_keys 0 ≡ some 1)
    ↔ Matches toy [] (toy_signature 6 ∷ []) two_keys
match_signatures_iff_example = match_signatures_iff toy [] (toy_signature 6 ∷ []) two_keys

decode_ops-multisig_redeem_example :
    (decode_ops one_of_two ≡ ok (multisig_ops two_keys 1)) × (1 ≤ 1) × (1 ≤ 2) × (2 ≤ max_pubkeys)
decode_ops-multisig_redeem_example = decode_ops-multisig_redeem two_keys 1 one_of_two one_of_two_lem
