-- ===== src/Script/Redeem.antt =====
-- What `multisig_redeem` encodes, operation by operation.
use scarlet_coin.Prelude.{
  ℕ, ◌+◌, ◌*◌, ◌-◌, ◌≤◌, ◌<◌, ◌≡◌, refl, ◌∙◌, sym, true, false, List, [], ◌∷◌, ◌++◌, arith, ltb,
  leb, ◌==◌, length, length-append, append_assoc, All, map, any, not, ◌||◌, ◌&&◌,
}
use scarlet_coin.Prelude.Bytes.{Bytes}
use scarlet_coin.Outcome.{Result, ok, err, map_ok, script_error, >>=-eq-ok, >>_iff, raise_if_iff}
use scarlet_coin.Script.{
  Op, op_pushbytes_max, op_pushdata2, op_1, op_checkmultisig, max_pubkeys, push_data,
  push_small_int, bad_key, push_all, multisig_redeem, decode_op, decode_ops, is_plain,
}
use scarlet_coin.Script.Decode.{decode, decode-cons, decode-push_data}

map_ok-map_ok {ℓ} :
    {A : Type ℓ} (f g : A → A) (r : Result A) → map_ok f (map_ok g r) ≡ map_ok (λ a. f (g a)) r
map_ok-map_ok f g (ok a) = refl
map_ok-map_ok f g (err e) = refl

decode-plain :
    (op : ℕ) (rest : Bytes)
    → op_pushdata2 < op
    → is_plain op ≡ true
    → decode (op ∷ rest) ≡ map_ok (λ ops. (op, []) ∷ ops) (decode rest)
unfolding decode_op
decode-plain op rest h plain =
    let a : leb op op_pushbytes_max ≡ false = ground arith in
    let b : (op == 0x4C) ≡ false = ground arith in
    let d : (op == 0x4D) ≡ false = ground arith in decode-cons op rest ∙ rw (a, b, d, plain) refl

abbrev pub key_pushes : List Bytes → List Op
key_pushes keys = map (λ key. (33, key)) keys

good_keys : (keys : List Bytes) → any bad_key keys ≡ false → All (λ key. length key ≡ 33) keys
good_keys [] h = tt
good_keys (key ∷ keys) h = (ground arith, good_keys keys (ground arith))

decode-push_all :
    (keys : List Bytes) (bs rest : Bytes)
    → push_all keys ≡ ok bs
    → All (λ key. length key ≡ 33) keys
    → decode (bs ++ rest) ≡ map_ok (λ ops. key_pushes keys ++ ops) (decode rest)
unfolding push_all
decode-push_all [] bs rest h good = let e : bs ≡ [] = cc in rw e (sym (map_ok_id (decode rest)))
  where
    map_ok_id : (r : Result (List Op)) → map_ok (λ ops. ops) r ≡ r
    map_ok_id (ok a) = refl
    map_ok_id (err e) = refl
decode-push_all (key ∷ keys) bs rest h good =
    let (a, ea, h1) = >>=-eq-ok (push_data key) _ h in
    let (b, eb, h2) = >>=-eq-ok (push_all keys) _ h1 in
    let e : bs ≡ a ++ b = cc in
    let (op, first, (_, small)) = decode-push_data key a (b ++ rest) ea in
    let width : op ≡ 33 = small (omega arith) ∙ good.0 in
    let others = decode-push_all keys b rest eb good.1 in
    rw (e, append_assoc a b rest) (rw (first, others, width) (map_ok-map_ok _ _ (decode rest)))

length-push_data : (key bs : Bytes) → length key ≡ 33 → push_data key ≡ ok bs → length bs ≡ 34
unfolding push_data
length-push_data key bs h e = ground arith

length-push_all :
    (keys : List Bytes) (bs : Bytes)
    → push_all keys ≡ ok bs
    → All (λ key. length key ≡ 33) keys
    → length bs ≡ 34 * length keys
unfolding push_all
length-push_all [] bs h good = let e : bs ≡ [] = cc in rw e (omega arith)
length-push_all (key ∷ keys) bs h good =
    let (a, ea, h1) = >>=-eq-ok (push_data key) _ h in
    let (b, eb, h2) = >>=-eq-ok (push_all keys) _ h1 in
    let e : bs ≡ a ++ b = cc in
    rw (e, length-append a b)
      (omega (arith, length-push_data key a good.0 ea, length-push_all keys b eb good.1))

push_small_int_lem : (n : ℕ) → 1 ≤ n → n ≤ 15 → push_small_int n ≡ ok ((op_1 - 1 + n) ∷ [])
unfolding push_small_int
push_small_int_lem n low high = ground arith

small_int_plain : (n : ℕ) → 1 ≤ n → n ≤ 15 → is_plain (op_1 - 1 + n) ≡ true
small_int_plain n low high = ground arith

-- The operations of an m-of-n script.
abbrev pub multisig_ops : List Bytes → ℕ → List Op
multisig_ops keys threshold =
    (op_1 - 1 + threshold, [])
    ∷ (key_pushes keys ++ ((op_1 - 1 + length keys, []) ∷ (op_checkmultisig, []) ∷ []))

decoded_ops :
    (keys : List Bytes) (m : ℕ) (bs : Bytes)
    → 1 ≤ m
    → m ≤ length keys
    → length keys ≤ 15
    → push_all keys ≡ ok bs
    → All (λ key. length key ≡ 33) keys
    → length bs ≡ 34 * length keys
    → decode_ops ((op_1 - 1 + m) ∷ (bs ++ ((op_1 - 1 + length keys) ∷ op_checkmultisig ∷ [])))
      ≡ ok (multisig_ops keys m)
unfolding decode_ops
decoded_ops keys m bs least fits most eb good size =
    let tail : Bytes = (op_1 - 1 + length keys) ∷ op_checkmultisig ∷ [] in
    let small : ltb 520 (length ((op_1 - 1 + m) ∷ (bs ++ tail))) ≡ false = short tail refl in
    let d1 =
      decode-plain (op_1 - 1 + m) (bs ++ tail) (omega arith)
        (small_int_plain m least (omega arith)) in
    let d2 = decode-push_all keys bs tail eb good in
    let d3 =
      decode-plain (op_1 - 1 + length keys) (op_checkmultisig ∷ []) (omega arith)
        (small_int_plain (length keys) (omega arith) most) in
    rw small (d1 ∙ rw (d2, d3) refl)
  where
    short :
        (tail : Bytes) → length tail ≡ 2 → ltb 520 (length ((op_1 - 1 + m) ∷ (bs ++ tail))) ≡ false
    short tail two = let l = length-append bs tail in ground (arith, l, size, two, most)

-- The script that `multisig_redeem` returns is accepted by `decode_ops` and holds the threshold,
-- the keys, their count and the check, in this order, and the threshold and the key count are in
-- range.
pub decode_ops-multisig_redeem :
    (keys : List Bytes) (threshold : ℕ) (script : Bytes)
    → multisig_redeem keys threshold ≡ ok script
    → (decode_ops script ≡ ok (multisig_ops keys threshold))
      × (1 ≤ threshold)
      × (threshold ≤ length keys)
      × (length keys ≤ max_pubkeys)
unfolding multisig_redeem decode_ops
decode_ops-multisig_redeem keys m script h =
    let n = length keys in
    let (ok_count, h1) = (>>_iff _ _).0 h in
    let (ok_threshold, h2) = (>>_iff _ _).0 h1 in
    let (ok_keys, h3) = (>>_iff _ _).0 h2 in
    let count = (raise_if_iff (n == 0 || ltb max_pubkeys n) script_error).0 ok_count in
    let range = (raise_if_iff (not (leb 1 m && leb m n)) script_error).0 ok_threshold in
    let good = good_keys keys ((raise_if_iff (any bad_key keys) script_error).0 ok_keys) in
    let most : n ≤ 15 = ground arith in
    let least : 1 ≤ m = ground arith in
    let fits : m ≤ n = ground arith in
    let e1 = push_small_int_lem m least (omega arith) in
    let e3 = push_small_int_lem n (omega arith) most in
    let (first, ea, h4) = >>=-eq-ok (push_small_int m) _ h3 in
    let (bs, eb, h5) = >>=-eq-ok (push_all keys) _ h4 in
    let (last, ec, h6) = >>=-eq-ok (push_small_int n) _ h5 in
    let x : first ≡ (op_1 - 1 + m) ∷ [] = cc in
    let y : last ≡ (op_1 - 1 + n) ∷ [] = cc in
    let z : script ≡ first ++ (bs ++ (last ++ (op_checkmultisig ∷ []))) = cc in
    let whole : script ≡ (op_1 - 1 + m) ∷ (bs ++ ((op_1 - 1 + n) ∷ op_checkmultisig ∷ [])) =
      z ∙ rw (x, y) refl in
    let size = length-push_all keys bs eb good in
    (rw whole (decoded_ops keys m bs least fits most eb good size), least, fits, most)
