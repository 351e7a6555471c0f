-- ===== src/Builder/Accepted.antt =====
-- What the wallet builds, the nodes accept.
use scarlet_coin.Prelude.{
  ℕ, ◌+◌, ◌≤◌, ◌≡◌, refl, ◌∙◌, sym, ap, subst, true, false, some, List, [], ◌∷◌, ◌++◌, arith,
  length, get_elem?, length-append, append_assoc, All,
}
use scarlet_coin.Prelude.Bytes.{Bytes, bytes_eq, bytes_eq_iff}
use scarlet_coin.Prelude.Dict.{Dict, lookup}
use scarlet_coin.Outcome.{ok, ◌>>=◌, map_ok-eq-ok}
use scarlet_coin.Serialize.{◌⊕◌, uint32, uint64, varbytes}
use scarlet_coin.Crypto.{
  Crypto, Hashes32, hash160, public_key, verify, public_key_length, signature_length,
}
use scarlet_coin.Transaction.{
  OutPoint, is_null, TxInput, Transaction, null_alone, is_coinbase, output_p2pkh, max_money,
}
use scarlet_coin.Transaction.Signing.{
  digest, p2pkh_script_code, verify_revealed, verify_witness, verify_input_signature,
}
use scarlet_coin.Params.{ChainParams}
use scarlet_coin.Utxo.{Coin, CoinView, is_spendable_at}
use scarlet_coin.Validation.{verify_spend, check_signature, shared_hasher, check_transaction_inputs}
use scarlet_coin.Validation.Fee.{IsSpendable, AreSpendable, sum_coins, check_transaction_inputs_iff}
use scarlet_coin.Builder.{
  Item, total_value, PrivateKey, BuiltTransaction, Destination, build_transaction,
}
use scarlet_coin.Builder.Balance.{build_transaction-IsBalanced, build_transaction-IsSignedOf}
use scarlet_coin.Builder.Signed.{AreSigned, sign_inputs-AreSigned}

-- A key that owns the hash, and whose signatures of digests verify.
pub record Owns (c : Crypto) (pubkey_hash : Bytes) (key : PrivateKey) : Type 0 where
  pub key_length : length key.public ≡ public_key_length
  pub parsed : public_key c key.public ≡ ok key.public
  pub hashed : hash160 c key.public ≡ pubkey_hash
  pub signature_fits : (message : Bytes) → length (key.sign message) ≡ signature_length
  pub signs :
      (message : Bytes)
      → length message ≡ 32
      → verify c key.public message (key.sign message) ≡ ok true

length-digest :
    (c : Crypto) (state : Bytes) (index value : ℕ) (code message : Bytes)
    → Hashes32 c
    → digest c state index value code ≡ ok message
    → length message ≡ 32
unfolding digest
length-digest c state index value code message h e =
    let (more, _, last) = map_ok-eq-ok _ (uint32 index ⊕ uint64 value ⊕ varbytes code) e in
    ap length (sym last) ∙ h (c.sha256 (state ++ more))

module _ (c : Crypto) (tx : Transaction) (index value : ℕ) (pubkey_hash hasher message : Bytes)
    (key : PrivateKey) (h : Hashes32 c) (o : Owns c pubkey_hash key)
    (d : digest c hasher index value (p2pkh_script_code pubkey_hash) ≡ ok message) where
  verify_revealed-signed :
      verify_revealed c tx index value pubkey_hash (some hasher) key.public (key.sign message)
      ≡ ok true
  unfolding verify_revealed
  verify_revealed-signed =
      let len = length-digest c hasher index value (p2pkh_script_code pubkey_hash) message h d in
      let same : bytes_eq (hash160 c key.public) pubkey_hash ≡ true =
        (bytes_eq_iff (hash160 c key.public) pubkey_hash).1 o.hashed in
      rw (o.parsed, verify_revealed) (rw same (rw d (o.signs message len)))

  verify_witness-signed :
      (w : List Bytes)
      → w ≡ key.public ∷ key.sign message ∷ []
      → verify_witness c tx index value pubkey_hash (some hasher) w ≡ ok true
  unfolding verify_witness
  verify_witness-signed w e =
      rw e (rw (o.key_length, o.signature_fits message) verify_revealed-signed)

  -- An input that reveals the key and its signature for the digest unlocks the coin.
  verify_input_signature-signed :
      (i : TxInput)
      → get_elem? tx.inputs index ≡ some i
      → i.witness ≡ key.public ∷ key.sign message ∷ []
      → verify_input_signature c tx index value pubkey_hash (some hasher) ≡ ok true
  unfolding verify_input_signature
  verify_input_signature-signed i found e =
      rw (found, verify_input_signature) (verify_witness-signed i.witness e)

-- What the view and the rules have to grant for a coin of the wallet.
pub record IsOwned (view : CoinView) (height maturity : ℕ) (x : Item) : Type 0 where
  pub seen : view x.0 ≡ some x.1
  pub mature : is_spendable_at x.1 height maturity ≡ true
  pub plain : x.1.output_type ≡ output_p2pkh
  pub real : is_null x.0 ≡ false

abbrev coins_of : List Item → List Coin
coins_of [] = []
coins_of ((p, coin) ∷ items) = coin ∷ coins_of items

get_elem?-append :
    (pre : List TxInput) (i : TxInput) (is : List TxInput)
    → get_elem? (pre ++ (i ∷ is)) (length pre) ≡ some i
get_elem?-append [] i is = refl
get_elem?-append (j ∷ pre) i is = get_elem?-append pre i is

sum_coins-coins_of : (items : List Item) → sum_coins (coins_of items) ≡ total_value items
unfolding total_value
sum_coins-coins_of [] = refl
sum_coins-coins_of ((p, coin) ∷ items) = ap (λ t. coin.value + t) (sum_coins-coins_of items)

module _ (c : Crypto) (keys : Dict Bytes PrivateKey) (view : CoinView) (height : ℕ)
    (params : ChainParams) (h : Hashes32 c)
    (owns : (k : Bytes) (key : PrivateKey) → lookup bytes_eq k keys ≡ some key → Owns c k key)
    (tx : Transaction) (hasher : Bytes) where
  -- The check of one signed input.
  IsSpendable-signed :
      (index : ℕ) (p : OutPoint) (coin : Coin) (key : PrivateKey) (message : Bytes) (i : TxInput)
      → IsOwned view height params.coinbase_maturity (p, coin)
      → lookup bytes_eq coin.payload keys ≡ some key
      → digest c hasher index coin.value (p2pkh_script_code coin.payload) ≡ ok message
      → get_elem? tx.inputs index ≡ some i
      → i.witness ≡ key.public ∷ key.sign message ∷ []
      → IsSpendable c view height params tx index (some hasher) coin
  unfolding check_signature verify_spend
  IsSpendable-signed index p coin key message i w known d found e =
      let valid =
        verify_input_signature-signed c tx index coin.value coin.payload hasher message key h
          (owns coin.payload key known) d i found e in
      record {
        mature = w.mature;
        known_type = rw w.plain refl;
        authorised = rw w.plain (rw valid refl);
      }

  AreSpendable-AreSigned :
      (items : List Item) (pre is : List TxInput)
      → tx.inputs ≡ pre ++ is
      → All (IsOwned view height params.coinbase_maturity) items
      → AreSigned c keys hasher (length pre) items is
      → AreSpendable c view height params tx (length pre) (some hasher) is (coins_of items)
  AreSpendable-AreSigned [] pre [] e w s = tt
  AreSpendable-AreSigned [] pre (i ∷ is) e w s = elim s [ ]
  AreSpendable-AreSigned (x ∷ items) pre [] e w s = elim s [ ]
  AreSpendable-AreSigned ((p, coin) ∷ items) pre (i ∷ is) e (w, ws)
        (point, _, (key, message, known, d, made), rest) =
      let longer : length (pre ++ (i ∷ [])) ≡ length pre + 1 =
        omega (arith, length-append pre (i ∷ [])) in
      let found : get_elem? tx.inputs (length pre) ≡ some i =
        ap (λ l. get_elem? l (length pre)) e ∙ get_elem?-append pre i is in
      (
        ap view point ∙ w.seen,
        IsSpendable-signed (length pre) p coin key message i w known d found made,
        subst (λ n. AreSpendable c view height params tx n (some hasher) is (coins_of items)) longer
            (AreSpendable-AreSigned items (pre ++ (i ∷ [])) is
              (e ∙ sym (append_assoc pre (i ∷ []) is)) ws
              (subst (λ n. AreSigned c keys hasher n items is) (sym longer) rest)),
      )

  -- A transaction that spends coins of the wallet is no coinbase.
  null_alone-AreSigned :
      (items : List Item) (is : List TxInput) (index : ℕ)
      → All (IsOwned view height params.coinbase_maturity) items
      → AreSigned c keys hasher index items is
      → null_alone is ≡ false
  unfolding null_alone
  null_alone-AreSigned items [] index w s = refl
  null_alone-AreSigned [] (i ∷ is) index w s = elim s [ ]
  null_alone-AreSigned (x ∷ items) (i ∷ []) index (w, _) (point, _, _, _) =
      ap is_null point ∙ w.real
  null_alone-AreSigned (x ∷ items) (i ∷ j ∷ is) index w s = refl

-- A transaction that `build_transaction` returns passes `check_transaction_inputs`, signatures
-- included, with the fee that it states, provided that SHA-256 gives 32 bytes, that every key owns
-- the hash it is filed under and its signatures of 32-byte digests verify, and that every chosen
-- coin is in the view, mature, P2PKH and not at the null outpoint, all of them worth at most
-- `max_money`.
pub check_transaction_inputs-build_transaction :
    (c : Crypto) (keys : Dict Bytes PrivateKey) (address_version fee_per_kb lock_time : ℕ)
    (coins : List Item) (outputs : List (Destination × ℕ)) (change_hash : Bytes)
    (bt : BuiltTransaction) (view : CoinView) (height : ℕ) (params : ChainParams)
    → Hashes32 c
    → ((k : Bytes) (key : PrivateKey) → lookup bytes_eq k keys ≡ some key → Owns c k key)
    → build_transaction c keys address_version fee_per_kb lock_time coins outputs change_hash
      ≡ ok bt
    → All (IsOwned view height params.coinbase_maturity) bt.coins
    → total_value bt.coins ≤ max_money
    → check_transaction_inputs c view height params true bt.transaction ≡ ok bt.fee
unfolding is_coinbase shared_hasher
check_transaction_inputs-build_transaction c keys address_version fee_per_kb lock_time coins outputs
      change_hash bt view height params h owns e owned limit =
    let balanced =
      build_transaction-IsBalanced c keys address_version fee_per_kb lock_time coins outputs
        change_hash bt e in
    let (_, _, _, sum) = balanced.0 in
    let (outs, unsigned, e1, e2) =
      build_transaction-IsSignedOf c keys address_version fee_per_kb lock_time coins outputs
        change_hash bt e in
    let (hasher, e3, signed) =
      sign_inputs-AreSigned c keys outs lock_time bt.coins unsigned bt.transaction e1 e2 in
    let worth = sum_coins-coins_of bt.coins in
    (check_transaction_inputs_iff c view height params true bt.transaction bt.fee).1 (
      null_alone-AreSigned c keys view height params h owns bt.transaction hasher bt.coins
          bt.transaction.inputs 0 owned signed,
      some hasher,
      ap (λ r. r >>= λ state. ok (some state)) e3,
      coins_of bt.coins,
      AreSpendable-AreSigned c keys view height params h owns bt.transaction hasher bt.coins []
          bt.transaction.inputs refl owned signed,
      omega (arith, worth, sum),
      omega (arith, worth, limit),
    )
