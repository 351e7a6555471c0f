-- ===== src/Builder/Signed.antt =====
-- `_sign_inputs`: every input gets the key and the signature for its coin, and the body that was
-- signed is the body of the result.
use scarlet_coin.Prelude.{
  ℕ, suc, ◌+◌, ◌≡◌, refl, ◌∙◌, sym, ap, subst, some, List, [], ◌∷◌, ◌++◌, arith, leb, not, length,
  length-append, inl, inr, Option-cases, append_assoc,
}
use scarlet_coin.Prelude.Bytes.{Bytes, bytes_eq}
use scarlet_coin.Prelude.Dict.{Dict, lookup}
use scarlet_coin.Outcome.{
  ok, err, ◌>>=◌, map_ok, >>=-eq-ok, map_ok-eq-ok, value_error, >>_iff, raise_if, transaction_error,
}
use scarlet_coin.Serialize.{write_each}
use scarlet_coin.Crypto.{Crypto}
use scarlet_coin.Transaction.{
  OutPoint, TxInput, tx_input, TxOutput, Transaction, transaction, sequence_final,
}
use scarlet_coin.Transaction.Codec.{write_input, serialize_body}
use scarlet_coin.Transaction.Signing.{
  signature_hasher, digest, p2pkh_script_code, set_witness, set_witnesses, signed_with,
}
use scarlet_coin.Builder.{Item, PrivateKey, inputs_of, witnesses_of, sign_inputs}

-- Setting a witness replaces the input at the index, and only its witness.
set_witness-append :
    (pre : List TxInput) (p : OutPoint) (is : List TxInput) (w : List Bytes)
    → set_witness
        (pre ++ (record { prevout = p; sequence = sequence_final; witness = [] } ∷ is))
        (length pre)
        w
      ≡ ok (pre ++ (record { prevout = p; sequence = sequence_final; witness = w } ∷ is))
unfolding set_witness tx_input
set_witness-append [] p is w = refl
set_witness-append (i ∷ pre) p is w = rw (set_witness-append pre p is w) refl

made :
    (version : ℕ) (inputs : List TxInput) (outputs : List TxOutput) (lock_time : ℕ)
    (coinbase_data : Bytes) (tx : Transaction)
    → transaction version inputs outputs lock_time coinbase_data ≡ ok tx
    → record {
      version = version;
      inputs = inputs;
      outputs = outputs;
      lock_time = lock_time;
      coinbase_data = coinbase_data;
    }
      ≡ tx
unfolding transaction
made version inputs outputs lock_time coinbase_data tx e =
    let (_, e1) = (>>_iff (raise_if (not (leb version 0xFFFFFFFF)) transaction_error) _).0 e in
    let (_, e2) = (>>_iff (raise_if (not (leb lock_time 0xFFFFFFFF)) transaction_error) _).0 e1 in
    value e2
  where
    value : {x y : Transaction} → ok x ≡ ok y → x ≡ y
    value e = cc

module _ (c : Crypto) (keys : Dict Bytes PrivateKey) (hasher : Bytes) where
  -- Inputs from `index` on, each with the witness of its coin's key for its digest.
  abbrev pub AreSigned : ℕ → List Item → List TxInput → Type 0
  AreSigned index [] [] = Unit
  AreSigned index [] (i ∷ is) = ⊥
  AreSigned index (x ∷ items) [] = ⊥
  AreSigned index ((p, coin) ∷ items) (i ∷ is) =
      (i.prevout ≡ p)
      × (i.sequence ≡ sequence_final)
      × ((key : PrivateKey) × (message : Bytes) × (lookup bytes_eq coin.payload keys ≡ some key)
          × (digest c hasher index coin.value (p2pkh_script_code coin.payload) ≡ ok message)
          × (i.witness ≡ key.public ∷ key.sign message ∷ []))
      × AreSigned (index + 1) items is

  witnesses_of_step :
      (index : ℕ) (x : Item) (items : List Item) (ws : List (ℕ × List Bytes))
      → witnesses_of c keys hasher index (x ∷ items) ≡ ok ws
      → (key : PrivateKey) × (message : Bytes) × (more : List (ℕ × List Bytes)) × (lookup bytes_eq
            x.1.payload keys
          ≡ some key)
        × (digest c hasher index x.1.value (p2pkh_script_code x.1.payload) ≡ ok message)
        × (witnesses_of c keys hasher (index + 1) items ≡ ok more)
        × (ws ≡ (index, key.public ∷ key.sign message ∷ []) ∷ more)
  unfolding witnesses_of
  witnesses_of_step index (p, coin) items ws e =
      elim (Option-cases (lookup bytes_eq coin.payload keys)) [
        | inl x ↦
            let missing : witnesses_of c keys hasher index ((p, coin) ∷ items) ≡ err value_error =
              rw (x, witnesses_of) refl in
            absurd (cc (missing, e))
        | inr (key, x) ↦
            let found : witnesses_of c keys hasher index ((p, coin) ∷ items) ≡ (
                digest c hasher index coin.value (p2pkh_script_code coin.payload) >>= λ message.
                map_ok (λ more. (index, key.public ∷ key.sign message ∷ []) ∷ more)
                  (witnesses_of c keys hasher (index + 1) items)) =
              rw (x, witnesses_of) refl in
            let (message, e1, e2) =
              >>=-eq-ok (digest c hasher index coin.value (p2pkh_script_code coin.payload)) _
                (sym found ∙ e) in
            let (more, e3, e4) = map_ok-eq-ok _ (witnesses_of c keys hasher (index + 1) items) e2 in
            (key, message, more, x, e1, e3, sym e4)
      ]

  set_witnesses_first :
      (pre : List TxInput) (p : OutPoint) (is : List TxInput) (w : List Bytes)
      (more : List (ℕ × List Bytes)) (result : List TxInput)
      → set_witnesses
          ((length pre, w) ∷ more)
          (pre ++ (record { prevout = p; sequence = sequence_final; witness = [] } ∷ is))
        ≡ ok result
      → set_witnesses more
          ((pre ++ (record { prevout = p; sequence = sequence_final; witness = w } ∷ [])) ++ is)
        ≡ ok result
  unfolding set_witnesses
  set_witnesses_first pre p is w more result e =
      let now : TxInput = record { prevout = p; sequence = sequence_final; witness = w } in
      rw (append_assoc pre (now ∷ []) is)
        (sym (ap (λ r. r >>= λ next. set_witnesses more next) (set_witness-append pre p is w)) ∙ e)

  set_witnesses-AreSigned :
      (items : List Item) (pre : List TxInput) (ws : List (ℕ × List Bytes)) (result : List TxInput)
      → witnesses_of c keys hasher (length pre) items ≡ ok ws
      → set_witnesses ws (pre ++ inputs_of items) ≡ ok result
      → (suffix : List TxInput) × (result ≡ pre ++ suffix) × AreSigned (length pre) items suffix
  unfolding inputs_of witnesses_of set_witnesses
  set_witnesses-AreSigned [] pre ws result e f =
      let nothing : ws ≡ [] = cc e in
      ([], same (subst (λ l. set_witnesses l (pre ++ []) ≡ ok result) nothing f), tt)
    where
      same : {x y : List TxInput} → ok x ≡ ok y → y ≡ x
      same e = cc
  set_witnesses-AreSigned ((p, coin) ∷ items) pre ws result e f =
      let (key, message, more, known, signed, rest, all) =
        witnesses_of_step (length pre) (p, coin) items ws e in
      let w = key.public ∷ key.sign message ∷ [] in
      let now : TxInput = record { prevout = p; sequence = sequence_final; witness = w } in
      let longer : length pre + 1 ≡ length (pre ++ (now ∷ [])) =
        omega (arith, length-append pre (now ∷ [])) in
      let (suffix, made, h) =
        set_witnesses-AreSigned items (pre ++ (now ∷ [])) more result
          (subst (λ n. witnesses_of c keys hasher n items ≡ ok more) longer rest)
          (set_witnesses_first pre p (inputs_of items) w more result (
            subst (λ l. set_witnesses l (pre ++ inputs_of ((p, coin) ∷ items)) ≡ ok result) all
              f)) in
      (
        now ∷ suffix,
        made ∙ append_assoc pre (now ∷ []) suffix,
        (
          refl,
          refl,
          (key, message, known, signed, refl),
          subst (λ n. AreSigned n items suffix) (sym longer) h,
        ),
      )

  -- The bytes of the inputs do not depend on the witnesses.
  write_input-AreSigned :
      (items : List Item) (is : List TxInput) (index : ℕ)
      → AreSigned index items is
      → (write_each write_input is ≡ write_each write_input (inputs_of items))
        × (length is ≡ length (inputs_of items))
  unfolding write_each write_input inputs_of
  write_input-AreSigned [] [] index h = (refl, refl)
  write_input-AreSigned [] (i ∷ is) index h = elim h [ ]
  write_input-AreSigned (x ∷ items) [] index h = elim h [ ]
  write_input-AreSigned ((p, coin) ∷ items) (i ∷ is) index (e, f, _, h) =
      let (same, len) = write_input-AreSigned items is (index + 1) h in
      (rw (e, f, same) refl, ap suc len)

signature_hasher_same :
    (a b : Transaction)
    → a.version ≡ b.version
    → a.outputs ≡ b.outputs
    → a.lock_time ≡ b.lock_time
    → a.coinbase_data ≡ b.coinbase_data
    → write_each write_input a.inputs ≡ write_each write_input b.inputs
    → length a.inputs ≡ length b.inputs
    → signature_hasher a ≡ signature_hasher b
unfolding signature_hasher serialize_body
signature_hasher_same a b v o l d w n = rw (v, o, l, d, w, n) refl

-- Signing gives every input its witness, for the digests of the transaction that it returns.
pub sign_inputs-AreSigned :
    (c : Crypto) (keys : Dict Bytes PrivateKey) (outputs : List TxOutput) (lock_time : ℕ)
    (items : List Item) (unsigned signed : Transaction)
    → transaction 1 (inputs_of items) outputs lock_time [] ≡ ok unsigned
    → sign_inputs c keys unsigned items ≡ ok signed
    → (hasher : Bytes) × (signature_hasher signed ≡ ok hasher)
      × AreSigned c keys hasher 0 items signed.inputs
unfolding sign_inputs signed_with
sign_inputs-AreSigned c keys outputs lock_time items unsigned signed e f =
    let (hasher, e1, e2) = >>=-eq-ok (signature_hasher unsigned) _ f in
    let (ws, e3, e4) = >>=-eq-ok (witnesses_of c keys hasher 0 items) _ e2 in
    let (inputs, e5, e6) = >>=-eq-ok (set_witnesses ws unsigned.inputs) _ e4 in
    let before = made 1 (inputs_of items) outputs lock_time [] unsigned e in
    let after =
      made unsigned.version inputs unsigned.outputs unsigned.lock_time unsigned.coinbase_data signed
        e6 in
    let (suffix, whole, h) = set_witnesses-AreSigned c keys hasher items [] ws inputs e3 (
      subst (λ l. set_witnesses ws l ≡ ok inputs) (ap (λ (t : Transaction). t.inputs) (sym before))
        e5) in
    let inputs_same : signed.inputs ≡ suffix =
      ap (λ (t : Transaction). t.inputs) (sym after) ∙ whole in
    let (written, len) = write_input-AreSigned c keys hasher items suffix 0 h in
    let start : inputs_of items ≡ unsigned.inputs = ap (λ (t : Transaction). t.inputs) before in
    (
      hasher,
      signature_hasher_same signed unsigned (ap (λ (t : Transaction). t.version) (sym after))
            (ap (λ (t : Transaction). t.outputs) (sym after))
            (ap (λ (t : Transaction). t.lock_time) (sym after))
            (ap (λ (t : Transaction). t.coinbase_data) (sym after))
            (ap (write_each write_input) inputs_same ∙ written ∙ ap (write_each write_input) start)
            (ap length inputs_same ∙ len ∙ ap length start)
          ∙ e1,
      subst (AreSigned c keys hasher 0 items) (sym inputs_same) h,
    )
