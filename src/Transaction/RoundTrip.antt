-- ===== src/Transaction/RoundTrip.antt =====
-- Parsing what was serialised.
use scarlet_coin.Prelude.{
  ℕ, ◌+◌, ◌*◌, ◌/◌, ◌≤◌, ◌≡◌, refl, ap, false, List, [], ◌++◌, append-nil, arith, ltb, ◌==◌, length,
  map, All, length-append, subst,
}
use scarlet_coin.Prelude.Bytes.{Bytes}
use scarlet_coin.Outcome.{Result, ok, raise_if, serialization_error}
use scarlet_coin.Serialize.{
  ◌⊕◌, raw, uint8, uint32, uint64, varint, varbytes, hash32, write_each, ◌>>=◌, pure, reject_if,
  read_uint, read_varint, read_varbytes, read_times, expect_end,
}
use scarlet_coin.Serialize.Laws.{
  ReadsBack, ⊕-eq-ok, length-pack, ReadsBack-uint, ReadsBack-bind, ReadsBack-then, ReadsBack-lift,
  ReadsBack-reject_if, ReadsBack-varint, ReadsBack-varbytes, ⊕_assoc, length-hash32,
  length-write_each,
}
use scarlet_coin.Transaction.{TxInput, TxOutput, Transaction, max_coinbase_data}
use scarlet_coin.Transaction.Codec.{
  write_input, write_output, write_witness, serialize_body, serialize, read_input, read_output,
  read_witnesses, read_tail, read_outputs, read, deserialize,
}
use scarlet_coin.Transaction.Fields.{
  IsInput, IsOutput, IsReadable, bare, lift-ok, transaction_lem, ReadsBack-list, ReadsBack-input,
  ReadsBack-output, ReadsBack-times, ReadsBack-witnesses,
}

length-write_input : (i : TxInput) (bs : Bytes) → write_input i ≡ ok bs → length bs ≡ 40
unfolding write_input
length-write_input i bs e =
    let (x, y, ex, ey, p) = ⊕-eq-ok (hash32 i.prevout.txid) _ bs e in
    let (z, w, ez, ew, q) = ⊕-eq-ok (uint32 i.prevout.index) (uint32 i.sequence) y ey in
    rw (p, q, length-append x (z ++ w), length-append z w)
      (omega (arith, length-hash32 _ x ex, length-pack 4 _ z ez, length-pack 4 _ w ew))

length-write_output :
    (o : TxOutput) → IsOutput o → (bs : Bytes) → write_output o ≡ ok bs → length bs ≡ 29
unfolding write_output
length-write_output o h bs e =
    let (x, y, ex, ey, p) = ⊕-eq-ok (uint8 o.type) _ bs e in
    let (z, w, ez, ew, q) = ⊕-eq-ok (uint64 o.value) (raw o.payload) y ey in
    let r : o.payload ≡ w = cc in
    rw (p, q, length-append x (z ++ w), length-append z w, ← r)
      (omega (arith, length-pack 1 _ x ex, length-pack 8 _ z ez, h.payload_length))

-- The writer of `serialize`, nested as the reader reads.
abbrev witnesses : Transaction → Result Bytes
witnesses tx = write_each write_witness tx.inputs

abbrev tail_part : Transaction → Result Bytes
tail_part tx = uint32 tx.lock_time ⊕ varbytes tx.coinbase_data ⊕ witnesses tx

abbrev outputs_part : Transaction → Result Bytes
outputs_part tx = varint (length tx.outputs) ⊕ write_each write_output tx.outputs ⊕ tail_part tx

abbrev nested : Transaction → Result Bytes
nested tx =
    uint32 tx.version
    ⊕ varint (length tx.inputs)
    ⊕ write_each write_input tx.inputs
    ⊕ outputs_part tx

serialize-nested : (tx : Transaction) → serialize tx ≡ nested tx
unfolding serialize serialize_body
serialize-nested tx = simp ⊕_assoc

-- The reader's bound on a count, which honest counts pass.
inputs_bound : (n left : ℕ) → 40 * n ≤ left → ltb (left / 40 + 1) n ≡ false
inputs_bound n left h = ground arith

outputs_bound : (n left : ℕ) → 29 * n ≤ left → ltb (left / 29 + 1) n ≡ false
outputs_bound n left h = ground arith

module _ (tx : Transaction) (h : IsReadable tx) where
  ReadsBack-tail :
      ReadsBack (read_tail tx.version (map bare tx.inputs) tx.outputs) (tail_part tx) tx
  unfolding read_tail
  ReadsBack-tail =
      ReadsBack-bind (read_uint 4) _ (uint32 tx.lock_time)
        (varbytes tx.coinbase_data ⊕ witnesses tx) tx.lock_time tx (ReadsBack-uint 4 tx.lock_time)
        (ReadsBack-bind (read_varbytes max_coinbase_data) _ (varbytes tx.coinbase_data)
          (witnesses tx) tx.coinbase_data tx
          (ReadsBack-varbytes max_coinbase_data tx.coinbase_data h.extra_fits)
          (ReadsBack-then (read_witnesses (map bare tx.inputs)) _ (witnesses tx) tx.inputs tx
            (ReadsBack-witnesses tx.inputs h.inputs_fit)
            (λ r. lift-ok _ tx r (transaction_lem tx h))))

  -- The checks of a count against what remains let every honest count through.
  count_fits :
      {A : Type 0} {P : A → Type 0} (f : A → Result Bytes) (k : ℕ) (xs : List A) (w : Result Bytes)
      → ((x : A) → P x → (b : Bytes) → f x ≡ ok b → length b ≡ k)
      → All P xs
      → (bs rest : Bytes) → (write_each f xs ⊕ w) ≡ ok bs
      → k * length xs ≤ length (bs ++ rest)
  count_fits {P} f k xs w size ps bs rest e =
      let (a, b, ea, eb, p) = ⊕-eq-ok (write_each f xs) w bs e in
      omega (
        arith,
        length-write_each P f k xs a size ps ea,
        length-append bs rest,
        length-append a b,
        ap length p,
      )

  ReadsBack-outputs : ReadsBack (read_outputs tx.version (map bare tx.inputs)) (outputs_part tx) tx
  unfolding read_outputs
  ReadsBack-outputs =
      ReadsBack-bind read_varint _ (varint (length tx.outputs)) _ (length tx.outputs) tx
        (ReadsBack-varint (length tx.outputs))
        (ReadsBack-lift (raise_if (length tx.outputs == 0) serialization_error) _ _ tt tx
          (ground (arith, h.some_output))
          (ReadsBack-reject_if _ _ _ _ tx
            (λ bs rest e. outputs_bound (length tx.outputs) (length (bs ++ rest)) (
              count_fits write_output 29 tx.outputs (tail_part tx) length-write_output h.outputs_fit
                bs rest e))
            (ReadsBack-bind (read_times (length tx.outputs) read_output) _
              (write_each write_output tx.outputs) (tail_part tx) tx.outputs tx
              (ReadsBack-list IsOutput read_output write_output tx.outputs ReadsBack-output
                h.outputs_fit)
              ReadsBack-tail)))

  ReadsBack-read : ReadsBack read (nested tx) tx
  unfolding read
  ReadsBack-read =
      ReadsBack-bind (read_uint 4) _ (uint32 tx.version) _ tx.version tx
        (ReadsBack-uint 4 tx.version)
        (ReadsBack-bind read_varint _ (varint (length tx.inputs)) _ (length tx.inputs) tx
          (ReadsBack-varint (length tx.inputs))
          (ReadsBack-lift (raise_if (length tx.inputs == 0) serialization_error) _ _ tt tx
            (ground (arith, h.some_input))
            (ReadsBack-reject_if _ _ _ _ tx
              (λ bs rest e. inputs_bound (length tx.inputs) (length (bs ++ rest)) (
                count_fits write_input 40 tx.inputs (outputs_part tx) (λ i _. length-write_input i)
                  h.inputs_fit bs rest e))
              (ReadsBack-bind (read_times (length tx.inputs) read_input) _
                (write_each write_input tx.inputs) (outputs_part tx) (map bare tx.inputs) tx
                (ReadsBack-times IsInput read_input write_input bare tx.inputs ReadsBack-input
                  h.inputs_fit)
                ReadsBack-outputs))))

  -- A block or a peer message that goes on after the transaction is read from where it ends.
  pub ReadsBack-transaction : ReadsBack read (serialize tx) tx
  ReadsBack-transaction = rw (serialize-nested tx) ReadsBack-read

-- A transaction within the ranges that its constructors check, with at least one input and one
-- output, no witness item of more than 520 bytes and at most 100 bytes of coinbase data, which they
-- do not check, is, if it can be serialised, what deserialising those bytes returns.
pub deserialize-of_serialize :
    (tx : Transaction)
    → IsReadable tx
    → (bs : Bytes) → serialize tx ≡ ok bs
    → deserialize bs ≡ ok tx
unfolding deserialize ◌>>=◌ expect_end reject_if pure
deserialize-of_serialize tx h bs e =
    let whole : read bs ≡ ok (tx, []) =
      subst (λ t. read t ≡ ok (tx, [])) (append-nil bs) ((ReadsBack-transaction tx h).at bs [] e) in
    rw (whole, ◌>>=◌) refl
