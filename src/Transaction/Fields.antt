-- ===== src/Transaction/Fields.antt =====
-- Each part of a transaction is read back as it was written, if its constructor accepts it.
use scarlet_coin.Prelude.{◌≤◌, ◌<◌, ◌≡◌, refl, ap, List, [], ◌∷◌, arith, subst, length, map, All}
use scarlet_coin.Prelude.Bytes.{Bytes}
use scarlet_coin.Outcome.{Result, ok}
use scarlet_coin.Crypto.{pubkey_hash_length}
use scarlet_coin.Serialize.{
  ◌⊕◌, raw, uint8, uint32, uint64, varint, varbytes, hash32, write_each, Read, pure, lift, read_raw,
  read_uint, read_varint, read_varbytes, read_hash32, read_times,
}
use scarlet_coin.Serialize.Laws.{
  ReadsBack, ReadsBack-raw, ReadsBack-uint, ReadsBack-bind, ReadsBack-then, ReadsBack-lift,
  ReadsBack-varint, ReadsBack-varbytes, ReadsBack-hash32,
}
use scarlet_coin.Transaction.{
  out_point, TxInput, tx_input, TxOutput, tx_output, Transaction, transaction, max_coinbase_data,
  max_witness_item_size, max_money,
}
use scarlet_coin.Transaction.Codec.{
  write_input, write_output, write_witness, read_input, read_output, read_witness, read_witnesses,
}

-- The ranges that the constructors and the reader's limits ask for.
pub record IsInput (i : TxInput) : Type 0 where
  pub txid_length : length i.prevout.txid ≡ 32
  pub index_fits : i.prevout.index ≤ 0xFFFFFFFF
  pub sequence_fits : i.sequence ≤ 0xFFFFFFFF
  pub items_fit : All (λ item. length item ≤ max_witness_item_size) i.witness

pub record IsOutput (o : TxOutput) : Type 0 where
  pub known_type : o.type ≤ 1
  pub value_fits : o.value ≤ max_money
  pub payload_length : length o.payload ≡ pubkey_hash_length

pub record IsReadable (tx : Transaction) : Type 0 where
  pub version_fits : tx.version ≤ 0xFFFFFFFF
  pub lock_time_fits : tx.lock_time ≤ 0xFFFFFFFF
  pub some_input : 0 < length tx.inputs
  pub some_output : 0 < length tx.outputs
  pub inputs_fit : All IsInput tx.inputs
  pub outputs_fit : All IsOutput tx.outputs
  pub extra_fits : length tx.coinbase_data ≤ max_coinbase_data

abbrev pub bare : TxInput → TxInput
bare i = record i { witness = [] }

out_point_lem : (i : TxInput) → IsInput i → out_point i.prevout.txid i.prevout.index ≡ ok i.prevout
unfolding out_point
out_point_lem i h = ground arith

tx_input_lem :
    (i : TxInput) (w : List Bytes)
    → IsInput i
    → tx_input i.prevout i.sequence w ≡ ok (record i { witness = w })
unfolding tx_input
tx_input_lem i w h = ground arith

tx_output_lem : (o : TxOutput) → IsOutput o → tx_output o.type o.value o.payload ≡ ok o
unfolding tx_output
tx_output_lem o h = ground arith

pub transaction_lem :
    (tx : Transaction)
    → IsReadable tx
    → transaction tx.version tx.inputs tx.outputs tx.lock_time tx.coinbase_data ≡ ok tx
unfolding transaction
transaction_lem tx h = ground arith

pub lift-ok {ℓ} : {A : Type ℓ} (x : Result A) (a : A) (r : Bytes) → x ≡ ok a → lift x r ≡ ok (a, r)
unfolding lift
lift-ok x a r h = rw h

pub ReadsBack-input : (i : TxInput) → IsInput i → ReadsBack read_input (write_input i) (bare i)
unfolding read_input write_input
ReadsBack-input i h =
    ReadsBack-bind read_hash32 _ (hash32 i.prevout.txid)
      (uint32 i.prevout.index ⊕ uint32 i.sequence) i.prevout.txid (bare i)
      (ReadsBack-hash32 i.prevout.txid)
      (ReadsBack-bind (read_uint 4) _ (uint32 i.prevout.index) (uint32 i.sequence) i.prevout.index
        (bare i) (ReadsBack-uint 4 i.prevout.index)
        (ReadsBack-lift (out_point i.prevout.txid i.prevout.index) _ (uint32 i.sequence) i.prevout
          (bare i) (out_point_lem i h)
          (ReadsBack-then (read_uint 4) _ (uint32 i.sequence) i.sequence (bare i)
            (ReadsBack-uint 4 i.sequence) (λ r. lift-ok _ (bare i) r (tx_input_lem i [] h)))))

pub ReadsBack-output : (o : TxOutput) → IsOutput o → ReadsBack read_output (write_output o) o
unfolding read_output write_output
ReadsBack-output o h =
    ReadsBack-bind (read_uint 1) _ (uint8 o.type) (uint64 o.value ⊕ raw o.payload) o.type o
      (ReadsBack-uint 1 o.type)
      (ReadsBack-bind (read_uint 8) _ (uint64 o.value) (raw o.payload) o.value o
        (ReadsBack-uint 8 o.value)
        (ReadsBack-then (read_raw pubkey_hash_length) _ (raw o.payload) o.payload o
          (ReadsBack-raw pubkey_hash_length o.payload h.payload_length)
          (λ r. lift-ok _ o r (tx_output_lem o h))))

-- `read_times` over items that each read back, as `g` of what was written.
pub ReadsBack-times {ℓ κ μ} :
    {A : Type ℓ} {B : Type κ} (P : A → Type μ) (m : Read B) (f : A → Result Bytes) (g : A → B)
    (xs : List A)
    → ((x : A) → P x → ReadsBack m (f x) (g x))
    → All P xs
    → ReadsBack (read_times (length xs) m) (write_each f xs) (map g xs)
unfolding read_times write_each pure
ReadsBack-times P m f g [] h all_p = record { at = λ bs rest e. let p : bs ≡ [] = cc in rw p refl }
ReadsBack-times P m f g (x ∷ xs) h all_p =
    ReadsBack-bind m _ (f x) (write_each f xs) (g x) (map g (x ∷ xs)) (h x all_p.0) (
      ReadsBack-then (read_times (length xs) m) _ (write_each f xs) (map g xs) (map g (x ∷ xs))
        (ReadsBack-times P m f g xs h all_p.1) (λ r. refl))

map_self {ℓ} : {A : Type ℓ} (xs : List A) → map (λ x. x) xs ≡ xs
map_self [] = refl
map_self (x ∷ xs) = ap (λ t. x ∷ t) (map_self xs)

pub ReadsBack-list {ℓ κ} :
    {A : Type ℓ} (P : A → Type κ) (m : Read A) (f : A → Result Bytes) (xs : List A)
    → ((x : A) → P x → ReadsBack m (f x) x)
    → All P xs
    → ReadsBack (read_times (length xs) m) (write_each f xs) xs
ReadsBack-list P m f xs h ps =
    subst (λ t. ReadsBack (read_times (length xs) m) (write_each f xs) t) (map_self xs)
      (ReadsBack-times P m f (λ x. x) xs h ps)

ReadsBack-witness :
    (i : TxInput) → IsInput i → ReadsBack (read_witness (bare i)) (write_witness i) i
unfolding read_witness write_witness
ReadsBack-witness i h =
    ReadsBack-bind read_varint _ (varint (length i.witness)) (write_each varbytes i.witness)
      (length i.witness) i (ReadsBack-varint (length i.witness))
      (ReadsBack-then (read_times (length i.witness) (read_varbytes max_witness_item_size)) _
        (write_each varbytes i.witness) i.witness i
        (ReadsBack-list _ (read_varbytes max_witness_item_size) varbytes i.witness
          (λ x hx. ReadsBack-varbytes max_witness_item_size x hx) h.items_fit)
        (λ r. lift-ok _ i r (tx_input_lem i i.witness h)))

pub ReadsBack-witnesses :
    (is : List TxInput)
    → All IsInput is
    → ReadsBack (read_witnesses (map bare is)) (write_each write_witness is) is
unfolding read_witnesses write_each pure
ReadsBack-witnesses [] h = record { at = λ bs rest e. let p : bs ≡ [] = cc in rw p refl }
ReadsBack-witnesses (i ∷ is) h =
    ReadsBack-bind (read_witness (bare i)) _ (write_witness i) (write_each write_witness is) i
      (i ∷ is) (ReadsBack-witness i h.0)
      (ReadsBack-then (read_witnesses (map bare is)) _ (write_each write_witness is) is (i ∷ is)
        (ReadsBack-witnesses is h.1) (λ r. refl))
