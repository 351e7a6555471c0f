-- ===== src/Storage/UndoTrip.antt =====
-- Undo data is read back as it was written.
use scarlet_coin.Prelude.{
  ℕ, ◌≤◌, ◌≡◌, refl, ◌∙◌, sym, ap, subst, Bool, true, false, not, [], arith, ◌==◌, length,
  append-nil, All, if◌then◌else◌,
}
use scarlet_coin.Prelude.Bytes.{Bytes, bytes_eq_refl}
use scarlet_coin.Outcome.{ok, map_ok-eq-ok}
use scarlet_coin.Serialize.{
  raw, uint8, uint32, uint64, varint, hash32, ◌>>=◌, pure, reject_if, read_raw, read_uint,
  read_varint, read_hash32, expect_end,
}
use scarlet_coin.Serialize.Laws.{
  ReadsBack, ReadsBack-raw, ReadsBack-uint, ReadsBack-varint, ReadsBack-hash32, ReadsBack-bind,
  ReadsBack-then, ReadsBack-lift,
}
use scarlet_coin.Transaction.{OutPoint, out_point}
use scarlet_coin.Transaction.Fields.{ReadsBack-list}
use scarlet_coin.Utxo.{Coin}
use scarlet_coin.Storage.{
  Storage, Spent, write_coin, read_coin, write_entry, read_entry, write_undo, read_entries,
  read_undo, put_undo, get_undo, find_undo,
}

ReadsBack-coin :
    (coin : Coin) → length coin.payload ≡ 20 → ReadsBack read_coin (write_coin coin) coin
unfolding read_coin write_coin pure
ReadsBack-coin coin h =
    ReadsBack-bind (read_uint 8) _ (uint64 coin.value) _ coin.value coin
      (ReadsBack-uint 8 coin.value)
      (ReadsBack-bind (read_uint 1) _ (uint8 coin.output_type) _ coin.output_type coin
        (ReadsBack-uint 1 coin.output_type)
        (ReadsBack-bind (read_raw 20) _ (raw coin.payload) _ coin.payload coin
          (ReadsBack-raw 20 coin.payload h)
          (ReadsBack-bind (read_uint 4) _ (uint32 coin.height) _ coin.height coin
            (ReadsBack-uint 4 coin.height)
            (ReadsBack-then (read_uint 1) _ (uint8 (flag coin.is_coinbase)) (flag coin.is_coinbase)
              coin (ReadsBack-uint 1 (flag coin.is_coinbase)) (λ r. last coin.is_coinbase r)))))
  where
    flag : Bool → ℕ
    flag b = if b then 1 else 0

    last :
        (b : Bool) (r : Bytes)
        → pure (record coin { is_coinbase = not (flag b == 0) }) r
          ≡ ok (record coin { is_coinbase = b }, r)
    last true r = refl
    last false r = refl

-- What an entry of a transaction's own coins satisfies: ids of 32 bytes and hashes of 20.
pub record IsEntry (e : OutPoint × Coin) : Type 0 where
  pub txid_length : length (e.0).txid ≡ 32
  pub index_fits : (e.0).index ≤ 0xFFFFFFFF
  pub payload_length : length (e.1).payload ≡ 20

ReadsBack-entry : (e : OutPoint × Coin) → IsEntry e → ReadsBack read_entry (write_entry e) e
unfolding read_entry write_entry pure out_point
ReadsBack-entry (p, coin) h =
    let made : out_point p.txid p.index ≡ ok p = ground (arith, h.txid_length, h.index_fits) in
    ReadsBack-bind read_hash32 _ (hash32 p.txid) _ p.txid (p, coin) (ReadsBack-hash32 p.txid)
      (ReadsBack-bind (read_uint 4) _ (uint32 p.index) _ p.index (p, coin)
        (ReadsBack-uint 4 p.index)
        (ReadsBack-lift (out_point p.txid p.index) _ _ p (p, coin) made
          (ReadsBack-then read_coin _ (write_coin coin) coin (p, coin)
            (ReadsBack-coin coin h.payload_length) (λ r. refl))))

ReadsBack-entries :
    (spent : Spent) → All IsEntry spent → ReadsBack read_entries (write_undo spent) spent
unfolding read_entries write_undo
ReadsBack-entries spent h =
    ReadsBack-bind read_varint _ (varint (length spent)) _ (length spent) spent
      (ReadsBack-varint (length spent))
      (ReadsBack-list IsEntry read_entry write_entry spent ReadsBack-entry h)

-- Reading undo data gives the entries that were written, in order.
pub read_undo-of_write_undo :
    (spent : Spent) (bytes : Bytes)
    → All IsEntry spent
    → write_undo spent ≡ ok bytes
    → read_undo bytes ≡ ok spent
unfolding read_undo ◌>>=◌ expect_end reject_if pure
read_undo-of_write_undo spent bytes h e =
    let whole : read_entries bytes ≡ ok (spent, []) =
      subst (λ t. read_entries t ≡ ok (spent, [])) (append-nil bytes)
        ((ReadsBack-entries spent h).at bytes [] e) in
    rw (whole, ◌>>=◌) refl

-- The undo data that is stored for a block is what `get_undo` gives for it, whatever data was
-- stored before, if its ids have 32 bytes, its indexes 32 bits and its payloads 20 bytes.
pub get_undo-put_undo :
    (id : Bytes) (spent : Spent) (s s' : Storage)
    → All IsEntry spent
    → put_undo id spent s ≡ ok s'
    → get_undo id s' ≡ ok spent
unfolding get_undo put_undo find_undo
get_undo-put_undo id spent s s' h e =
    let (bytes, e1, last) = map_ok-eq-ok _ (write_undo spent) e in
    let at = λ (x : Storage). get_undo id x in
    sym (ap at last) ∙ rw (get_undo, bytes_eq_refl id) (read_undo-of_write_undo spent bytes h e1)
