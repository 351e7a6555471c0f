-- ===== src/Block/HeaderTrip.antt =====
-- A header that can be written has 80 bytes, and is read back from them.
use scarlet_coin.Prelude.{
  ◌^◌, ◌<◌, ◌≡◌, refl, subst, true, [], ◌++◌, arith, leb, length, length-append, append-nil,
}
use scarlet_coin.Prelude.Bytes.{Bytes}
use scarlet_coin.Outcome.{ok}
use scarlet_coin.Serialize.{uint32, hash32, lift, read_uint, read_hash32}
use scarlet_coin.Serialize.Laws.{
  ReadsBack, ⊕-eq-ok, length-pack, pack-eq-ok, length-hash32, ReadsBack-uint, ReadsBack-hash32,
  ReadsBack-bind, ReadsBack-then,
}
use scarlet_coin.Block.{BlockHeader, block_header}
use scarlet_coin.Block.Codec.{write_header, read_header, deserialize_header}

hashed_size : (h bs : Bytes) → hash32 h ≡ ok bs → length h ≡ 32
unfolding hash32
hashed_size h bs e = ground arith

-- What the writer checks is what the constructor checks.
record IsHeader (h : BlockHeader) : Type 0 where
  prev_length : length h.prev_hash ≡ 32
  root_length : length h.merkle_root ≡ 32
  version_fits : h.version < 256 ^ 4
  timestamp_fits : h.timestamp < 256 ^ 4
  bits_fits : h.bits < 256 ^ 4
  nonce_fits : h.nonce < 256 ^ 4

written : (h : BlockHeader) (bs : Bytes) → write_header h ≡ ok bs → IsHeader h × (length bs ≡ 80)
unfolding write_header
written h bs e =
    let (a, r1, ea, e1, p1) = ⊕-eq-ok (uint32 h.version) _ bs e in
    let (b, r2, eb, e2, p2) = ⊕-eq-ok (hash32 h.prev_hash) _ r1 e1 in
    let (d, r3, ed, e3, p3) = ⊕-eq-ok (hash32 h.merkle_root) _ r2 e2 in
    let (t, r4, et, e4, p4) = ⊕-eq-ok (uint32 h.timestamp) _ r3 e3 in
    let (m, n, em, en, p5) = ⊕-eq-ok (uint32 h.bits) (uint32 h.nonce) r4 e4 in
    (
      record {
        prev_length = hashed_size h.prev_hash b eb;
        root_length = hashed_size h.merkle_root d ed;
        version_fits = (pack-eq-ok 4 h.version a ea).0;
        timestamp_fits = (pack-eq-ok 4 h.timestamp t et).0;
        bits_fits = (pack-eq-ok 4 h.bits m em).0;
        nonce_fits = (pack-eq-ok 4 h.nonce n en).0;
      },
      rw
          (
            p1,
            p2,
            p3,
            p4,
            p5,
            length-append a (b ++ (d ++ (t ++ (m ++ n)))),
            length-append b (d ++ (t ++ (m ++ n))),
            length-append d (t ++ (m ++ n)),
            length-append t (m ++ n),
            length-append m n,
          )
          (omega (
            arith,
            length-pack 4 h.version a ea,
            length-hash32 h.prev_hash b eb,
            length-hash32 h.merkle_root d ed,
            length-pack 4 h.timestamp t et,
            length-pack 4 h.bits m em,
            length-pack 4 h.nonce n en,
          )),
    )

block_header_lem :
    (h : BlockHeader)
    → IsHeader h
    → block_header h.version h.prev_hash h.merkle_root h.timestamp h.bits h.nonce ≡ ok h
unfolding block_header
block_header_lem h i =
    let a : leb h.version 0xFFFFFFFF ≡ true = ground (arith, i.version_fits) in
    let b : leb h.timestamp 0xFFFFFFFF ≡ true = ground (arith, i.timestamp_fits) in
    let d : leb h.bits 0xFFFFFFFF ≡ true = ground (arith, i.bits_fits) in
    let e : leb h.nonce 0xFFFFFFFF ≡ true = ground (arith, i.nonce_fits) in
    rw (i.prev_length, i.root_length, a, b, d, e) refl

ReadsBack-header : (h : BlockHeader) → IsHeader h → ReadsBack read_header (write_header h) h
unfolding read_header write_header lift
ReadsBack-header h i =
    ReadsBack-bind (read_uint 4) _ (uint32 h.version) _ h.version h (ReadsBack-uint 4 h.version) (
      ReadsBack-bind read_hash32 _ (hash32 h.prev_hash) _ h.prev_hash h
        (ReadsBack-hash32 h.prev_hash)
        (ReadsBack-bind read_hash32 _ (hash32 h.merkle_root) _ h.merkle_root h
          (ReadsBack-hash32 h.merkle_root)
          (ReadsBack-bind (read_uint 4) _ (uint32 h.timestamp) _ h.timestamp h
            (ReadsBack-uint 4 h.timestamp)
            (ReadsBack-bind (read_uint 4) _ (uint32 h.bits) _ h.bits h (ReadsBack-uint 4 h.bits) (
              ReadsBack-then (read_uint 4) _ (uint32 h.nonce) h.nonce h (ReadsBack-uint 4 h.nonce)
                (λ r. rw (block_header_lem h i) refl))))))

-- Every header that `serialize` writes has 80 bytes, from which `deserialize` makes it again.
pub deserialize_header-of_write_header :
    (h : BlockHeader) (bs : Bytes)
    → write_header h ≡ ok bs
    → (length bs ≡ 80) × (deserialize_header bs ≡ ok h)
unfolding deserialize_header
deserialize_header-of_write_header h bs e =
    let (i, size) = written h bs e in
    let whole : read_header bs ≡ ok (h, []) =
      subst (λ t. read_header t ≡ ok (h, [])) (append-nil bs) ((ReadsBack-header h i).at bs [] e) in
    (size, rw (size, whole) refl)
