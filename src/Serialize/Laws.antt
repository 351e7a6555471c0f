-- ===== src/Serialize/Laws.antt =====
-- What each reader method does with the bytes that its writer method has written, in rules that
-- compose as the methods do.
use scarlet_coin.Prelude.{
  ℕ, ◌*◌, ◌^◌, ◌≤◌, ◌<◌, ◌≡◌, refl, ap, Bool, false, List, [], ◌∷◌, ◌++◌, All, append_assoc, arith,
  ltb, leb, length, length-append, take-append_self, drop-append_self, Bool-cases, inl, inr,
}
use scarlet_coin.Prelude.Bytes.{Bytes, to_le, length-to_le, from_le-to_le}
use scarlet_coin.Outcome.{Result, ok, err, Error, raise_if, serialization_error}
use scarlet_coin.Serialize.{
  ◌⊕◌, raw, pack, uint8, varint, varbytes, hash32, write_each, Read, ◌>>=◌, ◌>>◌, pure, lift,
  reject_if, read_raw, read_uint, canonical, read_varint, read_varbytes, read_varbytes_any,
  read_hash32,
}

-- Whatever `w` writes, `m` reads as `a`, and it leaves what follows.
pub record ReadsBack {ℓ} {A : Type ℓ} (m : Read A) (w : Result Bytes) (a : A) : Type ℓ where
  pub at : (bs rest : Bytes) → w ≡ ok bs → m (bs ++ rest) ≡ ok (a, rest)

pub ⊕-eq-ok :
    (v w : Result Bytes) (bs : Bytes)
    → (v ⊕ w) ≡ ok bs
    → (a : Bytes) × (b : Bytes) × (v ≡ ok a) × (w ≡ ok b) × (bs ≡ a ++ b)
unfolding ◌⊕◌
⊕-eq-ok (ok a) (ok b) bs h = (a, b, refl, refl, cc)
⊕-eq-ok (ok a) (err e) bs h = cc
⊕-eq-ok (err e) w bs h = cc

pub ⊕_assoc : (u v w : Result Bytes) → ((u ⊕ v) ⊕ w) ≡ (u ⊕ (v ⊕ w))
unfolding ◌⊕◌
⊕_assoc (ok a) (ok b) (ok c) = ap ok (append_assoc a b c)
⊕_assoc (ok a) (ok b) (err e) = refl
⊕_assoc (ok a) (err e) w = refl
⊕_assoc (err e) v w = refl

pub length-hash32 : (digest bs : Bytes) → hash32 digest ≡ ok bs → length bs ≡ 32
unfolding hash32
length-hash32 digest bs h = ground arith

-- Items of a known encoded size.
pub length-write_each {ℓ κ} :
    {A : Type ℓ} (P : A → Type κ) (f : A → Result Bytes) (k : ℕ) (xs : List A) (bs : Bytes)
    → ((x : A) → P x → (b : Bytes) → f x ≡ ok b → length b ≡ k)
    → All P xs
    → write_each f xs ≡ ok bs
    → length bs ≡ k * length xs
unfolding write_each
length-write_each P f k [] bs h ps e = let p : bs ≡ [] = cc in rw p (omega arith)
length-write_each P f k (x ∷ xs) bs h ps e =
    let (a, b, ea, eb, p) = ⊕-eq-ok (f x) (write_each f xs) bs e in
    rw (p, length-append a b) (grind (arith, h x ps.0 a ea, length-write_each P f k xs b h ps.1 eb))

pub pack-eq-ok : (n v : ℕ) (bs : Bytes) → pack n v ≡ ok bs → (v < 256 ^ n) × (bs ≡ to_le n v)
unfolding pack
pack-eq-ok n v bs h = ground arith

pub length-pack : (n v : ℕ) (bs : Bytes) → pack n v ≡ ok bs → length bs ≡ n
length-pack n v bs h = let (_, e) = pack-eq-ok n v bs h in rw e (length-to_le n v)

pub read_raw-append :
    (n : ℕ) (bs rest : Bytes) → length bs ≡ n → read_raw n (bs ++ rest) ≡ ok (bs, rest)
unfolding read_raw
read_raw-append n bs rest h =
    rw (← h)
      (ground (arith, length-append bs rest, take-append_self bs rest, drop-append_self bs rest))

pub ReadsBack-raw : (n : ℕ) (bs : Bytes) → length bs ≡ n → ReadsBack (read_raw n) (ok bs) bs
ReadsBack-raw n bs h = record {
  at = λ cs rest e. let p : bs ≡ cs = cc in rw (← p) (read_raw-append n bs rest h);
}

pub ReadsBack-uint : (n v : ℕ) → ReadsBack (read_uint n) (pack n v) v
unfolding read_uint ◌>>=◌ pure
ReadsBack-uint n v = record {
  at = λ bs rest e.
      let (fits, same) = pack-eq-ok n v bs e in
      rw same (
        rw (read_raw-append n (to_le n v) rest (length-to_le n v), ◌>>=◌)
          (rw (from_le-to_le n v fits)));
}

module _ {ℓ κ} {A : Type ℓ} {B : Type κ} where
  pub ReadsBack-bind :
      (m : Read A) (f : A → Read B) (w w' : Result Bytes) (a : A) (b : B)
      → ReadsBack m w a
      → ReadsBack (f a) w' b
      → ReadsBack (m >>= f) (w ⊕ w') b
  unfolding ◌>>=◌
  ReadsBack-bind m f w w' a b h k = record {
    at = λ bs rest e.
        let (x, y, ex, ey, same) = ⊕-eq-ok w w' bs e in
        rw (same, append_assoc x y rest) (rw (h.at x (y ++ rest) ex, ◌>>=◌) (k.at y rest ey));
  }

  -- What follows reads nothing more.
  pub ReadsBack-then :
      (m : Read A) (f : A → Read B) (w : Result Bytes) (a : A) (b : B)
      → ReadsBack m w a
      → ((r : Bytes) → f a r ≡ ok (b, r))
      → ReadsBack (m >>= f) w b
  unfolding ◌>>=◌
  ReadsBack-then m f w a b h k = record { at = λ bs rest e. rw (h.at bs rest e, ◌>>=◌) (k rest) }

  pub ReadsBack-lift :
      (x : Result A) (f : A → Read B) (w : Result Bytes) (a : A) (b : B)
      → x ≡ ok a
      → ReadsBack (f a) w b
      → ReadsBack (lift x >>= f) w b
  unfolding ◌>>=◌ lift
  ReadsBack-lift x f w a b h k = record { at = λ bs rest e. rw h (k.at bs rest e) }

module _ {ℓ} {B : Type ℓ} where
  pub ReadsBack-reject_if :
      (test : ℕ → Bool) (er : Error) (k : Read B) (w : Result Bytes) (b : B)
      → ((bs rest : Bytes) → w ≡ ok bs → test (length (bs ++ rest)) ≡ false)
      → ReadsBack k w b
      → ReadsBack (reject_if test er >> k) w b
  unfolding ◌>>=◌ reject_if
  ReadsBack-reject_if test er k w b h back = record {
    at = λ bs rest e. rw (h bs rest e, ◌>>=◌, reject_if) (back.at bs rest e);
  }

pack_one : (v : ℕ) → v < 256 → pack 1 v ≡ ok (v ∷ [])
unfolding pack to_le
pack_one v h = ground arith

accepted : (minimum v : ℕ) → minimum ≤ v → (r : Bytes) → canonical minimum v r ≡ ok (v, r)
unfolding canonical pure
accepted minimum v h r = elim (Bool-cases (ltb v minimum)) [
  | inl e ↦ absurd (ground arith)
  | inr e ↦ rw e
]

ReadsBack-byte : (v : ℕ) → v < 256 → ReadsBack (read_uint 1) (ok (v ∷ [])) v
ReadsBack-byte v h = rw (← pack_one v h) (ReadsBack-uint 1 v)

-- One prefix byte, then a longer integer that passes the check of canonical form.
ReadsBack-prefixed :
    (k : ℕ → Read ℕ) (prefix n minimum v : ℕ)
    → k prefix ≡ (read_uint n >>= canonical minimum)
    → prefix < 256
    → minimum ≤ v
    → ReadsBack (read_uint 1 >>= k) (ok (prefix ∷ []) ⊕ pack n v) v
unfolding canonical
ReadsBack-prefixed k prefix n minimum v same small least =
    ReadsBack-bind (read_uint 1) k (ok (prefix ∷ [])) (pack n v) prefix v
      (ReadsBack-byte prefix small)
      (rw same (
        ReadsBack-then (read_uint n) (canonical minimum) (pack n v) v v (ReadsBack-uint n v)
          (accepted minimum v least)))

-- Reading a varint gives the value that was written and leaves what followed it, for every value
-- that can be written.
pub ReadsBack-varint : (v : ℕ) → ReadsBack read_varint (varint v) v
unfolding varint read_varint pure
ReadsBack-varint v = elim (Bool-cases (ltb 0xFFFFFFFFFFFFFFFF v)) [
  | inl a ↦ rw a (record { at = λ bs rest e. cc })
  | inr a ↦ elim (Bool-cases (ltb v 0xFD)) [
    | inl b ↦
        rw (a, b) (ReadsBack-then (read_uint 1) _ (uint8 v) v v (ReadsBack-uint 1 v) (λ r. rw b))
    | inr b ↦ elim (Bool-cases (leb v 0xFFFF)) [
      | inl c ↦ rw (a, b, c) (ReadsBack-prefixed _ 0xfd 2 0xFD v refl (omega arith) (ground arith))
      | inr c ↦ elim (Bool-cases (leb v 0xFFFFFFFF)) [
        | inl d ↦
            rw (a, b, c, d)
              (ReadsBack-prefixed _ 0xfe 4 0x10000 v refl (omega arith) (ground arith))
        | inr d ↦
            rw (a, b, c, d)
              (ReadsBack-prefixed _ 0xff 8 0x100000000 v refl (omega arith) (ground arith))
      ]
    ]
  ]
]

module _ (max_length : ℕ) (bytes : Bytes) where
  pub ReadsBack-varbytes :
      length bytes ≤ max_length → ReadsBack (read_varbytes max_length) (varbytes bytes) bytes
  unfolding read_varbytes varbytes
  ReadsBack-varbytes h =
      ReadsBack-bind read_varint _ (varint (length bytes)) (raw bytes) (length bytes) bytes
        (ReadsBack-varint (length bytes))
        (ReadsBack-lift (raise_if (ltb max_length (length bytes)) serialization_error)
          (λ _. read_raw (length bytes)) (raw bytes) tt bytes (ground arith)
          (ReadsBack-raw (length bytes) bytes refl))

pub ReadsBack-varbytes_any : (bytes : Bytes) → ReadsBack read_varbytes_any (varbytes bytes) bytes
unfolding read_varbytes_any varbytes
ReadsBack-varbytes_any bytes =
    ReadsBack-bind read_varint _ (varint (length bytes)) (raw bytes) (length bytes) bytes
      (ReadsBack-varint (length bytes)) (ReadsBack-raw (length bytes) bytes refl)

pub ReadsBack-hash32 : (digest : Bytes) → ReadsBack read_hash32 (hash32 digest) digest
unfolding read_hash32 hash32
ReadsBack-hash32 digest = record {
  at = λ bs rest e.
      let h : (bs ≡ digest) × (length digest ≡ 32) = ground arith in
      rw (h.0) (read_raw-append 32 digest rest h.1);
}
