-- ===== src/Serialize.antt =====
-- src/scarletcoin/core/serialize.py. A `Writer` chain is the byte string it has written so far or the
-- exception it raised; a `Reader` is the bytes that it has not consumed, which each method returns.
-- The `offset` property, which only reports a position, is not modelled.
pub mod Laws
use scarlet_coin.Prelude.{
  ℕ, zero, suc, ◌^◌, ◌<◌, ◌≡◌, Bool, Option, none, some, List, [], ◌∷◌, ◌++◌, ltb, leb, ◌==◌, not,
  if◌then◌else◌, length, take, drop,
}
use scarlet_coin.Prelude.Bytes.{Bytes, to_le, from_le}
use scarlet_coin.Outcome.{Result, ok, err, raise_if, struct_error, serialization_error, Error}

-- One method call after another on the same writer.
infixr 60 ◌⊕◌
unfoldable pub ◌⊕◌ : Result Bytes → Result Bytes → Result Bytes
ok a ⊕ ok b = ok (a ++ b)
ok a ⊕ err e = err e
err e ⊕ w = err e

abbrev pub raw : Bytes → Result Bytes
raw bytes = ok bytes

-- `struct.pack` of an unsigned integer of `n` bytes, which raises when the value does not fit.
unfoldable pub pack : ℕ → ℕ → Result Bytes
pack n value = if ltb value (256 ^ n) then ok (to_le n value) else err struct_error

abbrev pub uint8 : ℕ → Result Bytes
uint8 = pack 1

abbrev pub uint16 : ℕ → Result Bytes
uint16 = pack 2

abbrev pub uint32 : ℕ → Result Bytes
uint32 = pack 4

abbrev pub uint64 : ℕ → Result Bytes
uint64 = pack 8

unfoldable pub varint : ℕ → Result Bytes
varint value =
    if ltb 0xFFFFFFFFFFFFFFFF value
    then err serialization_error
    else if ltb value 0xFD
    then uint8 value
    else if leb value 0xFFFF
    then raw (0xfd ∷ []) ⊕ uint16 value
    else if leb value 0xFFFFFFFF
    then raw (0xfe ∷ []) ⊕ uint32 value
    else raw (0xff ∷ []) ⊕ uint64 value

unfoldable pub varbytes : Bytes → Result Bytes
varbytes bytes = varint (length bytes) ⊕ raw bytes

unfoldable pub hash32 : Bytes → Result Bytes
hash32 digest = if length digest == 32 then ok digest else err serialization_error

-- A loop of writer calls, one for each item.
unfoldable pub write_each {ℓ} : {A : Type ℓ} → (A → Result Bytes) → List A → Result Bytes
write_each f [] = ok []
write_each f (x ∷ xs) = f x ⊕ write_each f xs

-- A reader method: the rest of the stream goes in, the value and the new rest come out.
abbrev pub Read {ℓ} : Type ℓ → Type ℓ
Read A = Bytes → Result (A × Bytes)

infixl 5 ◌>>=◌ ◌>>◌
unfoldable pub ◌>>=◌ {ℓ κ} : {A : Type ℓ} {B : Type κ} → Read A → (A → Read B) → Read B
◌>>=◌ m f r = elim (m r) [ ok (a, r') ↦ f a r' | err e ↦ err e ]

abbrev pub ◌>>◌ {ℓ} : {B : Type ℓ} → Read (Unit {0}) → Read B → Read B
m >> k = m >>= λ _. k

unfoldable pub pure {ℓ} : {A : Type ℓ} → A → Read A
pure a r = ok (a, r)

-- A constructor or a check that may raise, on values already read.
unfoldable pub lift {ℓ} : {A : Type ℓ} → Result A → Read A
lift (ok a) r = ok (a, r)
lift (err e) r = err e

-- A check of `reader.remaining`.
unfoldable pub reject_if : (ℕ → Bool) → Error → Read (Unit {0})
reject_if test e r = if test (length r) then err e else ok (tt, r)

-- `Reader.raw`; the length of a read is never negative here.
unfoldable pub read_raw : ℕ → Read Bytes
read_raw n r = if ltb (length r) n then err serialization_error else ok (take n r, drop n r)

-- `Reader.uint8`, `uint16`, `uint32` and `uint64`
unfoldable pub read_uint : ℕ → Read ℕ
read_uint n = do chunk ← read_raw n; pure (from_le chunk)

canonical : ℕ → ℕ → Read ℕ
canonical minimum value = if ltb value minimum then lift (err serialization_error) else pure value

unfoldable pub read_varint : Read ℕ
unfolding canonical
read_varint = do
  prefix ← read_uint 1
  if ltb prefix 0xFD
      then pure prefix
      else if prefix == 0xFD
      then (read_uint 2 >>= canonical 0xFD)
      else if prefix == 0xFE
      then (read_uint 4 >>= canonical 0x10000)
      else (read_uint 8 >>= canonical 0x100000000)

-- `Reader.varbytes` with a `max_length`
unfoldable pub read_varbytes : ℕ → Read Bytes
read_varbytes max_length = do
  n ← read_varint
  lift (raise_if (ltb max_length n) serialization_error)
  read_raw n

-- `Reader.varbytes` without one
unfoldable pub read_varbytes_any : Read Bytes
read_varbytes_any = do n ← read_varint; read_raw n

unfoldable pub read_hash32 : Read Bytes
read_hash32 = read_raw 32

-- `tuple(read() for _ in range(count))`
unfoldable pub read_times {ℓ} : {A : Type ℓ} → ℕ → Read A → Read (List A)
read_times zero m = pure []
read_times (suc n) m = m >>= λ x. read_times n m >>= λ xs. pure (x ∷ xs)

unfoldable pub expect_end : Read (Unit {0})
expect_end = reject_if (λ left. not (left == 0)) serialization_error
