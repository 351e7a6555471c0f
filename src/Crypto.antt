-- ===== src/Crypto.antt =====
-- src/scarletcoin/crypto/hashing.py and the parts of src/scarletcoin/crypto/keys.py that consensus
-- uses. SHA-256 (`hashlib`) and the curve operations (`cryptography`) are not in the repository: they
-- are the fields of `Crypto`, which the other modules take as a parameter.
use scarlet_coin.Prelude.{
  ℕ, ◌/◌, ◌≡◌, Bool, false, not, ◌&&◌, ◌||◌, [], ◌∷◌, ltb, leb, ◌==◌, if◌then◌else◌, length, take,
  drop,
}
use scarlet_coin.Prelude.Bytes.{Bytes, from_be}
use scarlet_coin.Outcome.{Result, ok, err, ◌>>◌, raise_if, value_error, invalid_key_error}

pub record Crypto : Type 0 where
  -- `hashlib.sha256(data).digest()`
  pub sha256 : Bytes → Bytes
  -- `EllipticCurvePublicKey.from_encoded_point` accepts the bytes
  pub is_point : Bytes → Bool
  -- `key.verify(encode_dss_signature(r, s), digest, …)` raises nothing
  pub ecdsa_verify : Bytes → ℕ → ℕ → Bytes → Bool
  -- `CURVE_ORDER`; `_HALF_ORDER` is half of it
  pub curve_order : ℕ

-- What SHA-256 promises of its output.
abbrev pub Hashes32 : Crypto → Type 0
Hashes32 c = (bytes : Bytes) → length (c.sha256 bytes) ≡ 32

abbrev pub pubkey_hash_length : ℕ
pubkey_hash_length = 20

abbrev pub public_key_length : ℕ
public_key_length = 33

abbrev pub signature_length : ℕ
signature_length = 64

-- `data[i]`, with 0 out of range; used only where the length is known
abbrev pub byte_at : Bytes → ℕ → ℕ
byte_at bs i = elim (drop i bs) [ [] ↦ 0 | b ∷ _ ↦ b ]

module _ (c : Crypto) where
  unfoldable pub hash256 : Bytes → Bytes
  hash256 bytes = c.sha256 (c.sha256 bytes)

  unfoldable pub hash160 : Bytes → Bytes
  unfolding hash256
  hash160 bytes = take pubkey_hash_length (hash256 bytes)

  pub length-hash256 : Hashes32 c → (bytes : Bytes) → length (hash256 bytes) ≡ 32
  unfolding hash256
  length-hash256 h bytes = h (c.sha256 bytes)

  -- `PublicKey.from_bytes`; the key is its bytes
  unfoldable pub public_key : Bytes → Result Bytes
  public_key bytes =
      if not (length bytes == public_key_length)
        || not (byte_at bytes 0 == 0x02 || byte_at bytes 0 == 0x03)
      then err invalid_key_error
      else if not (c.is_point bytes)
      then err invalid_key_error
      else ok bytes

  -- `PublicKey.verify`; a digest or a signature of the wrong length raises a `ValueError`
  unfoldable pub verify : Bytes → Bytes → Bytes → Result Bool
  verify key digest signature = do
    raise_if (not (length digest == 32)) value_error
    raise_if (not (length signature == signature_length)) value_error
    let r = from_be (take 32 signature)
    let s = from_be (drop 32 signature)
    ok (
        if not (leb 1 r && ltb r c.curve_order && (leb 1 s && leb s (c.curve_order / 2)))
        then false
        else c.ecdsa_verify key r s digest)
