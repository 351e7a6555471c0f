-- ===== src/Tests.antt =====
-- A toy signature scheme and small transactions, on which the theorems are tried out. The hash of a
-- byte string is its length and the sum of its bytes, 16 times; a signature is valid when its first
-- number is the second byte of the key.
pub mod Codecs
pub mod Scripts
pub mod Money
pub mod Pool
pub mod Reorgs
pub mod Branches
pub mod Wallet
pub mod Merged
use scarlet_coin.Prelude.{
  ℕ, ◌+◌, ◌%◌, ◌≡◌, refl, Bool, true, List, [], ◌∷◌, ◌++◌, ◌==◌, replicate, length,
}
use scarlet_coin.Prelude.Bytes.{Bytes}
use scarlet_coin.Crypto.{Crypto, Hashes32, byte_at}

abbrev sum_bytes : Bytes → ℕ
sum_bytes [] = 0
sum_bytes (b ∷ bs) = b + sum_bytes bs

abbrev toy_sha256 : Bytes → Bytes
toy_sha256 bytes = replicate 16 (length bytes % 256) ++ replicate 16 (sum_bytes bytes % 256)

abbrev pub toy : Crypto
toy = record {
  sha256 = toy_sha256;
  is_point = λ key. true;
  ecdsa_verify = λ key r s digest. r == byte_at key 1;
  curve_order = 1000;
}

pub toy-Hashes32 : Hashes32 toy
toy-Hashes32 bytes = refl

-- A key of 33 bytes, and a signature for it
abbrev pub toy_key : ℕ → Bytes
toy_key n = 2 ∷ n ∷ replicate 31 0

abbrev pub toy_signature : ℕ → Bytes
toy_signature n = replicate 31 0 ++ (n ∷ (replicate 31 0 ++ (1 ∷ [])))
