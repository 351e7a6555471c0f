-- ===== src/Pow.antt =====
-- src/scarletcoin/core/pow.py. Compact targets are native numbers: `bits >> 24` is a quotient,
-- `bits & 0x007FFFFF` a remainder, and `|` of disjoint bits a sum. `difficulty` is a float for display.
pub mod Work
use scarlet_coin.Prelude.{
  ℕ, zero, suc, ◌+◌, ◌-◌, ◌*◌, ◌/◌, ◌%◌, ◌^◌, ◌≡◌, Bool, true, false, not, ◌&&◌, ◌||◌, List, [],
  ◌∷◌, ◌++◌, ltb, leb, ◌==◌, if◌then◌else◌, length, take, replicate, min, max,
}
use scarlet_coin.Prelude.Int.{ℤ, pos, negsuc}
use scarlet_coin.Prelude.Bytes.{Bytes, from_le, from_be}
use scarlet_coin.Outcome.{
  Result, ok, err, ◌>>=◌, ◌>>◌, raise_if, map_ok, value_error, zero_division_error,
}
use scarlet_coin.Crypto.{byte_at}

abbrev pub max_target_limit : ℕ
max_target_limit = 2 ^ 256 - 1

-- The shift by the exponent.
unfoldable pub expand : ℕ → ℕ → Result ℕ
expand exponent mantissa =
    if leb exponent 3
    then ok (mantissa / 2 ^ (8 * (3 - exponent)))
    else if ltb 32 exponent
    then err value_error
    else ok (mantissa * 2 ^ (8 * (exponent - 3)))

unfoldable pub fits : ℕ → Result ℕ
fits target = if ltb max_target_limit target then err value_error else ok target

unfoldable pub unpack : ℕ → ℕ → Result ℕ
unfolding expand fits
unpack exponent mantissa =
    if mantissa == 0 then ok 0 else (expand exponent mantissa >>= λ target. fits target)

unfoldable pub bits_to_target : ℕ → Result ℕ
unfolding unpack
bits_to_target bits = do
  raise_if (not (leb bits 0xFFFFFFFF)) value_error
  let exponent = bits / 2 ^ 24
  let mantissa = bits % 2 ^ 23
  raise_if ((bits / 2 ^ 23) % 2 == 1) value_error
  unpack exponent mantissa

-- `n.to_bytes((n.bit_length() + 7) // 8, "big")`, before the bytes already written; each round
-- divides by 256, so the number itself is enough fuel.
unfoldable pub big_endian : ℕ → ℕ → Bytes → Bytes
big_endian zero n written = written
big_endian (suc fuel) n written =
    let more = big_endian fuel (n / 256) (n % 256 ∷ written) in if n == 0 then written else more

-- `b"\x00" + raw` when the first byte has its high bit set
unfoldable pub clear_sign : Bytes → Bytes
clear_sign raw = if leb 0x80 (byte_at raw 0) then 0 ∷ raw else raw

-- `raw[:3].ljust(3, b"\x00")`
unfoldable pub mantissa_of : Bytes → ℕ
mantissa_of raw = from_be (take 3 (raw ++ replicate (3 - length raw) 0))

unfoldable pub target_to_bits : ℕ → ℕ
unfolding big_endian clear_sign mantissa_of
target_to_bits target =
    let raw = clear_sign (big_endian target target []) in
    if target == 0 then 0 else length raw * 2 ^ 24 + mantissa_of raw

unfoldable pub hash_to_int : Bytes → Result ℕ
hash_to_int block_hash =
    raise_if (not (length block_hash == 32)) value_error >> ok (from_le block_hash)

-- What follows `except ValueError: return False`
unfoldable pub meets_target : Bytes → ℕ → Result ℕ → Result Bool
unfolding hash_to_int
meets_target block_hash pow_limit (err e) = ok false
meets_target block_hash pow_limit (ok target) =
    if target == 0 || ltb pow_limit target
    then ok false
    else map_ok (λ value. leb value target) (hash_to_int block_hash)

unfoldable pub check_proof_of_work : Bytes → ℕ → ℕ → Result Bool
unfolding bits_to_target meets_target
check_proof_of_work block_hash bits pow_limit =
    meets_target block_hash pow_limit (bits_to_target bits)

unfoldable pub work_of : ℕ → ℕ
work_of target = if target == 0 then 0 else 2 ^ 256 / (target + 1)

unfoldable pub block_work : ℕ → Result ℕ
unfolding bits_to_target work_of
block_work bits = map_ok work_of (bits_to_target bits)

-- `max(actual_timespan, low)` for a `low` that is not negative
unfoldable pub at_least : ℤ → ℕ → ℕ
at_least (pos n) low = max n low
at_least (negsuc n) low = low

unfoldable pub next_bits : ℕ → ℤ → ℕ → ℕ → ℕ → Result ℕ
unfolding at_least target_to_bits
next_bits current_bits actual_timespan target_timespan pow_limit max_adjustment_factor = do
  raise_if (target_timespan == 0) value_error
  raise_if (max_adjustment_factor == 0) zero_division_error
  let low = target_timespan / max_adjustment_factor
  let high = target_timespan * max_adjustment_factor
  let clamped = min (at_least actual_timespan low) high
  current ← bits_to_target current_bits
  ok (target_to_bits (min (current * clamped / target_timespan) pow_limit))

-- `elapsed <= 0`
unfoldable pub is_positive : ℤ → Bool
is_positive (pos n) = ltb 0 n
is_positive (negsuc n) = false

abbrev magnitude : ℤ → ℕ
magnitude (pos n) = n
magnitude (negsuc n) = n + 1

unfoldable pub bits_from_work : ℤ → ℤ → ℕ → ℕ → ℕ → ℕ → Result ℕ
unfolding is_positive target_to_bits
bits_from_work work elapsed target_spacing pow_limit parent_bits max_adjustment_factor =
    if not (is_positive work) || not (is_positive elapsed) then ok parent_bits else do
      raise_if (target_spacing == 0) zero_division_error
      let target =
          min ((max_target_limit + 1) * magnitude elapsed / (magnitude work * target_spacing))
            pow_limit
      parent_target ← bits_to_target parent_bits
      raise_if (max_adjustment_factor == 0) zero_division_error
      ok (target_to_bits (max target (parent_target / max_adjustment_factor)))
