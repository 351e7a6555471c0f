-- ===== src/Pow/Work.antt =====
-- Accepted proofs of work and the work that they stand for.
use native.Mathlib.Nat.{le-div_iff_mul-le, div-lt_iff_lt-mul, mul-le-mul_left, le_trans}
use scarlet_coin.Prelude.{
  ℕ, ◌+◌, ◌*◌, ◌/◌, ◌%◌, ◌^◌, ◌≤◌, ◌<◌, ◌≡◌, refl, ◌∙◌, sym, ◌↔◌, true, false, not, leb, ◌==◌,
  length, arith, Bool-cases, inl, inr,
}
use scarlet_coin.Prelude.Bytes.{Bytes, from_le}
use scarlet_coin.Outcome.{Result, ok, err, ◌>>=◌, raise_if, value_error, >>=-eq-ok, >>_iff}
use scarlet_coin.Pow.{
  bits_to_target, expand, fits, unpack, hash_to_int, meets_target, check_proof_of_work, work_of,
  block_work,
}

meets_target_iff :
    (block_hash : Bytes) (pow_limit target : ℕ)
    → (meets_target block_hash pow_limit (ok target) ≡ ok true) ↔ (
        (0 < target)
        × (target ≤ pow_limit)
        × (length block_hash ≡ 32)
        × (from_le block_hash ≤ target))
unfolding meets_target hash_to_int
meets_target_iff block_hash pow_limit target = (
  λ h.
      let a : (0 < target) = ground arith in
      let b : target ≤ pow_limit = ground arith in
      let d : length block_hash ≡ 32 = ground arith in (a, b, d, ground arith),
  λ (a, b, d, e). ground arith,
)

-- A hash passes the check exactly when the claimed bits stand for a target that is positive and no
-- easier than the limit, and the hash is 32 bytes that, read from the little end, are at most it.
pub check_proof_of_work_iff :
    (block_hash : Bytes) (bits pow_limit : ℕ)
    → (check_proof_of_work block_hash bits pow_limit ≡ ok true) ↔ (
        (target : ℕ) × (bits_to_target bits ≡ ok target)
        × (0 < target)
        × (target ≤ pow_limit)
        × (length block_hash ≡ 32)
        × (from_le block_hash ≤ target))
unfolding check_proof_of_work meets_target
check_proof_of_work_iff block_hash bits pow_limit = (
  λ h. at (bits_to_target bits) h,
  λ (target, e, a, b, d, f). rw e ((meets_target_iff block_hash pow_limit target).1 (a, b, d, f)),
)
  where
    at :
        (r : Result ℕ)
        → meets_target block_hash pow_limit r ≡ ok true
        → (target : ℕ) × (r ≡ ok target)
          × (0 < target)
          × (target ≤ pow_limit)
          × (length block_hash ≡ 32)
          × (from_le block_hash ≤ target)
    at (ok target) h =
        let (a, b, d, e) = (meets_target_iff block_hash pow_limit target).0 h in
        (target, refl, a, b, d, e)
    at (err e) h = cc

-- The quotient that `block_work` takes, over any bound.
quotient_bounds :
    (n target : ℕ)
    → target < n
    → (1 ≤ n / (target + 1))
      × (n / (target + 1) * (target + 1) ≤ n)
      × (n < (n / (target + 1) + 1) * (target + 1))
quotient_bounds n target h =
    let one = (le-div_iff_mul-le {k = target + 1} {x = 1} {y = n} (omega arith)).1 (omega arith) in
    let low =
      (le-div_iff_mul-le {k = target + 1} {x = n / (target + 1)} {y = n} (omega arith)).0
        (omega arith) in
    let high =
      (div-lt_iff_lt-mul {k = target + 1} {x = n} {y = n / (target + 1) + 1} (omega arith)).0
        (omega arith) in
    (one, low, high)

quotient_antitone : (n easy hard : ℕ) → hard ≤ easy → n / (easy + 1) ≤ n / (hard + 1)
quotient_antitone n easy hard le =
    let low =
      (le-div_iff_mul-le {k = easy + 1} {x = n / (easy + 1)} {y = n} (omega arith)).0
        (omega arith) in
    (le-div_iff_mul-le {k = hard + 1} {x = n / (easy + 1)} {y = n} (omega arith)).1
      (le_trans (mul-le-mul_left (n / (easy + 1)) (omega arith)) low)

fits_sound : (n target : ℕ) → fits n ≡ ok target → target < 2 ^ 256
unfolding fits
fits_sound n target h = ground arith

unpack_bounded :
    (exponent mantissa target : ℕ) → unpack exponent mantissa ≡ ok target → target < 2 ^ 256
unfolding unpack
unpack_bounded exponent mantissa target h = elim (Bool-cases (mantissa == 0)) [
  | inl e ↦ ground arith
  | inr e ↦
      let same : unpack exponent mantissa ≡ (expand exponent mantissa >>= λ n. fits n) =
        rw e refl in
      let (n, a, b) = >>=-eq-ok (expand exponent mantissa) (λ n. fits n) (sym same ∙ h) in
      fits_sound n target b
]

bits_to_target_bounded : (bits target : ℕ) → bits_to_target bits ≡ ok target → target < 2 ^ 256
unfolding bits_to_target
bits_to_target_bounded bits target h =
    let (a, h1) = (>>_iff (raise_if (not (leb bits 0xFFFFFFFF)) value_error) _).0 h in
    let (b, h2) = (>>_iff (raise_if ((bits / 2 ^ 23) % 2 == 1) value_error) _).0 h1 in
    unpack_bounded (bits / 2 ^ 24) (bits % 2 ^ 23) target h2

-- A block whose hash passes the check stands for a positive amount of work: the largest `work` with
-- `work * (target + 1) ≤ 2 ^ 256`, for the target of its bits.
pub block_work_positive :
    (block_hash : Bytes) (bits pow_limit : ℕ)
    → check_proof_of_work block_hash bits pow_limit ≡ ok true
    → (work : ℕ) × (block_work bits ≡ ok work)
      × (1 ≤ work)
      × (target : ℕ) × (bits_to_target bits ≡ ok target)
      × (work * (target + 1) ≤ 2 ^ 256)
      × (2 ^ 256 < (work + 1) * (target + 1))
unfolding block_work work_of
block_work_positive block_hash bits pow_limit h =
    let (target, e, low, _, _, _) = (check_proof_of_work_iff block_hash bits pow_limit).0 h in
    let (one, below, above) =
      quotient_bounds (2 ^ 256) target (bits_to_target_bounded bits target e) in
    let some_target : target == 0 ≡ false = ground arith in
    (2 ^ 256 / (target + 1), rw (e, some_target) refl, one, target, e, below, above)

-- Bits that stand for a smaller positive target stand for at least as much work.
pub block_work_antitone :
    (easy hard target_easy target_hard work_easy work_hard : ℕ)
    → bits_to_target easy ≡ ok target_easy
    → bits_to_target hard ≡ ok target_hard
    → 0 < target_hard
    → target_hard ≤ target_easy
    → block_work easy ≡ ok work_easy
    → block_work hard ≡ ok work_hard
    → work_easy ≤ work_hard
unfolding block_work work_of
block_work_antitone easy hard te th we wh e1 e2 low le b1 b2 =
    let z1 : te == 0 ≡ false = ground arith in
    let z2 : th == 0 ≡ false = ground arith in
    let x' : block_work easy ≡ ok (2 ^ 256 / (te + 1)) = rw (e1, z1) refl in
    let y' : block_work hard ≡ ok (2 ^ 256 / (th + 1)) = rw (e2, z2) refl in
    let x : ok (2 ^ 256 / (te + 1)) ≡ ok we = sym x' ∙ b1 in
    let y : ok (2 ^ 256 / (th + 1)) ≡ ok wh = sym y' ∙ b2 in
    let p : we ≡ 2 ^ 256 / (te + 1) = cc x in
    let q : wh ≡ 2 ^ 256 / (th + 1) = cc y in rw (p, q) (quotient_antitone (2 ^ 256) te th le)
