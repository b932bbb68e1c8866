-- ===== src/Gate/Work/Bits.antt =====
-- What the number of leading zero bits says of a digest.
use aamio_rust.Base.{
  ℕ, zero, suc, ◌+◌, ◌*◌, ◌^◌, ◌≤◌, ◌<◌, ◌≡◌, refl, ◌↔◌, ◌⊎◌, inl, inr, [], ◌∷◌, arith, length, All,
  Bytes,
}
use native.Mathlib.Nat.{pow-suc, pow-le-pow_right, mul-le-mul_left, mul-le-mul_right}
use native.Mathlib.Decide.{dec_lt}
use native.Mathlib.Numerals.{towards_suc}
use aamio_rust.Extern.Encodings.{IsByte}
use aamio_rust.Gate.Work.{leading_zeros, count_bits, zero_bits}

-- The digest read as a number, its first byte the most significant.
unfoldable pub big_endian : Bytes → ℕ
big_endian [] = 0
big_endian (b ∷ s) = b * 256 ^ length s + big_endian s

big_endian-lt : (s : Bytes) → All IsByte s → big_endian s < 256 ^ length s
unfolding big_endian
big_endian-lt [] h = omega arith
big_endian-lt (b ∷ s) h = grind (arith, big_endian-lt s h.1, pow-suc 256 (length s))

count_bits_acc : (s : Bytes) (n : ℕ) → count_bits s n ≡ n + count_bits s 0
unfolding count_bits
count_bits_acc [] n = omega arith
count_bits_acc (b ∷ s) n = ground (arith, count_bits_acc s (n + 8), count_bits_acc s 8)

-- The bits of one byte, its leading zeros the largest number of doublings below 256.
leading_zeros_bounds :
    (b : ℕ)
    → 0 < b
    → b < 256
    → ((b + 1) * 2 ^ leading_zeros b ≤ 256)
      × (256 ≤ b * 2 ^ (leading_zeros b + 1))
      × (leading_zeros b < 8)
unfolding leading_zeros
leading_zeros_bounds b pos small = ground arith

zero_bits_zero : (s : Bytes) → zero_bits (0 ∷ s) ≡ 8 + zero_bits s
unfolding zero_bits
zero_bits_zero s = count_bits_acc s 8

zero_bits_byte : (b : ℕ) (s : Bytes) → 0 < b → zero_bits (b ∷ s) ≡ leading_zeros b
unfolding zero_bits
zero_bits_byte b s pos = ground arith

times_256 : (z : ℕ) → 2 ^ (8 + z) ≡ 256 * 2 ^ z
times_256 z = let swap : 8 + z ≡ z + 8 = omega arith in rw swap (simp towards_suc (omega arith))

first_byte_upper : (b t r p : ℕ) → (b + 1) * p ≤ 256 → r < t → 0 < p → (b * t + r) * p < t * 256
first_byte_upper b t r p fits small pos = omega (
  arith,
  let below : b * t + r + 1 ≤ (b + 1) * t = omega arith in mul-le-mul_right p below,
  mul-le-mul_right t fits,
)

first_byte_lower : (b t r p : ℕ) → 256 ≤ b * p → t * 256 ≤ (b * t + r) * p
first_byte_lower b t r p big = omega (arith, mul-le-mul_right t big)

two_pow_pos : (n : ℕ) → 0 < 2 ^ n
two_pow_pos zero = omega arith
two_pow_pos (suc n) = omega (arith, two_pow_pos n, pow-suc 2 n)

-- The digest with as many doublings as it has leading zero bits still fits its length.
zero_bits_upper : (s : Bytes) → All IsByte s → big_endian s * 2 ^ zero_bits s < 256 ^ length s
unfolding big_endian
zero_bits_upper [] h = omega arith
zero_bits_upper (zero ∷ s) h =
    rw (zero_bits_zero s, times_256 (zero_bits s))
      (omega (arith, zero_bits_upper s h.1, pow-suc 256 (length s)))
zero_bits_upper (suc b ∷ s) h =
    let (fits, big, few) = leading_zeros_bounds (suc b) (omega arith) h.0 in
    rw (zero_bits_byte (suc b) s (omega arith), pow-suc 256 (length s))
      (first_byte_upper (suc b) (256 ^ length s) (big_endian s) _ fits (big_endian-lt s h.1)
        (two_pow_pos (leading_zeros (suc b))))

-- With one doubling more it does not, unless all its bits are zero.
zero_bits_lower :
    (s : Bytes)
    → All IsByte s
    → (zero_bits s ≡ 8 * length s) ⊎ (256 ^ length s ≤ big_endian s * 2 ^ (zero_bits s + 1))
unfolding big_endian
zero_bits_lower [] h = inl (unfold zero_bits in refl)
zero_bits_lower (zero ∷ s) h = elim (zero_bits_lower s h.1) [
  | inl all_zero ↦ inl (rw (zero_bits_zero s) (omega arith))
  | inr big ↦
      let more : zero_bits (0 ∷ s) + 1 ≡ 8 + (zero_bits s + 1) = omega (arith, zero_bits_zero s) in
      inr (rw (more, times_256 (zero_bits s + 1)) (omega (arith, pow-suc 256 (length s))))
]
zero_bits_lower (suc b ∷ s) h =
    let (fits, big, few) = leading_zeros_bounds (suc b) (omega arith) h.0 in
    inr (
      rw (zero_bits_byte (suc b) s (omega arith), pow-suc 256 (length s))
        (first_byte_lower (suc b) (256 ^ length s) (big_endian s) _ big))

zero_bits-le : (s : Bytes) → All IsByte s → zero_bits s ≤ 8 * length s
zero_bits-le [] h = unfold zero_bits in omega arith
zero_bits-le (zero ∷ s) h = omega (arith, zero_bits_zero s, zero_bits-le s h.1)
zero_bits-le (suc b ∷ s) h =
    let (fits, big, few) = leading_zeros_bounds (suc b) (omega arith) h.0 in
    omega (arith, zero_bits_byte (suc b) s (omega arith), few)

-- A digest has at least `k` leading zero bits exactly when the number that it spells, first
-- byte highest, times 2 ^ k is below 256 to the power of its length, for `k` up to its number
-- of bits.
pub zero_bits_iff :
    (digest : Bytes) (k : ℕ)
    → All IsByte digest
    → k ≤ 8 * length digest
    → (k ≤ zero_bits digest) ↔ (big_endian digest * 2 ^ k < 256 ^ length digest)
zero_bits_iff digest k h within = (
  λ enough.
      let two_pos : 0 < 2 = omega arith in
      omega (
        arith,
        zero_bits_upper digest h,
        mul-le-mul_left (big_endian digest) (pow-le-pow_right two_pos enough),
      ),
  λ below. elim (dec_lt (zero_bits digest) k) [
    | no enough ↦ omega arith
    | yes few ↦ elim (zero_bits_lower digest h) [
      | inl all_zero ↦ omega arith
      | inr big ↦
          let two_pos : 0 < 2 = omega arith in
          let more : zero_bits digest + 1 ≤ k = omega arith in
          omega (arith, big, mul-le-mul_left (big_endian digest) (pow-le-pow_right two_pos more))
    ]
  ],
)
