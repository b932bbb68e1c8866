-- ===== src/Gate/Search.antt =====
-- src/gate.rs: the search for a nonce, one candidate after another.
pub mod Least
pub mod Solved
pub mod Boarded
use aamio_rust.Base.{
  ℕ, zero, suc, ◌+◌, ◌-◌, ◌%◌, ◌^◌, Bool, false, ◌&&◌, Option, none, some, [], ◌∷◌, ltb, leb, ◌==◌,
  if◌then◌else◌, drop, replicate, Result, ok, err, Bytes, concat, codes,
}
use aamio_rust.Base.Decimal.{decimal}
use aamio_rust.Extern.Encodings.{Encodings}
use aamio_rust.Extern.Hashing.{Hashing}
use aamio_rust.Codec.{sha256_hex}
use aamio_rust.Gate.Work.{require_max_bits, zero_bits}
use aamio_rust.Gate.Digits.{write_decimal}

-- How a search ends; `panicked` is an index below the buffer, and `running` means that the fuel of
-- the model ran out.
pub data Search : Type 0 where
  found : Bytes → Search
  timed_out panicked running : Search

-- The clock is read when 65536 candidates more have been tried, and only under a deadline.
-- `clock n` is what it says after `n` candidates; `n & 0xFFFF` is `n % 65536`.
unfoldable pub is_past : Option ℕ → (ℕ → ℕ) → ℕ → Bool
is_past none clock n = false
is_past (some deadline) clock n = (n % 65536 == 0) && ltb deadline (clock n)

module _ ⦃h : Hashing⦄ where
  -- The loop, from candidate `n`; `digits` is the buffer, which every round writes again.
  unfoldable pub search_from : ℕ → h.Hasher → ℕ → Option ℕ → (ℕ → ℕ) → ℕ → Bytes → Search
  unfolding is_past
  search_from zero base bits deadline clock n digits = running
  search_from (suc fuel) base bits deadline clock n digits = elim (write_decimal n digits) [
    | none ↦ panicked
    | some (start, digits') ↦
        let n' = (n + 1) % 2 ^ 64 in
        if leb bits (zero_bits (h.finalize (h.update base (drop start digits'))))
        then found (drop start digits')
        else if is_past deadline clock n'
        then timed_out
        else search_from fuel base bits deadline clock n' digits'
  ]

  unfoldable pub first_nonce_until : ℕ → Bytes → ℕ → Option ℕ → (ℕ → ℕ) → Search
  unfolding search_from
  first_nonce_until fuel prefix bits deadline clock =
      search_from fuel (h.new_with_prefix prefix) bits deadline clock 0 (replicate 20 0)

  -- The clock is never read without a deadline. `expect` panics on the search that timed out.
  unfoldable pub first_nonce : ℕ → Bytes → ℕ → Search
  unfolding first_nonce_until
  first_nonce fuel prefix bits = elim (first_nonce_until fuel prefix bits none (λ n. 0)) [
    | timed_out ↦ panicked
    | other ↦ other
  ]

unfoldable pub bits_error : Bytes
unfolding codes decimal
bits_error = concat (codes "work is 0 to " ∷ decimal require_max_bits ∷ codes " bits" ∷ [])

-- What the search hashes once: the text of the work up to the nonce.
unfoldable pub pow_prefix : Bytes → Bytes → Bytes → Bytes
pow_prefix w key body_sha256 =
    concat
      (codes "aamio-pow-v1\n" ∷ w ∷ codes "\n" ∷ key ∷ codes "\n" ∷ body_sha256 ∷ codes "\n" ∷ [])

unfoldable pub board_pow_prefix : Bytes → Bytes → Bytes
board_pow_prefix key body_sha256 =
    concat (codes "aamio-board-pow-v1\n" ∷ key ∷ codes "\n" ∷ body_sha256 ∷ codes "\n" ∷ [])

module _ ⦃h : Hashing⦄ (fuel : ℕ) where
  unfoldable pub solve_hashed : Bytes → Bytes → Bytes → ℕ → Result Search
  solve_hashed w key body_sha256 bits =
      if ltb require_max_bits bits
      then err bits_error
      else ok (first_nonce fuel (pow_prefix w key body_sha256) bits)

  unfoldable pub solve_board_hashed : Bytes → Bytes → ℕ → Result Search
  solve_board_hashed key body_sha256 bits =
      if ltb require_max_bits bits
      then err bits_error
      else ok (first_nonce fuel (board_pow_prefix key body_sha256) bits)

module _ ⦃e : Encodings⦄ ⦃h : Hashing⦄ (fuel : ℕ) where
  unfoldable pub solve : Bytes → Bytes → Bytes → ℕ → Result Search
  unfolding solve_hashed
  solve w key body bits = solve_hashed fuel w key (sha256_hex body) bits

  unfoldable pub solve_board : Bytes → Bytes → ℕ → Result Search
  unfolding solve_board_hashed
  solve_board key body bits = solve_board_hashed fuel key (sha256_hex body) bits

  unfoldable pub solve_until : Bytes → Bytes → Bytes → ℕ → Option ℕ → (ℕ → ℕ) → Result Search
  solve_until w key body bits deadline clock =
      if ltb require_max_bits bits
      then err bits_error
      else ok (first_nonce_until fuel (pow_prefix w key (sha256_hex body)) bits deadline clock)
