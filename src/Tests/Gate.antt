-- ===== src/Tests/Gate.antt =====
-- src/gate.rs at concrete inputs.
use aamio_rust.Base.{
  ℕ, suc, false, ◌*◌, ◌^◌, ◌≤◌, ◌<◌, ◌≡◌, refl, ◌↔◌, ◌⊎◌, true, some, [], ◌∷◌, arith, length, drop,
  replicate, ok, err, Bytes, codes,
}
use aamio_rust.Base.Decimal.{decimal}
use aamio_rust.Sample.Digest.{sample_encodings, sample_hashing, digest}
use aamio_rust.Sample.Hex
use aamio_rust.Codec.{sha256, sha256_hex}
use aamio_rust.Gate.Work.{
  pow_input, board_pow_input, pow_digest, board_pow_digest, zero_bits, is_nonce,
}
use aamio_rust.Gate.Work.Binding.{pow_input_inj}
use aamio_rust.Gate.Work.Bits.{big_endian, zero_bits_iff}
use aamio_rust.Gate.Digits.{write_decimal}
use aamio_rust.Gate.Digits.Written.{write_decimal_lem}
use aamio_rust.Sample.Floats.{sample_floats}
use aamio_rust.Gate.Rate.{timed, hash_rate}
use aamio_rust.Gate.Rate.Timed.{is_early, hash_rate_lem}
use aamio_rust.Gate.Search.{Search, found, solve, solve_board, solve_until, bits_error}
use aamio_rust.Gate.Search.Solved.{
  Works, BoardWorks, Answers, solve_lem, solve_board_lem, solve_until_lem,
}

zero_bits_iff_example :
    (11 ≤ zero_bits (0 ∷ 31 ∷ 7 ∷ [])) ↔ (big_endian (0 ∷ 31 ∷ 7 ∷ []) * 2 ^ 11 < 256 ^ 3)
zero_bits_iff_example = zero_bits_iff (0 ∷ 31 ∷ 7 ∷ []) 11 (omega arith) (omega arith)

eleven_bits : zero_bits (0 ∷ 31 ∷ 7 ∷ []) ≡ 11
unfolding zero_bits
eleven_bits = refl

pow_input_inj_example :
    (◌≡◌ {A = Bytes} (1 ∷ []) (1 ∷ []))
    × (◌≡◌ {A = Bytes} [] [])
    × (◌≡◌ {A = Bytes} (2 ∷ []) (2 ∷ []))
    × (◌≡◌ {A = Bytes} (3 ∷ []) (3 ∷ []))
pow_input_inj_example =
    pow_input_inj (1 ∷ []) (1 ∷ []) [] [] (2 ∷ []) (2 ∷ []) (3 ∷ []) (3 ∷ []) (omega arith)
      (omega arith) (omega arith) refl

write_decimal_lem_example :
    (start : ℕ) × (buffer : Bytes) × (write_decimal 1207 (replicate 20 0) ≡ some (start, buffer))
    × (length buffer ≡ 20)
    × (drop start buffer ≡ decimal 1207)
write_decimal_lem_example = write_decimal_lem 1207 (replicate 20 0) (omega arith) refl

abbrev target : Bytes
target = b'a' ∷ b'b' ∷ []

abbrev body : Bytes
body = b'h' ∷ b'i' ∷ []

thousand-Works : Works target [] (sha256_hex body) 3 (decimal 1000)
unfolding zero_bits pow_digest pow_input sha256 sha256_hex decimal codes digest Hex.encode
thousand-Works = omega arith

solve_lem_example :
    (n : ℕ) × (solve 4000 target [] body 3 ≡ ok (found (decimal n)))
    × Works target [] (sha256_hex body) 3 (decimal n)
    × (is_nonce (decimal n) ≡ true)
    × ((k : ℕ) → k < n → ¬ Works target [] (sha256_hex body) 3 (decimal k))
solve_lem_example =
    solve_lem 4000 target [] body 3 1000 (omega arith) (omega arith) (omega arith) thousand-Works

two_thousand-BoardWorks : BoardWorks [] (sha256_hex body) 3 (decimal 2000)
unfolding zero_bits board_pow_digest board_pow_input sha256 sha256_hex decimal codes digest
    Hex.encode
two_thousand-BoardWorks = omega arith

solve_board_lem_example :
    (n : ℕ) × (solve_board 4000 [] body 3 ≡ ok (found (decimal n)))
    × BoardWorks [] (sha256_hex body) 3 (decimal n)
    × (is_nonce (decimal n) ≡ true)
    × ((k : ℕ) → k < n → ¬ BoardWorks [] (sha256_hex body) 3 (decimal k))
solve_board_lem_example =
    solve_board_lem 4000 [] body 3 2000 (omega arith) (omega arith) (omega arith)
      two_thousand-BoardWorks

solve_until_lem_example :
    ((32 < 3) × (solve_until 70000 target [] body 3 (some 9) (λ n. n) ≡ err bits_error))
    ⊎ ((3 ≤ 32)
        × (s : Search) × (solve_until 70000 target [] body 3 (some 9) (λ n. n) ≡ ok s)
        × Answers 70000 target [] body 3 (some 9) (λ n. n) s)
solve_until_lem_example = solve_until_lem 70000 target [] body 3 (some 9) (λ n. n) (omega arith)

-- A clock that shows so many seconds at each reading.
abbrev seconds : ℕ → ℕ
seconds r = r * 1000000000

first_second : is_early seconds 1 ≡ false
unfolding is_early
first_second = refl

hash_rate_lem_example :
    (n : ℕ) × (n ≤ 1)
    × (is_early seconds n ≡ false)
    × ((k : ℕ) → k < n → is_early seconds k ≡ true)
    × (hash_rate 2 seconds
        ≡ timed (
            sample_floats.div
              (sample_floats.of_nat (4096 * n))
              (sample_floats.as_secs_f64 (seconds (suc n)))))
hash_rate_lem_example = hash_rate_lem 2 seconds 1 first_second (omega arith) (omega arith)
