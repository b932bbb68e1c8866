-- ===== src/Gate/Rate/Timed.antt =====
-- When the timing of src/gate.rs ends, and with what.
use aamio_rust.Base.{
  ℕ, zero, suc, ◌+◌, ◌*◌, ◌%◌, ◌^◌, ◌<◌, ◌≤◌, ◌≡◌, refl, sym, ap, ◌∙◌, inl, inr, Bool, true, false,
  some, arith, Bool-cases, length, replicate, Bytes,
}
use aamio_rust.Extern.Floats.{Floats}
use aamio_rust.Gate.Digits.Written.{write_decimal_lem}
use aamio_rust.Gate.Rate.{batch, timed, after_batch, measure, hash_rate}

batch_lem :
    (k count : ℕ) (digits : Bytes)
    → count + k < 2 ^ 64
    → length digits ≡ 20
    → (buffer : Bytes) × (batch k count digits ≡ some (count + k, buffer)) × (length buffer ≡ 20)
unfolding batch
batch_lem zero count digits small size =
    let same_count : count ≡ count + 0 = omega arith in
    (digits, ap (λ c. some (c, digits)) same_count, size)
batch_lem (suc k) count digits small size =
    let (start, written, ends, size', text) = write_decimal_lem count digits (omega arith) size in
    let (buffer, rest, size'') = batch_lem k (count + 1) written (omega arith) size' in
    let no_wrap : (count + 1) % 2 ^ 64 ≡ count + 1 = omega arith in
    (buffer, ground (arith, ends, no_wrap, rest), size'')

-- The first number at which a test fails, of those up to one where it does.
least_failing :
    (p : ℕ → Bool) (m : ℕ)
    → p m ≡ false
    → (n : ℕ) × (n ≤ m) × (p n ≡ false) × ((k : ℕ) → k < n → p k ≡ true)
least_failing p zero fails = (0, omega arith, fails, λ k lt. absurd (omega arith))
least_failing p (suc m) fails = elim (Bool-cases (p 0)) [
  | inr now ↦ (0, omega arith, now, λ k lt. absurd (omega arith))
  | inl still ↦
      let (n, le, here, before) = least_failing (λ k. p (suc k)) m fails in
      (suc n, omega arith, here, below n before still)
]
  where
    below :
        (n : ℕ)
        → ((k : ℕ) → k < n → p (suc k) ≡ true)
        → p 0 ≡ true
        → (k : ℕ) → k < suc n
        → p k ≡ true
    below n before still zero lt = still
    below n before still (suc k) lt = before k (omega arith)

module _ ⦃f : Floats⦄ where
  -- The time is not up at a reading.
  unfoldable pub is_early : (ℕ → ℕ) → ℕ → Bool
  is_early elapsed r = f.lt (f.as_secs_f64 (elapsed r)) f.quarter

  measure-early :
      (fuel : ℕ) (elapsed : ℕ → ℕ) (r count count' : ℕ) (digits buffer : Bytes)
      → is_early elapsed r ≡ true
      → batch 4096 count digits ≡ some (count', buffer)
      → measure (suc fuel) elapsed r count digits ≡ measure fuel elapsed (suc r) count' buffer
  unfolding measure is_early after_batch
  measure-early fuel elapsed r count count' digits buffer early done = rw (early, done) refl

  measure-late :
      (fuel : ℕ) (elapsed : ℕ → ℕ) (r count : ℕ) (digits : Bytes)
      → is_early elapsed r ≡ false
      → measure (suc fuel) elapsed r count digits
        ≡ timed (f.div (f.of_nat count) (f.as_secs_f64 (elapsed (suc r))))
  unfolding measure is_early
  measure-late fuel elapsed r count digits late = rw late refl

  measure_lem :
      (n fuel : ℕ) (elapsed : ℕ → ℕ) (r last count : ℕ) (digits : Bytes)
      → r + n ≡ last
      → ((k : ℕ) → r ≤ k → k < last → is_early elapsed k ≡ true)
      → is_early elapsed last ≡ false
      → n < fuel
      → count + 4096 * n < 2 ^ 64
      → length digits ≡ 20
      → measure fuel elapsed r count digits
        ≡ timed (f.div (f.of_nat (count + 4096 * n)) (f.as_secs_f64 (elapsed (suc last))))
  measure_lem n zero elapsed r last count digits reach early late enough small size =
      absurd (omega arith)
  measure_lem zero (suc fuel) elapsed r last count digits reach early late enough small size =
      let here : last ≡ r = omega arith in
      let total : count ≡ count + 4096 * 0 = omega arith in
      measure-late fuel elapsed r count digits (ap (is_early elapsed) (sym here) ∙ late)
      ∙ ap (λ q. timed (f.div (f.of_nat count) (f.as_secs_f64 (elapsed (suc q))))) (sym here)
      ∙ ap (λ c. timed (f.div (f.of_nat c) (f.as_secs_f64 (elapsed (suc last))))) total
  measure_lem (suc n) (suc fuel) elapsed r last count digits reach early late enough small size =
      let (buffer, done, size') = batch_lem 4096 count digits (omega arith) size in
      let total : count + 4096 + 4096 * n ≡ count + 4096 * suc n = omega arith in
      measure-early fuel elapsed r count (count + 4096) digits buffer
        (early r (omega arith) (omega arith)) done
      ∙ measure_lem n fuel elapsed (suc r) last (count + 4096) buffer (omega arith)
          (λ k le lt. early k (omega arith) lt) late (omega arith) (omega arith) size'
      ∙ ap (λ c. timed (f.div (f.of_nat c) (f.as_secs_f64 (elapsed (suc last))))) total

  -- Once a reading of the clock is a quarter of a second or more, the timing ends, for fuel above the
  -- number of that reading and as long as the counter stays below 2 ^ 64: it ends at the first such
  -- reading, with 4096 candidates for each reading before it, over the time of the reading after it.
  pub hash_rate_lem :
      (fuel : ℕ) (elapsed : ℕ → ℕ) (m : ℕ)
      → is_early elapsed m ≡ false
      → m < fuel
      → 4096 * m < 2 ^ 64
      → (n : ℕ) × (n ≤ m)
        × (is_early elapsed n ≡ false)
        × ((k : ℕ) → k < n → is_early elapsed k ≡ true)
        × (hash_rate fuel elapsed
            ≡ timed (f.div (f.of_nat (4096 * n)) (f.as_secs_f64 (elapsed (suc n)))))
  unfolding hash_rate
  hash_rate_lem fuel elapsed m late enough small =
      let (n, le, here, before) = least_failing (is_early elapsed) m late in
      let all_counted : 0 + 4096 * n ≡ 4096 * n = omega arith in
      (
        n,
        le,
        here,
        before,
        measure_lem n fuel elapsed 0 n 0 (replicate 20 0) (omega arith) (λ k le lt. before k lt)
              here (omega arith) (omega arith) refl
            ∙ ap (λ c. timed (f.div (f.of_nat c) (f.as_secs_f64 (elapsed (suc n))))) all_counted,
      )
