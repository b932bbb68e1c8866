-- ===== src/Gate/Rate.antt =====
-- src/gate.rs: the timing of the search's own loop on this machine.
pub mod Timed
use aamio_rust.Base.{
  ℕ, zero, suc, ◌+◌, ◌%◌, ◌^◌, Option, none, some, if◌then◌else◌, replicate, Bytes,
}
use aamio_rust.Extern.Floats.{Floats}
use aamio_rust.Gate.Digits.{write_decimal}

-- The inner loop, of so many rounds, over the counter and the buffer of digits. What is hashed goes
-- into a black box, so nothing else is left of a round; `none` is a panic of `write_decimal`.
unfoldable pub batch : ℕ → ℕ → Bytes → Option (ℕ × Bytes)
batch zero count digits = some (count, digits)
batch (suc k) count digits = elim (write_decimal count digits) [
  | none ↦ none
  | some written ↦ batch k ((count + 1) % 2 ^ 64) written.1
]

-- What the timing ends with, `running` where the fuel of the model is used up.
pub data Timing (F : Type 0) : Type 0 where
  timed : F → Timing F
  panicked running : Timing F

unfoldable pub after_batch : {F : Type 0} → Option (ℕ × Bytes) → (ℕ → Bytes → Timing F) → Timing F
after_batch none next = panicked
after_batch (some (count, digits)) next = next count digits

module _ ⦃f : Floats⦄ where
  -- The outer loop. `elapsed r` is the `r`-th reading of the time since the start, in nanoseconds.
  unfoldable pub measure : ℕ → (ℕ → ℕ) → ℕ → ℕ → Bytes → Timing f.F64
  measure zero elapsed r count digits = running
  measure (suc fuel) elapsed r count digits =
      if f.lt (f.as_secs_f64 (elapsed r)) f.quarter
      then after_batch (batch 4096 count digits) (measure fuel elapsed (suc r))
      else timed (f.div (f.of_nat count) (f.as_secs_f64 (elapsed (suc r))))

  -- What `hash_rate` computes when it is first called; later calls give the same number.
  unfoldable pub hash_rate : ℕ → (ℕ → ℕ) → Timing f.F64
  hash_rate fuel elapsed = measure fuel elapsed 0 0 (replicate 20 0)
