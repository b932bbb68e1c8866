-- ===== src/Extern/Floats.antt =====
-- The floating-point numbers of seconds (`f64`), of which the program's logic uses only these
-- operations. Nothing is assumed of them but what a theorem names.
use aamio_rust.Base.{ℕ, Bool, Option, Bytes}

pub record Floats : Type 1 where
  pub F64 : Type 0
  -- an integer `as f64`, and the literals
  pub of_nat : ℕ → F64
  pub quarter : F64
  -- `a < b`
  pub lt : F64 → F64 → Bool
  pub sub : F64 → F64 → F64
  pub div : F64 → F64 → F64
  pub max : F64 → F64 → F64
  -- `2f64.powi(n)`
  pub two_pow : ℕ → F64
  pub round : F64 → F64
  -- `as u64`
  pub to_nat : F64 → ℕ
  -- `{:.1}`
  pub one_place : F64 → Bytes
  -- `Duration::as_secs_f64` of a number of nanoseconds, and `Duration::from_secs_f64`, which panics
  -- on what is negative, not a number or too long
  pub as_secs_f64 : ℕ → F64
  pub from_secs_f64 : F64 → Option ℕ
