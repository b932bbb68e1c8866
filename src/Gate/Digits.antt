-- ===== src/Gate/Digits.antt =====
-- src/gate.rs: the digits of a candidate, written into a buffer from its end.
pub mod Written
use aamio_rust.Base.{
  ℕ, zero, suc, ◌+◌, ◌/◌, ◌%◌, Option, none, some, ◌==◌, if◌then◌else◌, length, set, Bytes,
}

-- The loop that fills the buffer `out` from index `i` down; `none` is the panic of an index below
-- the buffer.
unfoldable pub write_from : ℕ → ℕ → Bytes → Option (ℕ × Bytes)
write_from zero n out = none
write_from (suc i) n out =
    let out' = set out i (b'0' + n % 10) in
    let rest = write_from i (n / 10) out' in if n / 10 == 0 then some (i, out') else rest

unfoldable pub write_decimal : ℕ → Bytes → Option (ℕ × Bytes)
unfolding write_from
write_decimal n out = write_from (length out) n out
