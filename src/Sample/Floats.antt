-- ===== src/Sample/Floats.antt =====
-- Seconds as natural numbers.
use aamio_rust.Base.{ℕ, ◌-◌, ◌*◌, ◌/◌, ◌^◌, none, some, ltb, if◌then◌else◌}
use Prim.Native.Nat.{max}
use aamio_rust.Base.Decimal.{decimal}
use aamio_rust.Extern.Floats.{Floats}

instance abbrev pub sample_floats : Floats
sample_floats = record {
  F64 = ℕ;
  of_nat = λ n. n;
  quarter = 1;
  lt = ltb;
  sub = λ a b. a - b;
  div = λ a b. a / b;
  max = max;
  two_pow = λ n. 2 ^ n;
  round = λ a. a;
  to_nat = λ a. a;
  one_place = decimal;
  as_secs_f64 = λ n. n / 1000000000;
  from_secs_f64 = λ n. if ltb n (2 ^ 64) then some (n * 1000000000) else none;
}
