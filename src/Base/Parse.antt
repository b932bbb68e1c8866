-- ===== src/Base/Parse.antt =====
-- `parse::<u64>` of the Rust library: digits, with a plus sign or none in front, of a value that fits.
use aamio_rust.Base.{
  ℕ, ◌+◌, ◌-◌, ◌*◌, ◌^◌, Option, none, some, [], ◌∷◌, ltb, ◌==◌, if◌then◌else◌, and_then, Bytes,
}
use aamio_rust.Base.Ascii.{is_ascii_digit}

unfoldable pub parse_digits : ℕ → Bytes → Option ℕ
unfolding is_ascii_digit
parse_digits n [] = some n
parse_digits n (b ∷ s) =
    let rest = parse_digits (n * 10 + (b - b'0')) s in if is_ascii_digit b then rest else none

unfoldable pub fits_u64 : ℕ → Option ℕ
fits_u64 n = if ltb n (2 ^ 64) then some n else none

unfoldable pub parse_unsigned : Bytes → Option ℕ
unfolding parse_digits fits_u64
parse_unsigned [] = none
parse_unsigned (b ∷ s) = and_then (parse_digits 0 (b ∷ s)) fits_u64

unfoldable pub parse_u64 : Bytes → Option ℕ
unfolding parse_unsigned
parse_u64 [] = none
parse_u64 (b ∷ s) = if b == b'+' then parse_unsigned s else parse_unsigned (b ∷ s)
