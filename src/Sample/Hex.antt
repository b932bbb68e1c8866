-- ===== src/Sample/Hex.antt =====
-- Lowercase hexadecimal text.
use aamio_rust.Base.{
  ℕ, ◌+◌, ◌-◌, ◌*◌, ◌/◌, ◌%◌, ◌<◌, ◌≡◌, refl, ◌&&◌, Option, none, some, [], ◌∷◌, arith, ltb, leb,
  if◌then◌else◌, length, All, Result, ok, err, ◌>>=◌, ok_or, Bytes, codes,
}
use aamio_rust.Extern.Encodings.{IsByte, IsHex}

symbol : ℕ → ℕ
symbol v = if ltb v 10 then b'0' + v else b'a' + (v - 10)

nibble : ℕ → Option ℕ
nibble b =
    if leb b'0' b && leb b b'9'
    then some (b - b'0')
    else if leb b'a' b && leb b b'f'
    then some (b - b'a' + 10)
    else if leb b'A' b && leb b b'F'
    then some (b - b'A' + 10)
    else none

unfoldable pub encode : Bytes → Bytes
unfolding symbol
encode [] = []
encode (b ∷ s) = symbol (b / 16 % 16) ∷ symbol (b % 16) ∷ encode s

unfoldable pub decode : Bytes → Result Bytes
unfolding nibble
decode [] = ok []
decode (p ∷ []) = err (codes "Odd number of digits")
decode (p ∷ q ∷ s) = ok_or (nibble p) (codes "Invalid character") >>= λ hi.
    ok_or (nibble q) (codes "Invalid character") >>= λ lo.
    decode s >>= λ rest. ok ((hi * 16 + lo) ∷ rest)

symbol-IsHex : (v : ℕ) → v < 16 → IsHex (symbol v)
unfolding symbol
symbol-IsHex v h = ground arith

nibble-symbol : (v : ℕ) → v < 16 → nibble (symbol v) ≡ some v
unfolding symbol nibble
nibble-symbol v h = ground arith

pub encode-IsHex : (s : Bytes) → All IsHex (encode s)
unfolding encode
encode-IsHex [] = tt
encode-IsHex (b ∷ s) =
    (symbol-IsHex _ (omega arith), (symbol-IsHex _ (omega arith), encode-IsHex s))

pub length-encode : (s : Bytes) → length (encode s) ≡ 2 * length s
unfolding encode
length-encode [] = omega arith
length-encode (b ∷ s) = omega (arith, length-encode s)

pub decode-encode : (s : Bytes) → All IsByte s → decode (encode s) ≡ ok s
unfolding encode decode
decode-encode [] h = refl
decode-encode (b ∷ s) h =
    let whole : b / 16 % 16 * 16 + b % 16 ≡ b = omega arith in
    rw (
      nibble-symbol (b / 16 % 16) (omega arith),
      nibble-symbol (b % 16) (omega arith),
      decode-encode s h.1,
      whole,
    )
