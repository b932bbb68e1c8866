-- ===== src/Sample/Base32.antt =====
-- Base32 of RFC 4648 without padding.
use aamio_rust.Base.{
  ℕ, ◌+◌, ◌-◌, ◌*◌, ◌/◌, ◌%◌, ◌≡◌, [], ◌∷◌, arith, ltb, if◌then◌else◌, length, All, Bytes,
}
use aamio_rust.Base.Ascii.{is_ascii_uppercase}
use aamio_rust.Extern.Encodings.{IsBase32}

symbol : ℕ → ℕ
symbol v = if ltb (v % 32) 26 then b'A' + v % 32 else b'2' + (v % 32 - 26)

unfoldable pub encode : Bytes → Bytes
unfolding symbol
encode [] = []
encode (a ∷ []) = symbol (a / 8) ∷ symbol (a * 4) ∷ []
encode (a ∷ b ∷ []) =
    symbol (a / 8) ∷ symbol (a % 8 * 4 + b / 64) ∷ symbol (b / 2) ∷ symbol (b * 16) ∷ []
encode (a ∷ b ∷ c ∷ []) =
    symbol (a / 8)
    ∷ symbol (a % 8 * 4 + b / 64)
    ∷ symbol (b / 2)
    ∷ symbol (b % 2 * 16 + c / 16)
    ∷ symbol (c * 2)
    ∷ []
encode (a ∷ b ∷ c ∷ d ∷ []) =
    symbol (a / 8)
    ∷ symbol (a % 8 * 4 + b / 64)
    ∷ symbol (b / 2)
    ∷ symbol (b % 2 * 16 + c / 16)
    ∷ symbol (c % 16 * 2 + d / 128)
    ∷ symbol (d / 4)
    ∷ symbol (d * 8)
    ∷ []
encode (a ∷ b ∷ c ∷ d ∷ e ∷ s) =
    symbol (a / 8)
    ∷ symbol (a % 8 * 4 + b / 64)
    ∷ symbol (b / 2)
    ∷ symbol (b % 2 * 16 + c / 16)
    ∷ symbol (c % 16 * 2 + d / 128)
    ∷ symbol (d / 4)
    ∷ symbol (d % 4 * 8 + e / 32)
    ∷ symbol e
    ∷ encode s

symbol-IsBase32 : (v : ℕ) → IsBase32 (symbol v)
unfolding symbol is_ascii_uppercase
symbol-IsBase32 v = ground arith

pub encode-IsBase32 : (s : Bytes) → All IsBase32 (encode s)
unfolding encode
encode-IsBase32 [] = tt
encode-IsBase32 (a ∷ []) = (symbol-IsBase32 _, (symbol-IsBase32 _, tt))
encode-IsBase32 (a ∷ b ∷ []) =
    (symbol-IsBase32 _, (symbol-IsBase32 _, (symbol-IsBase32 _, (symbol-IsBase32 _, tt))))
encode-IsBase32 (a ∷ b ∷ c ∷ []) = (
  symbol-IsBase32 _,
  (symbol-IsBase32 _, (symbol-IsBase32 _, (symbol-IsBase32 _, (symbol-IsBase32 _, tt)))),
)
encode-IsBase32 (a ∷ b ∷ c ∷ d ∷ []) = (
  symbol-IsBase32 _,
  (
    symbol-IsBase32 _,
    (
      symbol-IsBase32 _,
      (symbol-IsBase32 _, (symbol-IsBase32 _, (symbol-IsBase32 _, (symbol-IsBase32 _, tt)))),
    ),
  ),
)
encode-IsBase32 (a ∷ b ∷ c ∷ d ∷ e ∷ s) = (
  symbol-IsBase32 _,
  (
    symbol-IsBase32 _,
    (
      symbol-IsBase32 _,
      (
        symbol-IsBase32 _,
        (
          symbol-IsBase32 _,
          (symbol-IsBase32 _, (symbol-IsBase32 _, (symbol-IsBase32 _, encode-IsBase32 s))),
        ),
      ),
    ),
  ),
)

pub length-encode : (s : Bytes) → length (encode s) ≡ (8 * length s + 4) / 5
unfolding encode
length-encode [] = omega arith
length-encode (a ∷ []) = omega arith
length-encode (a ∷ b ∷ []) = omega arith
length-encode (a ∷ b ∷ c ∷ []) = omega arith
length-encode (a ∷ b ∷ c ∷ d ∷ []) = omega arith
length-encode (a ∷ b ∷ c ∷ d ∷ e ∷ s) = omega (arith, length-encode s)
