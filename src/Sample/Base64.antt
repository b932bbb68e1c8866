-- ===== src/Sample/Base64.antt =====
-- Base64 of RFC 4648 without padding, with the URL-safe and the standard alphabet.
use aamio_rust.Base.{
  ℕ, ◌+◌, ◌-◌, ◌*◌, ◌/◌, ◌%◌, ◌<◌, ◌≡◌, refl, ◌&&◌, Option, none, some, [], ◌∷◌, arith, ltb, leb,
  ◌==◌, if◌then◌else◌, length, All, Result, ok, err, ◌>>=◌, and_then, map_option, Bytes, codes,
}
use aamio_rust.Base.Ascii.{is_ascii_alphanumeric}
use aamio_rust.Extern.Encodings.{Alphabet, standard, url_safe, IsByte, IsUrlSafe}

letter : ℕ → ℕ
letter v =
    if ltb v 26
    then b'A' + v
    else if ltb v 52
    then b'a' + (v - 26)
    else if ltb v 62
    then b'0' + (v - 52)
    else if v == 62
    then b'-'
    else b'_'

unfoldable pub symbol : ℕ → ℕ
unfolding letter
symbol v = letter (v % 64)

-- The two characters in which the alphabets differ.
last_two : Alphabet → ℕ → Option ℕ
last_two standard b = if b == b'+' then some 62 else if b == b'/' then some 63 else none
last_two url_safe b = if b == b'-' then some 62 else if b == b'_' then some 63 else none

sextet : Alphabet → ℕ → Option ℕ
sextet alphabet b =
    if leb b'A' b && leb b b'Z'
    then some (b - b'A')
    else if leb b'a' b && leb b b'z'
    then some (b - b'a' + 26)
    else if leb b'0' b && leb b b'9'
    then some (b - b'0' + 52)
    else last_two alphabet b

unfoldable pub encode : Bytes → Bytes
encode [] = []
encode (a ∷ []) = symbol (a / 4 % 64) ∷ symbol (a % 4 * 16) ∷ []
encode (a ∷ b ∷ []) =
    symbol (a / 4 % 64) ∷ symbol (a % 4 * 16 + b / 16 % 16) ∷ symbol (b % 16 * 4) ∷ []
encode (a ∷ b ∷ c ∷ s) =
    symbol (a / 4 % 64)
    ∷ symbol (a % 4 * 16 + b / 16 % 16)
    ∷ symbol (b % 16 * 4 + c / 64 % 4)
    ∷ symbol (c % 64)
    ∷ encode s

-- The sextets of a text, or `none` at a character that the alphabet does not have.
sextets : Alphabet → Bytes → Option Bytes
sextets alphabet [] = some []
sextets alphabet (b ∷ s) =
    and_then (sextet alphabet b) λ v. map_option (λ vs. v ∷ vs) (sextets alphabet s)

-- Trailing bits that no byte uses are dropped; one character alone is no byte.
join : Bytes → Result Bytes
join [] = ok []
join (p ∷ []) = err (codes "Invalid input length: 1")
join (p ∷ q ∷ []) = ok ((p * 4 + q / 16) ∷ [])
join (p ∷ q ∷ r ∷ []) = ok ((p * 4 + q / 16) ∷ (q % 16 * 16 + r / 4) ∷ [])
join (p ∷ q ∷ r ∷ t ∷ s) =
    join s >>= λ rest. ok ((p * 4 + q / 16) ∷ (q % 16 * 16 + r / 4) ∷ (r % 4 * 64 + t) ∷ rest)

unfoldable pub decode : Alphabet → Bytes → Result Bytes
unfolding sextets sextet last_two join
decode alphabet s = elim (sextets alphabet s) [
  | none ↦ err (codes "Invalid symbol")
  | some vs ↦ join vs
]

letter-IsUrlSafe : (v : ℕ) → v < 64 → IsUrlSafe (letter v)
unfolding letter is_ascii_alphanumeric
letter-IsUrlSafe v h = ground arith

symbol-IsUrlSafe : (v : ℕ) → IsUrlSafe (symbol v)
unfolding symbol
symbol-IsUrlSafe v = letter-IsUrlSafe (v % 64) (omega arith)

sextet-letter : (v : ℕ) → v < 64 → sextet url_safe (letter v) ≡ some v
unfolding letter sextet last_two
sextet-letter v h = ground arith

sextet-symbol : (v : ℕ) → sextet url_safe (symbol v) ≡ some (v % 64)
unfolding symbol
sextet-symbol v = sextet-letter (v % 64) (omega arith)

pub encode-IsUrlSafe : (s : Bytes) → All IsUrlSafe (encode s)
unfolding encode
encode-IsUrlSafe [] = tt
encode-IsUrlSafe (a ∷ []) = (symbol-IsUrlSafe _, (symbol-IsUrlSafe _, tt))
encode-IsUrlSafe (a ∷ b ∷ []) = (symbol-IsUrlSafe _, (symbol-IsUrlSafe _, (symbol-IsUrlSafe _, tt)))
encode-IsUrlSafe (a ∷ b ∷ c ∷ s) = (
  symbol-IsUrlSafe _,
  (symbol-IsUrlSafe _, (symbol-IsUrlSafe _, (symbol-IsUrlSafe _, encode-IsUrlSafe s))),
)

pub length-encode : (s : Bytes) → length (encode s) ≡ (4 * length s + 2) / 3
unfolding encode
length-encode [] = omega arith
length-encode (a ∷ []) = omega arith
length-encode (a ∷ b ∷ []) = omega arith
length-encode (a ∷ b ∷ c ∷ s) = omega (arith, length-encode s)

sextets-nil : sextets url_safe [] ≡ some []
unfolding sextets
sextets-nil = refl

sextets_step :
    (v : ℕ) (s vs : Bytes)
    → sextets url_safe s ≡ some vs
    → sextets url_safe (symbol v ∷ s) ≡ some ((v % 64) ∷ vs)
unfolding sextets
sextets_step v s vs e = rw (sextet-symbol v, e)

-- The sextets of what was encoded, and that they join to it.
sextets-encode :
    (s : Bytes)
    → All IsByte s
    → (vs : Bytes) × (sextets url_safe (encode s) ≡ some vs) × (join vs ≡ ok s)
unfolding encode join
sextets-encode [] h = ([], sextets-nil, refl)
sextets-encode (a ∷ []) h = (
  (a / 4 % 64 % 64) ∷ (a % 4 * 16 % 64) ∷ [],
  sextets_step _ _ _ (sextets_step _ _ _ sextets-nil),
  ground arith,
)
sextets-encode (a ∷ b ∷ []) h = (
  (a / 4 % 64 % 64) ∷ ((a % 4 * 16 + b / 16 % 16) % 64) ∷ (b % 16 * 4 % 64) ∷ [],
  sextets_step _ _ _ (sextets_step _ _ _ (sextets_step _ _ _ sextets-nil)),
  ground arith,
)
sextets-encode (a ∷ b ∷ c ∷ s) h =
    let (vs, read, joined) = sextets-encode s h.1.1.1 in
    (
      (a / 4 % 64 % 64)
          ∷ ((a % 4 * 16 + b / 16 % 16) % 64)
          ∷ ((b % 16 * 4 + c / 64 % 4) % 64)
          ∷ (c % 64 % 64)
          ∷ vs,
      sextets_step _ _ _ (sextets_step _ _ _ (sextets_step _ _ _ (sextets_step _ _ _ read))),
      ground (arith, joined),
    )

pub decode-encode : (s : Bytes) → All IsByte s → decode url_safe (encode s) ≡ ok s
unfolding decode
decode-encode s h = let (vs, read, joined) = sextets-encode s h in rw (read, decode) joined
