-- ===== src/Extern/Encodings.antt =====
-- The packages `base64`, `hex` and `data_encoding`.
use aamio_rust.Base.{ℕ, ◌+◌, ◌*◌, ◌/◌, ◌≤◌, ◌<◌, ◌≡◌, ◌⊎◌, true, Bytes, Result, ok, length, All}
use aamio_rust.Base.Ascii.{is_ascii_alphanumeric, is_ascii_uppercase}

pub data Alphabet : Type 0 where
  standard url_safe : Alphabet

abbrev pub IsByte : ℕ → Type 0
IsByte b = b < 256

-- A character of base64url.
abbrev pub IsUrlSafe : ℕ → Type 0
IsUrlSafe b = (is_ascii_alphanumeric b ≡ true) ⊎ (b ≡ b'_') ⊎ (b ≡ b'-')

-- A character of the RFC 4648 base32 alphabet.
abbrev pub IsBase32 : ℕ → Type 0
IsBase32 b = (is_ascii_uppercase b ≡ true) ⊎ ((b'2' ≤ b) × (b ≤ b'7'))

-- A lowercase hexadecimal digit.
abbrev pub IsHex : ℕ → Type 0
IsHex b = ((b'0' ≤ b) × (b ≤ b'9')) ⊎ ((b'a' ≤ b) × (b ≤ b'f'))

pub record Encodings : Type 0 where
  -- `URL_SAFE_NO_PAD.encode`
  pub url_safe_no_pad : Bytes → Bytes
  -- `GeneralPurpose::new(alphabet, config).decode`, where the configuration allows unused trailing
  -- bits and is indifferent to padding
  pub decode_base64 : Alphabet → Bytes → Result Bytes
  -- `hex::encode` and `hex::decode`
  pub encode_hex : Bytes → Bytes
  pub decode_hex : Bytes → Result Bytes
  -- `BASE32_NOPAD.encode`
  pub base32_nopad : Bytes → Bytes
  pub url_safe_no_pad-IsUrlSafe : (s : Bytes) → All IsUrlSafe (url_safe_no_pad s)
  pub length-url_safe_no_pad : (s : Bytes) → length (url_safe_no_pad s) ≡ (4 * length s + 2) / 3
  pub decode-encode_base64 :
      (s : Bytes) → All IsByte s → decode_base64 url_safe (url_safe_no_pad s) ≡ ok s
  pub encode_hex-IsHex : (s : Bytes) → All IsHex (encode_hex s)
  pub length-encode_hex : (s : Bytes) → length (encode_hex s) ≡ 2 * length s
  pub decode-encode_hex : (s : Bytes) → All IsByte s → decode_hex (encode_hex s) ≡ ok s
  pub base32_nopad-IsBase32 : (s : Bytes) → All IsBase32 (base32_nopad s)
  pub length-base32_nopad : (s : Bytes) → length (base32_nopad s) ≡ (8 * length s + 4) / 5
