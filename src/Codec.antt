-- ===== src/Codec.antt =====
-- src/codec.rs: the encodings that every other module shares.
pub mod Shape
pub mod RoundTrip
use aamio_rust.Base.{ℕ, Bool, ◌&&◌, ◌||◌, ◌==◌, Bytes, Result, length, if◌then◌else◌, all}
use aamio_rust.Base.Ascii.{is_ascii_alphanumeric, trim_end_matches, contains_byte, to_lowercase}
use aamio_rust.Extern.Encodings.{Encodings, Alphabet, standard, url_safe}
use aamio_rust.Extern.Hashing.{Hashing}

module _ ⦃e : Encodings⦄ where
  unfoldable pub b64url : Bytes → Bytes
  b64url bytes = e.url_safe_no_pad bytes

  unfoldable pub unb64url : Bytes → Result Bytes
  unb64url text =
      let trimmed = trim_end_matches b'=' text in
      let alphabet =
        if contains_byte b'+' trimmed || contains_byte b'/' trimmed then standard else url_safe in
      e.decode_base64 alphabet trimmed

  unfoldable pub base32 : Bytes → Bytes
  base32 bytes = to_lowercase (e.base32_nopad bytes)

module _ ⦃h : Hashing⦄ where
  unfoldable pub sha256 : Bytes → Bytes
  sha256 bytes = h.digest bytes

module _ ⦃e : Encodings⦄ ⦃h : Hashing⦄ where
  unfoldable pub sha256_hex : Bytes → Bytes
  sha256_hex bytes = e.encode_hex (h.digest bytes)

-- `b.is_ascii_alphanumeric() || b == b'_' || b == b'-'`
unfoldable pub is_word_byte : ℕ → Bool
is_word_byte b = is_ascii_alphanumeric b || b == b'_' || b == b'-'

unfoldable pub is_key : Bytes → Bool
unfolding is_word_byte
is_key s = (length s == 43) && all is_word_byte s
