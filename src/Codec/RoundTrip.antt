-- ===== src/Codec/RoundTrip.antt =====
-- What src/codec.rs encodes it decodes again.
use aamio_rust.Base.{ℕ, ◌≡◌, ◌∙◌, ◌≢◌, arith, All, All-map, ok, Bytes}
use aamio_rust.Base.Ascii.{is_ascii_alphanumeric, contains_byte-Lacks, trim_end_matches-Lacks}
use aamio_rust.Extern.Encodings.{Encodings, url_safe, IsByte, IsUrlSafe}
use aamio_rust.Codec.{b64url, unb64url}

IsUrlSafe-ne_pad : (b : ℕ) → IsUrlSafe b → b ≢ b'='
unfolding is_ascii_alphanumeric
IsUrlSafe-ne_pad b h = ground arith

IsUrlSafe-ne_plus : (b : ℕ) → IsUrlSafe b → b ≢ b'+'
unfolding is_ascii_alphanumeric
IsUrlSafe-ne_plus b h = ground arith

IsUrlSafe-ne_slash : (b : ℕ) → IsUrlSafe b → b ≢ b'/'
unfolding is_ascii_alphanumeric
IsUrlSafe-ne_slash b h = ground arith

module _ ⦃e : Encodings⦄ where
  -- Text of the base64url alphabet is decoded as it stands, by that alphabet.
  pub unb64url_url_safe : (s : Bytes) → All IsUrlSafe s → unb64url s ≡ e.decode_base64 url_safe s
  unfolding unb64url
  unb64url_url_safe s h = ground (
    arith,
    trim_end_matches-Lacks b'=' s (All-map IsUrlSafe-ne_pad s h),
    contains_byte-Lacks b'+' s (All-map IsUrlSafe-ne_plus s h),
    contains_byte-Lacks b'/' s (All-map IsUrlSafe-ne_slash s h),
  )

  -- Decoding what `b64url` wrote for some bytes gives the bytes back.
  pub unb64url-b64url : (s : Bytes) → All IsByte s → unb64url (b64url s) ≡ ok s
  unfolding b64url
  unb64url-b64url s h =
      unb64url_url_safe _ (e.url_safe_no_pad-IsUrlSafe s) ∙ e.decode-encode_base64 s h
