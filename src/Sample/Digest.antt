-- ===== src/Sample/Digest.antt =====
-- A digest of 32 bytes that stands in for SHA-256 where a test evaluates, and the interfaces filled.
use aamio_rust.Base.{
  ℕ, ◌+◌, ◌*◌, ◌/◌, ◌%◌, ◌≡◌, refl, [], ◌∷◌, ◌++◌, arith, length, replicate, All, Bytes,
}
use aamio_rust.Extern.Encodings.{Encodings, IsByte}
use aamio_rust.Extern.Hashing.{Hashing}
use aamio_rust.Sample.Base64
use aamio_rust.Sample.Hex
use aamio_rust.Sample.Base32

mix : ℕ → Bytes → ℕ
mix n [] = n
mix n (b ∷ s) = mix ((n * 31 + b) % 65536) s

unfoldable pub digest : Bytes → Bytes
unfolding mix
digest s = let m = mix 7 s in (m / 256 % 256) ∷ (m % 256) ∷ replicate 30 (m % 251)

pub length-digest : (s : Bytes) → length (digest s) ≡ 32
unfolding digest
length-digest s = refl

pub digest-IsByte : (s : Bytes) → All IsByte (digest s)
unfolding digest
digest-IsByte s = omega arith

instance abbrev pub sample_encodings : Encodings
sample_encodings = record {
  url_safe_no_pad = Base64.encode;
  decode_base64 = Base64.decode;
  encode_hex = Hex.encode;
  decode_hex = Hex.decode;
  base32_nopad = Base32.encode;
  url_safe_no_pad-IsUrlSafe = Base64.encode-IsUrlSafe;
  length-url_safe_no_pad = Base64.length-encode;
  decode-encode_base64 = Base64.decode-encode;
  encode_hex-IsHex = Hex.encode-IsHex;
  length-encode_hex = Hex.length-encode;
  decode-encode_hex = Hex.decode-encode;
  base32_nopad-IsBase32 = Base32.encode-IsBase32;
  length-base32_nopad = Base32.length-encode;
}

instance abbrev pub sample_hashing : Hashing
sample_hashing = record {
  Hasher = Bytes;
  digest = digest;
  new_with_prefix = λ p. p;
  update = λ t s. t ++ s;
  finalize = digest;
  length-digest = length-digest;
  digest-IsByte = digest-IsByte;
  finalize-update = λ p s. refl;
}
