-- ===== src/Keys/Identity.antt =====
-- What an identity of src/keys.rs shows of itself, and that its signatures verify.
use aamio_rust.Base.{
  ℕ, ◌≡◌, refl, true, some, arith, ◌==◌, if◌then◌else◌, length, length-take, All, ok, err, Bytes,
  codes,
}
use aamio_rust.Extern.Encodings.{Encodings, IsByte}
use aamio_rust.Extern.Hashing.{Hashing}
use aamio_rust.Extern.Crypto.{Crypto}
use aamio_rust.Codec.{b64url, sha256, is_key}
use aamio_rust.Codec.Shape.{b64url-is_key}
use aamio_rust.Codec.RoundTrip.{unb64url-b64url}
use aamio_rust.Keys.{exactly, from_seed, from_seed_hex, sign, verify, curve_public, hash_prefix_of}

pub exactly_lem : (n : ℕ) (s : Bytes) → length s ≡ n → exactly n s ≡ some s
unfolding exactly
exactly_lem n s h = ground (arith, h)

module _ ⦃e : Encodings⦄ ⦃h : Hashing⦄ ⦃c : Crypto⦄ where
  -- The public key of an identity has the shape of a key, `hash_prefix_of` computes from it
  -- the prefix that the identity has, and the hash has 64 characters and the prefix 8.
  pub from_seed_lem :
      (seed : Bytes)
      → (is_key (from_seed seed).public ≡ true)
        × (hash_prefix_of (from_seed seed).public ≡ ok (from_seed seed).hash_prefix)
        × (length (from_seed seed).hash ≡ 64)
        × (length (from_seed seed).hash_prefix ≡ 8)
  unfolding from_seed hash_prefix_of sha256
  from_seed_lem seed =
      let raw = c.public_bytes (c.signing_key seed) in
      let hash_size : length (e.encode_hex (h.digest raw)) ≡ 64 =
        omega (arith, e.length-encode_hex (h.digest raw), h.length-digest raw) in
      (
        b64url-is_key raw (c.length-public_bytes _),
        rw (unb64url-b64url raw (c.public_bytes-IsByte _)) refl,
        hash_size,
        omega (arith, length-take 8 (e.encode_hex (h.digest raw)), hash_size),
      )

  -- The curve key of an identity's public key is that of its own verifying key.
  pub curve_public-public_bytes :
      (k : c.SigningKey) (v : c.VerifyingKey)
      → c.verifying_key (c.public_bytes k) ≡ some v
      → curve_public (b64url (c.public_bytes k)) ≡ ok (c.to_montgomery v)
  unfolding curve_public
  curve_public-public_bytes k v point =
      rw
        (
          b64url-is_key (c.public_bytes k) (c.length-public_bytes k),
          unb64url-b64url (c.public_bytes k) (c.public_bytes-IsByte k),
          exactly_lem 32 (c.public_bytes k) (c.length-public_bytes k),
          point,
        )
        refl

  pub curve_public-from_seed :
      (seed : Bytes) (v : c.VerifyingKey)
      → c.verifying_key (c.public_bytes (c.signing_key seed)) ≡ some v
      → curve_public (from_seed seed).public ≡ ok (c.to_montgomery v)
  unfolding from_seed
  curve_public-from_seed seed v point = curve_public-public_bytes (c.signing_key seed) v point

  -- A signature by an identity over a text verifies under the identity's public key over
  -- that text.
  pub verify-sign :
      (seed input : Bytes)
      → verify (from_seed seed).public (sign (from_seed seed) input) input ≡ true
  unfolding verify sign from_seed
  verify-sign seed input =
      let k = c.signing_key seed in
      let (point, is_point) = c.verifying_key-public_bytes k in
      rw
        (
          b64url-is_key (c.public_bytes k) (c.length-public_bytes k),
          unb64url-b64url (c.public_bytes k) (c.public_bytes-IsByte k),
          exactly_lem 32 (c.public_bytes k) (c.length-public_bytes k),
          is_point,
          unb64url-b64url (c.sign k input) (c.sign-IsByte k input),
          exactly_lem 64 (c.sign k input) (c.length-sign k input),
        )
        (c.verify-sign k point input is_point)

  -- From the hexadecimal text of some bytes, `from_seed_hex` rebuilds the identity of the
  -- bytes where they are 32, and gives an error otherwise.
  pub from_seed_hex-encode_hex :
      (seed : Bytes)
      → All IsByte seed
      → from_seed_hex (e.encode_hex seed)
        ≡ (if length seed == 32 then ok (from_seed seed) else err (codes "a seed is 32 bytes"))
  unfolding from_seed_hex
  from_seed_hex-encode_hex seed bytes = ground (arith, e.decode-encode_hex seed bytes)
