-- ===== src/Extern/Crypto.antt =====
-- The packages `ed25519_dalek` and `crypto_box`.
use aamio_rust.Base.{◌+◌, Bool, true, Option, some, ◌≡◌, Bytes, length, All}
use aamio_rust.Extern.Encodings.{IsByte}

pub record Crypto : Type 1 where
  pub SigningKey : Type 0
  pub VerifyingKey : Type 0
  -- `SigningKey::from_bytes`
  pub signing_key : Bytes → SigningKey
  -- `verifying_key().to_bytes()`
  pub public_bytes : SigningKey → Bytes
  pub to_scalar_bytes : SigningKey → Bytes
  pub sign : SigningKey → Bytes → Bytes
  -- `VerifyingKey::from_bytes`, which fails where the bytes are no point on the curve
  pub verifying_key : Bytes → Option VerifyingKey
  -- `verify(input, signature).is_ok()`
  pub verify : VerifyingKey → Bytes → Bytes → Bool
  -- `to_montgomery().to_bytes()`
  pub to_montgomery : VerifyingKey → Bytes
  -- `SalsaBox::new(peer, secret)`, then `encrypt` or `decrypt` under a nonce
  pub encrypt : Bytes → Bytes → Bytes → Bytes → Option Bytes
  pub decrypt : Bytes → Bytes → Bytes → Bytes → Option Bytes
  pub length-public_bytes : (k : SigningKey) → length (public_bytes k) ≡ 32
  pub public_bytes-IsByte : (k : SigningKey) → All IsByte (public_bytes k)
  pub length-sign : (k : SigningKey) (input : Bytes) → length (sign k input) ≡ 64
  pub sign-IsByte : (k : SigningKey) (input : Bytes) → All IsByte (sign k input)
  -- The public bytes of a signing key are a point, and its signatures verify under it.
  pub verifying_key-public_bytes :
      (k : SigningKey) → (v : VerifyingKey) × (verifying_key (public_bytes k) ≡ some v)
  pub verify-sign :
      (k : SigningKey) (v : VerifyingKey) (input : Bytes)
      → verifying_key (public_bytes k) ≡ some v
      → verify v input (sign k input) ≡ true
  pub encrypt-IsByte :
      (peer secret nonce plain ct : Bytes)
      → encrypt peer secret nonce plain ≡ some ct
      → All IsByte ct
  pub length-encrypt :
      (peer secret nonce plain ct : Bytes)
      → encrypt peer secret nonce plain ≡ some ct
      → length ct ≡ length plain + 16
  -- The two ends of a box agree on its key.
  pub decrypt-encrypt :
      (a b : SigningKey) (va vb : VerifyingKey) (nonce plain ct : Bytes)
      → All IsByte plain
      → verifying_key (public_bytes a) ≡ some va
      → verifying_key (public_bytes b) ≡ some vb
      → encrypt (to_montgomery vb) (to_scalar_bytes a) nonce plain ≡ some ct
      → decrypt (to_montgomery va) (to_scalar_bytes b) nonce ct ≡ some plain
