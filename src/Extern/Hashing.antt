-- ===== src/Extern/Hashing.antt =====
-- The package `sha2`: the digest of a whole text, and the hasher that is fed in parts.
use aamio_rust.Base.{◌≡◌, ◌++◌, Bytes, length, All}
use aamio_rust.Extern.Encodings.{IsByte}

pub record Hashing : Type 1 where
  -- `Sha256`
  pub Hasher : Type 0
  -- `Sha256::digest`
  pub digest : Bytes → Bytes
  -- `Sha256::new_with_prefix`
  pub new_with_prefix : Bytes → Hasher
  pub update : Hasher → Bytes → Hasher
  pub finalize : Hasher → Bytes
  pub length-digest : (s : Bytes) → length (digest s) ≡ 32
  pub digest-IsByte : (s : Bytes) → All IsByte (digest s)
  -- Feeding a text in two parts hashes the whole.
  pub finalize-update : (p s : Bytes) → finalize (update (new_with_prefix p) s) ≡ digest (p ++ s)
