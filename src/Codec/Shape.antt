-- ===== src/Codec/Shape.antt =====
-- The shapes of what src/codec.rs encodes: keys, hashes and base32 text.
use aamio_rust.Base.{
  ℕ, ◌+◌, ◌*◌, ◌/◌, ◌≤◌, ◌≡◌, refl, ◌∙◌, ◌⊎◌, Bool, true, List, [], ◌∷◌, arith, length, All, Bytes,
  all,
}
use aamio_rust.Base.Ascii.{lower, to_lowercase, length-to_lowercase}
use aamio_rust.Extern.Encodings.{Encodings, IsUrlSafe, IsBase32, IsHex}
use aamio_rust.Extern.Hashing.{Hashing}
use aamio_rust.Codec.{b64url, base32, sha256_hex, is_word_byte, is_key}

-- A test that holds at every element.
pub all_of_All {ℓ κ} :
    {A : Type ℓ} {P : A → Type κ} (p : A → Bool)
    → ((x : A) → P x → p x ≡ true)
    → (s : List A) → All P s
    → all p s ≡ true
unfolding all
all_of_All p f [] h = refl
all_of_All p f (x ∷ s) h = ground (arith, f x h.0, all_of_All p f s h.1)

pub All-of_all {ℓ} :
    {A : Type ℓ} (p : A → Bool) (s : List A) → all p s ≡ true → All (λ x. p x ≡ true) s
unfolding all
All-of_all p [] h = tt
All-of_all p (x ∷ s) h = (ground arith, All-of_all p s (ground arith))

pub IsUrlSafe-is_word_byte : (b : ℕ) → IsUrlSafe b → is_word_byte b ≡ true
unfolding is_word_byte
IsUrlSafe-is_word_byte b h = ground arith

-- A character of a write address: `a` to `z`, or `2` to `7`.
abbrev pub IsAddressByte : ℕ → Type 0
IsAddressByte b = ((b'a' ≤ b) × (b ≤ b'z')) ⊎ ((b'2' ≤ b) × (b ≤ b'7'))

lower-IsBase32 : (b : ℕ) → IsBase32 b → IsAddressByte (lower b)
unfolding lower
lower-IsBase32 b h = ground arith

to_lowercase-IsBase32 : (s : Bytes) → All IsBase32 s → All IsAddressByte (to_lowercase s)
unfolding to_lowercase
to_lowercase-IsBase32 [] h = tt
to_lowercase-IsBase32 (b ∷ s) h = (lower-IsBase32 b h.0, to_lowercase-IsBase32 s h.1)

module _ ⦃e : Encodings⦄ where
  pub b64url-IsUrlSafe : (s : Bytes) → All IsUrlSafe (b64url s)
  unfolding b64url
  b64url-IsUrlSafe s = e.url_safe_no_pad-IsUrlSafe s

  -- Every 32 bytes encode to the shape of a public key.
  pub b64url-is_key : (s : Bytes) → length s ≡ 32 → is_key (b64url s) ≡ true
  unfolding b64url is_key
  b64url-is_key s h = ground (
    arith,
    e.length-url_safe_no_pad s,
    all_of_All is_word_byte IsUrlSafe-is_word_byte (e.url_safe_no_pad s)
        (e.url_safe_no_pad-IsUrlSafe s),
  )

  pub base32-IsAddressByte : (s : Bytes) → All IsAddressByte (base32 s)
  unfolding base32
  base32-IsAddressByte s = to_lowercase-IsBase32 _ (e.base32_nopad-IsBase32 s)

  pub length-base32 : (s : Bytes) → length (base32 s) ≡ (8 * length s + 4) / 5
  unfolding base32
  length-base32 s = length-to_lowercase _ ∙ e.length-base32_nopad s

module _ ⦃e : Encodings⦄ ⦃h : Hashing⦄ where
  pub length-sha256_hex : (s : Bytes) → length (sha256_hex s) ≡ 64
  unfolding sha256_hex
  length-sha256_hex s = omega (arith, e.length-encode_hex (h.digest s), h.length-digest s)

  pub sha256_hex-IsHex : (s : Bytes) → All IsHex (sha256_hex s)
  unfolding sha256_hex
  sha256_hex-IsHex s = e.encode_hex-IsHex _
