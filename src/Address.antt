-- ===== src/Address.antt =====
-- src/address.rs: the read key and the write address.
pub mod Shape
pub mod Separation
use aamio_rust.Base.{
  ℕ, zero, suc, ◌+◌, ◌-◌, ◌%◌, Bool, not, ◌&&◌, ◌||◌, Option, none, some, [], ◌∷◌, ◌++◌, leb, ◌==◌,
  if◌then◌else◌, length, take, Result, ok, err, Bytes, codes, all,
}
use aamio_rust.Base.Ascii.{is_ascii_lowercase, is_ascii_digit}
use aamio_rust.Extern.Encodings.{Encodings}
use aamio_rust.Extern.Hashing.{Hashing}
use aamio_rust.Codec.{base32, sha256}

unfoldable pub id_alphabet : Bytes
unfolding codes
id_alphabet = codes "abcdefghijklmnopqrstuvwxyz0123456789"

-- `(low..=high).contains(&n)`
abbrev pub in_range : ℕ → ℕ → ℕ → Bool
in_range low high n = leb low n && leb n high

-- `ID_ALPHABET[i]`; the generator's index is in range.
unfoldable pub letter_at : ℕ → Bytes → ℕ
letter_at i [] = 0
letter_at zero (b ∷ s) = b
letter_at (suc i) (b ∷ s) = letter_at i s

-- `gen_range(0..ID_ALPHABET.len())` reduces what the system's generator draws; `draws k` is what it
-- draws for the k-th character.
unfoldable pub id_letters : ℕ → (ℕ → ℕ) → Bytes
unfolding letter_at
id_letters zero draws = []
id_letters (suc n) draws =
    letter_at (draws 0 % length id_alphabet) id_alphabet ∷ id_letters n (λ k. draws (suc k))

unfoldable pub new_id_length : ℕ → (ℕ → ℕ) → Result Bytes
new_id_length count draws =
    if not (in_range 20 64 count)
    then err (codes "an id is 20 to 64 characters")
    else ok (id_letters count draws)

-- `expect` on the result: `none` is the panic.
unfoldable pub new_id : (ℕ → ℕ) → Option Bytes
new_id draws = elim (new_id_length 26 draws) [ ok id ↦ some id | err e ↦ none ]

unfoldable pub new_scope_key : (ℕ → ℕ) → Option Bytes
new_scope_key draws = elim (new_id_length 26 draws) [ ok key ↦ some key | err e ↦ none ]

-- `b.is_ascii_lowercase() || b.is_ascii_digit()`
unfoldable pub is_id_byte : ℕ → Bool
is_id_byte b = is_ascii_lowercase b || is_ascii_digit b

unfoldable pub is_id : Bytes → Bool
is_id s = in_range 20 64 (length s) && all is_id_byte s

-- `b.is_ascii_lowercase() || (b'2'..=b'7').contains(&b)`
unfoldable pub is_w_byte : ℕ → Bool
is_w_byte b = is_ascii_lowercase b || in_range b'2' b'7' b

unfoldable pub is_w : Bytes → Bool
is_w s = (length s == 20) && all is_w_byte s

unfoldable pub is_scope_key : Bytes → Bool
is_scope_key s = in_range 26 64 (length s) && all is_id_byte s

module _ ⦃e : Encodings⦄ ⦃h : Hashing⦄ where
  unfoldable pub w : Bytes → Result Bytes
  w id =
      if not (is_id id)
      then err (codes "an id is 20 to 64 characters of a-z and 0-9")
      else ok (take 20 (base32 (sha256 id)))

  unfoldable pub scope_address : Bytes → Result Bytes
  scope_address scope_key =
      if not (is_scope_key scope_key)
      then err (
          codes "a scope key is 26 to 64 characters of a-z and 0-9, never the 20 character address")
      else ok (take 20 (base32 (sha256 (codes "aamio-scope-v1\n" ++ scope_key))))
