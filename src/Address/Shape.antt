-- ===== src/Address/Shape.antt =====
-- What src/address.rs makes has the shape that it checks.
use aamio_rust.Base.{
  ℕ, zero, suc, ◌%◌, ◌≤◌, ◌<◌, ◌≡◌, refl, ◌⊎◌, inl, inr, true, false, ◌&&◌, some, [], ◌∷◌, ◌++◌,
  arith, leb, Bool-cases, length, take, length-take, All, All-take, ok, err, Bytes, codes, all,
}
use aamio_rust.Base.Ascii.{is_ascii_lowercase, is_ascii_digit}
use aamio_rust.Extern.Encodings.{Encodings}
use aamio_rust.Extern.Hashing.{Hashing}
use aamio_rust.Codec.{base32, sha256}
use aamio_rust.Codec.Shape.{
  all_of_All, All-of_all, IsAddressByte, base32-IsAddressByte, length-base32,
}
use aamio_rust.Address.{
  id_alphabet, letter_at, id_letters, new_id_length, new_id, new_scope_key, is_id_byte, is_id,
  is_w_byte, is_w, is_scope_key, w, scope_address,
}

IsAddressByte-is_w_byte : (b : ℕ) → IsAddressByte b → is_w_byte b ≡ true
unfolding is_w_byte is_ascii_lowercase
IsAddressByte-is_w_byte b h = ground arith

-- The first 20 characters of at least 20 characters of base32 are an address.
take-is_w : (s : Bytes) → All IsAddressByte s → 20 ≤ length s → is_w (take 20 s) ≡ true
unfolding is_w
take-is_w s h long = ground (
  arith,
  length-take 20 s,
  all_of_All is_w_byte IsAddressByte-is_w_byte (take 20 s) (All-take IsAddressByte 20 s h),
)

module _ ⦃e : Encodings⦄ ⦃h : Hashing⦄ where
  base32-sha256-is_w : (s : Bytes) → is_w (take 20 (base32 (sha256 s))) ≡ true
  unfolding sha256
  base32-sha256-is_w s =
      take-is_w _ (base32-IsAddressByte (h.digest s))
        (omega (arith, length-base32 (h.digest s), h.length-digest s))

  -- Either the text has the shape of a read key and its write address has the shape of one,
  -- or it has not and the address is refused with an error.
  pub w-is_w :
      (id : Bytes)
      → ((is_id id ≡ true) × (address : Bytes) × (w id ≡ ok address) × (is_w address ≡ true))
        ⊎ ((is_id id ≡ false) × (w id ≡ err (codes "an id is 20 to 64 characters of a-z and 0-9")))
  unfolding w
  w-is_w id = elim (Bool-cases (is_id id)) [
    | inl good ↦ inl (good, take 20 (base32 (sha256 id)), rw good, base32-sha256-is_w id)
    | inr bad ↦ inr (bad, rw bad)
  ]

  -- The address of a scope key has the shape of a write address, and not that of a scope
  -- key.
  pub scope_address-is_w :
      (scope_key address : Bytes)
      → scope_address scope_key ≡ ok address
      → (is_w address ≡ true) × (is_scope_key address ≡ false)
  unfolding scope_address is_w is_scope_key
  scope_address-is_w scope_key address k =
      ground (arith, base32-sha256-is_w (codes "aamio-scope-v1\n" ++ scope_key))

letter_at-is_id_byte :
    (i : ℕ) (s : Bytes)
    → i < length s
    → All (λ b. is_id_byte b ≡ true) s
    → is_id_byte (letter_at i s) ≡ true
unfolding letter_at
letter_at-is_id_byte i [] lt h = absurd (omega arith)
letter_at-is_id_byte zero (b ∷ s) lt h = h.0
letter_at-is_id_byte (suc i) (b ∷ s) lt h = letter_at-is_id_byte i s (omega arith) h.1

alphabet-is_id_byte : all is_id_byte id_alphabet ≡ true
unfolding all is_id_byte is_ascii_lowercase is_ascii_digit id_alphabet
alphabet-is_id_byte = refl

letter-is_id_byte : (d : ℕ) → is_id_byte (letter_at (d % length id_alphabet) id_alphabet) ≡ true
unfolding id_alphabet
letter-is_id_byte d =
    letter_at-is_id_byte (d % length id_alphabet) id_alphabet (omega arith)
      (All-of_all is_id_byte id_alphabet alphabet-is_id_byte)

id_letters-is_id_byte :
    (n : ℕ) (draws : ℕ → ℕ)
    → (length (id_letters n draws) ≡ n) × (all is_id_byte (id_letters n draws) ≡ true)
unfolding id_letters all
id_letters-is_id_byte zero draws = (refl, refl)
id_letters-is_id_byte (suc n) draws =
    let rest = id_letters-is_id_byte n (λ k. draws (suc k)) in
    (omega (arith, rest.0), ground (arith, letter-is_id_byte (draws 0), rest.1))

-- Whatever the generator draws: for a length of 20 to 64 a read key of that length and shape
-- is made, and any other length is refused with an error.
pub new_id_length-is_id :
    (n : ℕ) (draws : ℕ → ℕ)
    → ((20 ≤ n)
        × (n ≤ 64)
        × (id : Bytes) × (new_id_length n draws ≡ ok id)
        × (length id ≡ n)
        × (is_id id ≡ true))
      ⊎ (((n < 20) ⊎ (64 < n))
          × (new_id_length n draws ≡ err (codes "an id is 20 to 64 characters")))
unfolding new_id_length is_id
new_id_length-is_id n draws = elim (Bool-cases (leb 20 n && leb n 64)) [
  | inl good ↦
      let (size, letters) = id_letters-is_id_byte n draws in
      inl (
        ground arith,
        ground arith,
        id_letters n draws,
        rw good,
        size,
        ground (arith, size, letters),
      )
  | inr bad ↦ inr (ground arith, rw bad)
]

-- Whatever the generator draws, `new_id` and `new_scope_key` do not panic, and they make a
-- read key and a scope key.
pub new_id-is_id :
    (draws : ℕ → ℕ)
    → ((id : Bytes) × (new_id draws ≡ some id) × (is_id id ≡ true))
      × ((key : Bytes) × (new_scope_key draws ≡ some key) × (is_scope_key key ≡ true))
unfolding new_id new_scope_key new_id_length is_id is_scope_key
new_id-is_id draws =
    let (size, letters) = id_letters-is_id_byte 26 draws in
    (
      (id_letters 26 draws, refl, ground (arith, size, letters)),
      (id_letters 26 draws, refl, ground (arith, size, letters)),
    )
