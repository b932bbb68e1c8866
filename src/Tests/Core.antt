-- ===== src/Tests/Core.antt =====
-- src/codec.rs and src/address.rs at concrete inputs.
use aamio_rust.Base.{
  ◌++◌, ◌*◌, ◌≤◌, ◌<◌, ◌≡◌, refl, ◌≢◌, ◌⊎◌, true, false, [], ◌∷◌, arith, length, take, ok, err,
  Bytes, codes, all,
}
use aamio_rust.Base.Ascii.{
  is_ascii_lowercase, is_ascii_digit, is_ascii_uppercase, lower, to_lowercase,
}
use aamio_rust.Sample.Digest.{sample_encodings, sample_hashing, digest}
use aamio_rust.Sample.Base32
use aamio_rust.Codec.{b64url, unb64url, base32, sha256}
use aamio_rust.Codec.RoundTrip.{unb64url-b64url}
use aamio_rust.Address.{
  is_id, is_id_byte, is_w, is_scope_key, w, scope_address, new_id_length, id_letters, id_alphabet,
}
use aamio_rust.Address.Shape.{w-is_w, scope_address-is_w, new_id_length-is_id}
use aamio_rust.Address.Separation.{w-scope_address}

abbrev sample_id : Bytes
unfolding codes
sample_id = codes "abcdefghijklmnopqrst123456"

w-is_w_example :
    ((is_id sample_id ≡ true)
      × (address : Bytes) × (w sample_id ≡ ok address)
      × (is_w address ≡ true))
    ⊎ ((is_id sample_id ≡ false)
        × (w sample_id ≡ err (codes "an id is 20 to 64 characters of a-z and 0-9")))
w-is_w_example = w-is_w sample_id

sample_id-is_id : is_id sample_id ≡ true
unfolding sample_id codes is_id all is_id_byte is_ascii_lowercase is_ascii_digit
sample_id-is_id = refl

abbrev sample_address : Bytes
unfolding scope_address is_scope_key all is_id_byte is_ascii_lowercase is_ascii_digit codes
    sample_id
sample_address = elim (scope_address sample_id) [ ok a ↦ a | err m ↦ m ]

scope_address-is_w_example : (is_w sample_address ≡ true) × (is_scope_key sample_address ≡ false)
unfolding sample_address scope_address is_scope_key is_id all is_id_byte is_ascii_lowercase
    is_ascii_digit codes sample_id base32 sha256 to_lowercase lower is_ascii_uppercase digest
    Base32.encode
scope_address-is_w_example = scope_address-is_w sample_id sample_address refl

new_id_length-is_id_example :
    ((20 ≤ 20)
      × (20 ≤ 64)
      × (id : Bytes) × (new_id_length 20 (λ k. k * 7) ≡ ok id)
      × (length id ≡ 20)
      × (is_id id ≡ true))
    ⊎ (((20 < 20) ⊎ (64 < 20))
        × (new_id_length 20 (λ k. k * 7) ≡ err (codes "an id is 20 to 64 characters")))
new_id_length-is_id_example = new_id_length-is_id 20 (λ k. k * 7)

unb64url-b64url_example : unb64url (b64url (0 ∷ 255 ∷ 62 ∷ [])) ≡ ok (0 ∷ 255 ∷ 62 ∷ [])
unb64url-b64url_example = unb64url-b64url (0 ∷ 255 ∷ 62 ∷ []) (omega arith)

new_id_letters : new_id_length 20 (λ k. k) ≡ ok (codes "abcdefghijklmnopqrst")
unfolding new_id_length id_letters id_alphabet
new_id_letters = refl

refused_length : new_id_length 19 (λ k. k) ≡ err (codes "an id is 20 to 64 characters")
unfolding new_id_length
refused_length = refl

-- Two texts of which the stand-in digest is the same.
abbrev colliding_id : Bytes
unfolding codes
colliding_id = codes "abcdefghijklmnopqrstmfaj5n"

abbrev colliding_key : Bytes
unfolding codes
colliding_key = codes "scopekeyscopekeyscopo3o2en"

abbrev shared_address : Bytes
unfolding colliding_id w is_id all is_id_byte codes
shared_address = elim (w colliding_id) [ ok a ↦ a | err m ↦ m ]

w-scope_address_example :
    (colliding_id ≢ codes "aamio-scope-v1\n" ++ colliding_key)
    × (take 20 (base32 (sha256 colliding_id))
        ≡ take 20 (base32 (sha256 (codes "aamio-scope-v1\n" ++ colliding_key))))
unfolding colliding_id colliding_key shared_address w scope_address is_id is_scope_key all
    is_id_byte is_ascii_lowercase is_ascii_digit codes base32 sha256 to_lowercase lower
    is_ascii_uppercase digest Base32.encode
w-scope_address_example = w-scope_address colliding_id colliding_key shared_address refl refl
