-- ===== src/Tests/Client.antt =====
-- Messages of src/client.rs at concrete inputs.
use aamio_rust.Base.{
  not, ◌&&◌, ◌≡◌, refl, ◌↔◌, ◌⊎◌, Bool, true, false, none, some, List, [], ◌∷◌, replicate, Bytes,
  codes, same, any,
}
use aamio_rust.Base.Utf8.{from_utf8_lossy}
use aamio_rust.Base.Pieces.{split, trim}
use aamio_rust.Sample.Digest.{sample_encodings, sample_hashing, digest}
use aamio_rust.Sample.Crypto.{sample_crypto, sample_envelopes, signature}
use aamio_rust.Sample.Json.{sample_json, Value, boolean, string, object, Fields, field, end, get}
use aamio_rust.Codec.{sha256_hex, b64url}
use aamio_rust.Sample.Base64
use aamio_rust.Keys.Identity.{verify-sign}
use aamio_rust.Keys.{is_empty_text, is_empty_text, Keys, from_seed, sign, thread_signing_input}
use aamio_rust.Client.Check.{check_message, Signed, check_message-Signed}
use aamio_rust.Client.Fields.{str_field}
use aamio_rust.Client.Message.{decode_at, decode_all}
use aamio_rust.Client.Message.Decoded.{decode_at-Signed}
use aamio_rust.Client.Allow.{
  push_entries, push_parts, push_part, contains, star, normalize_allow, hand_over,
}
use aamio_rust.Client.Allow.Normal.{Normal, parts_of, normalize_allow-Normal}
use aamio_rust.Client.Allow.Handed.{AllPlaced, hand_over-Placed}

-- A replacement character for each byte that begins no character, and for a piece that ends early.
lossy_texts :
    (from_utf8_lossy (b'a' ∷ 255 ∷ b'b' ∷ []) ≡ b'a' ∷ 239 ∷ 191 ∷ 189 ∷ b'b' ∷ [])
    × (from_utf8_lossy (226 ∷ 130 ∷ 172 ∷ []) ≡ 226 ∷ 130 ∷ 172 ∷ [])
    × (from_utf8_lossy (226 ∷ 130 ∷ b'x' ∷ []) ≡ 239 ∷ 191 ∷ 189 ∷ b'x' ∷ [])
unfolding from_utf8_lossy
lossy_texts = (refl, refl, refl)

normal_list :
    normalize_allow (codes " a,b" ∷ codes "b, ,c " ∷ []) ≡ codes "a" ∷ codes "b" ∷ codes "c" ∷ []
unfolding codes normalize_allow any push_entries push_parts split push_part trim contains same
normal_list = refl

normalize_allow-Normal_example :
    ((contains (parts_of (codes " a,b" ∷ codes "b, ,c " ∷ [])) star ≡ true)
      × (normalize_allow (codes " a,b" ∷ codes "b, ,c " ∷ []) ≡ star ∷ []))
    ⊎ ((contains (parts_of (codes " a,b" ∷ codes "b, ,c " ∷ [])) star ≡ false)
        × Normal (normalize_allow (codes " a,b" ∷ codes "b, ,c " ∷ []))
        × ((k : Bytes)
            → contains (normalize_allow (codes " a,b" ∷ codes "b, ,c " ∷ [])) k ≡ (
                not (is_empty_text k)
                && contains (parts_of (codes " a,b" ∷ codes "b, ,c " ∷ [])) k)))
normalize_allow-Normal_example = normalize_allow-Normal (codes " a,b" ∷ codes "b, ,c " ∷ [])

unfoldable abbrev pub address : Bytes
unfolding codes
address = codes "abcdefghijabcdefghij"

abbrev alice : Keys
alice = from_seed (replicate 32 1)

abbrev hello : Bytes
hello = b'h' ∷ b'i' ∷ []

-- A message that alice signed.
abbrev raw_of_alice : Fields
raw_of_alice = field (codes "body") (string hello) (
    field (codes "sha256") (string (sha256_hex hello)) (
      field (codes "from") (string alice.public) (
        field (codes "sig") (string (sign alice (thread_signing_input address hello)))
          (field (codes "verified") (boolean true) end))))

check_message-Signed_example :
    (((check_message address raw_of_alice).0 ≡ true) ↔ Signed address raw_of_alice)
    × (((check_message address raw_of_alice).0 ≡ false)
        ⊎ ((check_message address raw_of_alice).1 ≡ none))
check_message-Signed_example = check_message-Signed address raw_of_alice

decode_at-Signed_example :
    (((decode_at false (some alice) address raw_of_alice).verified ≡ true)
      × Signed address raw_of_alice
      × ((decode_at false (some alice) address raw_of_alice).from
          ≡ str_field raw_of_alice (codes "from"))
      × ((decode_at false (some alice) address raw_of_alice).unverified_because ≡ none))
    ⊎ (((decode_at false (some alice) address raw_of_alice).verified ≡ false)
        × ((decode_at false (some alice) address raw_of_alice).from ≡ none)
        × ((decode_at false (some alice) address raw_of_alice).opened ≡ none))
decode_at-Signed_example = decode_at-Signed false (some alice) address raw_of_alice

pub open_to_all : normalize_allow (star ∷ []) ≡ star ∷ []
unfolding normalize_allow any push_entries push_parts split push_part trim contains same
open_to_all = refl

abbrev two_raws : List (Bool × Value)
two_raws = (false, object raw_of_alice) ∷ (false, boolean true) ∷ []

hand_over-Placed_example :
    AllPlaced
      (star ∷ [])
      true
      (decode_all (some alice) address two_raws)
      (hand_over (star ∷ []) true (decode_all (some alice) address two_raws))
hand_over-Placed_example =
    hand_over-Placed (star ∷ []) true (decode_all (some alice) address two_raws)

alice_fields :
    (str_field raw_of_alice (codes "body") ≡ some hello)
    × (str_field raw_of_alice (codes "sha256") ≡ some (sha256_hex hello))
    × (str_field raw_of_alice (codes "from") ≡ some alice.public)
    × (str_field raw_of_alice (codes "sig")
        ≡ some (sign alice (thread_signing_input address hello)))
unfolding str_field get codes same
alice_fields = (refl, refl, refl, refl)

alice_texts :
    (is_empty_text alice.public ≡ false)
    × (is_empty_text (sign alice (thread_signing_input address hello)) ≡ false)
unfolding from_seed sign b64url Base64.encode digest signature
alice_texts = (refl, refl)

-- The message of alice verifies.
alice_verifies : (check_message address raw_of_alice).0 ≡ true
alice_verifies =
    let fields = alice_fields in
    let texts = alice_texts in
    (check_message-Signed address raw_of_alice).0.1 (
      hello,
      alice.public,
      sign alice (thread_signing_input address hello),
      fields.0,
      fields.1,
      fields.2,
      fields.3,
      texts.0,
      texts.1,
      verify-sign (replicate 32 1) (thread_signing_input address hello),
    )
