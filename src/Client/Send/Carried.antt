-- ===== src/Client/Send/Carried.antt =====
-- The signature of a write in src/client.rs, from the call that posts it to the check of the message
-- that is read.
use aamio_rust.Base.{
  ap, ℕ, inl, inr, ok, All, ◌≡◌, refl, ◌∙◌, true, false, Option, none, some, List, ◌∷◌, [], arith,
  Bytes, codes, Bool-cases, same, map_option, if◌then◌else◌, length,
}
use aamio_rust.Base.Utf8.{from_utf8_lossy}
use aamio_rust.Extern.Envelopes.{Envelopes}
use aamio_rust.Base.Utf8.Valid.{IsScalar, utf8, utf8-IsByte, from_utf8_lossy-utf8}
use aamio_rust.Extern.Encodings.{Encodings, IsByte}
use aamio_rust.Extern.Hashing.{Hashing}
use aamio_rust.Extern.Crypto.{Crypto}
use aamio_rust.Extern.Json.{Json}
use aamio_rust.Extern.Floats.{Floats}
use aamio_rust.Codec.{sha256_hex}
use aamio_rust.Keys.{Keys, sign, verify, from_seed, thread_signing_input, is_empty_text}
use aamio_rust.Keys.Identity.{verify-sign}
use aamio_rust.Keys
use aamio_rust.Keys.Sealing.{b64url-not_empty, open_envelope-seal, envelope_to-sealed}
use aamio_rust.Client.Fields.{str_field, bool_field}
use aamio_rust.Client.Message.{decode_at}
use aamio_rust.Client.Message.Decoded.{decode_at-Signed}
use aamio_rust.Client.Message.Decoded.Opened.{checked_decode-opened}
use aamio_rust.Client.Check.{check_message, Signed-check}
use aamio_rust.Client.World.{Request, World}
use aamio_rust.Client.Calls.{Client, set_headers, request_of}
use aamio_rust.Client.Parcel.{Parcel, signed_headers, post_headers}
use aamio_rust.Client.Send.Posts.{post_request}

-- The value of the first header of a name.
unfoldable pub header_in : Bytes → List (Bytes × Bytes) → Option Bytes
header_in name [] = none
header_in name ((k, value) ∷ headers) =
    let rest = header_in name headers in if same k name then some value else rest

-- What a service does with a write that it took: the body as a text, its hash, and the key and the
-- signature as they came in the headers.
abbrev pub Relays : ⦃j : Json⦄ → ⦃e : Encodings⦄ → ⦃h : Hashing⦄ → Request → j.Map → Type 0
Relays request raw =
    (str_field raw (codes "body") ≡ request.body)
    × (str_field raw (codes "sha256") ≡ map_option sha256_hex request.body)
    × (str_field raw (codes "from") ≡ header_in (codes "X-Key") request.headers)
    × (str_field raw (codes "sig") ≡ header_in (codes "X-Sig") request.headers)

module _ ⦃e : Encodings⦄ ⦃h : Hashing⦄ ⦃c : Crypto⦄ where
  pub public-not_empty : (seed : Bytes) → is_empty_text (from_seed seed).public ≡ false
  unfolding from_seed
  public-not_empty seed =
      b64url-not_empty (c.public_bytes (c.signing_key seed))
        (ground (arith, c.length-public_bytes (c.signing_key seed)))

  pub sign-not_empty : (seed input : Bytes) → is_empty_text (sign (from_seed seed) input) ≡ false
  unfolding from_seed sign
  sign-not_empty seed input =
      b64url-not_empty (c.sign (c.signing_key seed) input)
        (ground (arith, c.length-sign (c.signing_key seed) input))

  -- The headers of a post that is signed hold the key and the signature, and neither is passed over.
  pub signed-headers :
      (seed w : Bytes) (parcel : Parcel) (work : Option Bytes) (accept : Bytes)
      → (header_in (codes "X-Key") (
            (codes "Accept", accept)
            ∷ set_headers (post_headers (some (from_seed seed)) w parcel work))
          ≡ some (from_seed seed).public)
        × (header_in (codes "X-Sig") (
              (codes "Accept", accept)
              ∷ set_headers (post_headers (some (from_seed seed)) w parcel work))
            ≡ some (sign (from_seed seed) (thread_signing_input w parcel.bytes)))
  unfolding post_headers signed_headers set_headers header_in codes same
  signed-headers seed w parcel work accept = elim (Bool-cases (is_empty_text parcel.content_type)) [
    | inl none_there ↦
        rw
          (
            none_there,
            public-not_empty seed,
            sign-not_empty seed (thread_signing_input w parcel.bytes),
          )
          (refl, refl)
    | inr there ↦
        rw (there, public-not_empty seed, sign-not_empty seed (thread_signing_input w parcel.bytes))
          (refl, refl)
  ]

module _ ⦃j : Json⦄ ⦃f : Floats⦄ ⦃e : Encodings⦄ ⦃h : Hashing⦄ ⦃c : Crypto⦄ ⦃world : World⦄
    (client : Client) where
  -- A post that is signed with an identity, whatever work it carries, is a message that verifies at the
  -- address that it was posted to, with nothing held against it, once the service relays it as it was
  -- written.
  pub check_message-post_request :
      (seed w : Bytes) (parcel : Parcel) (work : Option Bytes) (raw : j.Map)
      → Relays (post_request client (some (from_seed seed)) w parcel work) raw
      → ((check_message w raw).0 ≡ true) × ((check_message w raw).1 ≡ none)
  unfolding post_request request_of
  check_message-post_request seed w parcel work raw (body, digest, from, sig) =
      let (key_there, sig_there) = signed-headers seed w parcel work (codes "application/json") in
      Signed-check w raw (
        parcel.bytes,
        (from_seed seed).public,
        sign (from_seed seed) (thread_signing_input w parcel.bytes),
        body,
        digest,
        from ∙ key_there,
        sig ∙ sig_there,
        public-not_empty seed,
        sign-not_empty seed (thread_signing_input w parcel.bytes),
        verify-sign seed (thread_signing_input w parcel.bytes),
      )

module _ ⦃j : Json⦄ ⦃f : Floats⦄ ⦃e : Encodings⦄ ⦃h : Hashing⦄ ⦃c : Crypto⦄ ⦃v : Envelopes⦄
    ⦃world : World⦄ (client : Client) where
  -- As below, for any bytes that are sealed.
  decode_at-posted :
      (seed_a seed_b w plain nonce : Bytes) (parcel : Parcel) (work : Option Bytes) (raw : j.Map)
      → All IsByte plain
      → All IsByte nonce
      → length nonce ≡ 24
      → Keys.seal (from_seed seed_a) (from_seed seed_b).public plain nonce ≡ ok parcel.bytes
      → Relays (post_request client (some (from_seed seed_a)) w parcel work) raw
      → bool_field raw (codes "sealed") ≡ true
      → ((decode_at false (some (from_seed seed_b)) w raw).verified ≡ true)
        × ((decode_at false (some (from_seed seed_b)) w raw).from ≡ some (from_seed seed_a).public)
        × ((decode_at false (some (from_seed seed_b)) w raw).opened ≡ some (from_utf8_lossy plain))
        × ((decode_at false (some (from_seed seed_b)) w raw).format ≡ codes "sealed")
        × ((decode_at false (some (from_seed seed_b)) w raw).unverified_because ≡ none)
  unfolding decode_at Keys.seal post_request request_of
  decode_at-posted seed_a seed_b w plain nonce parcel work raw plain_bytes nonce_bytes size sealed
        relays marked =
      let (verified, nothing_against) =
        check_message-post_request client seed_a w parcel work raw relays in
      let sender = relays.2 ∙ (signed-headers seed_a w parcel work (codes "application/json")).0 in
      let (opened, format) =
        checked_decode-opened (from_seed seed_b) w raw parcel.bytes (from_seed seed_a).public plain
          verified relays.0 sender marked
          (envelope_to-sealed (from_seed seed_a) seed_b plain nonce parcel.bytes sealed)
          (open_envelope-seal seed_a seed_b plain nonce parcel.bytes plain_bytes nonce_bytes size
            sealed) in
      elim (decode_at-Signed false (some (from_seed seed_b)) w raw) [
        | inl (is_verified, signed, from, because) ↦
            (is_verified, from ∙ sender, opened, format, because)
        | inr (unverified, no_sender, closed) ↦ absurd (ground (arith, opened, closed))
      ]

  -- A text that one identity seals to another, in UTF-8 and under a nonce of 24 bytes, and posts
  -- signed, the other reads at that address once the service relays it as it was written and marks it
  -- as sealed: the message verifies, is from the first, and is opened to the text that was sealed, with
  -- nothing held against it. A text is a sequence of Unicode scalar values.
  pub decode_at-post_request :
      (seed_a seed_b w : Bytes) (text : List ℕ) (nonce : Bytes) (parcel : Parcel)
      (work : Option Bytes) (raw : j.Map)
      → All IsScalar text
      → All IsByte nonce
      → length nonce ≡ 24
      → Keys.seal (from_seed seed_a) (from_seed seed_b).public (utf8 text) nonce ≡ ok parcel.bytes
      → Relays (post_request client (some (from_seed seed_a)) w parcel work) raw
      → bool_field raw (codes "sealed") ≡ true
      → ((decode_at false (some (from_seed seed_b)) w raw).verified ≡ true)
        × ((decode_at false (some (from_seed seed_b)) w raw).from ≡ some (from_seed seed_a).public)
        × ((decode_at false (some (from_seed seed_b)) w raw).opened ≡ some (utf8 text))
        × ((decode_at false (some (from_seed seed_b)) w raw).format ≡ codes "sealed")
        × ((decode_at false (some (from_seed seed_b)) w raw).unverified_because ≡ none)
  decode_at-post_request seed_a seed_b w text nonce parcel work raw scalars nonce_bytes size sealed
        relays marked =
      let (verified, from, opened, format, because) =
        decode_at-posted seed_a seed_b w (utf8 text) nonce parcel work raw
          (utf8-IsByte text scalars) nonce_bytes size sealed relays marked in
      (verified, from, opened ∙ ap some (from_utf8_lossy-utf8 text scalars), format, because)
