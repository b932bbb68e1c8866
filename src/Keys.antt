-- ===== src/Keys.antt =====
-- src/keys.rs: one identity, its signatures and its envelopes.
pub mod Identity
pub mod Sealing
pub mod Inputs
use aamio_rust.Base.{
  ℕ, ◌-◌, Bool, true, false, not, ◌&&◌, Option, none, some, [], ◌∷◌, ◌==◌, if◌then◌else◌, length,
  take, Result, ok, err, ◌>>=◌, ok_or, and_then, Bytes, concat, codes, same,
}
use aamio_rust.Extern.Encodings.{Encodings}
use aamio_rust.Extern.Hashing.{Hashing}
use aamio_rust.Extern.Crypto.{Crypto}
use aamio_rust.Extern.Envelopes.{Envelopes, Envelope}
use aamio_rust.Codec.{b64url, unb64url, sha256, sha256_hex, is_key}

-- The name of the sealed form.
unfoldable pub envelope_name : Bytes
envelope_name = codes "nacl.box.v1"

pub record Keys ⦃c : Crypto⦄ : Type 0 where
  pub seed : Bytes
  pub signing : c.SigningKey
  pub curve_secret : Bytes
  pub public : Bytes
  pub hash : Bytes
  pub hash_prefix : Bytes

-- `try_into` of a byte vector into an array of `n` bytes.
unfoldable pub exactly : ℕ → Bytes → Option Bytes
exactly n s = if length s == n then some s else none

module _ ⦃e : Encodings⦄ ⦃h : Hashing⦄ ⦃c : Crypto⦄ where
  unfoldable pub from_seed : Bytes → Keys
  from_seed seed =
      let signing = c.signing_key seed in
      let public_raw = c.public_bytes signing in
      let hash = e.encode_hex (sha256 public_raw) in
      record {
        seed = seed;
        signing = signing;
        curve_secret = c.to_scalar_bytes signing;
        public = b64url public_raw;
        hash = hash;
        hash_prefix = take 8 hash;
      }

  -- `random` is what the system's generator fills the seed with.
  unfoldable pub generate : Bytes → Keys
  generate random = from_seed random

  unfoldable pub from_seed_hex : Bytes → Result Keys
  unfolding exactly
  from_seed_hex text = e.decode_hex text >>= λ bytes.
      ok_or (exactly 32 bytes) (codes "a seed is 32 bytes") >>= λ seed. ok (from_seed seed)

  unfoldable pub sign : Keys → Bytes → Bytes
  sign keys input = b64url (c.sign keys.signing input)

  -- Each early return of the function is a `none` of the chain.
  unfoldable pub verify : Bytes → Bytes → Bytes → Bool
  unfolding exactly
  verify key signature input = if not (is_key key) then false else elim (unb64url key) [
    | err m ↦ false
    | ok raw ↦ elim (and_then (exactly 32 raw) c.verifying_key) [
      | none ↦ false
      | some verifying ↦ elim (unb64url signature) [
        | err m ↦ false
        | ok sig ↦ elim (exactly 64 sig) [
          | none ↦ false
          | some sig' ↦ c.verify verifying input sig'
        ]
      ]
    ]
  ]

  unfoldable pub curve_public : Bytes → Result Bytes
  unfolding exactly
  curve_public key =
      if not (is_key key)
      then err (codes "not a base64url Ed25519 public key of 32 bytes")
      else (unb64url key >>= λ bytes. ok_or (exactly 32 bytes) (codes "not 32 bytes") >>= λ raw.
          ok_or (c.verifying_key raw) (codes "not a point on the curve") >>= λ verifying.
          ok (c.to_montgomery verifying))

  unfoldable pub hash_prefix_of : Bytes → Result Bytes
  hash_prefix_of key = unb64url key >>= λ raw. ok (take 8 (e.encode_hex (sha256 raw)))

unfoldable pub wrong_recipient : Bytes → Bytes → Bytes
wrong_recipient recipient prefix =
    concat (codes "this envelope is sealed to " ∷ recipient ∷ codes ", not to " ∷ prefix ∷ [])

module _ ⦃e : Encodings⦄ ⦃h : Hashing⦄ ⦃c : Crypto⦄ ⦃v : Envelopes⦄ where
  unfoldable pub seal_with_nonce : Keys → Bytes → Bytes → Bytes → Result Bytes
  seal_with_nonce keys recipient_key plaintext nonce_bytes = curve_public recipient_key >>= λ peer.
      ok_or (c.encrypt peer keys.curve_secret nonce_bytes plaintext) (codes "sealing failed")
      >>= λ ct. hash_prefix_of recipient_key >>= λ prefix.
          v.to_string (record {
            e2ee = envelope_name;
            to = prefix;
            nonce = b64url nonce_bytes;
            ct = b64url ct;
          })

  -- `random` is what the system's generator fills the nonce with.
  unfoldable pub seal : Keys → Bytes → Bytes → Bytes → Result Bytes
  seal keys recipient_key plaintext random = seal_with_nonce keys recipient_key plaintext random

  -- The method `open`.
  unfoldable pub open_envelope : Keys → Bytes → Bytes → Result Bytes
  unfolding exactly
  open_envelope keys sender_key envelope_text =
      ok_or (v.from_str envelope_text) (codes "not an envelope") >>= λ envelope.
      if not (same envelope.e2ee envelope_name)
      then err (codes "not an envelope")
      else if not (same envelope.to keys.hash_prefix)
      then err (wrong_recipient envelope.to keys.hash_prefix)
      else (curve_public sender_key >>= λ peer. unb64url envelope.nonce >>= λ nonce.
          ok_or (exactly 24 nonce) (codes "the nonce is not 24 bytes") >>= λ nonce_bytes.
          unb64url envelope.ct >>= λ ct.
          ok_or (c.decrypt peer keys.curve_secret nonce_bytes ct)
            (codes "the envelope does not open with this key pair"))

-- `is_empty` of a text.
abbrev pub is_empty_text : Bytes → Bool
is_empty_text [] = true
is_empty_text (b ∷ s) = false

module _ ⦃v : Envelopes⦄ where
  unfoldable pub envelope_to : Bytes → Option Bytes
  envelope_to body = elim (v.from_str body) [
    | none ↦ none
    | some envelope ↦
        if same envelope.e2ee envelope_name && not (is_empty_text envelope.to)
        then some envelope.to
        else none
  ]

  unfoldable pub is_envelope : Bytes → Bool
  is_envelope body = elim (v.from_str body) [
    | none ↦ false
    | some envelope ↦
        same envelope.e2ee envelope_name
        && not (is_empty_text envelope.nonce)
        && not (is_empty_text envelope.ct)
  ]

module _ ⦃e : Encodings⦄ ⦃h : Hashing⦄ where
  unfoldable pub thread_signing_input : Bytes → Bytes → Bytes
  thread_signing_input w body = concat (codes "aamio-v1\n" ∷ w ∷ codes "\n" ∷ sha256_hex body ∷ [])

  unfoldable pub presence_signing_input : Bytes → Bytes → Bytes
  presence_signing_input key body =
      concat (codes "aamio-presence-v1\n" ∷ key ∷ codes "\n" ∷ sha256_hex body ∷ [])

  unfoldable pub presence_delete_signing_input : Bytes → Bytes → Bytes
  presence_delete_signing_input key body =
      concat (codes "aamio-presence-delete-v1\n" ∷ key ∷ codes "\n" ∷ sha256_hex body ∷ [])

  unfoldable pub board_signing_input : Bytes → Bytes → Bytes
  board_signing_input key body =
      concat (codes "aamio-board-v1\n" ∷ key ∷ codes "\n" ∷ sha256_hex body ∷ [])

  unfoldable pub board_delete_signing_input : Bytes → Bytes → Bytes
  board_delete_signing_input id body =
      concat (codes "aamio-board-delete-v1\n" ∷ id ∷ codes "\n" ∷ sha256_hex body ∷ [])
