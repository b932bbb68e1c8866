-- ===== src/Tests/Keys.antt =====
-- src/keys.rs at concrete inputs.
use aamio_rust.Base.{
  ◌≡◌, refl, ◌≢◌, true, some, [], ◌∷◌, arith, length, replicate, ok, err, Bytes, codes, all,
}
use aamio_rust.Base.Ascii.{is_ascii_alphanumeric, trim_end_matches}
use aamio_rust.Sample.Digest.{sample_encodings, sample_hashing, digest}
use aamio_rust.Sample.Crypto.{
  sample_crypto, sample_envelopes, signature, check, pack, box, to_string, written,
}
use aamio_rust.Sample.Base64
use aamio_rust.Sample.Hex
use aamio_rust.Codec.{b64url, unb64url, sha256_hex, is_key, sha256}
use aamio_rust.Keys.{
  envelope_name, exactly, curve_public, from_seed, sign, verify, hash_prefix_of, seal_with_nonce,
  open_envelope, envelope_to, is_envelope, wrong_recipient,
}
use aamio_rust.Wasm
use aamio_rust.Wasm.{keys_of, public_key, open_text}
use aamio_rust.Wasm.Host.{open_text-seal}
use aamio_rust.Keys.Identity.{from_seed_lem, verify-sign}
use aamio_rust.Keys.Sealing.{open_envelope-seal, envelope_to-seal}
use aamio_rust.Keys.Inputs.{thread, signing_input_inj}

abbrev pub alice : Bytes
alice = replicate 32 1

abbrev pub bob : Bytes
bob = replicate 32 2

abbrev pub some_nonce : Bytes
some_nonce = replicate 24 9

abbrev pub hello : Bytes
hello = b'h' ∷ b'i' ∷ []

from_seed_lem_example :
    (is_key (from_seed alice).public ≡ true)
    × (hash_prefix_of (from_seed alice).public ≡ ok (from_seed alice).hash_prefix)
    × (length (from_seed alice).hash ≡ 64)
    × (length (from_seed alice).hash_prefix ≡ 8)
from_seed_lem_example = from_seed_lem alice

verify-sign_example : verify (from_seed alice).public (sign (from_seed alice) hello) hello ≡ true
verify-sign_example = verify-sign alice hello

signing_input_inj_example :
    (thread ≡ thread) × (alice ≡ alice) × (sha256_hex hello ≡ sha256_hex hello)
signing_input_inj_example =
    signing_input_inj thread thread alice alice hello hello (omega arith) (omega arith) refl

-- What alice seals for bob.
abbrev pub to_bob : Bytes
to_bob = written (record {
  e2ee = codes "nacl.box.v1";
  to = (from_seed bob).hash_prefix;
  nonce = b64url some_nonce;
  ct = b64url (pack hello);
})

pub alice_seals :
    seal_with_nonce (from_seed alice) (from_seed bob).public hello some_nonce ≡ ok to_bob
unfolding seal_with_nonce curve_public hash_prefix_of exactly from_seed to_string b64url unb64url
    is_key sha256 envelope_name Base64.encode Base64.decode check signature box pack digest codes
    all is_ascii_alphanumeric Base64.symbol trim_end_matches
alice_seals = refl

open_envelope-seal_example :
    open_envelope (from_seed bob) (from_seed alice).public to_bob ≡ ok hello
open_envelope-seal_example =
    open_envelope-seal alice bob hello some_nonce to_bob (omega arith) (omega arith) refl
      alice_seals

alice-ne-bob : (from_seed alice).hash_prefix ≢ (from_seed bob).hash_prefix
unfolding from_seed sha256 digest Hex.encode
alice-ne-bob p = ground (arith, p)

envelope_to-seal_example :
    (is_envelope to_bob ≡ true)
    × (envelope_to to_bob ≡ some (from_seed bob).hash_prefix)
    × (open_envelope (from_seed alice) (from_seed bob).public to_bob
        ≡ err (wrong_recipient (from_seed bob).hash_prefix (from_seed alice).hash_prefix))
envelope_to-seal_example =
    envelope_to-seal (from_seed alice) (from_seed alice) bob hello some_nonce to_bob
      (from_seed bob).public refl alice_seals alice-ne-bob

public_key_of : (seed : Bytes) → length seed ≡ 32 → public_key seed ≡ ok (from_seed seed).public
unfolding public_key keys_of exactly
public_key_of seed size = ground (arith, size)

host_seals : Wasm.seal_with_nonce alice (from_seed bob).public hello some_nonce ≡ ok to_bob
unfolding Wasm.seal_with_nonce keys_of exactly
host_seals = alice_seals

open_text-seal_example : open_text bob (from_seed alice).public to_bob ≡ ok hello
open_text-seal_example =
    open_text-seal alice bob (from_seed alice).public (from_seed bob).public hello some_nonce to_bob
      (public_key_of alice refl) (public_key_of bob refl) (omega arith) (omega arith) host_seals
