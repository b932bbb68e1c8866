-- ===== src/Keys/Sealing.antt =====
-- What one identity seals for another, in src/keys.rs.
use aamio_rust.Base.{
  ◌<◌, ◌≡◌, refl, sym, ap, ◌∙◌, ◌≢◌, true, false, Option, some, [], ◌∷◌, arith, length, All, ok,
  err, ok_or, Bytes, same_refl, same-ne, codes,
}
use aamio_rust.Extern.Encodings.{Encodings, IsByte}
use aamio_rust.Extern.Hashing.{Hashing}
use aamio_rust.Extern.Crypto.{Crypto}
use aamio_rust.Extern.Envelopes.{Envelopes, Envelope}
use aamio_rust.Codec.{b64url}
use aamio_rust.Codec.RoundTrip.{unb64url-b64url}
use aamio_rust.Keys.{
  Keys, envelope_name, from_seed, seal_with_nonce, wrong_recipient, open_envelope, is_empty_text,
  envelope_to, is_envelope,
}
use aamio_rust.Keys.Identity.{exactly_lem, from_seed_lem, curve_public-from_seed}

not_empty : (s : Bytes) → 0 < length s → is_empty_text s ≡ false
not_empty [] h = absurd (omega arith)
not_empty (b ∷ s) h = refl

pub b64url-not_empty : ⦃e : Encodings⦄ (s : Bytes) → 0 < length s → is_empty_text (b64url s) ≡ false
unfolding b64url
b64url-not_empty ⦃e⦄ s h =
    not_empty (e.url_safe_no_pad s) (omega (arith, e.length-url_safe_no_pad s))

module _ ⦃e : Encodings⦄ ⦃h : Hashing⦄ ⦃c : Crypto⦄ ⦃v : Envelopes⦄ where
  sealed_form : Bytes → Bytes → Bytes → Envelope
  sealed_form prefix nonce ct = record {
    e2ee = envelope_name;
    to = prefix;
    nonce = b64url nonce;
    ct = b64url ct;
  }

  -- What a seal that succeeded has made.
  seal_inv :
      (keys : Keys) (seed plain nonce text : Bytes) (vb : c.VerifyingKey)
      → c.verifying_key (c.public_bytes (c.signing_key seed)) ≡ some vb
      → seal_with_nonce keys (from_seed seed).public plain nonce ≡ ok text
      → (ct : Bytes) × (c.encrypt (c.to_montgomery vb) keys.curve_secret nonce plain ≡ some ct)
        × (v.to_string (sealed_form (from_seed seed).hash_prefix nonce ct) ≡ ok text)
  unfolding seal_with_nonce sealed_form
  seal_inv keys seed plain nonce text vb point sealed =
      ground (arith, curve_public-from_seed seed vb point, (from_seed_lem seed).1)

  -- An envelope that is sealed to this identity, by its name and prefix, opens as its parts do.
  open_sealed_form :
      (seed_a seed_b nonce ct text : Bytes) (va : c.VerifyingKey)
      → c.verifying_key (c.public_bytes (c.signing_key seed_a)) ≡ some va
      → v.from_str text ≡ some (sealed_form (from_seed seed_b).hash_prefix nonce ct)
      → length nonce ≡ 24
      → All IsByte nonce
      → All IsByte ct
      → open_envelope (from_seed seed_b) (from_seed seed_a).public text
        ≡ ok_or
            (c.decrypt (c.to_montgomery va) (from_seed seed_b).curve_secret nonce ct)
            (codes "the envelope does not open with this key pair")
  unfolding open_envelope sealed_form
  open_sealed_form seed_a seed_b nonce ct text va point parsed size nonce_bytes ct_bytes = ground (
    arith,
    same_refl envelope_name,
    same_refl (from_seed seed_b).hash_prefix,
    curve_public-from_seed seed_a va point,
    unb64url-b64url nonce nonce_bytes,
    exactly_lem 24 nonce size,
    unb64url-b64url ct ct_bytes,
  )

  box_opens :
      (seed_a seed_b : Bytes) (va vb : c.VerifyingKey) (nonce plain ct : Bytes)
      → All IsByte plain
      → c.verifying_key (c.public_bytes (c.signing_key seed_a)) ≡ some va
      → c.verifying_key (c.public_bytes (c.signing_key seed_b)) ≡ some vb
      → c.encrypt (c.to_montgomery vb) (from_seed seed_a).curve_secret nonce plain ≡ some ct
      → c.decrypt (c.to_montgomery va) (from_seed seed_b).curve_secret nonce ct ≡ some plain
  unfolding from_seed
  box_opens seed_a seed_b = c.decrypt-encrypt (c.signing_key seed_a) (c.signing_key seed_b)

  -- What one identity seals to the public key of another under a nonce of 24 bytes, the
  -- other opens with the public key of the first, and gets the text that was sealed.
  pub open_envelope-seal :
      (seed_a seed_b plain nonce text : Bytes)
      → All IsByte plain
      → All IsByte nonce
      → length nonce ≡ 24
      → seal_with_nonce (from_seed seed_a) (from_seed seed_b).public plain nonce ≡ ok text
      → open_envelope (from_seed seed_b) (from_seed seed_a).public text ≡ ok plain
  open_envelope-seal seed_a seed_b plain nonce text plain_bytes nonce_bytes size sealed =
      let a = c.signing_key seed_a in
      let b = c.signing_key seed_b in
      let (va, point_a) = c.verifying_key-public_bytes a in
      let (vb, point_b) = c.verifying_key-public_bytes b in
      let (ct, boxed, written) =
        seal_inv (from_seed seed_a) seed_b plain nonce text vb point_b sealed in
      open_sealed_form seed_a seed_b nonce ct text va point_a (v.from_str-to_string _ _ written)
        size nonce_bytes (c.encrypt-IsByte _ _ _ _ _ boxed)
      ∙ ap (λ (o : Option Bytes). ok_or o (codes "the envelope does not open with this key pair"))
          (box_opens seed_a seed_b va vb nonce plain ct plain_bytes point_a point_b boxed)

  -- A text that was sealed to an identity names its prefix.
  pub envelope_to-sealed :
      (keys : Keys) (seed plain nonce text : Bytes)
      → seal_with_nonce keys (from_seed seed).public plain nonce ≡ ok text
      → envelope_to text ≡ some (from_seed seed).hash_prefix
  unfolding envelope_to sealed_form
  envelope_to-sealed keys seed plain nonce text sealed =
      let (vb, point) = c.verifying_key-public_bytes (c.signing_key seed) in
      let (ct, boxed, written) = seal_inv keys seed plain nonce text vb point sealed in
      ground (
        arith,
        v.from_str-to_string _ _ written,
        same_refl envelope_name,
        not_empty (from_seed seed).hash_prefix (omega (arith, (from_seed_lem seed).3)),
      )

  -- A text that was sealed to an identity says that it is an envelope and names its prefix. Another
  -- identity, whose prefix differs, refuses it with an error that names both prefixes.
  pub envelope_to-seal :
      (keys other : Keys) (seed plain nonce text sender : Bytes)
      → length nonce ≡ 24
      → seal_with_nonce keys (from_seed seed).public plain nonce ≡ ok text
      → other.hash_prefix ≢ (from_seed seed).hash_prefix
      → (is_envelope text ≡ true)
        × (envelope_to text ≡ some (from_seed seed).hash_prefix)
        × (open_envelope other sender text
            ≡ err (wrong_recipient (from_seed seed).hash_prefix other.hash_prefix))
  unfolding is_envelope envelope_to open_envelope sealed_form
  envelope_to-seal keys other seed plain nonce text sender size sealed differs =
      let (vb, point) = c.verifying_key-public_bytes (c.signing_key seed) in
      let (ct, boxed, written) = seal_inv keys seed plain nonce text vb point sealed in
      let parsed = v.from_str-to_string _ _ written in
      let ct_size = c.length-encrypt _ _ _ _ _ boxed in
      let named = same_refl envelope_name in
      (
        ground (
          arith,
          parsed,
          named,
          b64url-not_empty nonce (omega (arith, size)),
          b64url-not_empty ct (omega (arith, ct_size)),
        ),
        envelope_to-sealed keys seed plain nonce text sealed,
        ground (
          arith,
          parsed,
          named,
          same-ne (from_seed seed).hash_prefix other.hash_prefix (λ p. differs (sym p)),
        ),
      )
