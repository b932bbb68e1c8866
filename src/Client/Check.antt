-- ===== src/Client/Check.antt =====
-- src/client.rs: the check of one message as the service returned it.
use aamio_rust.Base.{
  ◌≡◌, refl, ap, ◌∙◌, ◌↔◌, ◌⊎◌, inl, inr, Bool, true, false, not, ◌||◌, Option, none, some, [],
  ◌++◌, arith, if◌then◌else◌, Bool-cases, Option-cases, unwrap_or, Bytes, same_iff, same_refl,
  codes, same,
}
use aamio_rust.Extern.Encodings.{Encodings}
use aamio_rust.Extern.Hashing.{Hashing}
use aamio_rust.Extern.Crypto.{Crypto}
use aamio_rust.Extern.Json.{Json}
use aamio_rust.Codec.{sha256_hex}
use aamio_rust.Keys.{verify, thread_signing_input, is_empty_text}
use aamio_rust.Client.Fields.{str_field, bool_field}

-- Comparison of optional texts.
unfoldable pub is_text : Option Bytes → Bytes → Bool
is_text none s = false
is_text (some t) s = same t s

abbrev pub no_body : Bytes
no_body = codes "the message has no body to check"

abbrev pub wrong_hash : Bytes
wrong_hash =
    codes
      "the body does not hash to the sha256 the service gave with it, so these are not the bytes that were stored"

abbrev pub nothing_to_check : Bytes
nothing_to_check = codes "the service calls it verified and gave no key or signature to check"

-- Why a signature that does not check out leaves the message unverified.
unfoldable pub bad_signature : Bool → Bytes
bad_signature claimed =
    codes "the signature does not check out for this key, this address and these bytes"
    ++ (if claimed then codes ", though the service said it did" else [])

module _ ⦃j : Json⦄ ⦃e : Encodings⦄ ⦃h : Hashing⦄ ⦃c : Crypto⦄ where
  -- The part behind the comparison of the hashes.
  unfoldable pub check_signature :
      Bytes → j.Map → Bytes → Bytes → Bool × Option Bytes × Option Bytes
  check_signature w raw body digest =
      let from = unwrap_or (str_field raw (codes "from")) [] in
      let signature = unwrap_or (str_field raw (codes "sig")) [] in
      let claimed = bool_field raw (codes "verified") in
      if is_empty_text from || is_empty_text signature
      then (false, (if claimed then some nothing_to_check else none), some digest)
      else if verify from signature (thread_signing_input w body)
      then (true, none, some digest)
      else (false, some (bad_signature claimed), some digest)

  unfoldable pub check_message : Bytes → j.Map → Bool × Option Bytes × Option Bytes
  check_message w raw = elim (str_field raw (codes "body")) [
    | none ↦ (false, some no_body, none)
    | some body ↦
        if not (is_text (str_field raw (codes "sha256")) (sha256_hex body))
        then (false, some wrong_hash, some (sha256_hex body))
        else check_signature w raw body (sha256_hex body)
  ]

  -- A body whose hash is the one beside it, and a signature for it at this address by its sender.
  abbrev pub Signed : Bytes → j.Map → Type 0
  Signed w raw =
      (body : Bytes) × (from : Bytes) × (signature : Bytes) × (str_field raw (codes "body")
        ≡ some body)
      × (str_field raw (codes "sha256") ≡ some (sha256_hex body))
      × (str_field raw (codes "from") ≡ some from)
      × (str_field raw (codes "sig") ≡ some signature)
      × (is_empty_text from ≡ false)
      × (is_empty_text signature ≡ false)
      × (verify from signature (thread_signing_input w body) ≡ true)

  check_signature-true :
      (w : Bytes) (raw : j.Map) (body digest from signature : Bytes)
      → str_field raw (codes "from") ≡ some from
      → str_field raw (codes "sig") ≡ some signature
      → is_empty_text from ≡ false
      → is_empty_text signature ≡ false
      → verify from signature (thread_signing_input w body) ≡ true
      → check_signature w raw body digest ≡ (true, none, some digest)
  unfolding check_signature
  check_signature-true w raw body digest from signature f s f_full s_full good =
      rw (f, s, f_full, s_full, good) refl

  -- A message that carries what `Signed` says verifies, and nothing is held against it.
  pub Signed-check :
      (w : Bytes) (raw : j.Map)
      → Signed w raw
      → ((check_message w raw).0 ≡ true) × ((check_message w raw).1 ≡ none)
  unfolding check_message is_text
  Signed-check w raw (body, from, signature, b, d, f, s, f_full, s_full, good) =
      let behind =
        check_signature-true w raw body (sha256_hex body) from signature f s f_full s_full good in
      (
        ground (arith, b, d, same_refl (sha256_hex body), behind),
        ground (arith, b, d, same_refl (sha256_hex body), behind),
      )

  check_signature-Signed :
      (w : Bytes) (raw : j.Map) (body : Bytes)
      → str_field raw (codes "body") ≡ some body
      → str_field raw (codes "sha256") ≡ some (sha256_hex body)
      → (check_signature w raw body (sha256_hex body)).0 ≡ true
      → Signed w raw
  unfolding check_signature
  check_signature-Signed w raw body b d good = elim (Option-cases (str_field raw (codes "from"))) [
    | inl no_from ↦ absurd (ground (arith, no_from))
    | inr (from, f) ↦ elim (Option-cases (str_field raw (codes "sig"))) [
      | inl no_sig ↦ absurd (ground (arith, no_sig))
      | inr (signature, s) ↦ (
        body,
        from,
        signature,
        b,
        d,
        f,
        s,
        ground (arith, f, s),
        ground (arith, f, s),
        ground (arith, f, s),
      )
    ]
  ]

  check-Signed : (w : Bytes) (raw : j.Map) → (check_message w raw).0 ≡ true → Signed w raw
  unfolding check_message is_text
  check-Signed w raw good = elim (Option-cases (str_field raw (codes "body"))) [
    | inl no_text ↦ absurd (ground (arith, no_text))
    | inr (body, b) ↦ elim (Option-cases (str_field raw (codes "sha256"))) [
      | inl no_hash ↦ absurd (ground (arith, b, no_hash))
      | inr (hash, d) ↦ elim (Bool-cases (same hash (sha256_hex body))) [
        | inr differs ↦ absurd (ground (arith, b, d, differs))
        | inl equal ↦
            let exact = ap (λ (t : Bytes). some t) ((same_iff hash (sha256_hex body)).0 equal) in
            check_signature-Signed w raw body b (d ∙ exact) (ground (arith, b, d, equal))
      ]
    ]
  ]

  -- A message verifies, with nothing held against it, exactly when it has a body whose sha256 stands
  -- beside it and a sender and a signature, neither empty, where the signature verifies over the
  -- signing input of the address and the body under the sender's key; and no other message verifies.
  pub check_message-Signed :
      (w : Bytes) (raw : j.Map)
      → (((check_message w raw).0 ≡ true) ↔ Signed w raw)
        × (((check_message w raw).0 ≡ false) ⊎ ((check_message w raw).1 ≡ none))
  check_message-Signed w raw = (
    (check-Signed w raw, λ s. (Signed-check w raw s).0),
    elim (Bool-cases (check_message w raw).0) [
      | inl good ↦ inr (Signed-check w raw (check-Signed w raw good)).1
      | inr bad ↦ inl bad
    ],
  )
