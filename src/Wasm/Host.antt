-- ===== src/Wasm/Host.antt =====
-- What a JavaScript host gets of wasm/src/lib.rs when it passes seeds, keys and texts about.
use aamio_rust.Base.{
  ℕ, ◌≡◌, refl, ◌≢◌, ◌⊎◌, inl, inr, true, none, some, arith, ◌==◌, Bool-cases, length, All, ok, err,
  Bytes, codes,
}
use aamio_rust.Extern.Encodings.{Encodings, IsByte}
use aamio_rust.Extern.Hashing.{Hashing}
use aamio_rust.Extern.Crypto.{Crypto}
use aamio_rust.Extern.Envelopes.{Envelopes}
use aamio_rust.Keys
use aamio_rust.Keys.{exactly, from_seed, open_envelope}
use aamio_rust.Keys.Identity.{verify-sign}
use aamio_rust.Keys.Sealing.{open_envelope-seal}
use aamio_rust.Wasm.{keys_of, public_key, sign, verify, seal_with_nonce, open_text}

exactly_cases :
    (n : ℕ) (s : Bytes)
    → ((length s ≡ n) × (exactly n s ≡ some s)) ⊎ ((length s ≢ n) × (exactly n s ≡ none))
unfolding exactly
exactly_cases n s = elim (Bool-cases (length s == n)) [
  | inl same_size ↦ inl (ground (arith, same_size), ground (arith, same_size))
  | inr other_size ↦ inr (ground (arith, other_size), ground (arith, other_size))
]

module _ ⦃e : Encodings⦄ ⦃h : Hashing⦄ ⦃c : Crypto⦄ where
  -- A seed of another size than 32 bytes is refused by every call that takes one; of 32 bytes, the
  -- public key is given, and what is signed verifies under it.
  pub verify-sign_seed :
      (seed input : Bytes)
      → ((length seed ≡ 32)
          × (key : Bytes) × (signature : Bytes) × (public_key seed ≡ ok key)
          × (sign seed input ≡ ok signature)
          × (verify key signature input ≡ true))
        ⊎ ((length seed ≢ 32)
            × (public_key seed ≡ err (codes "a seed is 32 bytes"))
            × (sign seed input ≡ err (codes "a seed is 32 bytes")))
  unfolding public_key sign verify keys_of
  verify-sign_seed seed input = elim (exactly_cases 32 seed) [
    | inl good ↦ inl (
      good.0,
      (from_seed seed).public,
      Keys.sign (from_seed seed) input,
      rw good.1 refl,
      rw good.1 refl,
      verify-sign seed input,
    )
    | inr bad ↦ inr (bad.0, rw bad.1 refl, rw bad.1 refl)
  ]

module _ ⦃e : Encodings⦄ ⦃h : Hashing⦄ ⦃c : Crypto⦄ ⦃v : Envelopes⦄ where
  -- Where the public keys of two seeds are given, and bytes are sealed with one seed to the public
  -- key of the other under a nonce of bytes: the envelope opens with the other seed and the public
  -- key of the first, and gives the bytes back.
  pub open_text-seal :
      (seed_a seed_b key_a key_b plain nonce text : Bytes)
      → public_key seed_a ≡ ok key_a
      → public_key seed_b ≡ ok key_b
      → All IsByte plain
      → All IsByte nonce
      → seal_with_nonce seed_a key_b plain nonce ≡ ok text
      → open_text seed_b key_a text ≡ ok plain
  unfolding public_key keys_of seal_with_nonce open_text
  open_text-seal seed_a seed_b key_a key_b plain nonce text a_key b_key plain_bytes nonce_bytes
        sealed =
      elim (exactly_cases 32 seed_a) [
        | inr bad_a ↦ absurd (ground (arith, bad_a.1, a_key))
        | inl good_a ↦ elim (exactly_cases 32 seed_b) [
          | inr bad_b ↦ absurd (ground (arith, bad_b.1, b_key))
          | inl good_b ↦ elim (exactly_cases 24 nonce) [
            | inr bad_nonce ↦ absurd (ground (arith, bad_nonce.1, sealed))
            | inl good_nonce ↦
                let is_a : (from_seed seed_a).public ≡ key_a = ground (arith, good_a.1, a_key) in
                let is_b : (from_seed seed_b).public ≡ key_b = ground (arith, good_b.1, b_key) in
                let core : Keys.seal_with_nonce (from_seed seed_a) key_b plain nonce ≡ ok text =
                  ground (arith, good_nonce.1, good_a.1, sealed) in
                rw (good_b.1, ← is_a)
                  (open_envelope-seal seed_a seed_b plain nonce text plain_bytes nonce_bytes
                    good_nonce.0 (rw is_b core))
          ]
        ]
      ]
