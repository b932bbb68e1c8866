-- ===== src/Wasm.antt =====
-- wasm/src/lib.rs: the protocol core as JavaScript calls it.
pub mod Host
use aamio_rust.Base.{ℕ, ◌+◌, Bool, none, some, ◌++◌, Result, ok, err, ◌>>=◌, ok_or, Bytes, codes}
use aamio_rust.Extern.Encodings.{Encodings}
use aamio_rust.Extern.Hashing.{Hashing}
use aamio_rust.Extern.Crypto.{Crypto}
use aamio_rust.Extern.Envelopes.{Envelopes}
use aamio_rust.Extern.Json.{Json}
use aamio_rust.Gate.Work
use aamio_rust.Gate.Canonical
use aamio_rust.Gate.Search.{Search, solve_hashed, solve_board_hashed}
use aamio_rust.Keys
use aamio_rust.Keys.{exactly, from_seed, generate, open_envelope}

module _ ⦃j : Json⦄ where
  -- The function `gate`; `reason` is the text of the error of serde_json on a text that is no JSON.
  unfoldable pub gate_of : Bytes → Bytes → Result j.Value
  gate_of reason gate_json = elim (j.from_str gate_json) [
    | none ↦ err (codes "a gate is a JSON object: " ++ reason)
    | some value ↦ elim (j.as_object value) [
      | none ↦ err (codes "a gate is a JSON object")
      | some m ↦ ok value
    ]
  ]

  unfoldable pub canonical_gate : Bytes → Bytes → Result Bytes
  canonical_gate reason gate_json =
      gate_of reason gate_json >>= λ value. ok (Canonical.canonical value)

module _ ⦃j : Json⦄ ⦃e : Encodings⦄ ⦃h : Hashing⦄ where
  unfoldable pub gate_hash : Bytes → Bytes → Result Bytes
  gate_hash reason gate_json = gate_of reason gate_json >>= λ value. ok (Canonical.gate_hash value)

module _ ⦃h : Hashing⦄ where
  unfoldable pub solve_pow : ℕ → Bytes → Bytes → Bytes → ℕ → Result Search
  solve_pow fuel w key body_sha256 bits = solve_hashed fuel w key body_sha256 bits

  unfoldable pub solve_board_pow : ℕ → Bytes → Bytes → ℕ → Result Search
  solve_board_pow fuel key body_sha256 bits = solve_board_hashed fuel key body_sha256 bits

  unfoldable pub pow_digest : Bytes → Bytes → Bytes → Bytes → Bytes
  pow_digest w key body_sha256 nonce = Work.pow_digest w key body_sha256 nonce

  unfoldable pub board_pow_digest : Bytes → Bytes → Bytes → Bytes
  board_pow_digest key body_sha256 nonce = Work.board_pow_digest key body_sha256 nonce

unfoldable pub zero_bits : Bytes → ℕ
zero_bits digest = Work.zero_bits digest

module _ ⦃e : Encodings⦄ ⦃h : Hashing⦄ ⦃c : Crypto⦄ where
  -- The function `keys`.
  unfoldable pub keys_of : Bytes → Result Keys.Keys
  keys_of seed =
      ok_or (exactly 32 seed) (codes "a seed is 32 bytes") >>= λ bytes. ok (from_seed bytes)

  unfoldable pub generate_seed : Bytes → Bytes
  generate_seed random = (generate random).seed

  unfoldable pub public_key : Bytes → Result Bytes
  public_key seed = keys_of seed >>= λ keys. ok keys.public

  unfoldable pub sign : Bytes → Bytes → Result Bytes
  sign seed input = keys_of seed >>= λ keys. ok (Keys.sign keys input)

  unfoldable pub verify : Bytes → Bytes → Bytes → Bool
  verify key signature input = Keys.verify key signature input

module _ ⦃e : Encodings⦄ ⦃h : Hashing⦄ ⦃c : Crypto⦄ ⦃v : Envelopes⦄ where
  -- `random` is what the system's generator fills the nonce with.
  unfoldable pub seal : Bytes → Bytes → Bytes → Bytes → Result Bytes
  seal seed recipient_key plaintext random =
      keys_of seed >>= λ keys. Keys.seal keys recipient_key plaintext random

  unfoldable pub seal_with_nonce : Bytes → Bytes → Bytes → Bytes → Result Bytes
  seal_with_nonce seed recipient_key plaintext nonce =
      ok_or (exactly 24 nonce) (codes "a nonce is 24 bytes") >>= λ nonce_bytes.
      keys_of seed >>= λ keys. Keys.seal_with_nonce keys recipient_key plaintext nonce_bytes

  -- The function `open`.
  unfoldable pub open_text : Bytes → Bytes → Bytes → Result Bytes
  open_text seed sender_key envelope =
      keys_of seed >>= λ keys. open_envelope keys sender_key envelope
