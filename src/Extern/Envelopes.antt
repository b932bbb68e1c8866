-- ===== src/Extern/Envelopes.antt =====
-- The text form of an envelope, which `serde` derives from the struct, and `serde_json` writes and
-- reads.
use aamio_rust.Base.{Option, some, ◌≡◌, Bytes, Result, ok}

pub record Envelope : Type 0 where
  pub e2ee : Bytes
  pub to : Bytes
  pub nonce : Bytes
  pub ct : Bytes

pub record Envelopes : Type 0 where
  -- `serde_json::to_string` and `serde_json::from_str::<Envelope>`
  pub to_string : Envelope → Result Bytes
  pub from_str : Bytes → Option Envelope
  pub from_str-to_string : (e : Envelope) (s : Bytes) → to_string e ≡ ok s → from_str s ≡ some e
