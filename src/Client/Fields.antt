-- ===== src/Client/Fields.antt =====
-- src/client.rs: the fields of a JSON object, read as the client reads them.
use aamio_rust.Base.{Bool, false, Option, unwrap_or, and_then, Bytes}
use aamio_rust.Base.Int.{ℤ, pos}
use aamio_rust.Extern.Json.{Json}

module _ ⦃j : Json⦄ where
  -- `raw.get(name).and_then(Value::as_str)`
  unfoldable pub str_field : j.Map → Bytes → Option Bytes
  str_field raw name = and_then (j.get raw name) j.as_str

  -- `raw.get(name).and_then(Value::as_bool).unwrap_or(false)`
  unfoldable pub bool_field : j.Map → Bytes → Bool
  bool_field raw name = unwrap_or (and_then (j.get raw name) j.as_bool) false

  -- `raw.get(name).and_then(Value::as_i64).unwrap_or(0)`
  unfoldable pub i64_field : j.Map → Bytes → ℤ
  i64_field raw name = unwrap_or (and_then (j.get raw name) j.as_i64) (pos 0)
