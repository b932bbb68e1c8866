-- ===== src/Gate/Canonical.antt =====
-- src/gate.rs: the canonical text of a gate and its hash.
pub mod Pruned
use aamio_rust.Base.{
  Bool, false, Option, none, some, if◌then◌else◌, unwrap_or, and_then, Bytes, codes,
}
use aamio_rust.Extern.Encodings.{Encodings}
use aamio_rust.Extern.Hashing.{Hashing}
use aamio_rust.Extern.Json.{Json}
use aamio_rust.Codec.{sha256_hex}

module _ ⦃j : Json⦄ where
  -- `matches!(value, Some(Value::Object(m)) if m.is_empty())`
  unfoldable pub is_empty_object : Option j.Value → Bool
  is_empty_object value = elim (and_then value j.as_object) [ none ↦ false | some m ↦ j.is_empty m ]

  -- One round of the loop over the buckets.
  unfoldable pub prune : j.Map → Bytes → j.Map
  unfolding is_empty_object
  prune pruned bucket =
      if is_empty_object (j.get pruned bucket) then j.remove pruned bucket else pruned

  unfoldable pub pruned_gate : j.Value → j.Map
  pruned_gate gate =
      prune (prune (unwrap_or (j.as_object gate) j.empty) (codes "require")) (codes "advise")

  unfoldable pub canonical : j.Value → Bytes
  canonical gate = j.to_string (j.object (pruned_gate gate))

module _ ⦃j : Json⦄ ⦃e : Encodings⦄ ⦃h : Hashing⦄ where
  unfoldable pub gate_hash : j.Value → Bytes
  gate_hash gate = sha256_hex (canonical gate)
