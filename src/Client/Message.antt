-- ===== src/Client/Message.antt =====
-- src/client.rs: a message as it is read, checked first and then opened.
pub mod Decoded
use aamio_rust.Base.{
  List, [], ◌∷◌, ◌-◌, Bool, false, not, Option, none, some, [], if◌then◌else◌, ok, err, unwrap_or,
  and_then, Bytes, codes, same,
}
use aamio_rust.Base.Int.{ℤ, pos}
use aamio_rust.Base.Utf8.{from_utf8_lossy}
use aamio_rust.Extern.Encodings.{Encodings}
use aamio_rust.Extern.Hashing.{Hashing}
use aamio_rust.Extern.Crypto.{Crypto}
use aamio_rust.Extern.Envelopes.{Envelopes}
use aamio_rust.Extern.Json.{Json}
use aamio_rust.Keys.{Keys, open_envelope, envelope_to, wrong_recipient}
use aamio_rust.Client.Fields.{str_field, bool_field, i64_field}
use aamio_rust.Client.Check.{check_message}

pub record Message ⦃j : Json⦄ : Type 0 where
  pub seq : ℤ
  pub at : ℤ
  pub from : Option Bytes
  pub verified : Bool
  pub sealed : Bool
  pub body : Bytes
  pub opened : Option Bytes
  pub format : Bytes
  pub error : Option Bytes
  pub json : Option j.Map
  pub unverified_because : Option Bytes

module _ ⦃j : Json⦄ where
  -- The message that `decode` starts from.
  unfoldable pub plain_message : j.Map → Message
  plain_message raw = record {
    seq = i64_field raw (codes "seq");
    at = i64_field raw (codes "at");
    from = str_field raw (codes "from");
    verified = bool_field raw (codes "verified");
    sealed = bool_field raw (codes "sealed");
    body = unwrap_or (str_field raw (codes "body")) [];
    opened = none;
    format = codes "text";
    error = none;
    json = none;
    unverified_because = none;
  }

  unfoldable pub with_json : Bytes → Message → Message
  with_json text m = elim (and_then (j.from_str text) j.as_object) [
    | none ↦ m
    | some fields ↦ record m { json = some fields }
  ]

  unfoldable pub read_opened : Message → Message
  read_opened m =
      if not (same m.format (codes "sealed")) then m else with_json (unwrap_or m.opened m.body) m

  -- What `decode_at` hands over where the check panicked.
  unfoldable pub unreadable_message : j.Map → Message
  unreadable_message raw = record {
    seq = i64_field raw (codes "seq");
    at = i64_field raw (codes "at");
    from = none;
    verified = false;
    sealed = false;
    body = unwrap_or (str_field raw (codes "body")) [];
    opened = none;
    format = codes "unreadable";
    error = some (codes "the message could not be checked here");
    json = none;
    unverified_because = some (codes "the message could not be checked here");
  }

module _ ⦃j : Json⦄ ⦃e : Encodings⦄ ⦃h : Hashing⦄ ⦃c : Crypto⦄ where
  -- The message with the results of the check in place of what the service said.
  unfoldable pub checked_fields : Bytes → j.Map → j.Map
  checked_fields w raw =
      let (verified, why_not, digest) = check_message w raw in
      let marked = j.insert raw (codes "verified") (j.boolean verified) in
      let unnamed = if not verified then j.insert marked (codes "from") j.null else marked in
      elim digest [ none ↦ unnamed | some d ↦ j.insert unnamed (codes "sha256") (j.string d) ]

module _ ⦃j : Json⦄ ⦃e : Encodings⦄ ⦃h : Hashing⦄ ⦃c : Crypto⦄ ⦃v : Envelopes⦄ where
  -- A sealed body that names us or nobody, with keys and a sender to open it with.
  unfoldable pub open_with : Keys → Bytes → Message → Message
  open_with keys from m = elim (open_envelope keys from m.body) [
    | ok plain ↦ record m { opened = some (from_utf8_lossy plain); format = codes "sealed" }
    | err reason ↦ record m { format = codes "unreadable"; error = some reason }
  ]

  unfoldable pub try_open : Option Keys → Option Bytes → Message → Message
  try_open none from m = record m { format = codes "sealed-unchecked" }
  try_open (some keys) none m = record m { format = codes "sealed-unchecked" }
  try_open (some keys) (some from) m = open_with keys from m

  unfoldable pub open_named : Option Bytes → Option Keys → Message → Message
  open_named none keys m = try_open keys m.from m
  open_named (some to) none m = try_open none m.from m
  open_named (some to) (some keys) m =
      if not (same to keys.hash_prefix)
      then record m {
        format = codes "sealed-to-someone-else";
        error = some (wrong_recipient to keys.hash_prefix);
      }
      else try_open (some keys) m.from m

  unfoldable pub open_sealed : Option Keys → Message → Message
  open_sealed keys m = open_named (envelope_to m.body) keys m

  -- What comes behind the opening: only a body that was opened is read as JSON.
  unfoldable pub decode : Option Keys → j.Map → Message
  decode keys raw =
      let m = plain_message raw in
      if m.sealed then read_opened (open_sealed keys m) else with_json m.body m

  unfoldable pub checked_decode : Option Keys → Bytes → j.Map → Message
  checked_decode keys w raw = record (decode keys (checked_fields w raw)) {
    unverified_because = (check_message w raw).1;
  }

  -- `panicked` says whether the check panicked inside a package, which `catch_unwind` catches.
  unfoldable pub decode_at : Bool → Option Keys → Bytes → j.Map → Message
  decode_at panicked keys w raw =
      if panicked then unreadable_message raw else checked_decode keys w raw

module _ ⦃j : Json⦄ where
  -- An item of the answer's list; what is no object is taken for an empty one.
  unfoldable pub raw_of : j.Value → j.Map
  raw_of item = unwrap_or (j.as_object item) j.empty

module _ ⦃j : Json⦄ ⦃e : Encodings⦄ ⦃h : Hashing⦄ ⦃c : Crypto⦄ ⦃v : Envelopes⦄ where
  -- The messages of an answer, each with whether its check panicked.
  unfoldable pub decode_all : Option Keys → Bytes → List (Bool × j.Value) → List Message
  decode_all keys w [] = []
  decode_all keys w ((panicked, item) ∷ items) =
      decode_at panicked keys w (raw_of item) ∷ decode_all keys w items
