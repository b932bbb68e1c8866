-- ===== src/Client/Message/Decoded.antt =====
-- What a message of src/client.rs says of its sender, and what is opened under it.
pub mod Opened
use aamio_rust.Base.{
  ◌≡◌, refl, sym, ◌∙◌, ◌⊎◌, inl, inr, Bool, true, false, not, Option, none, some, arith,
  if◌then◌else◌, Bool-cases, Option-cases, unwrap_or, and_then, Bytes, same_refl, codes, same,
}
use aamio_rust.Extern.Encodings.{Encodings}
use aamio_rust.Extern.Hashing.{Hashing}
use aamio_rust.Extern.Crypto.{Crypto}
use aamio_rust.Extern.Envelopes.{Envelopes}
use aamio_rust.Extern.Json.{Json}
use aamio_rust.Keys.{Keys, envelope_to}
use aamio_rust.Client.Fields.{str_field, bool_field}
use aamio_rust.Client.Check.{check_message, Signed, check_message-Signed}
use aamio_rust.Client.Message.{
  Message, plain_message, with_json, unreadable_message, open_with, try_open, open_named,
  open_sealed, read_opened, decode, checked_fields, checked_decode, decode_at,
}

module _ ⦃j : Json⦄ where
  -- The step keeps who a message is from, and opens nothing without a sender.
  abbrev Keeps : Message → Message → Type 0
  Keeps m n =
      (n.verified ≡ m.verified)
      × (n.from ≡ m.from)
      × (m.from ≡ none → m.opened ≡ none → n.opened ≡ none)

  Keeps-refl : (m : Message) → Keeps m m
  Keeps-refl m = (refl, refl, λ f o. o)

  Keeps-trans : (l m n : Message) → Keeps l m → Keeps m n → Keeps l n
  Keeps-trans l m n p q = (q.0 ∙ p.0, q.1 ∙ p.1, λ f o. q.2 (p.1 ∙ f) (p.2 f o))

  Keeps-if : (b : Bool) (m n o : Message) → Keeps m n → Keeps m o → Keeps m (if b then n else o)
  Keeps-if true m n o p q = p
  Keeps-if false m n o p q = q

  Keeps-with_json : (text : Bytes) (m : Message) → Keeps m (with_json text m)
  unfolding with_json
  Keeps-with_json text m = elim (Option-cases (and_then (j.from_str text) j.as_object)) [
    | inl nothing ↦ rw (with_json, nothing) (Keeps-refl m)
    | inr (fields, object) ↦ rw (with_json, object) (refl, refl, λ f o. o)
  ]

  Keeps-read_opened : (m : Message) → Keeps m (read_opened m)
  unfolding read_opened
  Keeps-read_opened m = elim (Bool-cases (same m.format (codes "sealed"))) [
    | inl opened ↦ rw opened (Keeps-with_json (unwrap_or m.opened m.body) m)
    | inr closed ↦ rw closed (Keeps-refl m)
  ]

module _ ⦃j : Json⦄ ⦃e : Encodings⦄ ⦃h : Hashing⦄ ⦃c : Crypto⦄ ⦃v : Envelopes⦄ where
  -- Opening changes neither the sender nor the verdict.
  Keeps-open_with :
      (keys : Keys) (from : Bytes) (m : Message)
      → m.from ≡ some from
      → Keeps m (open_with keys from m)
  unfolding open_with
  Keeps-open_with keys from m sender =
      (ground arith, ground arith, λ f o. absurd (ground (arith, sender, f)))

  Keeps-opened :
      (keys : Option Keys) (from : Option Bytes) (m : Message)
      → from ≡ m.from
      → Keeps m (try_open keys from m)
  unfolding try_open
  Keeps-opened none from m sender = (refl, refl, λ f o. o)
  Keeps-opened (some keys) none m sender = (refl, refl, λ f o. o)
  Keeps-opened (some keys) (some from) m sender = Keeps-open_with keys from m (sym sender)

  Keeps-try_open : (keys : Option Keys) (m : Message) → Keeps m (try_open keys m.from m)
  Keeps-try_open keys m = Keeps-opened keys m.from m refl

  Keeps-open_named :
      (to : Option Bytes) (keys : Option Keys) (m : Message) → Keeps m (open_named to keys m)
  unfolding open_named
  Keeps-open_named none keys m = Keeps-try_open keys m
  Keeps-open_named (some to) none m = Keeps-try_open none m
  Keeps-open_named (some to) (some keys) m = elim (Bool-cases (same to keys.hash_prefix)) [
    | inl ours ↦ rw ours (Keeps-try_open (some keys) m)
    | inr theirs ↦ rw theirs (refl, refl, λ f o. o)
  ]

  Keeps-decode : (keys : Option Keys) (raw : j.Map) → Keeps (plain_message raw) (decode keys raw)
  unfolding decode open_sealed
  Keeps-decode keys raw =
      let m = plain_message raw in
      let opened = open_named (envelope_to m.body) keys m in
      Keeps-if m.sealed m (read_opened opened) (with_json m.body m)
        (Keeps-trans m opened (read_opened opened) (Keeps-open_named (envelope_to m.body) keys m)
          (Keeps-read_opened opened))
        (Keeps-with_json m.body m)

module _ ⦃j : Json⦄ where
  str_field-insert :
      (raw : j.Map) (k : Bytes) (x : j.Value) (name : Bytes)
      → same k name ≡ false
      → str_field (j.insert raw k x) name ≡ str_field raw name
  unfolding str_field
  str_field-insert raw k x name other = ground (arith, j.get-insert raw k x name, other)

  bool_field-insert :
      (raw : j.Map) (k : Bytes) (x : j.Value) (name : Bytes)
      → same k name ≡ false
      → bool_field (j.insert raw k x) name ≡ bool_field raw name
  unfolding bool_field
  bool_field-insert raw k x name other = ground (arith, j.get-insert raw k x name, other)

  bool_field-insert_self :
      (raw : j.Map) (k : Bytes) (b : Bool) → bool_field (j.insert raw k (j.boolean b)) k ≡ b
  unfolding bool_field
  bool_field-insert_self raw k b =
      ground (arith, j.get-insert raw k (j.boolean b) k, same_refl k, j.as_bool-boolean b)

  str_field-insert_null : (raw : j.Map) (k : Bytes) → str_field (j.insert raw k j.null) k ≡ none
  unfolding str_field
  str_field-insert_null raw k =
      ground (arith, j.get-insert raw k j.null k, same_refl k, j.as_str-null)

verified-ne-from : same (codes "verified") (codes "from") ≡ false
unfolding codes same
verified-ne-from = refl

from-ne-verified : same (codes "from") (codes "verified") ≡ false
unfolding codes same
from-ne-verified = refl

sha256-ne-from : same (codes "sha256") (codes "from") ≡ false
unfolding codes same
sha256-ne-from = refl

sha256-ne-verified : same (codes "sha256") (codes "verified") ≡ false
unfolding codes same
sha256-ne-verified = refl

module _ ⦃j : Json⦄ where
  -- The fields with the results of the check put in.
  marked : j.Map → Bool → Option Bytes → j.Map
  marked raw verified digest =
      let first = j.insert raw (codes "verified") (j.boolean verified) in
      let unnamed = if not verified then j.insert first (codes "from") j.null else first in
      elim digest [ none ↦ unnamed | some d ↦ j.insert unnamed (codes "sha256") (j.string d) ]

  marked-none :
      (raw : j.Map) (verified : Bool)
      → (bool_field (marked raw verified none) (codes "verified") ≡ verified)
        × (str_field (marked raw verified none) (codes "from")
            ≡ (if verified then str_field raw (codes "from") else none))
  unfolding marked
  marked-none raw true = (
    bool_field-insert_self raw (codes "verified") true,
    str_field-insert raw (codes "verified") (j.boolean true) (codes "from") verified-ne-from,
  )
  marked-none raw false =
      let first = j.insert raw (codes "verified") (j.boolean false) in
      (
        bool_field-insert first (codes "from") j.null (codes "verified") from-ne-verified
            ∙ bool_field-insert_self raw (codes "verified") false,
        str_field-insert_null first (codes "from"),
      )

  marked_lem :
      (raw : j.Map) (verified : Bool) (digest : Option Bytes)
      → (bool_field (marked raw verified digest) (codes "verified") ≡ verified)
        × (str_field (marked raw verified digest) (codes "from")
            ≡ (if verified then str_field raw (codes "from") else none))
  unfolding marked
  marked_lem raw verified none = marked-none raw verified
  marked_lem raw verified (some d) =
      let before = marked raw verified none in
      let rest = marked-none raw verified in
      (
        bool_field-insert before (codes "sha256") (j.string d) (codes "verified") sha256-ne-verified
            ∙ rest.0,
        str_field-insert before (codes "sha256") (j.string d) (codes "from") sha256-ne-from
            ∙ rest.1,
      )

module _ ⦃j : Json⦄ ⦃e : Encodings⦄ ⦃h : Hashing⦄ ⦃c : Crypto⦄ where
  -- What the check leaves of the fields that `decode` goes by.
  checked_fields_lem :
      (w : Bytes) (raw : j.Map)
      → ((plain_message (checked_fields w raw)).verified ≡ (check_message w raw).0)
        × ((plain_message (checked_fields w raw)).from
            ≡ (if (check_message w raw).0 then str_field raw (codes "from") else none))
  unfolding plain_message checked_fields marked
  checked_fields_lem w raw = marked_lem raw (check_message w raw).0 (check_message w raw).2

module _ ⦃j : Json⦄ ⦃e : Encodings⦄ ⦃h : Hashing⦄ ⦃c : Crypto⦄ ⦃v : Envelopes⦄ where
  checked_decode-Signed :
      (keys : Option Keys) (w : Bytes) (raw : j.Map)
      → (((checked_decode keys w raw).verified ≡ true)
          × Signed w raw
          × ((checked_decode keys w raw).from ≡ str_field raw (codes "from"))
          × ((checked_decode keys w raw).unverified_because ≡ none))
        ⊎ (((checked_decode keys w raw).verified ≡ false)
            × ((checked_decode keys w raw).from ≡ none)
            × ((checked_decode keys w raw).opened ≡ none))
  unfolding checked_decode
  checked_decode-Signed keys w raw =
      let kept = Keeps-decode keys (checked_fields w raw) in
      let fields = checked_fields_lem w raw in
      let check = check_message-Signed w raw in
      elim (Bool-cases (check_message w raw).0) [
        | inl good ↦ inl (
          kept.0 ∙ fields.0 ∙ good,
          check.0.0 good,
          kept.1 ∙ fields.1 ∙ rw good refl,
          ground (arith, good, check.1),
        )
        | inr bad ↦ inr (
          kept.0 ∙ fields.0 ∙ bad,
          kept.1 ∙ fields.1 ∙ rw bad refl,
          kept.2 (fields.1 ∙ rw bad refl) (unfold plain_message in refl),
        )
      ]

  -- Whether or not the check panicked, the message is one of two. Either it is verified, it was sent
  -- as `Signed` says (its hash and its signature for this address check out), it names the sender of
  -- the signature, and nothing is held against it. Or it is not verified, it names no sender, and
  -- nothing was opened under the sender that it claimed.
  pub decode_at-Signed :
      (panicked : Bool) (keys : Option Keys) (w : Bytes) (raw : j.Map)
      → (((decode_at panicked keys w raw).verified ≡ true)
          × Signed w raw
          × ((decode_at panicked keys w raw).from ≡ str_field raw (codes "from"))
          × ((decode_at panicked keys w raw).unverified_because ≡ none))
        ⊎ (((decode_at panicked keys w raw).verified ≡ false)
            × ((decode_at panicked keys w raw).from ≡ none)
            × ((decode_at panicked keys w raw).opened ≡ none))
  unfolding decode_at unreadable_message
  decode_at-Signed true keys w raw = inr (refl, refl, refl)
  decode_at-Signed false keys w raw = checked_decode-Signed keys w raw
