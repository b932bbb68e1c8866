-- ===== src/Client/Message/Decoded/Opened.antt =====
-- How a sealed message of src/client.rs is opened once its check succeeds.
use aamio_rust.Base.{
  ◌≡◌, refl, ap, ◌∙◌, true, Option, none, some, arith, inl, inr, ok, [], if◌then◌else◌,
  Option-cases, unwrap_or, and_then, Bytes, same_refl, codes, same,
}
use aamio_rust.Base.Utf8.{from_utf8_lossy}
use aamio_rust.Extern.Encodings.{Encodings}
use aamio_rust.Extern.Hashing.{Hashing}
use aamio_rust.Extern.Crypto.{Crypto}
use aamio_rust.Extern.Envelopes.{Envelopes}
use aamio_rust.Extern.Json.{Json}
use aamio_rust.Keys.{Keys, envelope_to, open_envelope}
use aamio_rust.Client.Fields.{str_field, bool_field}
use aamio_rust.Client.Check.{check_message}
use aamio_rust.Client.Message.{
  Message, plain_message, with_json, open_with, try_open, open_named, open_sealed, read_opened,
  decode, checked_fields, checked_decode,
}
use aamio_rust.Client.Message.Decoded.{
  marked, str_field-insert, bool_field-insert, checked_fields_lem,
}

module _ ⦃j : Json⦄ where
  with_json-keeps :
      (text : Bytes) (m : Message)
      → ((with_json text m).opened ≡ m.opened) × ((with_json text m).format ≡ m.format)
  unfolding with_json
  with_json-keeps text m = elim (Option-cases (and_then (j.from_str text) j.as_object)) [
    | inl nothing ↦ rw (with_json, nothing) (refl, refl)
    | inr (fields, object) ↦ rw (with_json, object) (refl, refl)
  ]

  -- The check leaves the body and the mark of an envelope as they are.
  marked-others :
      (raw : j.Map) (digest : Option Bytes)
      → (str_field (marked raw true digest) (codes "body") ≡ str_field raw (codes "body"))
        × (bool_field (marked raw true digest) (codes "sealed") ≡ bool_field raw (codes "sealed"))
  unfolding marked codes same
  marked-others raw none = (
    str_field-insert raw (codes "verified") (j.boolean true) (codes "body") refl,
    bool_field-insert raw (codes "verified") (j.boolean true) (codes "sealed") refl,
  )
  marked-others raw (some d) =
      let first = j.insert raw (codes "verified") (j.boolean true) in
      (
        str_field-insert first (codes "sha256") (j.string d) (codes "body") refl
            ∙ str_field-insert raw (codes "verified") (j.boolean true) (codes "body") refl,
        bool_field-insert first (codes "sha256") (j.string d) (codes "sealed") refl
            ∙ bool_field-insert raw (codes "verified") (j.boolean true) (codes "sealed") refl,
      )

module _ ⦃j : Json⦄ ⦃e : Encodings⦄ ⦃h : Hashing⦄ ⦃c : Crypto⦄ where
  checked_fields-others :
      (w : Bytes) (raw : j.Map)
      → (check_message w raw).0 ≡ true
      → (str_field (checked_fields w raw) (codes "body") ≡ str_field raw (codes "body"))
        × (bool_field (checked_fields w raw) (codes "sealed") ≡ bool_field raw (codes "sealed"))
  unfolding checked_fields marked
  checked_fields-others w raw good =
      let (body, sealed) = marked-others raw (check_message w raw).2 in
      let is_marked = ap (λ b. marked raw b (check_message w raw).2) good in
      (
        ap (λ m. str_field m (codes "body")) is_marked ∙ body,
        ap (λ m. bool_field m (codes "sealed")) is_marked ∙ sealed,
      )

module _ ⦃j : Json⦄ ⦃e : Encodings⦄ ⦃h : Hashing⦄ ⦃c : Crypto⦄ ⦃v : Envelopes⦄ where
  -- The message with what was opened.
  opened_message : Message → Bytes → Message
  opened_message m plain = record m {
    opened = some (from_utf8_lossy plain);
    format = codes "sealed";
  }

  open_with-opened :
      (keys : Keys) (m : Message) (from plain : Bytes)
      → open_envelope keys from m.body ≡ ok plain
      → open_with keys from m ≡ opened_message m plain
  unfolding open_with opened_message
  open_with-opened keys m from plain opens = ground (arith, opens)

  open_named-ours :
      (keys : Keys) (m : Message)
      → open_named (some keys.hash_prefix) (some keys) m ≡ try_open (some keys) m.from m
  unfolding open_named
  open_named-ours keys m = rw (same_refl keys.hash_prefix) refl

  open_sealed-opened :
      (keys : Keys) (m : Message) (from plain : Bytes)
      → envelope_to m.body ≡ some keys.hash_prefix
      → m.from ≡ some from
      → open_envelope keys from m.body ≡ ok plain
      → open_sealed (some keys) m ≡ opened_message m plain
  unfolding open_sealed try_open
  open_sealed-opened keys m from plain named sender opens =
      ap (λ to. open_named to (some keys) m) named
      ∙ open_named-ours keys m
      ∙ ap (λ f. try_open (some keys) f m) sender
      ∙ open_with-opened keys m from plain opens

  decode-sealed :
      (keys : Option Keys) (raw : j.Map)
      → (plain_message raw).sealed ≡ true
      → decode keys raw ≡ read_opened (open_sealed keys (plain_message raw))
  unfolding decode
  decode-sealed keys raw sealed =
      ap
        (λ b.
          if b
          then read_opened (open_sealed keys (plain_message raw))
          else with_json (plain_message raw).body (plain_message raw))
        sealed

  read_opened-opened :
      (m : Message) (plain : Bytes)
      → ((read_opened (opened_message m plain)).opened ≡ some (from_utf8_lossy plain))
        × ((read_opened (opened_message m plain)).format ≡ codes "sealed")
  unfolding read_opened opened_message
  read_opened-opened m plain =
      rw (same_refl (codes "sealed"))
        (with_json-keeps (from_utf8_lossy plain) (opened_message m plain))

  -- A message whose check succeeds and whose body opens with its sender is handed over opened.
  pub checked_decode-opened :
      (keys : Keys) (w : Bytes) (raw : j.Map) (text from plain : Bytes)
      → (check_message w raw).0 ≡ true
      → str_field raw (codes "body") ≡ some text
      → str_field raw (codes "from") ≡ some from
      → bool_field raw (codes "sealed") ≡ true
      → envelope_to text ≡ some keys.hash_prefix
      → open_envelope keys from text ≡ ok plain
      → ((checked_decode (some keys) w raw).opened ≡ some (from_utf8_lossy plain))
        × ((checked_decode (some keys) w raw).format ≡ codes "sealed")
  unfolding checked_decode
  checked_decode-opened keys w raw text from plain good body sender sealed named opens =
      let m = plain_message (checked_fields w raw) in
      let (body_kept, sealed_kept) = checked_fields-others w raw good in
      let is_text : m.body ≡ text =
        unfold plain_message in ap (λ b. unwrap_or b []) (body_kept ∙ body) in
      let is_sealed : m.sealed ≡ true = unfold plain_message in sealed_kept ∙ sealed in
      let is_from : m.from ≡ some from = (checked_fields_lem w raw).1 ∙ rw good sender in
      let steps =
        open_sealed-opened keys m from plain (ap envelope_to is_text ∙ named) is_from
          (ap (open_envelope keys from) is_text ∙ opens) in
      let decoded =
        decode-sealed (some keys) (checked_fields w raw) is_sealed ∙ ap read_opened steps in
      let (opened, format) = read_opened-opened m plain in
      (
        ap (λ (n : Message). n.opened) decoded ∙ opened,
        ap (λ (n : Message). n.format) decoded ∙ format,
      )
