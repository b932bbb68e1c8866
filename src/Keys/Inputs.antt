-- ===== src/Keys/Inputs.antt =====
-- What the signatures of src/keys.rs are taken over: five kinds of text that are never mistaken for
-- one another.
use aamio_rust.Base.{
  ◌≡◌, refl, sym, ap, ◌∙◌, List, [], ◌∷◌, ◌++◌, append-nil, ◌==◌, if◌then◌else◌, get_or, Bytes,
  codes,
}
use aamio_rust.Base.Ascii.{Lacks, field_inj}
use aamio_rust.Extern.Encodings.{Encodings}
use aamio_rust.Extern.Hashing.{Hashing}
use aamio_rust.Codec.{sha256_hex}
use aamio_rust.Keys.{
  thread_signing_input, presence_signing_input, presence_delete_signing_input, board_signing_input,
  board_delete_signing_input,
}

pub data Purpose : Type 0 where
  thread presence presence_delete board board_delete : Purpose

module _ ⦃e : Encodings⦄ ⦃h : Hashing⦄ where
  -- The text that is signed for a purpose, about an address, a key or a post, over a body.
  unfoldable pub signing_input : Purpose → Bytes → Bytes → Bytes
  signing_input thread = thread_signing_input
  signing_input presence = presence_signing_input
  signing_input presence_delete = presence_delete_signing_input
  signing_input board = board_signing_input
  signing_input board_delete = board_delete_signing_input

tag : Purpose → Bytes
unfolding codes
tag thread = codes "aamio-v1\n"
tag presence = codes "aamio-presence-v1\n"
tag presence_delete = codes "aamio-presence-delete-v1\n"
tag board = codes "aamio-board-v1\n"
tag board_delete = codes "aamio-board-delete-v1\n"

-- The bytes at which the tags part.
read_tag : Bytes → Purpose
read_tag t =
    if get_or t 6 0 == b'v'
    then thread
    else if get_or t 6 0 == b'p'
    then (if get_or t 15 0 == b'v' then presence else presence_delete)
    else if get_or t 12 0 == b'v'
    then board
    else board_delete

read_tag-tag : (p : Purpose) (s : Bytes) → read_tag (tag p ++ s) ≡ p
unfolding tag read_tag
read_tag-tag thread s = refl
read_tag-tag presence s = refl
read_tag-tag presence_delete s = refl
read_tag-tag board s = refl
read_tag-tag board_delete s = refl

cancel_left {ℓ} : {A : Type ℓ} (a b c : List A) → a ++ b ≡ a ++ c → b ≡ c
cancel_left [] b c e = e
cancel_left (x ∷ a) b c e = cancel_left a b c (cc)

module _ ⦃e : Encodings⦄ ⦃h : Hashing⦄ where
  signing_input_fields :
      (p : Purpose) (subject body : Bytes)
      → signing_input p subject body ≡ tag p ++ (subject ++ 10 ∷ sha256_hex body)
  unfolding signing_input tag codes thread_signing_input presence_signing_input
      presence_delete_signing_input board_signing_input board_delete_signing_input
  signing_input_fields thread subject body = simp append-nil
  signing_input_fields presence subject body = simp append-nil
  signing_input_fields presence_delete subject body = simp append-nil
  signing_input_fields board subject body = simp append-nil
  signing_input_fields board_delete subject body = simp append-nil

  -- Where two subjects (address, key or post id) hold no line break and two texts to sign
  -- are equal, they have the same purpose and the same subject, and their bodies have the
  -- same sha256.
  pub signing_input_inj :
      (p q : Purpose) (subject subject' body body' : Bytes)
      → Lacks 10 subject
      → Lacks 10 subject'
      → signing_input p subject body ≡ signing_input q subject' body'
      → (p ≡ q) × (subject ≡ subject') × (sha256_hex body ≡ sha256_hex body')
  signing_input_inj p q subject subject' body body' clean clean' same_input =
      let text =
        sym (signing_input_fields p subject body)
        ∙ same_input
        ∙ signing_input_fields q subject' body' in
      let purpose : p ≡ q = sym (read_tag-tag p _) ∙ ap read_tag text ∙ read_tag-tag q _ in
      let one_tag : tag q ++ (subject ++ 10 ∷ sha256_hex body)
          ≡ tag q ++ (subject' ++ 10 ∷ sha256_hex body') =
        rw purpose at text in
      let (subjects, hashes) =
        field_inj 10 subject subject' _ _ clean clean' (cancel_left (tag q) _ _ one_tag) in
      (purpose, subjects, hashes)
