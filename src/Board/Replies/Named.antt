-- ===== src/Board/Replies/Named.antt =====
-- What the answers read in src/board.rs say, whatever names they use: a reading of each field apart.
use aamio_rust.Base.{
  ◌≡◌, refl, ap, ◌∙◌, ◌∷◌, ◌++◌, Option, List, [], map, arith, append_assoc, Bytes, codes, same,
  same_refl, all, and_then, unwrap_or, if◌then◌else◌,
}
use aamio_rust.Extern.Json.{Json}
use aamio_rust.Client.Fields.{str_field}
use aamio_rust.Client.Message.{Message}
use aamio_rust.Board.Replies.{
  Reply, rename, rename_all, reply_of, decode_reply, decode_replies, aliases,
}
use aamio_rust.Board.Replies.Renamed.{
  first_present, alias_of, rename-get, rename-renamed, Agree, first_present-Agree, alias_of-Agree,
  rename-Agree,
}

module _ ⦃j : Json⦄ where
  -- The text of the first of some names that is there.
  unfoldable pub text_of_first : j.Map → List Bytes → Option Bytes
  text_of_first m names = and_then (first_present m names) j.as_str

  abbrev pub post_names : List Bytes
  post_names = codes "post" ∷ codes "post_id" ∷ []

  abbrev pub reply_to_names : List Bytes
  reply_to_names = codes "reply_to" ∷ codes "w" ∷ codes "reply_address" ∷ codes "replyTo" ∷ []

  abbrev pub text_names : List Bytes
  text_names = codes "text" ∷ codes "reply" ∷ codes "message" ∷ []

  -- A message read as a reply, each field apart and nothing changed on the way.
  unfoldable pub reading : Message → Reply
  reading message =
      let m = unwrap_or message.json j.empty in
      record {
        message = message;
        post = text_of_first m post_names;
        reply_to = text_of_first m reply_to_names;
        text = text_of_first m text_names;
        data_fields = and_then (j.get m (codes "data")) j.as_object;
        renamed =
            alias_of m (codes "post") (codes "post_id" ∷ [])
            ++ (alias_of m (codes "reply_to")
                  (codes "w" ∷ codes "reply_address" ∷ codes "replyTo" ∷ [])
                ++ alias_of m (codes "text") (codes "reply" ∷ codes "message" ∷ []));
      }

  step_1 : j.Map → j.Map × List (Bytes × Bytes)
  step_1 m = rename (codes "post") (codes "post_id" ∷ []) (m, [])

  step_2 : j.Map → j.Map × List (Bytes × Bytes)
  step_2 m =
      rename (codes "reply_to") (codes "w" ∷ codes "reply_address" ∷ codes "replyTo" ∷ [])
        (step_1 m)

  step_3 : j.Map → j.Map × List (Bytes × Bytes)
  step_3 m = rename (codes "text") (codes "reply" ∷ codes "message" ∷ []) (step_2 m)

  rename_all-steps : (m : j.Map) → rename_all aliases (m, []) ≡ step_3 m
  unfolding rename_all step_3 step_2 step_1
  rename_all-steps m = refl

  step_1-Agree :
      (m : j.Map)
      → Agree (step_1 m).0 m reply_to_names
        × Agree (step_1 m).0 m text_names
        × Agree (step_1 m).0 m (codes "data" ∷ [])
  unfolding step_1 codes same all
  step_1-Agree m = (
    rename-Agree (codes "post") (codes "post_id" ∷ []) m [] reply_to_names refl,
    rename-Agree (codes "post") (codes "post_id" ∷ []) m [] text_names refl,
    rename-Agree (codes "post") (codes "post_id" ∷ []) m [] (codes "data" ∷ []) refl,
  )

  step_2-Agree :
      (m : j.Map) → Agree (step_2 m).0 (step_1 m).0 (codes "post" ∷ codes "data" ∷ text_names)
  unfolding step_2 codes same all
  step_2-Agree m =
      rename-Agree (codes "reply_to") (codes "w" ∷ codes "reply_address" ∷ codes "replyTo" ∷ [])
        (step_1 m).0 (step_1 m).1 (codes "post" ∷ codes "data" ∷ text_names) refl

  step_3-Agree :
      (m : j.Map)
      → Agree (step_3 m).0 (step_2 m).0 (codes "post" ∷ codes "data" ∷ codes "reply_to" ∷ [])
  unfolding step_3 codes same all
  step_3-Agree m =
      rename-Agree (codes "text") (codes "reply" ∷ codes "message" ∷ []) (step_2 m).0 (step_2 m).1
        (codes "post" ∷ codes "data" ∷ codes "reply_to" ∷ []) refl

  -- What the three names are read as, and what is noted as renamed.
  steps_lem :
      (m : j.Map)
      → (j.get (step_3 m).0 (codes "post") ≡ first_present m post_names)
        × (j.get (step_3 m).0 (codes "reply_to") ≡ first_present m reply_to_names)
        × (j.get (step_3 m).0 (codes "text") ≡ first_present m text_names)
        × (j.get (step_3 m).0 (codes "data") ≡ j.get m (codes "data"))
  unfolding step_3 step_2 step_1
  steps_lem m =
      let (replies_1, texts_1, (data_1, _)) = step_1-Agree m in
      let (post_2, (data_2, texts_2)) = step_2-Agree m in
      let (post_3, (data_3, (reply_3, _))) = step_3-Agree m in
      (
        post_3
            ∙ post_2
            ∙ rename-get (codes "post") (codes "post_id" ∷ []) m [] (codes "post")
            ∙ ap (λ b. if b then first_present m post_names else j.get m (codes "post"))
                (same_refl (codes "post")),
        reply_3
            ∙ rename-get (codes "reply_to")
                (codes "w" ∷ codes "reply_address" ∷ codes "replyTo" ∷ []) (step_1 m).0 (step_1 m).1
                (codes "reply_to")
            ∙ ap
                (λ b.
                  if b
                  then first_present (step_1 m).0 reply_to_names
                  else j.get (step_1 m).0 (codes "reply_to"))
                (same_refl (codes "reply_to"))
            ∙ first_present-Agree (step_1 m).0 m reply_to_names replies_1,
        rename-get (codes "text") (codes "reply" ∷ codes "message" ∷ []) (step_2 m).0 (step_2 m).1
              (codes "text")
            ∙ ap
                (λ b.
                  if b
                  then first_present (step_2 m).0 text_names
                  else j.get (step_2 m).0 (codes "text"))
                (same_refl (codes "text"))
            ∙ first_present-Agree (step_2 m).0 (step_1 m).0 text_names texts_2
            ∙ first_present-Agree (step_1 m).0 m text_names texts_1,
        data_3 ∙ data_2 ∙ data_1,
      )

  steps-renamed :
      (m : j.Map)
      → (step_3 m).1
        ≡ alias_of m (codes "post") (codes "post_id" ∷ [])
          ++ (alias_of m
                (codes "reply_to")
                (codes "w" ∷ codes "reply_address" ∷ codes "replyTo" ∷ [])
              ++ alias_of m (codes "text") (codes "reply" ∷ codes "message" ∷ []))
  unfolding step_3 step_2 step_1
  steps-renamed m =
      let (replies_1, texts_1, data_1) = step_1-Agree m in
      let (post_2, (data_2, texts_2)) = step_2-Agree m in
      let a = alias_of m (codes "post") (codes "post_id" ∷ []) in
      let names = codes "w" ∷ codes "reply_address" ∷ codes "replyTo" ∷ [] in
      let more = codes "reply" ∷ codes "message" ∷ [] in
      rename-renamed (codes "text") more (step_2 m).0 (step_2 m).1
      ∙ ap (λ r. r ++ alias_of (step_2 m).0 (codes "text") more)
          (rename-renamed (codes "reply_to") names (step_1 m).0 (step_1 m).1
            ∙ ap (λ r. r ++ alias_of (step_1 m).0 (codes "reply_to") names)
                (rename-renamed (codes "post") (codes "post_id" ∷ []) m [])
            ∙ ap (λ r. a ++ r) (alias_of-Agree (step_1 m).0 m (codes "reply_to") names replies_1))
      ∙ ap (λ r. (a ++ alias_of m (codes "reply_to") names) ++ r)
          (alias_of-Agree (step_2 m).0 (step_1 m).0 (codes "text") more texts_2
            ∙ alias_of-Agree (step_1 m).0 m (codes "text") more texts_1)
      ∙ append_assoc a (alias_of m (codes "reply_to") names) (alias_of m (codes "text") more)

  decode_reply-reading : (message : Message) → decode_reply message ≡ reading message
  unfolding decode_reply reply_of reading text_of_first str_field
  decode_reply-reading message =
      let m = unwrap_or message.json j.empty in
      let (post, reply_to, text, data_kept) = steps_lem m in
      rw (rename_all-steps m, post, reply_to, text, data_kept, steps-renamed m) refl

  -- Every message that was read is handed over as one reply, in order, with the message itself. Its
  -- post, reply address and text are the texts of the first name that the message has for each, the
  -- name that is meant before its aliases, its data is the object `data`, and what was read under an
  -- alias is listed: no alias of one name changes what is read for another.
  pub decode_replies-reading :
      (messages : List Message) → decode_replies messages ≡ map reading messages
  unfolding decode_replies
  decode_replies-reading [] = refl
  decode_replies-reading (message ∷ messages) =
      ground (arith, decode_reply-reading message, decode_replies-reading messages)
