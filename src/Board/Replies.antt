-- ===== src/Board/Replies.antt =====
-- src/board.rs: the answers that are read from a reply inbox.
pub mod Renamed
pub mod Named
use aamio_rust.Base.{◌∷◌, ◌++◌, Option, none, some, List, [], unwrap_or, and_then, Bytes, codes, ℕ}
use aamio_rust.Base.Int.{ℤ}
use aamio_rust.Extern.Encodings.{Encodings}
use aamio_rust.Extern.Hashing.{Hashing}
use aamio_rust.Extern.Crypto.{Crypto}
use aamio_rust.Extern.Envelopes.{Envelopes}
use aamio_rust.Extern.Json.{Json}
use aamio_rust.Extern.Floats.{Floats}
use aamio_rust.Client.Answer.{Answer}
use aamio_rust.Client.Fields.{str_field}
use aamio_rust.Client.Message.{Message}
use aamio_rust.Client.Allow.{KeptOut}
use aamio_rust.Client.World.{World, State, Action, pure, ◌>>=◌}
use aamio_rust.Client.Threads.{Thread, read, read_thread}
use aamio_rust.Board.Find.{Board}

-- The names that a reply may use, by the name that is meant.
abbrev pub aliases : List (Bytes × List Bytes)
aliases =
    (codes "post", codes "post_id" ∷ [])
    ∷ (codes "reply_to", codes "w" ∷ codes "reply_address" ∷ codes "replyTo" ∷ [])
    ∷ (codes "text", codes "reply" ∷ codes "message" ∷ [])
    ∷ []

module _ ⦃j : Json⦄ where
  pub record Reply : Type 0 where
    pub message : Message
    pub post : Option Bytes
    pub reply_to : Option Bytes
    pub text : Option Bytes
    -- the field `data`
    pub data_fields : Option j.Map
    pub renamed : List (Bytes × Bytes)

  -- The loop over the aliases of one name, which ends at the first that is there.
  unfoldable pub rename_first :
      Bytes → List Bytes → j.Map × List (Bytes × Bytes) → j.Map × List (Bytes × Bytes)
  rename_first canonical [] (m, renamed) = (m, renamed)
  rename_first canonical (alias ∷ names) (m, renamed) =
      let rest = rename_first canonical names (m, renamed) in
      elim (j.get m alias) [
        | none ↦ rest
        | some v ↦ (j.insert m canonical v, renamed ++ (alias, canonical) ∷ [])
      ]

  -- A name that is there is left as it is.
  unfoldable pub rename :
      Bytes → List Bytes → j.Map × List (Bytes × Bytes) → j.Map × List (Bytes × Bytes)
  rename canonical names (m, renamed) = elim (j.get m canonical) [
    | some v ↦ (m, renamed)
    | none ↦ rename_first canonical names (m, renamed)
  ]

  unfoldable pub rename_all :
      List (Bytes × List Bytes) → j.Map × List (Bytes × Bytes) → j.Map × List (Bytes × Bytes)
  rename_all [] fields = fields
  rename_all ((canonical, names) ∷ rest) fields = rename_all rest (rename canonical names fields)

  unfoldable pub reply_of : Message → j.Map × List (Bytes × Bytes) → Reply
  reply_of message (m, renamed) = record {
    message = message;
    post = str_field m (codes "post");
    reply_to = str_field m (codes "reply_to");
    text = str_field m (codes "text");
    data_fields = and_then (j.get m (codes "data")) j.as_object;
    renamed = renamed;
  }

  unfoldable pub decode_reply : Message → Reply
  decode_reply message = reply_of message (rename_all aliases (unwrap_or message.json j.empty, []))

  unfoldable pub decode_replies : List Message → List Reply
  decode_replies [] = []
  decode_replies (message ∷ messages) = decode_reply message ∷ decode_replies messages

module _ ⦃j : Json⦄ ⦃f : Floats⦄ ⦃e : Encodings⦄ ⦃h : Hashing⦄ ⦃c : Crypto⦄ ⦃v : Envelopes⦄
    ⦃world : World⦄ (board : Board) where
  unfoldable pub replies_thread : Thread → ℤ → ℕ → Action (Answer × List Reply × List KeptOut × ℤ)
  replies_thread thread after wait = do
    read ← read_thread board.client thread after wait
    pure (read.0, decode_replies read.1, read.2, read.3)

  unfoldable pub replies : Bytes → Bytes → ℤ → ℕ → Action (Answer × List Reply × ℤ)
  replies w id after wait = do
    read ← read board.client w id after wait
    pure (read.0, decode_replies read.1, read.2)
