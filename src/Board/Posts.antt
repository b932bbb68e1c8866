-- ===== src/Board/Posts.antt =====
-- src/board.rs: what is put on the board, answered there, and taken off it.
pub mod Advised
pub mod Body
pub mod Inbox
pub mod Placed
pub mod Vouched
use aamio_rust.Base.{
  ℕ, ◌+◌, ◌%◌, ◌^◌, ◌∷◌, ◌++◌, Bool, true, false, not, ◌||◌, ◌==◌, ltb, if◌then◌else◌, Option, none,
  some, List, [], unwrap_or, Bytes, codes, concat,
}
use aamio_rust.Base.Int.{pos}
use aamio_rust.Extern.Encodings.{Encodings}
use aamio_rust.Extern.Hashing.{Hashing}
use aamio_rust.Extern.Crypto.{Crypto}
use aamio_rust.Extern.Envelopes.{Envelopes}
use aamio_rust.Extern.Json.{Json}
use aamio_rust.Extern.Floats.{Floats}
use aamio_rust.Address.{is_w}
use aamio_rust.Codec.{is_key}
use aamio_rust.Keys.{Keys, sign, is_empty_text, board_signing_input, board_delete_signing_input}
use aamio_rust.Gate.Search.{solve_board}
use aamio_rust.Client.Answer.{Answer}
use aamio_rust.Client.Allow.{star}
use aamio_rust.Client.Fields.{str_field}
use aamio_rust.Client.World.{World, State, Outcome, failed, Action, pure, end_with, ◌>>=◌, or_fail}
use aamio_rust.Client.Calls.{Client, call}
use aamio_rust.Client.Threads.{Thread, open_thread}
use aamio_rust.Client.Presence.{strings, at_body, json_headers, key_of}
use aamio_rust.Client.Parcel.{SendOptions, Sent, work_headers}
use aamio_rust.Client.Send.{searched, send}
use aamio_rust.Board.Find.{Board, set_text, advised_bits}

abbrev pub board_ttl : ℕ
board_ttl = 1800

abbrev pub inbox_margin : ℕ
inbox_margin = 60

pub record PostOptions : Type 0 where
  pub ttl : Option ℕ
  pub lang : Option Bytes
  pub deadline : Option Bytes
  pub scope : Option Bytes

-- A scope that is given must be the address of one.
unfoldable pub is_bad_scope : Option Bytes → Bool
is_bad_scope none = false
is_bad_scope (some scope) = not (is_w scope)

-- The lifetime of the reply inbox, as the `u32` of a release build.
unfoldable pub inbox_ttl : ℕ → ℕ
inbox_ttl ttl = (ttl + inbox_margin) % 2 ^ 32

module _ ⦃j : Json⦄ where
  pub record Posted : Type 0 where
    pub answer : Answer
    pub inbox : Thread

  unfoldable pub post_fields : Bytes → Bytes → Bytes → List Bytes → Bytes → ℕ → PostOptions → j.Map
  post_fields kind title text tags w ttl o = set_text (codes "scope") o.scope (
      set_text (codes "deadline") o.deadline (
        set_text (codes "lang") o.lang (
          j.insert
            (j.insert
              (j.insert
                (j.insert
                  (j.insert (j.insert j.empty (codes "kind") (j.string kind)) (codes "title")
                    (j.string title))
                  (codes "text") (j.string text))
                (codes "tags") (strings tags))
              (codes "w") (j.string w))
            (codes "ttl") (j.number (pos ttl)))))

  unfoldable pub set_data : Option j.Value → j.Map → j.Map
  set_data none m = m
  set_data (some value) m = j.insert m (codes "data") value

  unfoldable pub answer_fields : Bytes → Bytes → Bytes → Option Bytes → Option j.Value → j.Map
  answer_fields id reply_to from text value = set_data value (
      set_text (codes "text") text (
        j.insert
          (j.insert (j.insert j.empty (codes "post") (j.string id)) (codes "reply_to")
            (j.string reply_to))
          (codes "from") (j.string from)))

  -- A text of a post, empty where it is missing.
  unfoldable pub text_of : j.Map → Bytes → Bytes
  text_of post name = unwrap_or (str_field post name) []

  unfoldable pub is_answerable : j.Map → Bool
  is_answerable post = not (
      is_empty_text (text_of post (codes "id"))
      || not (is_w (text_of post (codes "w")))
      || not (is_key (text_of post (codes "key"))))

module _ ⦃j : Json⦄ ⦃f : Floats⦄ ⦃e : Encodings⦄ ⦃h : Hashing⦄ ⦃c : Crypto⦄ ⦃world : World⦄
    (board : Board) where
  -- The nonce for the work that the board advises, where it advises any.
  unfoldable pub board_work : Bytes → Bytes → ℕ → Action (Option Bytes)
  board_work key bytes bits =
      if ltb 0 bits then searched (solve_board world.fuel key bytes bits) else pure none

  unfoldable pub post_into : Keys → Bytes → Thread → Action Posted
  post_into keys bytes inbox = do
    bits ← advised_bits board
    work ← board_work keys.public bytes bits
    answer ← call (codes "POST") (concat (board.host ∷ codes "/" ∷ [])) (some bytes) (
        json_headers keys.public (sign keys (board_signing_input keys.public bytes))
        ++ work_headers work)
    pure (record { answer = answer; inbox = inbox })

  -- The post itself, once its inbox was asked for.
  unfoldable pub post_opened :
      Keys → Bytes → Bytes → Bytes → List Bytes → ℕ → PostOptions → Thread → Action Posted
  post_opened keys kind title text tags ttl o inbox =
      if not (inbox.answer.status == 201)
      then pure (record { answer = inbox.answer; inbox = inbox })
      else post_into keys (j.to_string (j.object (post_fields kind title text tags inbox.w ttl o)))
          inbox

  unfoldable pub post : Bytes → Bytes → Bytes → List Bytes → PostOptions → Action Posted
  post kind title text tags o = do
    keys ← or_fail (key_of board.client) (codes "posting needs keys")
    if is_bad_scope o.scope
        then end_with (
            failed (
              codes
                "scope is the 20 character address of a scope, from scope_address, and never the key"))
        else open_thread board.client (inbox_ttl (unwrap_or o.ttl board_ttl)) (some (star ∷ []))
            none
          >>= post_opened keys kind title text tags (unwrap_or o.ttl board_ttl) o

  unfoldable pub reply_inbox : Option ℕ → Action Thread
  reply_inbox ttl =
      open_thread board.client (unwrap_or ttl (board_ttl + inbox_margin)) (some (star ∷ [])) none

  unfoldable pub withdraw : Bytes → Action Answer
  withdraw id = do
    keys ← or_fail (key_of board.client) (codes "withdrawing needs keys")
    body ← at_body
    call (codes "DELETE") (concat (board.host ∷ codes "/" ∷ id ∷ [])) (some body)
        (json_headers keys.public (sign keys (board_delete_signing_input id body)))

module _ ⦃j : Json⦄ ⦃f : Floats⦄ ⦃e : Encodings⦄ ⦃h : Hashing⦄ ⦃c : Crypto⦄ ⦃v : Envelopes⦄
    ⦃world : World⦄ (board : Board) where
  unfoldable pub answer : j.Map → Bytes → Option Bytes → Option j.Value → Action Sent
  answer post reply_to text value = do
    keys ← or_fail (key_of board.client) (codes "answering needs keys")
    if not (is_answerable post)
        then end_with (failed (codes "a post has id, w and key"))
        else send board.client (text_of post (codes "w"))
            (j.to_string (
              j.object
                (answer_fields (text_of post (codes "id")) reply_to keys.hash_prefix text value)))
            (record { unsigned = false; seal_to = some (text_of post (codes "key")); json = true })
