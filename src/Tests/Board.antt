-- ===== src/Tests/Board.antt =====
-- src/board.rs at concrete inputs.
use aamio_rust.Base.{arith, ◌≡◌, refl, ◌⊎◌, true, none, some, [], ◌∷◌, map, Bytes, codes}
use aamio_rust.Base.Int.{pos}
use aamio_rust.Sample.Digest.{sample_encodings, sample_hashing}
use aamio_rust.Sample.Crypto.{sample_crypto, sample_envelopes}
use aamio_rust.Sample.Json.{sample_json, string, field, end}
use aamio_rust.Sample.Floats.{sample_floats}
use aamio_rust.Sample.World.{sample_world}
use aamio_rust.Keys.{Keys, from_seed}
use aamio_rust.Client.World.{NoValue}
use aamio_rust.Client.Calls.{new_state}
use aamio_rust.Client.Calls
use aamio_rust.Client.Message.{Message}
use aamio_rust.Client.Presence.{key_of}
use aamio_rust.Board.Find.{Board, FindOptions, find_in_scope}
use aamio_rust.Board.Find
use aamio_rust.Board.Find.Scoped.{Scoped, find_in_scope-Scoped}
use aamio_rust.Board.Replies.{decode_replies}
use aamio_rust.Board.Replies.Named.{reading, decode_replies-reading}
use aamio_rust.Board.Posts.{PostOptions, post, inbox_ttl}
use aamio_rust.Board.Posts.Placed.{Placed, WrongScope, GoodScope, post-Placed}
use aamio_rust.Client.Presence.{presence_publish, presence_delete}
use aamio_rust.Board.Posts.{withdraw}
use aamio_rust.Board.Posts.Vouched.{Publishes, Retracts, TakesOff, signed_calls_lem}
use aamio_rust.Tests.Keys.{alice}

abbrev board : Board
board = Find.new (Calls.new none (some (from_seed alice))) none

abbrev scope_key : Bytes
scope_key = codes "abcdefghijklmnopqrstuvwxyz"

abbrev everything : FindOptions
everything = record {
  kind = none;
  tags = [];
  lang = none;
  key = none;
  after = pos 0;
  wait = 0;
  min_work_bits = 0;
}

find_in_scope-Scoped_example :
    Scoped board everything scope_key new_state (find_in_scope board scope_key everything new_state)
find_in_scope-Scoped_example = find_in_scope-Scoped board everything scope_key new_state

abbrev plain_post : PostOptions
plain_post = record { ttl = none; lang = none; deadline = none; scope = none }

post-Placed_example :
    (((key_of board.client ≡ none) ⊎ WrongScope plain_post.scope)
      × NoValue (post board (codes "need") [] [] [] plain_post new_state).0
      × ((post board (codes "need") [] [] [] plain_post new_state).1.log ≡ new_state.log))
    ⊎ ((keys : Keys) × (key_of board.client ≡ some keys)
        × GoodScope plain_post.scope
        × Placed board
            (codes "need")
            []
            []
            []
            plain_post
            keys
            new_state
            (post board (codes "need") [] [] [] plain_post new_state))
post-Placed_example = post-Placed board (codes "need") [] [] [] plain_post new_state (omega arith)

-- An answer that names the post and the reply address by aliases.
abbrev an_answer : Message
an_answer = record {
  seq = pos 1;
  at = pos 2;
  from = none;
  verified = true;
  sealed = true;
  body = [];
  opened = none;
  format = codes "sealed";
  error = none;
  json =
      some (field (codes "post_id") (string scope_key) (field (codes "replyTo") (string []) end));
  unverified_because = none;
}

decode_replies-reading_example : decode_replies (an_answer ∷ []) ≡ map reading (an_answer ∷ [])
decode_replies-reading_example = decode_replies-reading (an_answer ∷ [])

-- A lifetime close to the largest one leaves an inbox that lives shorter than the post.
short_inbox : inbox_ttl 4294967295 ≡ 59
unfolding inbox_ttl
short_inbox = refl

signed_calls_lem_example :
    Publishes board.client alice scope_key [] 60 new_state
      (presence_publish board.client scope_key [] 60 new_state)
    × Retracts board.client alice new_state (presence_delete board.client new_state)
    × TakesOff board alice (codes "post-7") new_state (withdraw board (codes "post-7") new_state)
unfolding Find.new Calls.new
signed_calls_lem_example =
    signed_calls_lem board alice scope_key (codes "post-7") [] 60 new_state refl
