-- ===== src/Client/Allow.antt =====
-- src/client.rs: the allowlist of a thread, and what it keeps out of what is read.
pub mod Normal
pub mod Handed
use aamio_rust.Base.{
  ◌+◌, ◌*◌, Bool, false, not, ◌&&◌, ◌||◌, Option, none, some, List, [], ◌∷◌, ◌++◌, if◌then◌else◌,
  Bytes, codes, same, any,
}
use aamio_rust.Base.Int.{ℤ}
use aamio_rust.Base.Pieces.{split, trim}
use aamio_rust.Extern.Json.{Json}
use aamio_rust.Keys.{is_empty_text}
use aamio_rust.Client.Message.{Message}

-- `contains` of a list of texts.
unfoldable pub contains : List Bytes → Bytes → Bool
contains out key = any (same key) out

-- The rounds over the parts of an entry, and over the entries.
unfoldable pub push_part : List Bytes → Bytes → List Bytes
push_part out part =
    if not (is_empty_text (trim part)) && not (contains out (trim part))
    then out ++ trim part ∷ []
    else out

unfoldable pub push_parts : List Bytes → List Bytes → List Bytes
push_parts out [] = out
push_parts out (part ∷ parts) = push_parts (push_part out part) parts

unfoldable pub push_entries : List Bytes → List Bytes → List Bytes
push_entries out [] = out
push_entries out (entry ∷ entries) = push_entries (push_parts out (split b',' entry)) entries

abbrev pub star : Bytes
star = b'*' ∷ []

unfoldable pub normalize_allow : List Bytes → List Bytes
normalize_allow allow =
    if any (same star) (push_entries [] allow) then star ∷ [] else push_entries [] allow

pub record KeptOut : Type 0 where
  pub seq : ℤ
  pub why : Bytes
  pub unverified_because : Option Bytes

unfoldable pub keep_reason : Bool → Bytes
keep_reason any_signed =
    if any_signed
    then codes "this thread was opened for signed messages only, and this one did not verify here"
    else codes
        "this thread was opened for named keys, and this one was not signed by one of them, as checked here"

module _ ⦃j : Json⦄ (allow : List Bytes) (any_signed : Bool) where
  unfoldable pub is_allowed : Message → Bool
  is_allowed message =
      message.verified
      && (any_signed || elim message.from [ none ↦ false | some from ↦ contains allow from ])

  -- The loop over the messages: what is handed over, and what is kept out.
  unfoldable pub hand_over : List Message → List Message × List KeptOut
  unfolding is_allowed
  hand_over [] = ([], [])
  hand_over (message ∷ messages) =
      let rest = hand_over messages in
      if is_allowed message then (message ∷ rest.0, rest.1) else (
        rest.0,
        record {
          seq = message.seq;
          why = keep_reason any_signed;
          unverified_because = message.unverified_because;
        }
            ∷ rest.1,
      )

module _ ⦃j : Json⦄ where
  -- What `read_thread_limited` makes of the messages that `read_limited` returned, under the list
  -- that the thread was opened with.
  unfoldable pub filter_messages : List Bytes → List Message → List Message × List KeptOut
  filter_messages thread_allow messages = elim (normalize_allow thread_allow) [
    | [] ↦ (messages, [])
    | key ∷ keys ↦ hand_over (key ∷ keys) (any (same star) (key ∷ keys)) messages
  ]
