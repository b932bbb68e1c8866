-- ===== src/Client/Parcel.antt =====
-- src/client.rs: what a write is made of: its options, what is posted, its headers, and how it ends.
use aamio_rust.Base.{
  ℕ, Bool, true, ltb, if◌then◌else◌, Option, none, some, List, [], ◌∷◌, ◌++◌, Bytes, codes, concat,
}
use aamio_rust.Base.Decimal.{decimal}
use aamio_rust.Extern.Encodings.{Encodings}
use aamio_rust.Extern.Hashing.{Hashing}
use aamio_rust.Extern.Crypto.{Crypto}
use aamio_rust.Extern.Json.{Json}
use aamio_rust.Keys.{Keys, sign, thread_signing_input}
use aamio_rust.Client.Answer.{Answer}

abbrev pub max_body : ℕ
max_body = 65536

pub record SendOptions : Type 0 where
  pub unsigned : Bool
  pub seal_to : Option Bytes
  pub json : Bool

module _ ⦃j : Json⦄ where
  pub record Sent : Type 0 where
    pub answer : Answer
    pub bytes : Bytes
    pub work : Option Bytes
    pub notes : List Bytes
    pub stopped : Bool

  -- The answer of a send that was stopped here.
  unfoldable pub stop_answer : Bytes → Bytes → Answer
  stop_answer error fix = record {
    status = 0;
    body =
        some (
          j.insert (j.insert j.empty (codes "error") (j.string error)) (codes "fix")
            (j.string fix));
    text = [];
  }

  unfoldable pub stopped_first : Bytes → Bytes → List Bytes → Sent
  stopped_first stop bytes notes = record {
    answer =
        stop_answer stop
          (codes "Open an address whose conditions this client can meet, or update the client.");
    bytes = bytes;
    work = none;
    notes = notes;
    stopped = true;
  }

  -- The closure `stopped`.
  unfoldable pub stopped_late : Bytes → List Bytes → Sent
  stopped_late error notes = record {
    answer = stop_answer error (
        codes
          "Ask the owner for a longer inbox or less work, or send from a machine with more compute.");
    bytes = [];
    work = none;
    notes = notes;
    stopped = true;
  }

-- The closure `ran_out`.
unfoldable pub ran_out : ℕ → Bytes
ran_out bits = concat (
    codes "the proof of work of "
    ∷ decimal bits
    ∷ codes
        " bits was not done before the inbox stops taking writes, so the work was stopped and nothing was sent. The work is a lottery, and this time it took longer than the estimate"
    ∷ [])

-- What an attempt gives: the answer, the nonce, and the bits whose work ran out of time.
abbrev pub Attempt : ⦃j : Json⦄ → Type 0
Attempt = Answer × Option Bytes × Option ℕ

-- A message ready to be written: its bytes and their content type.
pub record Parcel : Type 0 where
  pub bytes : Bytes
  pub content_type : Bytes

unfoldable pub work_headers : Option Bytes → List (Bytes × Bytes)
work_headers none = []
work_headers (some nonce) = (codes "X-Work", nonce) ∷ []

-- `bits.filter(|b| *b > 0)`
unfoldable pub asked_bits : Option ℕ → Option ℕ
asked_bits none = none
asked_bits (some bits) = if ltb 0 bits then some bits else none

module _ ⦃c : Crypto⦄ where
  unfoldable pub key_of_signer : Option Keys → Bytes
  key_of_signer none = []
  key_of_signer (some keys) = keys.public

module _ ⦃e : Encodings⦄ ⦃h : Hashing⦄ ⦃c : Crypto⦄ where
  unfoldable pub signed_headers : Option Keys → Bytes → Bytes → List (Bytes × Bytes)
  signed_headers none w bytes = []
  signed_headers (some keys) w bytes =
      (codes "X-Key", keys.public) ∷ (codes "X-Sig", sign keys (thread_signing_input w bytes)) ∷ []

  unfoldable pub post_headers : Option Keys → Bytes → Parcel → Option Bytes → List (Bytes × Bytes)
  post_headers signing w parcel work =
      (codes "Content-Type", parcel.content_type)
      ∷ (signed_headers signing w parcel.bytes ++ work_headers work)
