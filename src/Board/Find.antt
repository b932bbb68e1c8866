-- ===== src/Board/Find.antt =====
-- src/board.rs: the board's descriptor, and what is found on the board.
pub mod Inserted
pub mod Scoped
use aamio_rust.Base.{
  ℕ, ◌∷◌, ◌%◌, ◌^◌, not, ◌&&◌, ◌==◌, ltb, if◌then◌else◌, Option, none, some, List, [], ok, err,
  unwrap_or, and_then, Bytes, codes, concat,
}
use Prim.Native.Nat.{min}
use aamio_rust.Base.Int.{ℤ, pos}
use aamio_rust.Base.Ascii.{trim_end_matches}
use aamio_rust.Extern.Encodings.{Encodings}
use aamio_rust.Extern.Hashing.{Hashing}
use aamio_rust.Extern.Crypto.{Crypto}
use aamio_rust.Extern.Json.{Json}
use aamio_rust.Extern.Floats.{Floats}
use aamio_rust.Hosts.{default_board_host}
use aamio_rust.Address.{scope_address}
use aamio_rust.Gate.Work.{advise_max_bits}
use aamio_rust.Client.Answer.{Answer}
use aamio_rust.Client.Answer
use aamio_rust.Client.World.{
  World, State, Outcome, failed, Action, pure, end_with, ◌>>=◌, ◌>>◌, gets, modify,
}
use aamio_rust.Client.Calls.{Client, call}
use aamio_rust.Client.Check.{is_text}
use aamio_rust.Client.Threads.{next_of, listed}
use aamio_rust.Client.Presence.{strings}

-- A board: the client that it is over, and its host. What it keeps of its descriptor is in the state.
pub record Board ⦃c : Crypto⦄ : Type 0 where
  pub client : Client
  pub host : Bytes

pub record FindOptions : Type 0 where
  pub kind : Option Bytes
  pub tags : List Bytes
  pub lang : Option Bytes
  pub key : Option Bytes
  pub after : ℤ
  pub wait : ℕ
  pub min_work_bits : ℕ

module _ ⦃c : Crypto⦄ where
  unfoldable pub new : Client → Option Bytes → Board
  new client host = record {
    client = client;
    host = trim_end_matches b'/' (unwrap_or host default_board_host);
  }

module _ ⦃j : Json⦄ where
  -- A field that is set where there is a text for it.
  unfoldable pub set_text : Bytes → Option Bytes → j.Map → j.Map
  set_text name none m = m
  set_text name (some text) m = j.insert m name (j.string text)

  unfoldable pub set_tags : List Bytes → j.Map → j.Map
  set_tags [] m = m
  set_tags (tag ∷ tags) m = j.insert m (codes "tags") (strings (tag ∷ tags))

  -- A field that is set where the number is not zero.
  unfoldable pub set_number : Bytes → ℕ → ℕ → j.Map → j.Map
  set_number name asked n m = if ltb 0 asked then j.insert m name (j.number (pos n)) else m

  -- What `find_with` asks for.
  unfoldable pub find_fields : FindOptions → Option Bytes → j.Map
  find_fields o scope_key = set_number (codes "min_work_bits") o.min_work_bits o.min_work_bits (
      set_number (codes "wait") o.wait (min o.wait 25) (
        set_text (codes "key") o.key (
          set_text (codes "lang") o.lang (
            set_tags o.tags (
              set_text (codes "kind") o.kind (
                set_text (codes "scope_key") scope_key
                  (j.insert j.empty (codes "after") (j.number o.after))))))))

  -- The items of a list that are objects.
  unfoldable pub objects : List j.Value → List j.Map
  objects [] = []
  objects (item ∷ items) =
      let rest = objects items in elim (j.as_object item) [ none ↦ rest | some p ↦ p ∷ rest ]

  -- `answer.get("scope").and_then(Value::as_str)`
  unfoldable pub named_scope : Answer → Option Bytes
  named_scope answer = and_then (Answer.get answer (codes "scope")) j.as_str

  -- The bits that a descriptor advises, as a `u32`.
  unfoldable pub advised : j.Map → ℕ
  advised descriptor =
      min
        (unwrap_or
            (and_then
              (and_then (j.get descriptor (codes "work")) (λ work.
                and_then (j.as_object work) (λ fields. j.get fields (codes "advise_bits"))))
              j.as_u64)
            0
          % 2 ^ 32)
        advise_max_bits

module _ ⦃j : Json⦄ ⦃f : Floats⦄ ⦃c : Crypto⦄ ⦃world : World⦄ (board : Board) where
  -- The descriptor as the service gives it, which is kept.
  unfoldable pub read_descriptor : Action j.Map
  read_descriptor = do
    answer ←
        call (codes "GET") (concat (board.host ∷ codes "/.well-known/aamio-board.json" ∷ [])) none
          []
    let fields = if answer.status == 200 then unwrap_or answer.body j.empty else j.empty
    modify (λ s. record s { descriptor = some fields })
    pure fields

  unfoldable pub descriptor_from : Option j.Map → Action j.Map
  descriptor_from none = read_descriptor
  descriptor_from (some cached) = pure cached

  unfoldable pub descriptor : Action j.Map
  descriptor s = descriptor_from s.descriptor s

  unfoldable pub advised_bits : Action ℕ
  advised_bits = do fields ← descriptor; pure (advised fields)

  unfoldable pub find_with : FindOptions → Option Bytes → Action (Answer × List j.Map × ℤ)
  find_with o scope_key = do
    answer ←
        call (codes "POST") (concat (board.host ∷ codes "/find" ∷ []))
          (some (j.to_string (j.object (find_fields o scope_key))))
          ((codes "Content-Type", codes "application/json") ∷ [])
    pure (answer, objects (listed answer (codes "posts")), next_of answer o.after)

  unfoldable pub find : FindOptions → Action (Answer × List j.Map × ℤ)
  find o = find_with o none

  -- What is handed over of an answer about a scope.
  unfoldable pub in_scope : Bytes → Answer × List j.Map × ℤ → Action (Answer × List j.Map × ℤ)
  in_scope address (answer, posts, next) =
      if (answer.status == 200) && not (is_text (named_scope answer) address)
      then end_with (
          failed
            (codes "the board did not say it read that scope, so its answer is not that scope"))
      else pure (answer, posts, next)

  unfoldable pub get : Bytes → Action Answer
  get id = call (codes "GET") (concat (board.host ∷ codes "/" ∷ id ∷ [])) none []

  unfoldable pub tags : Action Answer
  tags = call (codes "GET") (concat (board.host ∷ codes "/tags" ∷ [])) none []

module _ ⦃j : Json⦄ ⦃f : Floats⦄ ⦃e : Encodings⦄ ⦃h : Hashing⦄ ⦃c : Crypto⦄ ⦃world : World⦄
    (board : Board) where
  unfoldable pub find_in_scope : Bytes → FindOptions → Action (Answer × List j.Map × ℤ)
  find_in_scope scope_key o = elim (scope_address scope_key) [
    | err m ↦ end_with (failed m)
    | ok address ↦ find_with board o (some scope_key) >>= in_scope board address
  ]
