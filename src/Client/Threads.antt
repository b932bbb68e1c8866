-- ===== src/Client/Threads.antt =====
-- src/client.rs: opening a thread, reading it, its receipt and its end.
pub mod Opened
pub mod Guarded
use aamio_rust.Base.{
  ℕ, ◌∷◌, ◌++◌, Bool, not, ◌||◌, ◌==◌, ltb, if◌then◌else◌, Option, none, some, List, [], map, ok,
  err, unwrap_or, and_then, map_option, Bytes, codes, concat,
}
use Prim.Native.Nat.{min}
use aamio_rust.Base.Int.{ℤ, pos, leb_ℤ}
use aamio_rust.Base.Decimal.{decimal, decimal_ℤ}
use aamio_rust.Extern.Encodings.{Encodings}
use aamio_rust.Extern.Hashing.{Hashing}
use aamio_rust.Extern.Crypto.{Crypto}
use aamio_rust.Extern.Envelopes.{Envelopes}
use aamio_rust.Extern.Json.{Json}
use aamio_rust.Extern.Floats.{Floats}
use aamio_rust.Address.{new_id, w}
use aamio_rust.Receipt.{Receipt, Check, verify_receipt}
use aamio_rust.Client.Answer.{Answer}
use aamio_rust.Client.Answer
use aamio_rust.Client.Message.{Message, raw_of, decode_all}
use aamio_rust.Client.Allow.{KeptOut, normalize_allow, filter_messages}
use aamio_rust.Client.World.{
  World, State, Outcome, failed, Action, pure, end_with, ◌>>=◌, or_panic, draw_id,
}
use aamio_rust.Client.Calls.{Client, call}

-- `join` of a list of texts.
unfoldable pub join : Bytes → List Bytes → Bytes
join comma [] = []
join comma (x ∷ []) = x
join comma (x ∷ y ∷ xs) = x ++ (comma ++ join comma (y ∷ xs))

-- The part of a path behind the address: the cursor, and the wait.
unfoldable pub after_path : ℤ → ℕ → Bytes
after_path after wait =
    if not (leb_ℤ after (pos 0)) || ltb 0 wait then codes "/after/" ++ decimal_ℤ after else []

unfoldable pub wait_path : ℕ → Bytes
wait_path wait = if ltb 0 wait then codes "/wait/" ++ decimal (min wait 25) else []

unfoldable pub number_header : Bytes → Option ℕ → List (Bytes × Bytes)
number_header name none = []
number_header name (some n) = (name, decimal n) ∷ []

unfoldable pub read_headers : Bytes → Option ℕ → Option ℕ → List (Bytes × Bytes)
read_headers id limit max_bytes =
    (codes "X-Read", id)
    ∷ (number_header (codes "X-Limit") limit ++ number_header (codes "X-Max-Bytes") max_bytes)

unfoldable pub open_headers : Bytes → ℕ → List Bytes → List (Bytes × Bytes)
open_headers id ttl allow =
    (codes "X-Read", id)
    ∷ (codes "X-TTL", decimal ttl)
    ∷ (codes "Content-Type", codes "application/json")
    ∷ (elim allow [ [] ↦ [] | key ∷ keys ↦ (codes "X-Allow", join (codes ",") (key ∷ keys)) ∷ [] ])

module _ ⦃j : Json⦄ where
  pub record Thread : Type 0 where
    pub id : Bytes
    pub w : Bytes
    pub allow : List Bytes
    pub answer : Answer

  -- `json!({ "gate": g })`, written.
  unfoldable pub gate_body : j.Value → Bytes
  gate_body gate = j.to_string (j.object (j.insert j.empty (codes "gate") gate))

  -- The cursor after an answer: the one that the service names, or the one that was asked from.
  unfoldable pub next_of : Answer → ℤ → ℤ
  next_of answer after =
      if answer.status == 200
      then unwrap_or (and_then (Answer.get answer (codes "next")) j.as_i64) after
      else after

  -- The elements of a list in an answer of status 200.
  unfoldable pub listed : Answer → Bytes → List j.Value
  listed answer field =
      if answer.status == 200
      then unwrap_or (and_then (Answer.get answer field) j.as_array) []
      else []

module _ ⦃j : Json⦄ ⦃f : Floats⦄ ⦃e : Encodings⦄ ⦃h : Hashing⦄ ⦃c : Crypto⦄ ⦃v : Envelopes⦄
    ⦃world : World⦄ (client : Client) where
  -- The items of `messages`, each with whether its check panics.
  unfoldable pub checked_items : List j.Value → List (Bool × j.Value)
  checked_items items = map (λ item. (world.check_panics (raw_of item), item)) items

  unfoldable pub read_limited :
      Bytes → Bytes → ℤ → ℕ → Option ℕ → Option ℕ → Action (Answer × List Message × ℤ)
  read_limited w id after wait limit max_bytes = do
    answer ←
        call (codes "GET")
          (concat (client.host ∷ codes "/" ∷ w ∷ after_path after wait ∷ wait_path wait ∷ [])) none
          (read_headers id limit max_bytes)
    pure (
      answer,
      decode_all client.keys w (checked_items (listed answer (codes "messages"))),
      next_of answer after,
    )

  unfoldable pub read : Bytes → Bytes → ℤ → ℕ → Action (Answer × List Message × ℤ)
  read w id after wait = read_limited w id after wait none none

  unfoldable pub read_thread_limited :
      Thread → ℤ → ℕ → Option ℕ → Option ℕ → Action (Answer × List Message × List KeptOut × ℤ)
  read_thread_limited thread after wait limit max_bytes = do
    read ← read_limited thread.w thread.id after wait limit max_bytes
    let split = filter_messages thread.allow read.1
    pure (read.0, split.0, split.1, read.2)

  unfoldable pub read_thread : Thread → ℤ → ℕ → Action (Answer × List Message × List KeptOut × ℤ)
  read_thread thread after wait = read_thread_limited thread after wait none none

module _ ⦃j : Json⦄ ⦃f : Floats⦄ ⦃e : Encodings⦄ ⦃h : Hashing⦄ ⦃c : Crypto⦄ ⦃world : World⦄
    (client : Client) where
  unfoldable pub open_at : Bytes → Bytes → ℕ → List Bytes → Option j.Value → Action Thread
  open_at id w ttl allow gate = do
    answer ←
        call (codes "PUT") (concat (client.host ∷ codes "/" ∷ w ∷ [])) (map_option gate_body gate)
          (open_headers id ttl allow)
    pure (record { id = id; w = w; allow = allow; answer = answer })

  unfoldable pub open_thread : ℕ → Option (List Bytes) → Option j.Value → Action Thread
  open_thread ttl allow gate = do
    draws ← draw_id
    id ← or_panic (new_id draws)
    elim (w id) [
      | err m ↦ end_with (failed m)
      | ok address ↦ open_at id address ttl (normalize_allow (unwrap_or allow [])) gate
    ]

  -- What is made of the answer to a request for a receipt.
  unfoldable pub receipt_in : Answer → Answer × Option Receipt × Option Check
  receipt_in answer =
      if not (answer.status == 200)
      then (answer, none, none)
      else elim (world.receipt_from_str answer.text) [
        | none ↦ (answer, none, none)
        | some receipt ↦ (answer, some receipt, some (verify_receipt receipt none))
      ]

  unfoldable pub receipt : Bytes → Bytes → Action (Answer × Option Receipt × Option Check)
  receipt w id = do
    answer ←
        call (codes "GET") (concat (client.host ∷ codes "/" ∷ w ∷ codes "/receipt" ∷ [])) none
          ((codes "X-Read", id) ∷ [])
    pure (receipt_in answer)

  unfoldable pub close : Bytes → Bytes → Action Answer
  close w id =
      call (codes "DELETE") (concat (client.host ∷ codes "/" ∷ w ∷ [])) none
        ((codes "X-Read", id) ∷ [])
