-- ===== src/Client/Calls.antt =====
-- src/client.rs: one HTTP call, decoded.
use aamio_rust.Base.{
  not, Option, none, List, [], ◌∷◌, if◌then◌else◌, unwrap_or, and_then, Bytes, codes,
}
use aamio_rust.Base.Ascii.{trim_end_matches}
use aamio_rust.Extern.Json.{Json}
use aamio_rust.Extern.Floats.{Floats}
use aamio_rust.Keys.{Keys, is_empty_text}
use aamio_rust.Extern.Crypto.{Crypto}
use aamio_rust.Client.Answer.{Answer, no_answer}
use aamio_rust.Client.World.{
  Request, Reply, response, transport, World, State, Action, pure, done, ◌>>=◌,
}
use aamio_rust.Hosts.{default_host}

-- The fields of a client that no call changes.
pub record Client ⦃c : Crypto⦄ : Type 0 where
  pub host : Bytes
  pub keys : Option Keys

module _ ⦃c : Crypto⦄ where
  -- What `new` makes of its arguments; the caches of a new client are empty.
  unfoldable pub new : Option Bytes → Option Keys → Client
  new host keys = record { host = trim_end_matches b'/' (unwrap_or host default_host); keys = keys }

module _ ⦃j : Json⦄ ⦃f : Floats⦄ where
  unfoldable pub new_state : State
  new_state = record {
    gates = λ w. none;
    gate_left = λ w. none;
    log = [];
    readings = 0;
    fills = 0;
    descriptor = none;
  }

-- The loop over the headers, which passes over those without a value.
unfoldable pub set_headers : List (Bytes × Bytes) → List (Bytes × Bytes)
set_headers [] = []
set_headers ((name, value) ∷ headers) =
    let rest = set_headers headers in
    if not (is_empty_text value) then (name, value) ∷ rest else rest

unfoldable pub request_of : Bytes → Bytes → Option Bytes → List (Bytes × Bytes) → Request
request_of method url body headers = record {
  method = method;
  url = url;
  body = body;
  headers = (codes "Accept", codes "application/json") ∷ set_headers headers;
}

module _ ⦃j : Json⦄ where
  -- What is made of a response or of none, and of the header that is wanted.
  unfoldable pub answer_of : Bytes → Reply → Answer × Option Bytes
  answer_of wanted (transport reason) = (no_answer reason, none)
  answer_of wanted (response status header text) = (
    record {
      status = status;
      body = and_then (j.from_str (unwrap_or text [])) j.as_object;
      text = unwrap_or text [];
    },
    (if is_empty_text wanted then none else header wanted),
  )

module _ ⦃j : Json⦄ ⦃f : Floats⦄ ⦃world : World⦄ where
  unfoldable pub call_reading :
      Bytes → Bytes → Option Bytes → List (Bytes × Bytes) → Bytes → Action (Answer × Option Bytes)
  call_reading method url body headers wanted s =
      let request = request_of method url body headers in
      let reply = world.reply s.log request in
      (done (answer_of wanted reply), record s { log = (request, reply) ∷ s.log })

  unfoldable pub call : Bytes → Bytes → Option Bytes → List (Bytes × Bytes) → Action Answer
  call method url body headers = do
    answered ← call_reading method url body headers []
    pure (answered.0)
