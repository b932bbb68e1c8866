-- ===== src/Tests/Send.antt =====
-- Writes of src/client.rs at concrete inputs.
use aamio_rust.Base.{
  ℕ, inl, ◌≡◌, refl, sym, ◌∙◌, ◌⊎◌, true, false, none, some, List, [], ◌∷◌, arith, ok, codes, same,
  any, All,
}
use aamio_rust.Base.Utf8.Valid.{utf8, encode_scalar}
use aamio_rust.Sample.Digest.{sample_encodings, sample_hashing}
use aamio_rust.Sample.Crypto.{sample_crypto, sample_envelopes}
use aamio_rust.Sample.Json.{sample_json, string, boolean, Fields, field, end, get}
use aamio_rust.Sample.Floats.{sample_floats}
use aamio_rust.Sample.World.{sample_world}
use aamio_rust.Codec.{sha256_hex}
use aamio_rust.Keys.{Keys, from_seed, sign, thread_signing_input}
use aamio_rust.Keys
use aamio_rust.Client.Fields.{str_field, bool_field}
use aamio_rust.Client.Check.{check_message}
use aamio_rust.Client.Message.{decode_at}
use aamio_rust.Client.World.{State, Request, Reply, done}
use aamio_rust.Client.Calls.{Client, new, new_state, request_of, answer_of}
use aamio_rust.Client.Gates.{plan_to, plan_now, gate, gate_from, seconds_left, left_at}
use aamio_rust.Client.Gates.Planned.{Planned, plan_to-Planned}
use aamio_rust.Client.Threads.{open_thread, Thread}
use aamio_rust.Client.Threads.Opened.{Opened, open_thread-Opened}
use aamio_rust.Client.Parcel.{SendOptions, Parcel, asked_bits}
use aamio_rust.Client.Send.{send}
use aamio_rust.Client.Send.Course.{Held}
use aamio_rust.Client.Send.Posts.{post_request}
use aamio_rust.Gate.Plan.{plan_within, default_plan}
use aamio_rust.Address.{is_w, is_w_byte}
use aamio_rust.Base.{all}
use aamio_rust.Base.Ascii.{is_ascii_lowercase}
use aamio_rust.Client.Send.{refused_gate, signer}
use aamio_rust.Client.Send.Posts.{answer_to}
use aamio_rust.Client.Send.Course.{SentBy}
use aamio_rust.Client.Send.Plain.{plain_parcel, exchange, send-SentBy}
use aamio_rust.Client.Send.Delivered.{Delivered, send_lem}
use aamio_rust.Client.Send.Carried.{
  Relays, signed-headers, check_message-post_request, decode_at-post_request,
}
use aamio_rust.Tests.Client.{address, open_to_all}
use aamio_rust.Base.Int.{pos}
use aamio_rust.Client.Message.{Message}
use aamio_rust.Client.Allow.{KeptOut, star}
use aamio_rust.Client.Allow.Handed.{Vouched}
use aamio_rust.Client.Threads.{next_of, listed, checked_items, read_thread_limited}
use aamio_rust.Client.Threads.Guarded.{read_request, read_answer, read_thread_limited-Vouched}
use aamio_rust.Tests.Keys.{alice, bob, some_nonce, hello, to_bob, alice_seals}

abbrev client : Client
client = new none (some (from_seed alice))

plan_to-Planned_example : Planned client address new_state (plan_to client address new_state)
plan_to-Planned_example = plan_to-Planned client address new_state

open_thread-Opened_example :
    (thread : Thread) × Opened client 60
      (some (codes "*" ∷ []))
      none
      thread
      new_state
      (open_thread client 60 (some (codes "*" ∷ [])) none new_state)
open_thread-Opened_example = open_thread-Opened client 60 (some (codes "*" ∷ [])) none new_state

abbrev sealed_for_bob : SendOptions
sealed_for_bob = record { unsigned = false; seal_to = some (from_seed bob).public; json = false }

send_lem_example :
    Held new_state (send client address hello sealed_for_bob new_state)
    ⊎ Delivered client address hello sealed_for_bob new_state
        (send client address hello sealed_for_bob new_state)
send_lem_example = send_lem client address hello sealed_for_bob new_state (omega arith)

-- The envelope of alice for bob, as it is posted, and as the service relays it.
abbrev parcel : Parcel
parcel = record { bytes = to_bob; content_type = codes "application/json" }

abbrev relayed : Fields
relayed = field (codes "body") (string to_bob) (
    field (codes "sha256") (string (sha256_hex to_bob)) (
      field (codes "from") (string (from_seed alice).public) (
        field (codes "sig") (string (sign (from_seed alice) (thread_signing_input address to_bob)))
          (field (codes "sealed") (boolean true) end))))

relayed_fields :
    (str_field relayed (codes "body") ≡ some to_bob)
    × (str_field relayed (codes "sha256") ≡ some (sha256_hex to_bob))
    × (str_field relayed (codes "from") ≡ some (from_seed alice).public)
    × (str_field relayed (codes "sig")
        ≡ some (sign (from_seed alice) (thread_signing_input address to_bob)))
    × (bool_field relayed (codes "sealed") ≡ true)
unfolding str_field bool_field get codes same
relayed_fields = (refl, refl, refl, refl, refl)

relayed-Relays : Relays (post_request client (some (from_seed alice)) address parcel none) relayed
unfolding post_request request_of
relayed-Relays =
    let fields = relayed_fields in
    let headers = signed-headers alice address parcel none (codes "application/json") in
    (fields.0, fields.1, fields.2 ∙ sym headers.0, fields.3 ∙ sym headers.1)

check_message-post_request_example :
    ((check_message address relayed).0 ≡ true) × ((check_message address relayed).1 ≡ none)
check_message-post_request_example =
    check_message-post_request client alice address parcel none relayed relayed-Relays

-- The text "hi".
abbrev greeting : List ℕ
greeting = 104 ∷ 105 ∷ []

alice_seals_for_bob :
    Keys.seal (from_seed alice) (from_seed bob).public (utf8 greeting) some_nonce ≡ ok to_bob
unfolding Keys.seal utf8 encode_scalar
alice_seals_for_bob = alice_seals

decode_at-post_request_example :
    ((decode_at false (some (from_seed bob)) address relayed).verified ≡ true)
    × ((decode_at false (some (from_seed bob)) address relayed).from
        ≡ some (from_seed alice).public)
    × ((decode_at false (some (from_seed bob)) address relayed).opened ≡ some (utf8 greeting))
    × ((decode_at false (some (from_seed bob)) address relayed).format ≡ codes "sealed")
    × ((decode_at false (some (from_seed bob)) address relayed).unverified_because ≡ none)
decode_at-post_request_example =
    decode_at-post_request client alice bob address greeting some_nonce parcel none relayed
      (inl (omega arith), (inl (omega arith), tt)) (omega arith) refl alice_seals_for_bob
      relayed-Relays relayed_fields.4

-- A thread that was opened for signed messages of anybody.
abbrev thread : Thread
thread = record {
  id = codes "abcdefghijklmnopqrstuvwxyz";
  w = address;
  allow = star ∷ [];
  answer = record { status = 201; body = none; text = [] };
}

read_thread_limited-Vouched_example :
    (messages : List Message) × (kept : List KeptOut) × ((read_thread_limited client thread
        (pos 4)
        30
        (some 5)
        none
        new_state).0
      ≡ done (
        read_answer client thread (pos 4) 30 (some 5) none new_state,
        messages,
        kept,
        next_of (read_answer client thread (pos 4) 30 (some 5) none new_state) (pos 4),
      ))
    × ((read_thread_limited client thread (pos 4) 30 (some 5) none new_state).1.log
        ≡ (
          read_request client thread (pos 4) 30 (some 5) none,
          sample_world.reply new_state.log (read_request client thread (pos 4) 30 (some 5) none),
        )
          ∷ new_state.log)
    × All
        (Vouched client.keys address (star ∷ []) (any (same star) (star ∷ [])) (
          checked_items client (
            listed
              (read_answer client thread (pos 4) 30 (some 5) none new_state)
              (codes "messages"))))
        messages
read_thread_limited-Vouched_example =
    read_thread_limited-Vouched client thread (pos 4) 30 (some 5) none new_state star [] open_to_all

-- A state in which the address is known to have no gate.
abbrev known : State
known = record {
  gates = λ w. some none;
  gate_left = λ w. none;
  log = [];
  readings = 0;
  fills = 0;
  descriptor = none;
}

planned : (plan_to client address known).0 ≡ done (plan_within sample_world.rate none none)
unfolding plan_to plan_now gate gate_from seconds_left left_at plan_within default_plan
planned = refl

free_to_go :
    ((plan_within sample_world.rate none none).stop ≡ none)
    × (asked_bits (plan_within sample_world.rate none none).bits ≡ none)
unfolding plan_within default_plan asked_bits
free_to_go = (refl, refl)

abbrev unsigned_text : SendOptions
unsigned_text = record { unsigned = true; seal_to = none; json = false }

abbrev hello_sent : Request × Reply
hello_sent =
    exchange client (signer client unsigned_text) address (plain_parcel hello false)
      (plan_to client address known).1

no_gate : refused_gate client (answer_to hello_sent) ≡ none
unfolding refused_gate answer_to exchange answer_of
no_gate = refl

is_address : is_w address ≡ true
unfolding is_w all is_w_byte is_ascii_lowercase codes address
is_address = refl

send-SentBy_example :
    SentBy address
      (plain_parcel hello false)
      hello_sent
      none
      (send client address hello unsigned_text known)
    × ((send client address hello unsigned_text known).1.log
        ≡ hello_sent ∷ (plan_to client address known).1.log)
send-SentBy_example =
    send-SentBy client address hello true false (plan_within sample_world.rate none none) known
      is_address (omega arith) planned free_to_go.0 free_to_go.1 no_gate
