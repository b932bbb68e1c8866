-- ===== src/Client/Send.antt =====
-- src/client.rs: a write to an address, from the attempts at posting it to the whole of `send`.
pub mod Worked
pub mod Posts
pub mod Course
pub mod Ends
pub mod Delivered
pub mod Carried
pub mod Plain
use aamio_rust.Base.{
  ℕ, ◌-◌, Bool, false, not, ◌||◌, ◌==◌, ltb, if◌then◌else◌, Option, none, some, List, [], ◌∷◌, ◌++◌,
  length, Result, ok, err, unwrap_or, and_then, Bytes, codes, concat,
}
use aamio_rust.Base.Decimal.{decimal}
use aamio_rust.Extern.Encodings.{Encodings}
use aamio_rust.Extern.Hashing.{Hashing}
use aamio_rust.Extern.Crypto.{Crypto}
use aamio_rust.Extern.Envelopes.{Envelopes}
use aamio_rust.Extern.Json.{Json}
use aamio_rust.Extern.Floats.{Floats}
use aamio_rust.Address.{is_w}
use aamio_rust.Keys.{Keys, sign, thread_signing_input}
use aamio_rust.Keys
use aamio_rust.Gate.Plan.{Plan, plan_within}
use aamio_rust.Gate.Search.{Search, found, timed_out, solve_until}
use aamio_rust.Gate.Search
use aamio_rust.Client.Answer.{Answer}
use aamio_rust.Client.Answer
use aamio_rust.Client.World.{
  World, State, Outcome, done, failed, panicked, running, Action, pure, end_with, ◌>>=◌, ◌>>◌, gets,
  or_fail, or_panic, instant_now, fill_nonce,
}
use aamio_rust.Client.Calls.{Client, call}
use aamio_rust.Client.Gates.{is_some, forget_gate, keep_gate, note_left, seconds_left, plan_to}
use aamio_rust.Client.Parcel.{
  max_body, SendOptions, Sent, stop_answer, stopped_first, stopped_late, ran_out, Attempt, Parcel,
  work_headers, asked_bits, key_of_signer, signed_headers, post_headers,
}

module _ ⦃j : Json⦄ ⦃f : Floats⦄ where
  -- The end of a search for a nonce, as an action.
  unfoldable pub searched : Result Search → Action (Option Bytes)
  searched (err e) = end_with (failed e)
  searched (ok (found nonce)) = pure (some nonce)
  searched (ok timed_out) = pure none
  searched (ok Search.panicked) = end_with panicked
  searched (ok Search.running) = end_with running

module _ ⦃j : Json⦄ ⦃f : Floats⦄ ⦃world : World⦄ where
  -- When the work must stop: five seconds before the inbox closes.
  unfoldable pub deadline_in : Option f.F64 → Action (Option ℕ)
  deadline_in none = pure none
  deadline_in (some left) = do
    instant ← instant_now
    duration ← or_panic (f.from_secs_f64 (f.max (f.sub left (f.of_nat 5)) (f.of_nat 0)))
    deadline ← or_panic (world.instant_add instant duration)
    pure (some deadline)

module _ ⦃j : Json⦄ ⦃f : Floats⦄ ⦃e : Encodings⦄ ⦃h : Hashing⦄ ⦃c : Crypto⦄ ⦃world : World⦄
    (client : Client) where
  -- Whose key a write carries: none where it is not signed.
  unfoldable pub signer : SendOptions → Option Keys
  signer opts = if opts.unsigned then none else client.keys

  unfoldable pub post_url : Bytes → Bytes
  post_url w = concat (client.host ∷ codes "/" ∷ w ∷ [])

  unfoldable pub post : Option Keys → Bytes → Parcel → Option Bytes → Action Attempt
  post signing w parcel work = do
    answer ←
        call (codes "POST") (post_url w) (some parcel.bytes) (post_headers signing w parcel work)
    pure (answer, work, none)

  -- The nonce for so many bits, or none when the deadline passed.
  unfoldable pub solve_for : Option Keys → Bytes → Bytes → ℕ → Action (Option Bytes)
  solve_for signing w bytes bits = do
    left ← seconds_left w
    deadline ← deadline_in left
    clock ← gets (λ s. world.searching s.readings)
    searched (solve_until world.fuel w (key_of_signer signing) bytes bits deadline clock)

  unfoldable pub post_worked : Option Keys → Bytes → Parcel → ℕ → Option Bytes → Action Attempt
  post_worked signing w parcel bits none =
      pure (record { status = 0; body = none; text = [] }, none, some bits)
  post_worked signing w parcel bits (some nonce) = post signing w parcel (some nonce)

  unfoldable pub attempt_bits : Option Keys → Bytes → Parcel → Option ℕ → Action Attempt
  attempt_bits signing w parcel none = post signing w parcel none
  attempt_bits signing w parcel (some bits) = do
    nonce ← solve_for signing w parcel.bytes bits
    post_worked signing w parcel bits nonce

  -- The closure `attempt`.
  unfoldable pub attempt : Option Keys → Bytes → Parcel → Option ℕ → Action Attempt
  attempt signing w parcel bits = attempt_bits signing w parcel (asked_bits bits)

  -- The end of a send that had an answer.
  unfoldable pub finish : Bytes → Parcel → Answer → Option Bytes → List Bytes → Action Sent
  finish w parcel answer work notes =
      let sent : Sent = record {
        answer = answer;
        bytes = parcel.bytes;
        work = work;
        notes = notes;
        stopped = false;
      } in
      if answer.status == 404 || answer.status == 410 then forget_gate w >> pure sent else pure sent

  -- The second attempt, after a 428.
  unfoldable pub finish_again : Bytes → Parcel → List Bytes → List Bytes → Attempt → Action Sent
  finish_again w parcel notes more (answer, work, none) =
      finish w parcel answer work (notes ++ more)
  finish_again w parcel notes more (answer, work, some bits) =
      pure (stopped_late (ran_out bits) notes)

  -- What is done about the plan for the gate that a 428 brought.
  unfoldable pub retry_plan :
      Option Keys → Bytes → Parcel → Answer → Option Bytes → List Bytes → Plan → Action Sent
  retry_plan signing w parcel answer work notes again = elim again.stop [
    | some stop ↦ pure (stopped_late stop (notes ++ again.notes))
    | none ↦
        if ltb 0 (unwrap_or again.bits 0)
        then attempt signing w parcel again.bits >>= finish_again w parcel notes again.notes
        else finish w parcel answer work notes
  ]

  unfoldable pub retry :
      Option Keys → Bytes → Parcel → Answer → Option Bytes → List Bytes → j.Value → Action Sent
  retry signing w parcel answer work notes gate = do
    keep_gate w (some gate)
    note_left w (and_then (Answer.get answer (codes "seconds_left")) j.as_u64)
    left ← seconds_left w
    retry_plan signing w parcel answer work notes (plan_within world.rate (some gate) left)

  -- The gate in the body of a 428.
  unfoldable pub refused_gate : Answer → Option j.Value
  refused_gate answer = if answer.status == 428 then Answer.get answer (codes "gate") else none

  unfoldable pub answered :
      Option Keys → Bytes → Parcel → Answer → Option Bytes → List Bytes → Action Sent
  answered signing w parcel answer work notes = elim (refused_gate answer) [
    | none ↦ finish w parcel answer work notes
    | some gate ↦ retry signing w parcel answer work notes gate
  ]

  unfoldable pub attempted : Option Keys → Bytes → Parcel → List Bytes → Attempt → Action Sent
  attempted signing w parcel notes (answer, work, none) =
      answered signing w parcel answer work notes
  attempted signing w parcel notes (answer, work, some bits) =
      pure (stopped_late (ran_out bits) notes)

  unfoldable pub send_planned : Option Keys → Bytes → Parcel → Plan → Action Sent
  send_planned signing w parcel first = elim first.stop [
    | some stop ↦ pure (stopped_first stop parcel.bytes first.notes)
    | none ↦ attempt signing w parcel first.bits >>= attempted signing w parcel first.notes
  ]

  unfoldable pub send_parcel : SendOptions → Bytes → Parcel → Action Sent
  send_parcel opts w parcel =
      if ltb max_body (length parcel.bytes)
      then end_with
          (failed (codes "a message is at most 65536 bytes; send a URL and a hash instead"))
      else plan_to client w >>= send_planned (signer opts) w parcel

module _ ⦃j : Json⦄ ⦃f : Floats⦄ ⦃e : Encodings⦄ ⦃h : Hashing⦄ ⦃c : Crypto⦄ ⦃v : Envelopes⦄
    ⦃world : World⦄ (client : Client) where
  unfoldable pub sealed_to : Bytes → Bytes → Action Parcel
  sealed_to recipient body = do
    keys ← or_fail client.keys (codes "sealing needs keys")
    nonce ← fill_nonce
    bytes ← (elim (Keys.seal keys recipient body nonce) [
      | ok b ↦ pure b
      | err m ↦ end_with (failed m)
    ])
    pure (record { bytes = bytes; content_type = codes "application/json" })

  unfoldable pub parcel_of : Option Bytes → Bool → Bytes → Action Parcel
  parcel_of none json body = pure (record {
    bytes = body;
    content_type = if json then codes "application/json" else codes "text/plain; charset=utf-8";
  })
  parcel_of (some recipient) json body = sealed_to recipient body

  unfoldable pub send : Bytes → Bytes → SendOptions → Action Sent
  send w body opts =
      if not (is_w w)
      then end_with (failed (codes "not a write address"))
      else parcel_of opts.seal_to opts.json body >>= send_parcel client opts w
