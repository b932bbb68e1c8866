-- ===== src/Client/Send/Plain.antt =====
-- A write of src/client.rs to an address that asks for no work.
use aamio_rust.Base.{
  ℕ, ◌≡◌, sym, ap, ◌∙◌, ◌≤◌, Bool, true, false, Option, none, ◌∷◌, arith, Bytes, ltb, length, codes,
  if◌then◌else◌,
}
use mathlib.Core.Path.{subst}
use aamio_rust.Extern.Encodings.{Encodings}
use aamio_rust.Extern.Hashing.{Hashing}
use aamio_rust.Extern.Crypto.{Crypto}
use aamio_rust.Extern.Envelopes.{Envelopes}
use aamio_rust.Extern.Json.{Json}
use aamio_rust.Extern.Floats.{Floats}
use aamio_rust.Address.{is_w}
use aamio_rust.Keys.{Keys}
use aamio_rust.Gate.Plan.{Plan}
use aamio_rust.Client.World.{Request, Reply, World, State, done, failed, end_with, ◌>>=◌, >>=-done}
use aamio_rust.Client.Calls.{Client, call, call_reading}
use aamio_rust.Client.Gates.{plan_to}
use aamio_rust.Client.Parcel.{SendOptions, Parcel, asked_bits, max_body}
use aamio_rust.Client.Send.{
  signer, attempt, attempt_bits, post, attempted, send_planned, send_parcel, refused_gate, finish,
  parcel_of, send,
}
use aamio_rust.Client.Send.Posts.{answer_to, post_request}
use aamio_rust.Client.Send.Course.{SentBy, finish-SentBy}
use aamio_rust.Client.Send.Ends.{send_planned-attempt, answered-finish}
use aamio_rust.Client.Send.Delivered.{send-made}

-- A body that is not to be sealed, ready to be posted.
unfoldable pub plain_parcel : Bytes → Bool → Parcel
plain_parcel body json = record {
  bytes = body;
  content_type = if json then codes "application/json" else codes "text/plain; charset=utf-8";
}

module _ ⦃j : Json⦄ ⦃f : Floats⦄ ⦃e : Encodings⦄ ⦃h : Hashing⦄ ⦃c : Crypto⦄ ⦃world : World⦄
    (client : Client) where
  -- The post of a parcel without work, in a state, and its answer.
  unfoldable pub exchange : Option Keys → Bytes → Parcel → State → Request × Reply
  exchange signing w parcel s =
      let request = post_request client signing w parcel none in
      (request, world.reply s.log request)

  -- The state after it.
  exchanged : Option Keys → Bytes → Parcel → State → State
  exchanged signing w parcel s = record s { log = exchange signing w parcel s ∷ s.log }

  attempt-exchange :
      (signing : Option Keys) (w : Bytes) (parcel : Parcel) (bits : Option ℕ) (s : State)
      → asked_bits bits ≡ none
      → attempt client signing w parcel bits s
        ≡ (done (answer_to (exchange signing w parcel s), none, none), exchanged signing w parcel s)
  unfolding attempt attempt_bits post call call_reading answer_to exchange exchanged post_request
  attempt-exchange signing w parcel bits s no_work = ground (arith, no_work)

  send_planned-exchange :
      (signing : Option Keys) (w : Bytes) (parcel : Parcel) (first : Plan) (s : State)
      → first.stop ≡ none
      → asked_bits first.bits ≡ none
      → refused_gate client (answer_to (exchange signing w parcel s)) ≡ none
      → send_planned client signing w parcel first s
        ≡ finish client w parcel
            (answer_to (exchange signing w parcel s))
            none
            first.notes
            (exchanged signing w parcel s)
  unfolding attempted
  send_planned-exchange signing w parcel first s goes_on no_work no_gate =
      let x = exchange signing w parcel s in
      let tried = attempt-exchange signing w parcel first.bits s no_work in
      send_planned-attempt client signing w parcel first s goes_on
      ∙ >>=-done (attempt client signing w parcel first.bits)
          (attempted client signing w parcel first.notes) s (answer_to x, none, none)
          (ap (λ r. r.0) tried)
      ∙ ap (λ r. attempted client signing w parcel first.notes (answer_to x, none, none) r.1) tried
      ∙ answered-finish client signing w parcel (answer_to x) none first.notes
          (exchanged signing w parcel s) no_gate

  send_parcel-planned :
      (opts : SendOptions) (w : Bytes) (parcel : Parcel) (first : Plan) (s : State)
      → length parcel.bytes ≤ max_body
      → (plan_to client w s).0 ≡ done first
      → send_parcel client opts w parcel s
        ≡ send_planned client (signer client opts) w parcel first (plan_to client w s).1
  unfolding send_parcel
  send_parcel-planned opts w parcel first s fits planned =
      let small : ltb max_body (length parcel.bytes) ≡ false = ground (arith, fits) in
      ap
        (λ b.
          (if b
              then end_with
                  (failed (codes "a message is at most 65536 bytes; send a URL and a hash instead"))
              else plan_to client w >>= send_planned client (signer client opts) w parcel)
            s)
        small
      ∙ >>=-done (plan_to client w) (send_planned client (signer client opts) w parcel) s first
          planned

module _ ⦃j : Json⦄ ⦃f : Floats⦄ ⦃e : Encodings⦄ ⦃h : Hashing⦄ ⦃c : Crypto⦄ ⦃v : Envelopes⦄
    ⦃world : World⦄ (client : Client) where
  -- A body of at most 65536 bytes, not to be sealed, for a write address whose plan does not stop and
  -- asks for no work, is posted, once, as it is; and where the answer is not a 428 with a gate, the
  -- write ends with that answer and nothing more is exchanged.
  pub send-SentBy :
      (w body : Bytes) (unsigned json : Bool) (first : Plan) (s : State)
      → is_w w ≡ true
      → length body ≤ max_body
      → (plan_to client w s).0 ≡ done first
      → first.stop ≡ none
      → asked_bits first.bits ≡ none
      → refused_gate client (
          answer_to (
            exchange client
              (signer client (record { unsigned = unsigned; seal_to = none; json = json }))
              w
              (plain_parcel body json)
              (plan_to client w s).1))
        ≡ none
      → SentBy w
          (plain_parcel body json)
          (exchange client
            (signer client (record { unsigned = unsigned; seal_to = none; json = json }))
            w
            (plain_parcel body json)
            (plan_to client w s).1)
          none
          (send client w body (record { unsigned = unsigned; seal_to = none; json = json }) s)
        × ((send client w body
              (record { unsigned = unsigned; seal_to = none; json = json })
              s).1.log
            ≡ exchange client
                (signer client (record { unsigned = unsigned; seal_to = none; json = json }))
                w
                (plain_parcel body json)
                (plan_to client w s).1
              ∷ (plan_to client w s).1.log)
  unfolding parcel_of plain_parcel exchanged
  send-SentBy w body unsigned json first s address fits planned goes_on no_work no_gate =
      let opts : SendOptions = record { unsigned = unsigned; seal_to = none; json = json } in
      let parcel = plain_parcel body json in
      let t = (plan_to client w s).1 in
      let x = exchange client (signer client opts) w parcel t in
      let steps =
        send-made client w body opts s address
        ∙ send_parcel-planned client opts w parcel first s fits planned
        ∙ send_planned-exchange client (signer client opts) w parcel first t goes_on no_work
            no_gate in
      subst (λ r. SentBy w parcel x none r × (r.1.log ≡ x ∷ t.log)) (sym steps)
        (finish-SentBy client (signer client opts) w parcel x none first.notes
          (exchanged client (signer client opts) w parcel t))
