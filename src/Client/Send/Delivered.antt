-- ===== src/Client/Send/Delivered.antt =====
-- What `send` of src/client.rs does, from its arguments to the answer that it hands over.
use aamio_rust.Base.{
  ◌≡◌, refl, sym, ap, ◌∙◌, ◌<◌, ◌≤◌, ◌^◌, ◌⊎◌, inl, inr, Bool, true, Option, none, some, Bytes,
  Option-cases, Bool-cases, ltb, tests, length, Result, ok, err,
}
use mathlib.Core.Path.{subst}
use aamio_rust.Extern.Encodings.{Encodings}
use aamio_rust.Extern.Hashing.{Hashing}
use aamio_rust.Extern.Crypto.{Crypto}
use aamio_rust.Extern.Envelopes.{Envelopes}
use aamio_rust.Extern.Json.{Json}
use aamio_rust.Extern.Floats.{Floats}
use aamio_rust.Address.{is_w}
use aamio_rust.Keys.{Keys}
use aamio_rust.Keys
use aamio_rust.Gate.Plan.{Plan}
use aamio_rust.Client.World.{
  World, State, Outcome, done, ◌>>=◌, NoValue, >>=-done, >>=-cases, fill_nonce,
}
use aamio_rust.Client.Calls.{Client}
use aamio_rust.Client.Gates.{plan_to}
use aamio_rust.Client.Gates.Planned.{plan_to-done}
use aamio_rust.Client.Parcel.{SendOptions, Sent, Parcel, max_body}
use aamio_rust.Client.Send.{signer, send_planned, send_parcel, sealed_to, parcel_of, send}
use aamio_rust.Client.Send.Course.{NoValue-Unsent, Held}
use aamio_rust.Client.Send.Ends.{Course, send_planned-Course}

module _ ⦃j : Json⦄ ⦃f : Floats⦄ ⦃e : Encodings⦄ ⦃h : Hashing⦄ ⦃c : Crypto⦄ ⦃v : Envelopes⦄
    ⦃world : World⦄ (client : Client) where
  -- What is posted: the body itself, or, where it is to be sealed, an envelope of it.
  abbrev pub Carries : Bytes → Option Bytes → Parcel → Type 0
  Carries body seal_to parcel =
      ((seal_to ≡ none) × (parcel.bytes ≡ body))
      ⊎ ((recipient : Bytes) × (keys : Keys) × (nonce : Bytes) × (seal_to ≡ some recipient)
          × (client.keys ≡ some keys)
          × (Keys.seal keys recipient body nonce ≡ ok parcel.bytes))

  -- The message was made ready, or it could not be; neither exchanges anything.
  abbrev pub Made : Bytes → Option Bytes → State → Outcome Parcel × State → Type 0
  Made body seal_to s r =
      (((parcel : Parcel) × (r.0 ≡ done parcel) × Carries body seal_to parcel) ⊎ NoValue r.0)
      × (r.1.gates ≡ s.gates)
      × (r.1.log ≡ s.log)

  sealed_with-Made :
      (body recipient : Bytes) (keys : Keys) (s : State) (b : Result Bytes)
      → client.keys ≡ some keys
      → Keys.seal keys recipient body (world.nonce s.fills) ≡ b
      → Made body (some recipient) s (sealed_to client recipient body s)
  unfolding sealed_to fill_nonce
  sealed_with-Made body recipient keys s (ok b) has_keys sealed =
      rw (has_keys, sealed)
        (inl (_, refl, inr (recipient, keys, world.nonce s.fills, refl, refl, sealed)), refl, refl)
  sealed_with-Made body recipient keys s (err m) has_keys sealed =
      rw (has_keys, sealed) (inr tt, refl, refl)

  parcel_of-Made :
      (body : Bytes) (seal_to : Option Bytes) (json : Bool) (s : State)
      → Made body seal_to s (parcel_of client seal_to json body s)
  unfolding parcel_of sealed_to
  parcel_of-Made body none json s = (inl (_, refl, inl (refl, refl)), refl, refl)
  parcel_of-Made body (some recipient) json s = elim (Option-cases client.keys) [
    | inl no_keys ↦ rw no_keys (inr tt, refl, refl)
    | inr (keys, has_keys) ↦ sealed_with-Made body recipient keys s _ has_keys refl
  ]

  -- A message that is ready was planned for, and the write took its course under that plan.
  abbrev pub Written : SendOptions → Bytes → Parcel → State → Outcome Sent × State → Type 0
  Written opts w parcel t r =
      (length parcel.bytes ≤ max_body)
      × (first : Plan) × ((plan_to client w t).0 ≡ done first)
      × Course client (signer client opts) w parcel first (plan_to client w t).1 r

  send_parcel-Written :
      (opts : SendOptions) (w : Bytes) (parcel : Parcel) (t : State)
      → world.fuel < 2 ^ 64
      → Held t (send_parcel client opts w parcel t)
        ⊎ Written opts w parcel t (send_parcel client opts w parcel t)
  unfolding send_parcel
  send_parcel-Written opts w parcel t small =
      elim (Bool-cases (ltb max_body (length parcel.bytes))) [
        | inl large ↦ rw large (inl (refl, tt))
        | inr fits ↦
            let (first, ends) = plan_to-done client w t in
            rw fits (
              inr (
                omega (tests, fits),
                first,
                ends,
                subst (Course client (signer client opts) w parcel first (plan_to client w t).1)
                    (sym (
                      >>=-done (plan_to client w)
                        (send_planned client (signer client opts) w parcel) t first ends))
                    (send_planned-Course client (signer client opts) w parcel first
                      (plan_to client w t).1 small),
              ))
      ]

  -- A message was made ready for a write address, nothing being exchanged, and then written.
  abbrev pub Delivered : Bytes → Bytes → SendOptions → State → Outcome Sent × State → Type 0
  Delivered w body opts s r =
      (is_w w ≡ true)
      × (parcel : Parcel) × (t : State) × Carries body opts.seal_to parcel
      × (t.gates ≡ s.gates)
      × (t.log ≡ s.log)
      × Written opts w parcel t r

  Held-here : (s t : State) (r : Outcome Sent × State) → t.log ≡ s.log → Held t r → Held s r
  Held-here s t r quiet (log, unsent) = (log ∙ quiet, unsent)

  made-Delivered :
      (w body : Bytes) (opts : SendOptions) (s : State)
      → is_w w ≡ true
      → world.fuel < 2 ^ 64
      → Held s ((parcel_of client opts.seal_to opts.json body >>= send_parcel client opts w) s)
        ⊎ Delivered w body opts s
            ((parcel_of client opts.seal_to opts.json body >>= send_parcel client opts w) s)
  made-Delivered w body opts s address small =
      let (made, gates, log) = parcel_of-Made body opts.seal_to opts.json s in
      let t = (parcel_of client opts.seal_to opts.json body s).1 in
      elim made [
        | inr none_there ↦
            elim (>>=-cases (parcel_of client opts.seal_to opts.json body)
              (send_parcel client opts w) s) [
                | inl (parcel, ends, steps) ↦ absurd (subst NoValue ends none_there)
                | inr (no_value, same_state) ↦
                    inl (ap (λ (u : State). u.log) same_state ∙ log, NoValue-Unsent _ no_value)
              ]
        | inl (parcel, ends, carries) ↦
            let steps =
              >>=-done (parcel_of client opts.seal_to opts.json body) (send_parcel client opts w) s
                parcel ends in
            elim (send_parcel-Written opts w parcel t small) [
              | inl held ↦ inl (
                  subst (Held s) (sym steps)
                    (Held-here s t (send_parcel client opts w parcel t) log held))
              | inr written ↦ inr (
                address,
                parcel,
                t,
                carries,
                gates,
                log,
                subst (Written opts w parcel t) (sym steps) written,
              )
            ]
      ]

  pub send-made :
      (w body : Bytes) (opts : SendOptions) (s : State)
      → is_w w ≡ true
      → send client w body opts s
        ≡ (parcel_of client opts.seal_to opts.json body >>= send_parcel client opts w) s
  unfolding send
  send-made w body opts s address = rw address refl

  -- A write either exchanges nothing and does not end with an answer, or it was made ready and
  -- planned. Then its parcel holds the body, or an envelope of it sealed to the recipient, in at most
  -- 65536 bytes, and there are two courses. Nothing is exchanged after the plan, and the write does not
  -- end with an answer. Or the plan does not stop it, and the parcel is posted, signed where it is to
  -- be, with a nonce that does the work that the plan asks for; the answer to that post is handed over,
  -- with the bytes that were posted, unless it is a 428 with a gate. In that case the gate is weighed
  -- with the time that is left: the seconds that the 428 gives, less what passes until it is weighed,
  -- and where it gives none the time that was kept with the plan, less what has passed since. Nothing
  -- more is exchanged and the write does not end with an answer, or the answer is handed over because
  -- the gate asks for no work, or the parcel is posted a second and last time with the work for that
  -- gate, and that answer is handed over. Where the answer handed over is 404 or 410, nothing is kept
  -- of the gate. The model follows less than 2^64 candidates of each search.
  pub send_lem :
      (w body : Bytes) (opts : SendOptions) (s : State)
      → world.fuel < 2 ^ 64
      → Held s (send client w body opts s) ⊎ Delivered w body opts s (send client w body opts s)
  unfolding send
  send_lem w body opts s small = elim (Bool-cases (is_w w)) [
    | inl address ↦
        subst (λ r. Held s r ⊎ Delivered w body opts s r) (sym (send-made w body opts s address))
          (made-Delivered w body opts s address small)
    | inr no_address ↦ rw no_address (inl (refl, tt))
  ]
