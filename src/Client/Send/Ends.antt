-- ===== src/Client/Send/Ends.antt =====
-- How a write in src/client.rs ends, from the plan to the answer that is handed over.
use aamio_rust.Base.{
  ℕ, ap, ◌≡◌, refl, sym, ◌∙◌, ◌<◌, ◌^◌, ◌⊎◌, inl, inr, true, false, Option, none, some, List, ◌∷◌,
  ◌++◌, arith, Bytes, codes, Option-cases, Bool-cases, ltb, unwrap_or, and_then,
}
use mathlib.Core.Path.{subst}
use aamio_rust.Extern.Encodings.{Encodings}
use aamio_rust.Extern.Hashing.{Hashing}
use aamio_rust.Extern.Crypto.{Crypto}
use aamio_rust.Extern.Json.{Json}
use aamio_rust.Extern.Floats.{Floats}
use aamio_rust.Keys.{Keys}
use aamio_rust.Gate.Plan.{Plan, plan_within}
use aamio_rust.Client.Answer.{Answer}
use aamio_rust.Client.Answer
use aamio_rust.Client.World.{Request, Reply, World, State, Outcome, done, Action, ◌>>=◌, >>=-done}
use aamio_rust.Client.Calls.{Client}
use aamio_rust.Client.Gates.{keep_gate, note_left, seconds_left}
use aamio_rust.Client.Gates.Kept.{time_left, left_in_state, seconds_left-Counted, note_left_lem}
use aamio_rust.Client.Parcel.{Sent, Parcel, stopped_late, stopped_first}
use aamio_rust.Client.Send.{
  attempt, finish, finish_again, retry_plan, retry, refused_gate, answered, attempted, send_planned,
}
use aamio_rust.Client.Send.Posts.{answer_to, IsPost}
use aamio_rust.Client.Send.Course.{
  Held, SentBy, finish-SentBy, PostedOnce, again-Posted, attempt-then, attempted-Held,
}

module _ ⦃j : Json⦄ ⦃f : Floats⦄ ⦃e : Encodings⦄ ⦃h : Hashing⦄ ⦃c : Crypto⦄ ⦃world : World⦄
    (client : Client) (signing : Option Keys) (w : Bytes) (parcel : Parcel) where
  -- The send ends with the answer to a post, and exchanges nothing more.
  abbrev pub Final : Request × Reply → Option Bytes → State → Outcome Sent × State → Type 0
  Final x work t r = SentBy w parcel x work r × (r.1.log ≡ t.log)

  -- What the plan for the gate of a 428 comes to.
  abbrev pub Retried : Plan → Request × Reply → Option Bytes → State → Outcome Sent × State → Type 0
  Retried again x work t r =
      Held t r
      ⊎ ((again.stop ≡ none)
          × (((ltb 0 (unwrap_or again.bits 0) ≡ false) × Final x work t r)
              ⊎ ((ltb 0 (unwrap_or again.bits 0) ≡ true)
                  × PostedOnce client signing w parcel again.bits t r)))

  retry_plan-stopped :
      (answer : Answer) (work : Option Bytes) (notes : List Bytes) (again : Plan) (stop : Bytes)
      (t : State)
      → again.stop ≡ some stop
      → retry_plan client signing w parcel answer work notes again t
        ≡ (done (stopped_late stop (notes ++ again.notes)), t)
  unfolding retry_plan
  retry_plan-stopped answer work notes again stop t stops = ground (arith, stops)

  retry_plan-finish :
      (answer : Answer) (work : Option Bytes) (notes : List Bytes) (again : Plan) (t : State)
      → again.stop ≡ none
      → ltb 0 (unwrap_or again.bits 0) ≡ false
      → retry_plan client signing w parcel answer work notes again t
        ≡ finish client w parcel answer work notes t
  unfolding retry_plan
  retry_plan-finish answer work notes again t goes_on no_work = rw (goes_on, no_work) refl

  retry_plan-attempt :
      (answer : Answer) (work : Option Bytes) (notes : List Bytes) (again : Plan) (t : State)
      → again.stop ≡ none
      → ltb 0 (unwrap_or again.bits 0) ≡ true
      → retry_plan client signing w parcel answer work notes again t
        ≡ (attempt client signing w parcel again.bits
              >>= finish_again client w parcel notes again.notes)
            t
  unfolding retry_plan
  retry_plan-attempt answer work notes again t goes_on some_work = rw (goes_on, some_work) refl

  retry_plan-Retried :
      (again : Plan) (x : Request × Reply) (work : Option Bytes) (notes : List Bytes) (t : State)
      → world.fuel < 2 ^ 64
      → Retried again x work t (retry_plan client signing w parcel (answer_to x) work notes again t)
  retry_plan-Retried again x work notes t small = elim (Option-cases again.stop) [
    | inr (stop, stops) ↦
        subst (Retried again x work t)
          (sym (retry_plan-stopped (answer_to x) work notes again stop t stops))
          (inl (refl, unfold stopped_late in refl))
    | inl goes_on ↦ elim (Bool-cases (ltb 0 (unwrap_or again.bits 0))) [
      | inr no_work ↦
          subst (Retried again x work t)
            (sym (retry_plan-finish (answer_to x) work notes again t goes_on no_work))
            (inr (goes_on, inl (no_work, finish-SentBy client signing w parcel x work notes t)))
      | inl some_work ↦
          subst (Retried again x work t)
            (sym (retry_plan-attempt (answer_to x) work notes again t goes_on some_work))
            (elim (again-Posted client signing w parcel again.bits notes again.notes t small) [
              | inl held ↦ inl held
              | inr posted ↦ inr (goes_on, inr (some_work, posted))
            ])
    ]
  ]

  -- The seconds that the body of an answer gives.
  abbrev pub seconds_in : Answer → Option ℕ
  seconds_in answer = and_then (Answer.get answer (codes "seconds_left")) j.as_u64

  -- Noting the gate and the time left exchanges nothing, and the plan is weighed from them.
  retry-plan :
      (answer : Answer) (work : Option Bytes) (notes : List Bytes) (gate : j.Value) (s : State)
      → (t : State) × (t.log ≡ s.log)
        × (retry client signing w parcel answer work notes gate s
            ≡ retry_plan client signing w parcel answer work notes
                (plan_within world.rate
                  (some gate)
                  (time_left (seconds_in answer) (s.gate_left w) s.readings))
                t)
  unfolding retry keep_gate
  retry-plan answer work notes gate s =
      let s1 = (keep_gate w (some gate) s).1 in
      let noted = seconds_in answer in
      let (note_ends, note_gates, note_log, left) = note_left_lem w noted s1 in
      let s2 = (note_left w noted s1).1 in
      let (left_ends, left_gates, left_log, _, _) = seconds_left-Counted w s2 in
      let weigh : Option f.F64 → Action Sent = λ l.
        retry_plan client signing w parcel answer work notes
          (plan_within world.rate (some gate) l) in
      (
        (seconds_left w s2).1,
        left_log ∙ note_log,
        >>=-done (note_left w noted) (λ _. seconds_left w >>= weigh) s1 tt note_ends
            ∙ >>=-done (seconds_left w) weigh s2 (left_in_state w s2) left_ends
            ∙ ap (λ l. weigh l (seconds_left w s2).1) left,
      )

  -- What comes after an answer: it is handed over, or it brought a gate and the client weighs that with
  -- the time left: the seconds that came with it, less what has passed since, or without them what is
  -- left of the time that was kept.
  abbrev pub After : Request × Reply → Option Bytes → State → Outcome Sent × State → Type 0
  After x work t r =
      ((refused_gate client (answer_to x) ≡ none) × Final x work t r)
      ⊎ ((gate : j.Value) × (u : State) × (refused_gate client (answer_to x) ≡ some gate)
          × (u.log ≡ t.log)
          × Retried
              (plan_within world.rate (some gate)
                (time_left (seconds_in (answer_to x)) (t.gate_left w) t.readings))
              x work u r)

  pub answered-finish :
      (answer : Answer) (work : Option Bytes) (notes : List Bytes) (t : State)
      → refused_gate client answer ≡ none
      → answered client signing w parcel answer work notes t
        ≡ finish client w parcel answer work notes t
  unfolding answered
  answered-finish answer work notes t no_gate = ground (arith, no_gate)

  answered-retry :
      (answer : Answer) (work : Option Bytes) (notes : List Bytes) (gate : j.Value) (t : State)
      → refused_gate client answer ≡ some gate
      → answered client signing w parcel answer work notes t
        ≡ retry client signing w parcel answer work notes gate t
  unfolding answered
  answered-retry answer work notes gate t refused = ground (arith, refused)

  answered-After :
      (x : Request × Reply) (work : Option Bytes) (notes : List Bytes) (t : State)
      → world.fuel < 2 ^ 64
      → After x work t (answered client signing w parcel (answer_to x) work notes t)
  answered-After x work notes t small = elim (Option-cases (refused_gate client (answer_to x))) [
    | inl no_gate ↦
        subst (After x work t) (sym (answered-finish (answer_to x) work notes t no_gate))
          (inl (no_gate, finish-SentBy client signing w parcel x work notes t))
    | inr (gate, refused) ↦
        let (u, log, steps) = retry-plan (answer_to x) work notes gate t in
        subst (After x work t)
          (sym (answered-retry (answer_to x) work notes gate t refused ∙ steps))
          (inr (
            gate,
            u,
            refused,
            log,
            retry_plan-Retried
                (plan_within world.rate (some gate)
                  (time_left (seconds_in (answer_to x)) (t.gate_left w) t.readings))
                x work notes u small,
          ))
  ]

  -- The course of a write under its first plan: nothing is exchanged, or the plan did not stop it and
  -- the parcel was posted with the work that the plan asks for.
  abbrev pub Course : Plan → State → Outcome Sent × State → Type 0
  Course first s r =
      Held s r
      ⊎ ((first.stop ≡ none)
          × (x : Request × Reply) × (work : Option Bytes) × (t : State) × IsPost client signing w
              parcel first.bits work x
          × (x.1 ≡ world.reply s.log x.0)
          × (t.log ≡ x ∷ s.log)
          × (t.gate_left ≡ s.gate_left)
          × (t ≡ (attempt client signing w parcel first.bits s).1)
          × After x work t r)

  send_planned-stopped :
      (first : Plan) (stop : Bytes) (s : State)
      → first.stop ≡ some stop
      → send_planned client signing w parcel first s
        ≡ (done (stopped_first stop parcel.bytes first.notes), s)
  unfolding send_planned
  send_planned-stopped first stop s stops = ground (arith, stops)

  pub send_planned-attempt :
      (first : Plan) (s : State)
      → first.stop ≡ none
      → send_planned client signing w parcel first s
        ≡ (attempt client signing w parcel first.bits
              >>= attempted client signing w parcel first.notes)
            s
  unfolding send_planned
  send_planned-attempt first s goes_on = rw goes_on refl

  pub send_planned-Course :
      (first : Plan) (s : State)
      → world.fuel < 2 ^ 64
      → Course first s (send_planned client signing w parcel first s)
  send_planned-Course first s small = elim (Option-cases first.stop) [
    | inr (stop, stops) ↦
        subst (Course first s) (sym (send_planned-stopped first stop s stops))
          (inl (refl, unfold stopped_first in refl))
    | inl goes_on ↦
        subst (Course first s) (sym (send_planned-attempt first s goes_on))
          (elim (attempt-then client signing w parcel first.bits
            (attempted client signing w parcel first.notes) s
            (attempted-Held client signing w parcel first.notes) small) [
              | inl held ↦ inl held
              | inr (x, work, t, is_post, replied, log, left_kept, attempted_there, steps) ↦ inr (
                goes_on,
                x,
                work,
                t,
                is_post,
                replied,
                log,
                left_kept,
                attempted_there,
                subst (After x work t) (sym steps)
                    (unfold attempted in answered-After x work first.notes t small),
              )
            ])
  ]
