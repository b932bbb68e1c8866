-- ===== src/Client/Gates/Planned.antt =====
-- What the plan of a write in src/client.rs rests on: the gate that is kept, or the gate as it was just
-- read.
use aamio_rust.Base.{
  ℕ, ◌≡◌, refl, sym, ap, ◌∙◌, ◌⊎◌, inl, inr, Bool, true, false, ◌&&◌, Option, none, some, ◌∷◌,
  arith, if◌then◌else◌, Option-cases, Bytes, same_refl,
}
use mathlib.Core.Path.{subst}
use aamio_rust.Extern.Json.{Json}
use aamio_rust.Extern.Floats.{Floats}
use aamio_rust.Extern.Crypto.{Crypto}
use aamio_rust.Gate.Plan.{Plan, plan_within}
use aamio_rust.Client.World.{World, State, Outcome, done, Action, ◌>>=◌, ◌>>◌, pure, >>=-done}
use aamio_rust.Client.Calls.{Client}
use aamio_rust.Client.Gates.{
  is_some, forget_gate, seconds_left, read_gate, gate_from, gate, plan_now, plan_to,
}
use aamio_rust.Client.Gates.Kept.{
  next_reading, time_left, seconds_given, left_in_state, seconds_left-Counted, gate_request,
  gate_reply, gate_replied, read_gate_lem,
}

module _ ⦃j : Json⦄ ⦃f : Floats⦄ ⦃world : World⦄ where
  -- The plan for a gate and for a time left, which is the outcome where the gate is kept afterwards.
  abbrev pub RestsOn : Bytes → Option j.Value → Option f.F64 → Outcome Plan × State → Type 0
  RestsOn w g left r = (r.0 ≡ done (plan_within world.rate g left)) × (r.1.gates w ≡ some g)

  weigh_left : Bytes → Option j.Value → Action Plan
  weigh_left w g = seconds_left w >>= λ left. pure (plan_within world.rate g left)

  -- The gate is weighed with the time left that the state has, and weighing exchanges nothing.
  abbrev Weighs : Bytes → Option j.Value → State → Outcome Plan × State → Type 0
  Weighs w g s r =
      RestsOn w g (left_in_state w s) r
      × (r.1.log ≡ s.log)
      × (r.1.readings ≡ next_reading (s.gate_left w) s.readings)

  weigh_left-Weighs :
      (w : Bytes) (g : Option j.Value) (s : State)
      → s.gates w ≡ some g
      → Weighs w g s (weigh_left w g s)
  unfolding weigh_left
  weigh_left-Weighs w g s kept =
      let (ends, gates, log, left, readings) = seconds_left-Counted w s in
      subst (Weighs w g s)
        (sym (
          >>=-done (seconds_left w) (λ l. pure (plan_within world.rate g l)) s (left_in_state w s)
            ends))
        ((refl, ap (λ t. t w) gates ∙ kept), log, readings)

module _ ⦃j : Json⦄ ⦃f : Floats⦄ ⦃c : Crypto⦄ ⦃world : World⦄ (client : Client) where
  -- The gate was asked for, once, and the time left is that of the answer, over what was kept.
  abbrev pub FromRead : Bytes → Option (f.F64 × ℕ) → ℕ → State → Outcome Plan × State → Type 0
  FromRead w kept k s r =
      RestsOn w (gate_replied client w s) (time_left (seconds_given (gate_reply client w s)) kept k)
        r
      × (r.1.log ≡ (gate_request client w, gate_reply client w s) ∷ s.log)

  gate-kept :
      (w : Bytes) (s : State) (g : Option j.Value)
      → s.gates w ≡ some g
      → gate client w false s ≡ (done g, s)
  unfolding gate gate_from
  gate-kept w s g kept = ground (arith, kept)

  gate-absent :
      (w : Bytes) (s : State) → s.gates w ≡ none → gate client w false s ≡ read_gate client w s
  unfolding gate gate_from
  gate-absent w s absent = ground (arith, absent)

  -- Once the gate is there, what is left of the plan is the weighing.
  plan_now-weigh :
      (w : Bytes) (s s' : State) (g : Option j.Value)
      → gate client w false s ≡ (done g, s')
      → plan_now client w s ≡ weigh_left w g s'
  unfolding plan_now weigh_left
  plan_now-weigh w s s' g found =
      >>=-done (gate client w false)
        (λ g'. seconds_left w >>= λ l. pure (plan_within world.rate g' l)) s g (ap (λ r. r.0) found)
      ∙ ap (λ r. (seconds_left w >>= λ l. pure (plan_within world.rate g l)) r.1) found

  plan_now-kept :
      (w : Bytes) (s : State) (g : Option j.Value)
      → s.gates w ≡ some g
      → Weighs w g s (plan_now client w s)
  plan_now-kept w s g kept =
      subst (Weighs w g s) (sym (plan_now-weigh w s s g (gate-kept w s g kept)))
        (weigh_left-Weighs w g s kept)

  plan_now-read :
      (w : Bytes) (s : State)
      → s.gates w ≡ none
      → FromRead w (s.gate_left w) s.readings s (plan_now client w s)
  plan_now-read w s absent =
      let (ends, log, kept, left) = read_gate_lem client w s in
      let g = gate_replied client w s in
      let (rests, same_log, _) = weigh_left-Weighs w g (read_gate client w s).1 kept in
      subst (FromRead w (s.gate_left w) s.readings s)
        (sym (
          plan_now-weigh w s (read_gate client w s).1 g
            (gate-absent w s absent ∙ ap (λ o. (o, (read_gate client w s).1)) ends)))
        ((rests.0 ∙ ap (λ l. done (plan_within world.rate g l)) left, rests.1), same_log ∙ log)

  -- What a plan rests on. No gate was kept, and it is read. Or a gate was kept, and is weighed with the
  -- time that was kept: it lets the write go on, or it stops it, and then the gate is read and nothing
  -- is left of the time that was kept.
  abbrev pub Planned : Bytes → State → Outcome Plan × State → Type 0
  Planned w s r =
      ((s.gates w ≡ none) × FromRead w (s.gate_left w) s.readings s r)
      ⊎ ((g : Option j.Value) × (s.gates w ≡ some g)
          × ((((plan_within world.rate g (left_in_state w s)).stop ≡ none)
                × RestsOn w g (left_in_state w s) r
                × (r.1.log ≡ s.log))
              ⊎ ((stop : Bytes) × ((plan_within world.rate g (left_in_state w s)).stop ≡ some stop)
                  × FromRead w none (next_reading (s.gate_left w) s.readings) s r)))

  -- The end of `plan_to`, behind the first plan.
  settled : Bytes → Bool → Plan → Action Plan
  settled w cached plan =
      if is_some plan.stop && cached then forget_gate w >> plan_now client w else pure plan

  plan_to-settled :
      (w : Bytes) (s : State) (plan : Plan)
      → (plan_now client w s).0 ≡ done plan
      → plan_to client w s ≡ settled w (is_some (s.gates w)) plan (plan_now client w s).1
  unfolding plan_to settled
  plan_to-settled w s plan ends =
      >>=-done (plan_now client w) (settled w (is_some (s.gates w))) s plan ends

  settled-done :
      (w : Bytes) (cached : Bool) (plan : Plan) (s : State)
      → (is_some plan.stop && cached) ≡ false
      → settled w cached plan s ≡ (done plan, s)
  unfolding settled
  settled-done w cached plan s goes_on = rw goes_on refl

  -- The state without the gate of an address and its time left.
  forgotten : Bytes → State → State
  forgotten w s = (forget_gate w s).1

  settled-again :
      (w : Bytes) (cached : Bool) (plan : Plan) (s : State)
      → (is_some plan.stop && cached) ≡ true
      → settled w cached plan s ≡ plan_now client w (forgotten w s)
  unfolding settled forgotten forget_gate
  settled-again w cached plan s stops = rw stops refl

  forgotten_lem :
      (w : Bytes) (s : State)
      → ((forgotten w s).gates w ≡ none)
        × ((forgotten w s).gate_left w ≡ none)
        × ((forgotten w s).log ≡ s.log)
        × ((forgotten w s).readings ≡ s.readings)
  unfolding forgotten forget_gate
  forgotten_lem w s = (ground (arith, same_refl w), ground (arith, same_refl w), refl, refl)

  -- A gate that is read once nothing is kept of it any more, and nothing was exchanged before.
  read_again :
      (w : Bytes) (s t : State) (k : ℕ) (r : Outcome Plan × State)
      → t.gate_left w ≡ none
      → t.log ≡ s.log
      → t.readings ≡ k
      → FromRead w (t.gate_left w) t.readings t r
      → FromRead w none k s r
  unfolding gate_replied gate_reply
  read_again w s t k r left log readings from_read =
      subst (λ n. FromRead w none n s r) readings
        (subst (λ kept. FromRead w kept t.readings s r) left
          (subst (λ l. FromRead w (t.gate_left w) t.readings (record t { log = l }) r) log
            from_read))

  plan_to-read : (w : Bytes) (s : State) → s.gates w ≡ none → Planned w s (plan_to client w s)
  plan_to-read w s absent =
      let from_read = plan_now-read w s absent in
      subst (Planned w s)
        (sym (
          plan_to-settled w s _ from_read.0.0
          ∙ settled-done w (is_some (s.gates w)) _ _ (ground (arith, absent))))
        (inl (absent, ((refl, from_read.0.1), from_read.1)))

  plan_to-kept :
      (w : Bytes) (s : State) (g : Option j.Value)
      → s.gates w ≡ some g
      → Planned w s (plan_to client w s)
  plan_to-kept w s g kept =
      let plan = plan_within world.rate g (left_in_state w s) in
      let ((ends, still), log, readings) = plan_now-kept w s g kept in
      let s1 = (plan_now client w s).1 in
      elim (Option-cases plan.stop) [
        | inl goes_on ↦
            subst (Planned w s)
              (sym (
                plan_to-settled w s plan ends
                ∙ settled-done w (is_some (s.gates w)) plan s1 (ground (arith, goes_on))))
              (inr (g, kept, inl (goes_on, (refl, still), log)))
        | inr (stop, stops) ↦
            let (absent, no_left, same_log, same_readings) = forgotten_lem w s1 in
            subst (Planned w s)
              (sym (
                plan_to-settled w s plan ends
                ∙ settled-again w (is_some (s.gates w)) plan s1 (ground (arith, kept, stops))))
              (inr (
                g,
                kept,
                inr (
                  stop,
                  stops,
                  read_again w s (forgotten w s1) _ (plan_now client w (forgotten w s1)) no_left
                      (same_log ∙ log) (same_readings ∙ readings)
                      (plan_now-read w (forgotten w s1) absent),
                ),
              ))
      ]

  -- Whatever the client kept, `plan_to` ends with a plan. Where it kept a gate, that gate is weighed
  -- with the time that was kept, less what has passed since, and where the write may go on that is the
  -- plan and nothing is asked. Where it kept none, or where the write would be stopped, the gate is
  -- asked for with one call, and the plan is for the gate in the answer and for the seconds in its
  -- header, less what has passed since. An answer without them leaves the time that was kept where no
  -- gate was, and none where the gate stopped the write. The gate of the plan is kept afterwards.
  pub plan_to-Planned : (w : Bytes) (s : State) → Planned w s (plan_to client w s)
  plan_to-Planned w s = elim (Option-cases (s.gates w)) [
    | inl absent ↦ plan_to-read w s absent
    | inr (g, kept) ↦ plan_to-kept w s g kept
  ]

  -- `plan_to` ends with a plan.
  pub plan_to-done : (w : Bytes) (s : State) → (plan : Plan) × ((plan_to client w s).0 ≡ done plan)
  plan_to-done w s = elim (plan_to-Planned w s) [
    | inl (absent, from_read) ↦ (_, from_read.0.0)
    | inr (g, kept, inl (goes_on, rests, log)) ↦ (_, rests.0)
    | inr (g, kept, inr (stop, stops, from_read)) ↦ (_, from_read.0.0)
  ]
