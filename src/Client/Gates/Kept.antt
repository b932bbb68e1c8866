-- ===== src/Client/Gates/Kept.antt =====
-- What reading the time left and the gate does to the state of the client in src/client.rs.
use aamio_rust.Base.{
  ◌+◌, ◌-◌, ◌==◌, if◌then◌else◌, ap, sym, and_then, ℕ, ◌≡◌, refl, Option, none, some, ◌∷◌, [],
  arith, Bytes, codes, same_refl,
}
use mathlib.Core.Path.{subst}
use aamio_rust.Base.Parse.{parse_u64}
use aamio_rust.Base.Pieces.{trim}
use aamio_rust.Extern.Json.{Json}
use aamio_rust.Extern.Floats.{Floats}
use aamio_rust.Extern.Crypto.{Crypto}
use aamio_rust.Client.Answer.{no_answer}
use aamio_rust.Client.World.{
  Request, Reply, response, transport, insert_at, World, State, Outcome, done, instant_now,
}
use aamio_rust.Client.Calls.{Client, request_of, answer_of, call_reading}
use aamio_rust.Client.Gates.{
  keep_gate, gate_in, left_in, keep_left, note_left, left_at, seconds_left, gate_url, read_gate,
}

-- The seconds that a reply gives in its header: those of a success, as a number that fits.
abbrev pub seconds_given : Reply → Option ℕ
seconds_given (transport reason) = none
seconds_given (response status header text) =
    if status == 200
    then and_then (header (codes "X-Seconds-Left")) (λ l. parse_u64 (trim l))
    else none

module _ ⦃f : Floats⦄ where
  -- What is left at an instant of the time that was kept with the instant of its reading, never less
  -- than nothing.
  abbrev pub counted_down : Option (f.F64 × ℕ) → ℕ → Option f.F64
  counted_down none instant = none
  counted_down (some (left, at)) instant =
      some (f.max (f.sub left (f.as_secs_f64 (instant - at))) (f.of_nat 0))

  -- The reading of the clock that comes after the time left was counted down.
  abbrev pub next_reading : Option (f.F64 × ℕ) → ℕ → ℕ
  next_reading none k = k
  next_reading (some kept) k = k + 1

module _ ⦃j : Json⦄ ⦃f : Floats⦄ ⦃world : World⦄ where
  -- The time left for seconds that were given, if any, over what was kept: the seconds given, noted at
  -- the `k`-th reading of the clock, are counted down to the next one, else the time kept is.
  abbrev pub time_left : Option ℕ → Option (f.F64 × ℕ) → ℕ → Option f.F64
  time_left none kept k = counted_down kept (world.instant k)
  time_left (some n) kept k =
      counted_down (some (f.of_nat n, world.instant k)) (world.instant (k + 1))

  -- The step ends with this time left, and changes nothing that is kept or was exchanged.
  abbrev pub Counted : Option (f.F64 × ℕ) → Outcome (Option f.F64) × State → State → Type 0
  Counted kept r s =
      (r.0 ≡ done (counted_down kept (world.instant s.readings)))
      × (r.1.gates ≡ s.gates)
      × (r.1.log ≡ s.log)
      × (r.1.gate_left ≡ s.gate_left)
      × (r.1.readings ≡ next_reading kept s.readings)

  left_at-Counted : (kept : Option (f.F64 × ℕ)) (s : State) → Counted kept (left_at kept s) s
  unfolding left_at instant_now
  left_at-Counted none s = (refl, refl, refl, refl, refl)
  left_at-Counted (some (left, at)) s = (refl, refl, refl, refl, refl)

  pub seconds_left-Counted : (w : Bytes) (s : State) → Counted (s.gate_left w) (seconds_left w s) s
  unfolding seconds_left
  seconds_left-Counted w s = left_at-Counted (s.gate_left w) s

  -- The time left, as a state has it when the clock is read next.
  abbrev pub left_in_state : Bytes → State → Option f.F64
  left_in_state w s = counted_down (s.gate_left w) (world.instant s.readings)

  -- Noting the time left exchanges nothing, and what is noted is what is counted down next.
  pub note_left_lem :
      (w : Bytes) (given : Option ℕ) (s : State)
      → ((note_left w given s).0 ≡ done tt)
        × ((note_left w given s).1.gates ≡ s.gates)
        × ((note_left w given s).1.log ≡ s.log)
        × (left_in_state w (note_left w given s).1 ≡ time_left given (s.gate_left w) s.readings)
  unfolding note_left keep_left instant_now
  note_left_lem w none s = (refl, refl, refl, refl)
  note_left_lem w (some n) s =
      let noted : (keep_left w n s).1.gate_left w ≡ some (f.of_nat n, world.instant s.readings) =
        ground (arith, same_refl w) in
      (refl, refl, refl, ap (λ kept. counted_down kept (world.instant (s.readings + 1))) noted)

module _ ⦃j : Json⦄ ⦃f : Floats⦄ ⦃c : Crypto⦄ ⦃world : World⦄ (client : Client) where
  -- The call that asks for the gate of an address.
  unfoldable pub gate_request : Bytes → Request
  gate_request w = request_of (codes "GET") (gate_url client w) none []

  -- What the service answers it, and the gate in the answer.
  unfoldable pub gate_reply : Bytes → State → Reply
  gate_reply w s = world.reply s.log (gate_request w)

  unfoldable pub gate_replied : Bytes → State → Option j.Value
  gate_replied w s = gate_in (answer_of (codes "X-Seconds-Left") (gate_reply w s)).0

  seconds_given-left_in :
      (reply : Reply)
      → left_in
          (answer_of (codes "X-Seconds-Left") reply).0
          (answer_of (codes "X-Seconds-Left") reply).1
        ≡ seconds_given reply
  unfolding left_in answer_of codes no_answer
  seconds_given-left_in (transport reason) = refl
  seconds_given-left_in (response status header text) = refl

  -- The state once the call was made and the time left noted, with the gate kept.
  abbrev after_read : Bytes → Option ℕ → State → State
  after_read w given s =
      let called : State = record s { log = (gate_request w, gate_reply w s) ∷ s.log } in
      let noted = (note_left w given called).1 in
      record noted { gates = insert_at w (gate_replied w s) noted.gates }

  read_gate-after :
      (w : Bytes) (given : Option ℕ) (s : State)
      → left_in
          (answer_of (codes "X-Seconds-Left") (gate_reply w s)).0
          (answer_of (codes "X-Seconds-Left") (gate_reply w s)).1
        ≡ given
      → read_gate client w s ≡ (done (gate_replied w s), after_read w given s)
  unfolding read_gate gate_replied gate_reply gate_request call_reading keep_gate note_left
      keep_left instant_now
  read_gate-after w none s given = rw given refl
  read_gate-after w (some n) s given = rw given refl

  -- Asking for a gate is one call, and the gate and the time left are kept as they were answered.
  pub read_gate_lem :
      (w : Bytes) (s : State)
      → ((read_gate client w s).0 ≡ done (gate_replied w s))
        × ((read_gate client w s).1.log ≡ (gate_request w, gate_reply w s) ∷ s.log)
        × ((read_gate client w s).1.gates w ≡ some (gate_replied w s))
        × (left_in_state w (read_gate client w s).1
            ≡ time_left (seconds_given (gate_reply w s)) (s.gate_left w) s.readings)
  read_gate_lem w s =
      let given = seconds_given (gate_reply w s) in
      let (ends, gates, log, left) =
        note_left_lem w given (record s { log = (gate_request w, gate_reply w s) ∷ s.log }) in
      subst
        (λ r.
          (r.0 ≡ done (gate_replied w s))
          × (r.1.log ≡ (gate_request w, gate_reply w s) ∷ s.log)
          × (r.1.gates w ≡ some (gate_replied w s))
          × (left_in_state w r.1 ≡ time_left given (s.gate_left w) s.readings))
        (sym (read_gate-after w given s (seconds_given-left_in (gate_reply w s))))
        (refl, log, ground (arith, same_refl w), left)
