-- ===== src/Client/Gates.antt =====
-- src/client.rs: the gates that a client keeps, how long an inbox still takes writes, and the plan of
-- a write.
pub mod Kept
pub mod Planned
use aamio_rust.Base.{
  ℕ, ◌-◌, Bool, true, false, ◌&&◌, ◌==◌, if◌then◌else◌, Option, none, some, [], ◌∷◌, and_then,
  map_option, Bytes, codes, concat,
}
use aamio_rust.Base.Parse.{parse_u64}
use aamio_rust.Base.Pieces.{trim}
use aamio_rust.Extern.Json.{Json}
use aamio_rust.Extern.Floats.{Floats}
use aamio_rust.Extern.Crypto.{Crypto}
use aamio_rust.Gate.Plan.{Plan, plan_within}
use aamio_rust.Client.Answer.{Answer}
use aamio_rust.Client.World.{
  World, State, Action, pure, done, ◌>>=◌, ◌>>◌, gets, modify, insert_at, remove_at, instant_now,
}
use aamio_rust.Client.Calls.{Client, call_reading}

abbrev pub is_some {ℓ} : {A : Type ℓ} → Option A → Bool
is_some none = false
is_some (some a) = true

module _ ⦃j : Json⦄ ⦃f : Floats⦄ where
  unfoldable pub forget_gate : Bytes → Action (Unit {0})
  forget_gate w =
      modify λ s. record s { gates = remove_at w s.gates; gate_left = remove_at w s.gate_left }

  -- `self.gates.lock().unwrap().insert(w, gate)`
  unfoldable pub keep_gate : Bytes → Option j.Value → Action (Unit {0})
  keep_gate w gate = modify λ s. record s { gates = insert_at w gate s.gates }

  -- The gate in the body of an answer of status 200.
  unfoldable pub gate_in : Answer → Option j.Value
  gate_in answer = if answer.status == 200 then map_option j.object answer.body else none

  -- The seconds left in the header of an answer of status 200.
  unfoldable pub left_in : Answer → Option Bytes → Option ℕ
  left_in answer left =
      if answer.status == 200 then and_then left (λ l. parse_u64 (trim l)) else none

module _ ⦃j : Json⦄ ⦃f : Floats⦄ ⦃world : World⦄ where
  -- `self.gate_left.lock().unwrap().insert(w, (left as f64, Instant::now()))`
  unfoldable pub keep_left : Bytes → ℕ → Action (Unit {0})
  keep_left w left = do
    at ← instant_now
    modify (λ s. record s { gate_left = insert_at w (f.of_nat left, at) s.gate_left })

  unfoldable pub note_left : Bytes → Option ℕ → Action (Unit {0})
  note_left w none = pure tt
  note_left w (some left) = keep_left w left

  unfoldable pub left_at : Option (f.F64 × ℕ) → Action (Option f.F64)
  left_at none = pure none
  left_at (some (left, at)) = do
    instant ← instant_now
    pure (some (f.max (f.sub left (f.as_secs_f64 (instant - at))) (f.of_nat 0)))

  unfoldable pub seconds_left : Bytes → Action (Option f.F64)
  seconds_left w s = left_at (s.gate_left w) s

module _ ⦃j : Json⦄ ⦃f : Floats⦄ ⦃c : Crypto⦄ ⦃world : World⦄ (client : Client) where
  unfoldable pub gate_url : Bytes → Bytes
  gate_url w = concat (client.host ∷ codes "/" ∷ w ∷ codes "/gate" ∷ [])

  -- The gate as the service gives it now.
  unfoldable pub read_gate : Bytes → Action (Option j.Value)
  read_gate w = do
    answered ← call_reading (codes "GET") (gate_url w) none [] (codes "X-Seconds-Left")
    note_left w (left_in answered.0 answered.1)
    keep_gate w (gate_in answered.0)
    pure (gate_in answered.0)

  unfoldable pub gate_from : Option (Option j.Value) → Bytes → Action (Option j.Value)
  gate_from none w = read_gate w
  gate_from (some cached) w = pure cached

  unfoldable pub gate : Bytes → Bool → Action (Option j.Value)
  gate w fresh s = gate_from (if fresh then none else s.gates w) w s

  -- The gate and the time left, weighed.
  unfoldable pub plan_now : Bytes → Action Plan
  plan_now w = do
    gate ← gate w false
    left ← seconds_left w
    pure (plan_within world.rate gate left)

  unfoldable pub plan_to : Bytes → Action Plan
  plan_to w = do
    cached ← gets (λ s. is_some (s.gates w))
    plan ← plan_now w
    if is_some plan.stop && cached then forget_gate w >> plan_now w else pure plan
