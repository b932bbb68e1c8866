-- ===== src/Gate/Plan.antt =====
-- src/gate.rs: what a writer does about a gate before it writes.
pub mod Demands
pub mod Cut
use aamio_rust.Base.{
  ℕ, ◌+◌, ◌%◌, ◌^◌, Bool, not, Option, none, some, List, [], ◌∷◌, ◌++◌, ltb, leb, if◌then◌else◌,
  unwrap_or, and_then, Bytes, concat, codes, same, any,
}
use Prim.Native.Nat.{max}
use aamio_rust.Base.Decimal.{decimal}
use aamio_rust.Extern.Json.{Json}
use aamio_rust.Extern.Floats.{Floats}
use aamio_rust.Gate.Work.{require_max_bits, estimate_from_bits, advise_max_bits}

module _ ⦃f : Floats⦄ where
  -- `rate` is what `hash_rate` has timed on this machine.
  unfoldable pub expected_seconds : f.F64 → ℕ → f.F64
  expected_seconds rate bits = f.div (f.two_pow bits) rate

  unfoldable pub describe_seconds : f.F64 → Bytes
  describe_seconds seconds =
      if f.lt seconds (f.of_nat 90)
      then concat
          (decimal (f.to_nat (f.max (f.round seconds) (f.of_nat 1))) ∷ codes " seconds" ∷ [])
      else if f.lt seconds (f.of_nat 5400)
      then concat
          (decimal (f.to_nat (f.round (f.div seconds (f.of_nat 60)))) ∷ codes " minutes" ∷ [])
      else concat (f.one_place (f.div seconds (f.of_nat 3600)) ∷ codes " hours" ∷ [])

  pub record Plan : Type 0 where
    pub bits : Option ℕ
    pub stop : Option Bytes
    pub notes : List Bytes
    pub expected_seconds : f.F64

  -- `Plan::default()`
  unfoldable pub default_plan : Plan
  default_plan = record { bits = none; stop = none; notes = []; expected_seconds = f.of_nat 0 }

  -- `plan.bits = Some(plan.bits.unwrap_or(0).max(bits))`
  unfoldable pub raise_bits : Plan → ℕ → Plan
  raise_bits plan bits = record plan { bits = some (max (unwrap_or plan.bits 0) bits) }

unfoldable pub is_known : Bytes → Bool
is_known condition = any (same condition) (codes "pow" ∷ codes "per_key" ∷ codes "write_until" ∷ [])

unfoldable pub unknown_reason : Bytes → Bytes
unknown_reason condition = concat (
    codes "the inbox requires \""
    ∷ condition
    ∷ codes "\", which this client does not know; nothing was sent"
    ∷ [])

unfoldable pub ceiling_reason : ℕ → Bytes
ceiling_reason bits = concat (
    codes "the inbox requires "
    ∷ decimal bits
    ∷ codes " bits of work, above the "
    ∷ decimal require_max_bits
    ∷ codes " aamio lets an inbox ask for; nothing was sent"
    ∷ [])

unfoldable pub unknown_note : Bytes → Bytes
unknown_note condition = concat (
    codes "the inbox advises \""
    ∷ condition
    ∷ codes "\", which this client does not know, and it was passed over"
    ∷ [])

unfoldable pub ceiling_note : ℕ → Bytes
ceiling_note bits = concat (
    codes "the inbox advises "
    ∷ decimal bits
    ∷ codes " bits of work, above the "
    ∷ decimal advise_max_bits
    ∷ codes " a client does without asking, and it was passed over"
    ∷ [])

module _ ⦃f : Floats⦄ where
  unfoldable pub time_reason : ℕ → f.F64 → f.F64 → Bytes
  time_reason bits expected left = concat (
      codes "the inbox requires "
      ∷ decimal bits
      ∷ codes " bits of work, which takes about "
      ∷ describe_seconds expected
      ∷ codes " on this machine, and it takes writes for "
      ∷ describe_seconds left
      ∷ codes
          " more. The work would not be done before it closes, so it was not started and nothing was sent. Ask the owner for a longer inbox or less work, or send from a machine with more compute"
      ∷ [])

-- What a round of the loop over the required conditions does: return, or go on with the plan.
pub data Round ⦃f : Floats⦄ : Type 0 where
  returned : Plan → Round
  going : Plan → Round

module _ ⦃j : Json⦄ where
  -- A value of 32 bits and more is cut to its low 32 bits, `as u32`.
  unfoldable pub bits_of : j.Value → ℕ
  bits_of condition =
      unwrap_or (and_then (and_then (j.as_object condition) (λ m. j.get m (codes "bits"))) j.as_u64)
        0
      % 2 ^ 32

  -- The conditions in a bucket, none where the gate has no such object.
  unfoldable pub bucket : j.Map → Bytes → List (Bytes × j.Value)
  bucket gate name = elim (and_then (j.get gate name) j.as_object) [
    | none ↦ []
    | some m ↦ j.entries m
  ]

module _ ⦃j : Json⦄ ⦃f : Floats⦄ (rate : f.F64) where
  unfoldable pub expected_for : ℕ → f.F64
  unfolding expected_seconds
  expected_for bits = if leb estimate_from_bits bits then expected_seconds rate bits else f.of_nat 0

  unfoldable pub require_pow : Option f.F64 → ℕ → Plan → Round
  require_pow seconds_left bits plan =
      if ltb require_max_bits bits
      then returned (record plan { stop = some (ceiling_reason bits) })
      else elim seconds_left [
        | none ↦ going (raise_bits plan bits)
        | some left ↦
            let expected = expected_for bits in
            if f.lt left expected
            then returned (record plan { stop = some (time_reason bits expected left) })
            else going (raise_bits (record plan { expected_seconds = expected }) bits)
      ]

  unfoldable pub require_round : Option f.F64 → Bytes → j.Value → Plan → Round
  require_round seconds_left condition value plan =
      if not (is_known condition)
      then returned (record plan { stop = some (unknown_reason condition) })
      else if same condition (codes "pow")
      then require_pow seconds_left (bits_of value) plan
      else going plan

  unfoldable pub require_loop : Option f.F64 → List (Bytes × j.Value) → Plan → Round
  require_loop seconds_left [] plan = going plan
  require_loop seconds_left ((condition, value) ∷ rest) plan =
      elim (require_round seconds_left condition value plan) [
        | returned p ↦ returned p
        | going p ↦ require_loop seconds_left rest p
      ]

  unfoldable pub advise_round : Bytes → j.Value → Plan → Plan
  advise_round condition value plan =
      if not (same condition (codes "pow"))
      then record plan { notes = plan.notes ++ unknown_note condition ∷ [] }
      else if ltb advise_max_bits (bits_of value)
      then record plan { notes = plan.notes ++ ceiling_note (bits_of value) ∷ [] }
      else raise_bits plan (bits_of value)

  unfoldable pub advise_loop : List (Bytes × j.Value) → Plan → Plan
  advise_loop [] plan = plan
  advise_loop ((condition, value) ∷ rest) plan =
      advise_loop rest (advise_round condition value plan)

  unfoldable pub weigh : Option f.F64 → j.Map → Plan
  weigh seconds_left gate =
      elim (require_loop seconds_left (bucket gate (codes "require")) default_plan) [
        | returned p ↦ p
        | going p ↦ advise_loop (bucket gate (codes "advise")) p
      ]

  unfoldable pub plan_within : Option j.Value → Option f.F64 → Plan
  plan_within gate seconds_left = elim (and_then gate j.as_object) [
    | none ↦ default_plan
    | some m ↦ if j.is_empty m then default_plan else weigh seconds_left m
  ]

  unfoldable pub plan : Option j.Value → Plan
  plan gate = plan_within gate none
