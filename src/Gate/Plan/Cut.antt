-- ===== src/Gate/Plan/Cut.antt =====
-- What src/gate.rs makes of a required number of bits that does not fit 32 bits.
use aamio_rust.Base.{
  ℕ, ◌%◌, ◌^◌, ◌≤◌, ◌<◌, ◌≡◌, refl, sym, ◌∙◌, inl, inr, true, false, none, some, [], ◌∷◌, arith,
  and_then, codes, same, all, any,
}
use mathlib.Core.Path.{subst}
use mathlib.Core.Bool.{false≢true}
use aamio_rust.Extern.Json.{Json}
use aamio_rust.Extern.Floats.{Floats}
use aamio_rust.Gate.Plan.{is_known, bits_of, bucket, plan}
use aamio_rust.Gate.Plan.Demands.{
  cut_bits, bits_of-cut_bits, can_meet, in_time, plan_within-Weighed,
}

module _ ⦃j : Json⦄ ⦃f : Floats⦄ (rate : f.F64) where
  pow_is_known : is_known (codes "pow") ≡ true
  unfolding is_known any codes same
  pow_is_known = refl

  -- A gate that requires work alone, declared as more than 32 bits in a number whose low 32
  -- bits are at most 32, does not stop the plan.
  pub plan-cut_bits :
      (gate value : j.Value) (m fields : j.Map) (n : ℕ)
      → j.as_object gate ≡ some m
      → j.is_empty m ≡ false
      → bucket m (codes "require") ≡ (codes "pow", value) ∷ []
      → j.as_object value ≡ some fields
      → and_then (j.get fields (codes "bits")) j.as_u64 ≡ some n
      → 32 < n
      → n % 2 ^ 32 ≤ 32
      → (plan rate (some gate)).stop ≡ none
  unfolding plan
  plan-cut_bits gate value m fields n is_object filled required has_fields declared above low =
      elim (plan_within-Weighed rate none gate m is_object filled) [
        | inl goes_on ↦ goes_on.0
        | inr stops ↦ absurd (false≢true (sym stops.1 ∙ rw required met))
      ]
    where
      cut : cut_bits value ≤ 32
      cut =
          subst (λ b. b ≤ 32) (bits_of-cut_bits value)
            (unfold bits_of in rw (has_fields, declared) low)

      met : all (can_meet rate none) ((codes "pow", value) ∷ []) ≡ true
      met = unfold all can_meet in_time in ground (arith, cut, pow_is_known)
