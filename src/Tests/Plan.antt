-- ===== src/Tests/Plan.antt =====
-- Gates of src/gate.rs at concrete inputs.
use aamio_rust.Base.{ℕ, ◌≡◌, refl, inr, false, none, some, [], ◌∷◌, arith, and_then, codes, same}
use aamio_rust.Base.Int.{pos}
use aamio_rust.Sample.Digest.{sample_encodings, sample_hashing}
use aamio_rust.Sample.Json.{
  sample_json, number, object, Fields, end, field, get, insert, entries, is_empty,
}
use aamio_rust.Sample.Floats.{sample_floats}
use aamio_rust.Gate.Canonical.{gate_hash}
use aamio_rust.Gate.Canonical.Pruned.{gate_hash-empty_bucket}
use aamio_rust.Gate.Plan.{bucket, plan_within, plan}
use aamio_rust.Gate.Plan.Demands.{Weighed, plan_within-Weighed}
use aamio_rust.Gate.Plan.Cut.{plan-cut_bits}

-- Work of so many bits.
abbrev work : ℕ → Fields
work n = field (codes "bits") (number (pos n)) end

-- A gate that requires work of so many bits.
abbrev gate_of : ℕ → Fields
gate_of n = field (codes "require") (object (field (codes "pow") (object (work n)) end)) end

abbrev hundred_per_second : ℕ
hundred_per_second = 100

filled : (n : ℕ) → is_empty (gate_of n) ≡ false
unfolding is_empty
filled n = refl

plan_within-Weighed_example :
    Weighed hundred_per_second
      (some 600)
      (bucket (gate_of 12) (codes "require"))
      (plan_within hundred_per_second (some (object (gate_of 12))) (some 600))
plan_within-Weighed_example =
    plan_within-Weighed hundred_per_second (some 600) (object (gate_of 12)) (gate_of 12) refl
      (filled 12)

required_work : (n : ℕ) → bucket (gate_of n) (codes "require") ≡ (codes "pow", object (work n)) ∷ []
unfolding bucket get entries codes same
required_work n = refl

bits_declared : (n : ℕ) → and_then (get (work n) (codes "bits")) sample_json.as_u64 ≡ some n
unfolding get codes same
bits_declared n = refl

-- Work of 2 ^ 32 + 5 bits is taken for 5.
plan-cut_bits_example : (plan hundred_per_second (some (object (gate_of 4294967301)))).stop ≡ none
plan-cut_bits_example =
    plan-cut_bits hundred_per_second (object (gate_of 4294967301)) (object (work 4294967301))
      (gate_of 4294967301) (work 4294967301) 4294967301 refl (filled 4294967301)
      (required_work 4294967301) refl (bits_declared 4294967301) (omega arith) (omega arith)

no_advice : get (gate_of 12) (codes "advise") ≡ none
unfolding get codes same
no_advice = refl

gate_hash-empty_bucket_example :
    gate_hash (object (insert (gate_of 12) (codes "advise") (object end)))
    ≡ gate_hash (object (gate_of 12))
gate_hash-empty_bucket_example =
    gate_hash-empty_bucket (gate_of 12) (codes "advise") (inr refl) no_advice
