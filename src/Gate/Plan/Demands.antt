-- ===== src/Gate/Plan/Demands.antt =====
-- When a plan of src/gate.rs stops, and how much work it takes on.
use aamio_rust.Base.{
  ℕ, ◌≤◌, ◌≡◌, refl, ◌∙◌, ◌≢◌, ◌⊎◌, ◌%◌, ◌^◌, inl, inr, Bool, true, false, not, ◌&&◌, ◌||◌, Option,
  none, some, List, [], ◌∷◌, arith, ltb, leb, if◌then◌else◌, Bool-cases, All, All-map, unwrap_or,
  Bytes, codes, same, all,
}
use aamio_rust.Extern.Json.{Json}
use aamio_rust.Extern.Floats.{Floats}
use aamio_rust.Gate.Plan.{
  Plan, default_plan, raise_bits, is_known, Round, returned, going, bits_of, expected_for,
  require_pow, require_round, require_loop, advise_round, advise_loop, bucket, weigh, plan_within,
}

module _ ⦃f : Floats⦄ where
  -- The bits that a plan works for, none being 0.
  abbrev pub work_of : Plan → ℕ
  work_of p = unwrap_or p.bits 0

module _ ⦃j : Json⦄ where
  -- The number that a condition declares in its field `bits`, 0 where it declares none.
  unfoldable pub declared_bits : j.Value → ℕ
  declared_bits condition = elim (j.as_object condition) [
    | none ↦ 0
    | some fields ↦ elim (j.get fields (codes "bits")) [
      | none ↦ 0
      | some number ↦ unwrap_or (j.as_u64 number) 0
    ]
  ]

  -- The declared bits modulo 2 ^ 32: what is left of them in 32 bits.
  unfoldable pub cut_bits : j.Value → ℕ
  cut_bits condition = declared_bits condition % 2 ^ 32

  pub bits_of-cut_bits : (condition : j.Value) → bits_of condition ≡ cut_bits condition
  unfolding bits_of cut_bits declared_bits
  bits_of-cut_bits condition = ground arith

module _ ⦃j : Json⦄ ⦃f : Floats⦄ (rate : f.F64) (seconds_left : Option f.F64) where
  -- There is time for work of so many bits, or nobody said how much time there is.
  unfoldable pub in_time : ℕ → Bool
  in_time bits = elim seconds_left [
    | none ↦ true
    | some left ↦ not (f.lt left (expected_for rate bits))
  ]

  -- A required condition that this client can meet.
  unfoldable pub can_meet : Bytes × j.Value → Bool
  can_meet (condition, value) =
      is_known condition
      && (not (same condition (codes "pow"))
          || (leb (cut_bits value) 32 && in_time (cut_bits value)))

  -- The work that a required condition asks for.
  unfoldable pub asked : Bytes × j.Value → ℕ
  asked (condition, value) = if same condition (codes "pow") then cut_bits value else 0

  -- How a round ends for one condition, and the loop for a list of them, from a plan that does not
  -- stop.
  abbrev pub Decides : List (Bytes × j.Value) → Plan → Round → Type 0
  Decides entries p (returned q) = (q.stop ≢ none) × (all can_meet entries ≡ false)
  Decides entries p (going q) =
      (q.stop ≡ none)
      × (all can_meet entries ≡ true)
      × All (λ c. asked c ≤ work_of q) entries
      × (work_of p ≤ work_of q)
      × (work_of p ≤ 32 → work_of q ≤ 32)
      × (q.notes ≡ p.notes)

  require_pow-Decides :
      (condition : Bytes) (value : j.Value) (p : Plan) (left : Option f.F64)
      → left ≡ seconds_left
      → p.stop ≡ none
      → is_known condition ≡ true
      → same condition (codes "pow") ≡ true
      → Decides ((condition, value) ∷ []) p (require_pow rate left (cut_bits value) p)
  unfolding require_pow can_meet asked in_time raise_bits all
  require_pow-Decides condition value p none given h known pow =
      elim (Bool-cases (ltb 32 (cut_bits value))) [
        | inl above ↦ rw above (ground arith, ground arith)
        | inr within ↦
            rw within
              (h, rw (← given) (ground arith), ground arith, ground arith, ground arith, refl)
      ]
  require_pow-Decides condition value p (some left) given h known pow =
      elim (Bool-cases (ltb 32 (cut_bits value))) [
        | inl above ↦ rw above (ground arith, ground arith)
        | inr within ↦ elim (Bool-cases (f.lt left (expected_for rate (cut_bits value)))) [
          | inl late ↦ rw (within, late) (ground arith, rw (← given) (ground arith))
          | inr early ↦
              rw (within, early)
                (h, rw (← given) (ground arith), ground arith, ground arith, ground arith, refl)
        ]
      ]

  require_round-Decides :
      (condition : Bytes) (value : j.Value) (p : Plan)
      → p.stop ≡ none
      → Decides ((condition, value) ∷ []) p (require_round rate seconds_left condition value p)
  unfolding require_round can_meet asked all
  require_round-Decides condition value p h = elim (Bool-cases (is_known condition)) [
    | inr unknown ↦ rw unknown (ground arith, ground arith)
    | inl known ↦ elim (Bool-cases (same condition (codes "pow"))) [
      | inl pow ↦
          rw (known, pow, bits_of-cut_bits value)
            (require_pow-Decides condition value p seconds_left refl h known pow)
      | inr other ↦ rw (known, other) (h, ground arith, ground arith, omega arith, (λ le. le), refl)
    ]
  ]

  Decides-trans :
      (c : Bytes × j.Value) (rest : List (Bytes × j.Value)) (p q : Plan) (r : Round)
      → Decides (c ∷ []) p (going q)
      → Decides rest q r
      → Decides (c ∷ rest) p r
  unfolding all
  Decides-trans c rest p q (returned t) h k = (k.0, ground arith)
  Decides-trans c rest p q (going t) h k =
      (k.0, ground arith, (omega arith, k.2), omega arith, ground arith, k.5 ∙ h.5)

  Decides-step :
      (c : Bytes × j.Value) (rest : List (Bytes × j.Value)) (p : Plan) (r : Round)
      → Decides (c ∷ []) p r
      → ((q : Plan) → q.stop ≡ none → Decides rest q (require_loop rate seconds_left rest q))
      → Decides
          (c ∷ rest)
          p
          (elim r [ returned q ↦ returned q | going q ↦ require_loop rate seconds_left rest q ])
  Decides-step c rest p (returned q) h ih = unfold all in (h.0, ground (arith, h.1))
  Decides-step c rest p (going q) h ih =
      Decides-trans c rest p q (require_loop rate seconds_left rest q) h (ih q h.0)

  pub require_loop-Decides :
      (entries : List (Bytes × j.Value)) (p : Plan)
      → p.stop ≡ none
      → Decides entries p (require_loop rate seconds_left entries p)
  unfolding require_loop
  require_loop-Decides [] p h = (h, unfold all in refl, tt, omega arith, (λ le. le), refl)
  require_loop-Decides ((condition, value) ∷ rest) p h =
      Decides-step (condition, value) rest p (require_round rate seconds_left condition value p)
        (require_round-Decides condition value p h) (λ q. require_loop-Decides rest q)

  advise_round_lem :
      (condition : Bytes) (value : j.Value) (p : Plan)
      → ((advise_round rate condition value p).stop ≡ p.stop)
        × (work_of p ≤ work_of (advise_round rate condition value p))
        × ((b : ℕ) → 18 ≤ b → work_of p ≤ b → work_of (advise_round rate condition value p) ≤ b)
  unfolding advise_round raise_bits
  advise_round_lem condition value p = (ground arith, ground arith, λ b more le. ground arith)

  advise_loop_lem :
      (entries : List (Bytes × j.Value)) (p : Plan)
      → ((advise_loop rate entries p).stop ≡ p.stop)
        × (work_of p ≤ work_of (advise_loop rate entries p))
        × ((b : ℕ) → 18 ≤ b → work_of p ≤ b → work_of (advise_loop rate entries p) ≤ b)
  unfolding advise_loop
  advise_loop_lem [] p = (refl, omega arith, λ b more le. le)
  advise_loop_lem ((condition, value) ∷ rest) p =
      let step = advise_round_lem condition value p in
      let further = advise_loop_lem rest (advise_round rate condition value p) in
      (
        further.0 ∙ step.0,
        omega (arith, step.1, further.1),
        λ b more le. further.2 b more (step.2 b more le),
      )

  -- What `weigh` makes of the end of the loop.
  weighed : List (Bytes × j.Value) → Round → Plan
  weighed advised (returned p) = p
  weighed advised (going p) = advise_loop rate advised p

  weigh_lem :
      (m : j.Map)
      → weigh rate seconds_left m
        ≡ weighed
            (bucket m (codes "advise"))
            (require_loop rate seconds_left (bucket m (codes "require")) default_plan)
  unfolding weigh weighed
  weigh_lem m = ground arith

  -- What a plan that was weighed says of the required conditions: it goes on or it stops.
  abbrev pub Weighed : List (Bytes × j.Value) → Plan → Type 0
  Weighed entries p =
      ((p.stop ≡ none)
        × (all can_meet entries ≡ true)
        × All (λ c. asked c ≤ work_of p) entries
        × (work_of p ≤ 32))
      ⊎ ((p.stop ≢ none) × (all can_meet entries ≡ false))

  asked_trans :
      (entries : List (Bytes × j.Value)) (m n : ℕ)
      → m ≤ n
      → All (λ c. asked c ≤ m) entries
      → All (λ c. asked c ≤ n) entries
  asked_trans entries m n le =
      All-map
        (λ (c : Bytes × j.Value) (h : asked c ≤ m). let more : asked c ≤ n = omega arith in more)
        entries

  weighed_lem :
      (required advised : List (Bytes × j.Value)) (r : Round)
      → Decides required default_plan r
      → Weighed required (weighed advised r)
  unfolding weighed
  weighed_lem required advised (returned p) h = inr (h.0, h.1)
  weighed_lem required advised (going p) h =
      let after = advise_loop_lem advised p in
      let small : work_of default_plan ≤ 32 = unfold default_plan in omega arith in
      inl (
        after.0 ∙ h.0,
        h.1,
        asked_trans required (work_of p) _ after.1 h.2,
        after.2 32 (omega arith) (h.4 small),
      )

  plan_within-eq-weigh :
      (gate : j.Value) (m : j.Map)
      → j.as_object gate ≡ some m
      → j.is_empty m ≡ false
      → plan_within rate (some gate) seconds_left ≡ weigh rate seconds_left m
  unfolding plan_within
  plan_within-eq-weigh gate m is_object filled = ground (arith, is_object, filled)

  -- For a gate with fields, whatever time is left or none is given, the plan is one of two; the bits
  -- that a condition asks are here those that it declares, modulo 2 ^ 32. Either it does not stop, the
  -- client can meet each required condition (it knows the name and, for work, at most 32 bits are
  -- asked and are expected to be done in the time that is left), the plan works for at least the bits
  -- that each of them asks, and for at most 32. Or it stops, and there is a required condition that
  -- the client cannot meet.
  pub plan_within-Weighed :
      (gate : j.Value) (m : j.Map)
      → j.as_object gate ≡ some m
      → j.is_empty m ≡ false
      → Weighed (bucket m (codes "require")) (plan_within rate (some gate) seconds_left)
  plan_within-Weighed gate m is_object filled =
      rw (plan_within-eq-weigh gate m is_object filled, weigh_lem m)
        (weighed_lem (bucket m (codes "require")) (bucket m (codes "advise")) _ (
          require_loop-Decides (bucket m (codes "require")) default_plan
            (unfold default_plan in refl)))
