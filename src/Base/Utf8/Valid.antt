-- ===== src/Base/Utf8/Valid.antt =====
-- The encoding UTF-8 of a text, and that reading it with `String::from_utf8_lossy` changes nothing.
use aamio_rust.Base.{
  ℕ, ◌+◌, ◌/◌, ◌%◌, ◌<◌, ◌≤◌, ◌≡◌, refl, ap, ◌∙◌, ◌⊎◌, inl, inr, ◌∷◌, ◌++◌, [], List, All,
  All-append, ltb, ◌==◌, if◌then◌else◌, Bytes, arith, tests, Bool-cases,
}
use aamio_rust.Base.Utf8.{nothing_held, start, next, step, lossy_from, from_utf8_lossy}

-- A Unicode scalar value: a code point that is no surrogate.
abbrev pub IsScalar : ℕ → Type 0
IsScalar n = (n < 55296) ⊎ ((57344 ≤ n) × (n < 1114112))

-- The bytes of a scalar value in UTF-8.
unfoldable pub encode_scalar : ℕ → Bytes
encode_scalar n =
    if ltb n 128
    then n ∷ []
    else if ltb n 2048
    then (192 + n / 64) ∷ (128 + n % 64) ∷ []
    else if ltb n 65536
    then (224 + n / 4096) ∷ (128 + (n / 64) % 64) ∷ (128 + n % 64) ∷ []
    else (240 + n / 262144) ∷ (128 + (n / 4096) % 64) ∷ (128 + (n / 64) % 64) ∷ (128 + n % 64) ∷ []

-- The bytes of a text.
unfoldable pub utf8 : List ℕ → Bytes
unfolding encode_scalar
utf8 [] = []
utf8 (n ∷ ns) = encode_scalar n ++ utf8 ns

-- The first byte of a character of so many more bytes, the next one between two bounds.
abbrev Leads : ℕ → ℕ → ℕ → ℕ → Type 0
Leads b lacking low high =
    start b ≡ ([], record { lacking = lacking; low = low; high = high; held = b ∷ [] })

lossy_from-one :
    (b : ℕ) (s : Bytes) → b < 128 → lossy_from nothing_held (b ∷ s) ≡ b ∷ lossy_from nothing_held s
unfolding lossy_from step start
lossy_from-one b s low = ground arith

-- A byte within the bounds is held.
step-more :
    (lacking low high b : ℕ) (held s : Bytes)
    → low ≤ b
    → b ≤ high
    → lossy_from (record { lacking = 2 + lacking; low = low; high = high; held = held }) (b ∷ s)
      ≡ lossy_from
          (record { lacking = 1 + lacking; low = 128; high = 191; held = held ++ b ∷ [] })
          s
unfolding lossy_from step next
step-more lacking low high b held s above below = ground arith

-- The last byte of a character ends it.
step-last :
    (low high b : ℕ) (held s : Bytes)
    → low ≤ b
    → b ≤ high
    → lossy_from (record { lacking = 1; low = low; high = high; held = held }) (b ∷ s)
      ≡ (held ++ b ∷ []) ++ lossy_from nothing_held s
unfolding lossy_from step next
step-last low high b held s above below = ground arith

step-first :
    (b lacking low high : ℕ) (s : Bytes)
    → Leads b lacking low high
    → lossy_from nothing_held (b ∷ s)
      ≡ lossy_from (record { lacking = lacking; low = low; high = high; held = b ∷ [] }) s
unfolding lossy_from step
step-first b lacking low high s leads = rw leads refl

Leads-two : (b : ℕ) → 194 ≤ b → b < 224 → Leads b 1 128 191
unfolding start
Leads-two b above below = ground arith

-- The bounds for the second byte of a character of three bytes.
Leads-three :
    (b c : ℕ)
    → 224 ≤ b
    → b < 240
    → 128 ≤ c
    → c ≤ 191
    → ((b ≡ 224) → 160 ≤ c)
    → ((b ≡ 237) → c ≤ 159)
    → (low : ℕ) × (high : ℕ) × Leads b 2 low high × (low ≤ c) × (c ≤ high)
unfolding start
Leads-three b c above below after before no_overlong no_surrogate = elim (Bool-cases (b == 224)) [
  | inl first ↦ (160, 191, ground (arith, first), no_overlong (ground (arith, first)), before)
  | inr not_first ↦ elim (Bool-cases (b == 237)) [
    | inl surrogates ↦
        (128, 159, ground (arith, surrogates), after, no_surrogate (ground (arith, surrogates)))
    | inr other ↦ (128, 191, ground (arith, not_first, other), after, before)
  ]
]

-- The bounds for the second byte of a character of four bytes.
Leads-four :
    (b c : ℕ)
    → 240 ≤ b
    → b ≤ 244
    → 128 ≤ c
    → c ≤ 191
    → ((b ≡ 240) → 144 ≤ c)
    → ((b ≡ 244) → c ≤ 143)
    → (low : ℕ) × (high : ℕ) × Leads b 3 low high × (low ≤ c) × (c ≤ high)
unfolding start
Leads-four b c above below after before no_overlong no_excess = elim (Bool-cases (b == 240)) [
  | inl first ↦ (144, 191, ground (arith, first), no_overlong (ground (arith, first)), before)
  | inr not_first ↦ elim (Bool-cases (b == 244)) [
    | inl last ↦ (128, 143, ground (arith, last), after, no_excess (ground (arith, last)))
    | inr other ↦ (128, 191, ground (arith, not_first, other), after, before)
  ]
]

lossy_from-two :
    (b c : ℕ) (s : Bytes)
    → 194 ≤ b
    → b < 224
    → 128 ≤ c
    → c ≤ 191
    → lossy_from nothing_held (b ∷ c ∷ s) ≡ b ∷ c ∷ lossy_from nothing_held s
lossy_from-two b c s above below after before =
    step-first b 1 128 191 (c ∷ s) (Leads-two b above below)
    ∙ step-last 128 191 c (b ∷ []) s after before

lossy_from-three :
    (b c d : ℕ) (s : Bytes)
    → 224 ≤ b
    → b < 240
    → 128 ≤ c
    → c ≤ 191
    → ((b ≡ 224) → 160 ≤ c)
    → ((b ≡ 237) → c ≤ 159)
    → 128 ≤ d
    → d ≤ 191
    → lossy_from nothing_held (b ∷ c ∷ d ∷ s) ≡ b ∷ c ∷ d ∷ lossy_from nothing_held s
lossy_from-three b c d s above below after before no_overlong no_surrogate after' before' =
    let (low, high, leads, fits, fits') =
      Leads-three b c above below after before no_overlong no_surrogate in
    step-first b 2 low high (c ∷ d ∷ s) leads
    ∙ step-more 0 low high c (b ∷ []) (d ∷ s) fits fits'
    ∙ step-last 128 191 d (b ∷ c ∷ []) s after' before'

lossy_from-four :
    (b c d e : ℕ) (s : Bytes)
    → 240 ≤ b
    → b ≤ 244
    → 128 ≤ c
    → c ≤ 191
    → ((b ≡ 240) → 144 ≤ c)
    → ((b ≡ 244) → c ≤ 143)
    → 128 ≤ d
    → d ≤ 191
    → 128 ≤ e
    → e ≤ 191
    → lossy_from nothing_held (b ∷ c ∷ d ∷ e ∷ s) ≡ b ∷ c ∷ d ∷ e ∷ lossy_from nothing_held s
lossy_from-four b c d e s above below after before no_overlong no_excess after' before' after''
      before'' =
    let (low, high, leads, fits, fits') =
      Leads-four b c above below after before no_overlong no_excess in
    step-first b 3 low high (c ∷ d ∷ e ∷ s) leads
    ∙ step-more 1 low high c (b ∷ []) (d ∷ e ∷ s) fits fits'
    ∙ step-more 0 128 191 d (b ∷ c ∷ []) (e ∷ s) after' before'
    ∙ step-last 128 191 e (b ∷ c ∷ d ∷ []) s after'' before''

lossy_from-encode_scalar :
    (n : ℕ) (s : Bytes)
    → IsScalar n
    → lossy_from nothing_held (encode_scalar n ++ s) ≡ encode_scalar n ++ lossy_from nothing_held s
unfolding encode_scalar
lossy_from-encode_scalar n s scalar = elim (Bool-cases (ltb n 128)) [
  | inl one ↦ rw one (lossy_from-one n s (omega (tests, one)))
  | inr more ↦ elim (Bool-cases (ltb n 2048)) [
    | inl two ↦
        rw (more, two)
          (lossy_from-two (192 + n / 64) (128 + n % 64) s (omega (tests, more)) (omega (tests, two))
            (omega arith) (omega arith))
    | inr more' ↦ elim (Bool-cases (ltb n 65536)) [
      | inl three ↦
          rw (more, more', three)
            (lossy_from-three (224 + n / 4096) (128 + (n / 64) % 64) (128 + n % 64) s (omega arith)
              (omega (tests, three)) (omega arith) (omega arith)
              (λ first. omega (tests, more', first)) (λ last. omega (tests, last, scalar))
              (omega arith) (omega arith))
      | inr four ↦
          rw (more, more', four)
            (lossy_from-four (240 + n / 262144) (128 + (n / 4096) % 64) (128 + (n / 64) % 64)
              (128 + n % 64) s (omega arith) (omega (tests, scalar)) (omega arith) (omega arith)
              (λ first. omega (tests, four, first)) (λ last. omega (tests, last, scalar))
              (omega arith) (omega arith) (omega arith) (omega arith))
    ]
  ]
]

-- A text in UTF-8 is read as it is.
pub from_utf8_lossy-utf8 : (ns : List ℕ) → All IsScalar ns → from_utf8_lossy (utf8 ns) ≡ utf8 ns
unfolding from_utf8_lossy utf8
from_utf8_lossy-utf8 [] scalars = unfold lossy_from in refl
from_utf8_lossy-utf8 (n ∷ ns) scalars =
    lossy_from-encode_scalar n (utf8 ns) scalars.0
    ∙ ap (λ s. encode_scalar n ++ s) (from_utf8_lossy-utf8 ns scalars.1)

encode_scalar-IsByte : (n : ℕ) → IsScalar n → All (λ b. b < 256) (encode_scalar n)
unfolding encode_scalar
encode_scalar-IsByte n scalar = elim (Bool-cases (ltb n 128)) [
  | inl one ↦ rw one (omega (tests, one), tt)
  | inr more ↦ elim (Bool-cases (ltb n 2048)) [
    | inl two ↦ rw (more, two) (omega (tests, two), (omega arith, tt))
    | inr more' ↦ elim (Bool-cases (ltb n 65536)) [
      | inl three ↦ rw (more, more', three) (omega (tests, three), (omega arith, (omega arith, tt)))
      | inr four ↦
          rw (more, more', four)
            (omega (tests, scalar), (omega arith, (omega arith, (omega arith, tt))))
    ]
  ]
]

pub utf8-IsByte : (ns : List ℕ) → All IsScalar ns → All (λ b. b < 256) (utf8 ns)
unfolding utf8
utf8-IsByte [] scalars = tt
utf8-IsByte (n ∷ ns) scalars =
    All-append (λ b. b < 256) (encode_scalar n) (utf8 ns) (encode_scalar-IsByte n scalars.0)
      (utf8-IsByte ns scalars.1)
