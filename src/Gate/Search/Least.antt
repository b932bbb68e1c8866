-- ===== src/Gate/Search/Least.antt =====
-- The search of src/gate.rs ends at the first candidate that reaches the bits.
use aamio_rust.Base.{
  ℕ, zero, suc, ◌+◌, ◌%◌, ◌^◌, ◌≤◌, ◌<◌, ◌≡◌, refl, sym, ap, ◌∙◌, Bool, true, false, Option, none,
  some, ◌++◌, arith, leb, if◌then◌else◌, length, drop, replicate, Bytes,
}
use mathlib.Core.Bool.{false≢true}
use native.Mathlib.Decide.{dec_lt}
use aamio_rust.Base.Decimal.{decimal}
use aamio_rust.Extern.Hashing.{Hashing}
use aamio_rust.Gate.Work.{zero_bits}
use aamio_rust.Gate.Digits.{write_decimal}
use aamio_rust.Gate.Digits.Written.{write_decimal_lem}
use aamio_rust.Gate.Search.{
  Search, found, timed_out, panicked, running, is_past, search_from, first_nonce_until, first_nonce,
}

module _ ⦃h : Hashing⦄ (prefix : Bytes) (bits : ℕ) where
  -- The digest of the whole text, hashed at once, reaches the bits.
  unfoldable pub reaches : ℕ → Bool
  reaches n = leb bits (zero_bits (h.digest (prefix ++ decimal n)))

  -- No candidate from `n` to before `m` reaches the bits.
  abbrev pub NoneFrom : ℕ → ℕ → Type 0
  NoneFrom n m = (k : ℕ) → n ≤ k → k < m → reaches k ≡ false

  module _ (deadline : Option ℕ) (clock : ℕ → ℕ) where
    search_round :
        (fuel n start : ℕ) (digits digits' : Bytes)
        → write_decimal n digits ≡ some (start, digits')
        → search_from (suc fuel) (h.new_with_prefix prefix) bits deadline clock n digits ≡ (
            if leb bits
              (zero_bits (h.finalize (h.update (h.new_with_prefix prefix) (drop start digits'))))
            then found (drop start digits')
            else if is_past deadline clock ((n + 1) % 2 ^ 64)
            then timed_out
            else search_from fuel
                (h.new_with_prefix prefix)
                bits
                deadline
                clock
                ((n + 1) % 2 ^ 64)
                digits')
    unfolding search_from
    search_round fuel n start digits digits' e = rw (e, search_from) refl

    -- What one round does at candidate `n`, with a buffer of twenty places.
    search_step :
        (fuel n : ℕ) (digits : Bytes)
        → n + 1 < 2 ^ 64
        → length digits ≡ 20
        → (digits' : Bytes) × (length digits' ≡ 20)
          × (search_from (suc fuel) (h.new_with_prefix prefix) bits deadline clock n digits ≡ (
              if reaches n
              then found (decimal n)
              else if is_past deadline clock (n + 1)
              then timed_out
              else search_from fuel (h.new_with_prefix prefix) bits deadline clock (n + 1) digits'))
    unfolding reaches
    search_step fuel n digits small size =
        let (start, digits', written, size', text) =
          write_decimal_lem n digits (omega arith) size in
        let wrap : (n + 1) % 2 ^ 64 ≡ n + 1 = omega arith in
        let hashed = h.finalize-update prefix (decimal n) in
        (
          digits',
          size',
          rw (wrap, text, hashed) at (search_round fuel n start digits digits' written),
        )

    -- At no count of candidates after `n` and up to `m` the clock was past the deadline.
    abbrev pub InTime : ℕ → ℕ → Type 0
    InTime n m = (k : ℕ) → n < k → k ≤ m → is_past deadline clock k ≡ false

    -- How a search that begins at candidate `n` has ended.
    abbrev pub Ended : ℕ → ℕ → Search → Type 0
    Ended fuel n (found t) =
        (m : ℕ) × (t ≡ decimal m)
        × (n ≤ m)
        × (m < n + fuel)
        × (reaches m ≡ true)
        × NoneFrom n m
        × InTime n m
    Ended fuel n timed_out =
        (m : ℕ) × (n ≤ m)
        × (m < n + fuel)
        × (is_past deadline clock (m + 1) ≡ true)
        × NoneFrom n (m + 1)
        × InTime n m
    Ended fuel n panicked = ⊥
    Ended fuel n running = NoneFrom n (n + fuel) × InTime n (n + fuel)

    NoneFrom-step : (n m : ℕ) → reaches n ≡ false → NoneFrom (n + 1) m → NoneFrom n m
    NoneFrom-step n m failed rest k le lt = elim (dec_lt n k) [
      | yes more ↦ rest k (omega arith) lt
      | no not_more ↦ let eq : k ≡ n = omega arith in rw eq failed
    ]

    InTime-step : (n m : ℕ) → is_past deadline clock (n + 1) ≡ false → InTime (n + 1) m → InTime n m
    InTime-step n m early rest k lt le = elim (dec_lt (n + 1) k) [
      | yes more ↦ rest k more le
      | no not_more ↦ let eq : k ≡ n + 1 = omega arith in rw eq early
    ]

    InTime-here : (n : ℕ) → InTime n n
    InTime-here n k lt le = absurd (omega arith)

    Ended-step :
        (fuel n : ℕ) (s : Search)
        → reaches n ≡ false
        → is_past deadline clock (n + 1) ≡ false
        → Ended fuel (n + 1) s
        → Ended (suc fuel) n s
    Ended-step fuel n (found t) failed early (m, text, le, lt, yes_m, rest, time) = (
      m,
      text,
      omega arith,
      omega arith,
      yes_m,
      NoneFrom-step n m failed rest,
      InTime-step n m early time,
    )
    Ended-step fuel n timed_out failed early (m, lt, le, past, rest, time) = (
      m,
      omega arith,
      omega arith,
      past,
      NoneFrom-step n (m + 1) failed rest,
      InTime-step n m early time,
    )
    Ended-step fuel n panicked failed early h = h
    Ended-step fuel n running failed early (rest, time) = (
      NoneFrom-step n (n + suc fuel) failed (λ k le lt. rest k le (omega arith)),
      InTime-step n (n + suc fuel) early (λ k lt le. time k lt (omega arith)),
    )

    Ended-choice :
        (fuel n : ℕ) (rest : Search) (good past : Bool)
        → reaches n ≡ good
        → is_past deadline clock (n + 1) ≡ past
        → Ended fuel (n + 1) rest
        → Ended (suc fuel) n (if good then found (decimal n) else if past then timed_out else rest)
    Ended-choice fuel n rest true past reached time ended = (
      n,
      refl,
      omega arith,
      omega arith,
      reached,
      (λ k le lt. absurd (omega arith)),
      InTime-here n,
    )
    Ended-choice fuel n rest false true failed time ended = (
      n,
      omega arith,
      omega arith,
      time,
      NoneFrom-step n (n + 1) failed (λ k le lt. absurd (omega arith)),
      InTime-here n,
    )
    Ended-choice fuel n rest false false failed time ended =
        Ended-step fuel n rest failed time ended

    pub search_from-Ended :
        (fuel n : ℕ) (digits : Bytes)
        → n + fuel < 2 ^ 64
        → length digits ≡ 20
        → Ended fuel n (search_from fuel (h.new_with_prefix prefix) bits deadline clock n digits)
    search_from-Ended zero n digits small size =
        unfold search_from in ((λ k le lt. absurd (omega arith)), (λ k lt le. absurd (omega arith)))
    search_from-Ended (suc fuel) n digits small size =
        let (digits', size', step) = search_step fuel n digits (omega arith) size in
        rw step (
          Ended-choice fuel n _ (reaches n) (is_past deadline clock (n + 1)) refl refl
            (search_from-Ended fuel (n + 1) digits' (omega arith) size'))

  -- Where a candidate below the fuel reaches the bits, an ended search without a deadline has found
  -- the least one.
  least_of_Ended :
      (fuel m : ℕ) (s : Search)
      → m < fuel
      → reaches m ≡ true
      → Ended none (λ k. 0) fuel 0 s
      → (n : ℕ) × (s ≡ found (decimal n)) × (n ≤ m) × (reaches n ≡ true) × NoneFrom 0 n
  unfolding is_past
  least_of_Ended fuel m (found t) below reached (n, text, le, lt, good, least, time) = (
    n,
    ap found text,
    elim (dec_lt m n) [
      | yes before ↦ absurd (false≢true (sym (least m (omega arith) before) ∙ reached))
      | no not_before ↦ omega arith
    ],
    good,
    least,
  )
  least_of_Ended fuel m timed_out below reached (n, lt, le, past, least, time) =
      absurd (false≢true past)
  least_of_Ended fuel m panicked below reached h = absurd h
  least_of_Ended fuel m running below reached (least, time) =
      absurd (false≢true (sym (least m (omega arith) (omega arith)) ∙ reached))

  -- Without a deadline the search stops only at a nonce: where some candidate below the fuel reaches
  -- the bits, it returns the decimal text of the least one.
  pub first_nonce-least :
      (fuel m : ℕ)
      → m < fuel
      → fuel < 2 ^ 64
      → reaches m ≡ true
      → (n : ℕ) × (first_nonce fuel prefix bits ≡ found (decimal n))
        × (n ≤ m)
        × (reaches n ≡ true)
        × NoneFrom 0 n
  unfolding first_nonce first_nonce_until
  first_nonce-least fuel m below small reached =
      let ended = search_from-Ended none (λ k. 0) fuel 0 (replicate 20 0) (omega arith) refl in
      let (n, result, le, good, least) = least_of_Ended fuel m _ below reached ended in
      (n, rw (result, first_nonce) refl, le, good, least)
