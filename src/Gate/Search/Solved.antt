-- ===== src/Gate/Search/Solved.antt =====
-- What the callers of the search in src/gate.rs get from it.
use aamio_rust.Base.{
  ℕ, zero, suc, ◌+◌, ◌/◌, ◌%◌, ◌^◌, ◌≤◌, ◌<◌, ◌≡◌, refl, sym, ◌∙◌, ◌↔◌, ◌⊎◌, inl, inr, true, false,
  Option, none, some, List, [], ◌∷◌, ◌++◌, append_assoc, append-nil, arith, length, drop, replicate,
  length-append, ok, err, Bytes,
}
use mathlib.Core.Bool.{false≢true}
use native.Mathlib.Decide.{dec_lt}
use aamio_rust.Base.Ascii.{is_ascii_alphanumeric}
use aamio_rust.Base.Decimal.{decimal, decimal_step, decimal-IsDigit, IsDigit}
use aamio_rust.Extern.Encodings.{Encodings}
use aamio_rust.Extern.Hashing.{Hashing}
use aamio_rust.Codec.{sha256, sha256_hex}
use aamio_rust.Codec.Shape.{all_of_All}
use aamio_rust.Gate.Work.{
  pow_input, board_pow_input, pow_digest, board_pow_digest, zero_bits, is_nonce_byte, is_nonce,
}
use aamio_rust.Gate.Digits.Written.{write_decimal_lem}
use aamio_rust.Gate.Search.{
  Search, found, timed_out, panicked, running, is_past, first_nonce_until, bits_error, pow_prefix,
  board_pow_prefix, solve, solve_board, solve_until,
}
use aamio_rust.Gate.Search.Least.{reaches, NoneFrom, Ended, search_from-Ended, first_nonce-least}

pow_prefix-append :
    (w key body_sha256 nonce : Bytes)
    → pow_prefix w key body_sha256 ++ nonce ≡ pow_input w key body_sha256 nonce
unfolding pow_prefix pow_input
pow_prefix-append w key body_sha256 nonce = simp (append_assoc, append-nil)

board_pow_prefix-append :
    (key body_sha256 nonce : Bytes)
    → board_pow_prefix key body_sha256 ++ nonce ≡ board_pow_input key body_sha256 nonce
unfolding board_pow_prefix board_pow_input
board_pow_prefix-append key body_sha256 nonce = simp (append_assoc, append-nil)

length-drop-le {ℓ} : {A : Type ℓ} (n : ℕ) (s : List A) → length (drop n s) ≤ length s
length-drop-le zero s = omega arith
length-drop-le (suc n) [] = omega arith
length-drop-le (suc n) (x ∷ s) = omega (arith, length-drop-le n s)

IsDigit-is_nonce_byte : (b : ℕ) → IsDigit b → is_nonce_byte b ≡ true
unfolding is_nonce_byte is_ascii_alphanumeric
IsDigit-is_nonce_byte b h = ground arith

length-decimal_pos : (n : ℕ) → 0 < length (decimal n)
length-decimal_pos n =
    ground (arith, decimal_step n, length-append (decimal (n / 10)) ((b'0' + n % 10) ∷ []))

-- The decimal text of every `u64` is a valid X-Work value.
pub decimal-is_nonce : (n : ℕ) → n < 2 ^ 64 → is_nonce (decimal n) ≡ true
unfolding is_nonce
decimal-is_nonce n small =
    let (start, buffer, written, size, text) = write_decimal_lem n (replicate 20 0) small refl in
    let short : length (decimal n) ≤ 20 = rw (← text) (rw (← size) (length-drop-le start buffer)) in
    ground (
      arith,
      length-decimal_pos n,
      all_of_All is_nonce_byte IsDigit-is_nonce_byte (decimal n) (decimal-IsDigit n),
    )

module _ ⦃h : Hashing⦄ where
  -- The work of `nonce` for one message reaches the bits.
  abbrev pub Works : Bytes → Bytes → Bytes → ℕ → Bytes → Type 0
  Works w key body_sha256 bits nonce = bits ≤ zero_bits (pow_digest w key body_sha256 nonce)

  abbrev pub BoardWorks : Bytes → Bytes → ℕ → Bytes → Type 0
  BoardWorks key body_sha256 bits nonce = bits ≤ zero_bits (board_pow_digest key body_sha256 nonce)

  reaches_iff :
      (w key body_sha256 : Bytes) (bits n : ℕ)
      → (reaches (pow_prefix w key body_sha256) bits n ≡ true)
        ↔ Works w key body_sha256 bits (decimal n)
  unfolding reaches pow_digest sha256
  reaches_iff w key body_sha256 bits n =
      rw (pow_prefix-append w key body_sha256 (decimal n)) (ground arith)

  pub board_reaches_iff :
      (key body_sha256 : Bytes) (bits n : ℕ)
      → (reaches (board_pow_prefix key body_sha256) bits n ≡ true)
        ↔ BoardWorks key body_sha256 bits (decimal n)
  unfolding reaches board_pow_digest sha256
  board_reaches_iff key body_sha256 bits n =
      rw (board_pow_prefix-append key body_sha256 (decimal n)) (ground arith)

module _ ⦃e : Encodings⦄ ⦃h : Hashing⦄ where
  -- For at most 32 bits, fuel for fewer than 2 ^ 64 candidates and a candidate within the
  -- fuel whose digest reaches the bits: `solve` returns the decimal text of a candidate that
  -- reaches them, this text is a valid X-Work value, and no smaller candidate reaches them.
  pub solve_lem :
      (fuel : ℕ) (w key body : Bytes) (bits m : ℕ)
      → bits ≤ 32
      → m < fuel
      → fuel < 2 ^ 64
      → Works w key (sha256_hex body) bits (decimal m)
      → (n : ℕ) × (solve fuel w key body bits ≡ ok (found (decimal n)))
        × Works w key (sha256_hex body) bits (decimal n)
        × (is_nonce (decimal n) ≡ true)
        × ((k : ℕ) → k < n → ¬ Works w key (sha256_hex body) bits (decimal k))
  unfolding solve
  solve_lem fuel w key body bits m within below small works =
      let hash = sha256_hex body in
      let (n, result, le, good, least) =
        first_nonce-least (pow_prefix w key hash) bits fuel m below small
          ((reaches_iff w key hash bits m).1 works) in
      (
        n,
        ground (arith, result),
        (reaches_iff w key hash bits n).0 good,
        decimal-is_nonce n (omega arith),
        λ k lt work.
            false≢true (sym (least k (omega arith) lt) ∙ (reaches_iff w key hash bits k).1 work),
      )

  -- For at most 32 bits, fuel for fewer than 2 ^ 64 candidates and a candidate within the
  -- fuel whose board digest reaches the bits: `solve_board` returns the decimal text of a
  -- candidate that reaches them, this text is a valid X-Work value, and no smaller candidate
  -- reaches them.
  pub solve_board_lem :
      (fuel : ℕ) (key body : Bytes) (bits m : ℕ)
      → bits ≤ 32
      → m < fuel
      → fuel < 2 ^ 64
      → BoardWorks key (sha256_hex body) bits (decimal m)
      → (n : ℕ) × (solve_board fuel key body bits ≡ ok (found (decimal n)))
        × BoardWorks key (sha256_hex body) bits (decimal n)
        × (is_nonce (decimal n) ≡ true)
        × ((k : ℕ) → k < n → ¬ BoardWorks key (sha256_hex body) bits (decimal k))
  unfolding solve_board
  solve_board_lem fuel key body bits m within below small works =
      let hash = sha256_hex body in
      let (n, result, le, good, least) =
        first_nonce-least (board_pow_prefix key hash) bits fuel m below small
          ((board_reaches_iff key hash bits m).1 works) in
      (
        n,
        ground (arith, result),
        (board_reaches_iff key hash bits n).0 good,
        decimal-is_nonce n (omega arith),
        λ k lt work.
            false≢true
              (sym (least k (omega arith) lt) ∙ (board_reaches_iff key hash bits k).1 work),
      )

  -- The clock is read once every 65536 candidates, and only under a deadline; after `n` of them it is
  -- read, and shows a time after the deadline.
  abbrev pub PastAt : Option ℕ → (ℕ → ℕ) → ℕ → Type 0
  PastAt none clock n = ⊥
  PastAt (some deadline) clock n = (n % 65536 ≡ 0) × (deadline < clock n)

  is_past_iff :
      (deadline : Option ℕ) (clock : ℕ → ℕ) (n : ℕ)
      → (is_past deadline clock n ≡ true) ↔ PastAt deadline clock n
  unfolding is_past
  is_past_iff none clock n = (λ h. absurd (false≢true h), λ h. absurd h)
  is_past_iff (some deadline) clock n = ground arith

  in_time_lem :
      (deadline : Option ℕ) (clock : ℕ → ℕ) (n : ℕ)
      → is_past deadline clock n ≡ false
      → ¬ PastAt deadline clock n
  in_time_lem deadline clock n early past =
      false≢true (sym early ∙ (is_past_iff deadline clock n).1 past)

  -- Of the candidates below `n` none does the work.
  abbrev pub NoneBelow : Bytes → Bytes → Bytes → ℕ → ℕ → Type 0
  NoneBelow w key body bits n = (k : ℕ) → k < n → ¬ Works w key (sha256_hex body) bits (decimal k)

  -- After none of the first `n` candidates the clock was past the deadline.
  abbrev pub NeverPast : Option ℕ → (ℕ → ℕ) → ℕ → Type 0
  NeverPast deadline clock n = (k : ℕ) → 0 < k → k ≤ n → ¬ PastAt deadline clock k

  -- What `solve_until` may answer for `fuel` candidates, and what each answer says.
  abbrev pub Answers : ℕ → Bytes → Bytes → Bytes → ℕ → Option ℕ → (ℕ → ℕ) → Search → Type 0
  Answers fuel w key body bits deadline clock (found t) =
      Works w key (sha256_hex body) bits t
      × (is_nonce t ≡ true)
      × ((n : ℕ) × (t ≡ decimal n)
          × (n < fuel)
          × NoneBelow w key body bits n
          × NeverPast deadline clock n)
  Answers fuel w key body bits deadline clock timed_out =
      (n : ℕ) × (n < fuel)
      × PastAt deadline clock (n + 1)
      × NoneBelow w key body bits (n + 1)
      × NeverPast deadline clock n
  Answers fuel w key body bits deadline clock panicked = ⊥
  Answers fuel w key body bits deadline clock running =
      NoneBelow w key body bits fuel × NeverPast deadline clock fuel

  fails_below :
      (w key body : Bytes) (bits n : ℕ)
      → NoneFrom (pow_prefix w key (sha256_hex body)) bits 0 n
      → NoneBelow w key body bits n
  fails_below w key body bits n least k below work =
      false≢true
        (sym (least k (omega arith) below) ∙ (reaches_iff w key (sha256_hex body) bits k).1 work)

  Answers-Ended :
      (fuel : ℕ) (w key body : Bytes) (bits : ℕ) (deadline : Option ℕ) (clock : ℕ → ℕ) (s : Search)
      → fuel < 2 ^ 64
      → Ended (pow_prefix w key (sha256_hex body)) bits deadline clock fuel 0 s
      → Answers fuel w key body bits deadline clock s
  Answers-Ended fuel w key body bits deadline clock (found t) small
        (m, text, le, lt, good, least, time) =
      rw text (
        (reaches_iff w key (sha256_hex body) bits m).0 good,
        decimal-is_nonce m (omega arith),
        (
          m,
          refl,
          omega arith,
          fails_below w key body bits m least,
          λ k lt le. in_time_lem deadline clock k (time k lt le),
        ),
      )
  Answers-Ended fuel w key body bits deadline clock timed_out small (m, le, lt, past, least, time) =
      (
        m,
        omega arith,
        (is_past_iff deadline clock (m + 1)).0 past,
        fails_below w key body bits (m + 1) least,
        λ k lt le. in_time_lem deadline clock k (time k lt le),
      )
  Answers-Ended fuel w key body bits deadline clock panicked small h = h
  Answers-Ended fuel w key body bits deadline clock running small (least, time) = (
    λ k below. fails_below w key body bits (0 + fuel) least k (omega arith),
    λ k lt le. in_time_lem deadline clock k (time k lt (omega arith)),
  )

  -- With fuel for fewer than 2 ^ 64 candidates, more than 32 bits are refused. Otherwise the
  -- search never panics; a text that it returns is the decimal text of the least candidate whose
  -- digest reaches the bits, and a valid X-Work value, and the clock was past the deadline at no
  -- reading before that candidate was tried; it gives up at the first reading at which the clock is
  -- past the deadline, with no candidate before that reaching the bits; and the fuel runs out only
  -- where no candidate within it reaches them and no reading within it is past the deadline. The
  -- clock is read after every 65536 candidates, and only under a deadline.
  pub solve_until_lem :
      (fuel : ℕ) (w key body : Bytes) (bits : ℕ) (deadline : Option ℕ) (clock : ℕ → ℕ)
      → fuel < 2 ^ 64
      → ((32 < bits) × (solve_until fuel w key body bits deadline clock ≡ err bits_error))
        ⊎ ((bits ≤ 32)
            × (s : Search) × (solve_until fuel w key body bits deadline clock ≡ ok s)
            × Answers fuel w key body bits deadline clock s)
  unfolding solve_until first_nonce_until
  solve_until_lem fuel w key body bits deadline clock small = elim (dec_lt 32 bits) [
    | yes above ↦ inl (above, ground arith)
    | no within ↦
        let ended =
          search_from-Ended (pow_prefix w key (sha256_hex body)) bits deadline clock fuel 0
            (replicate 20 0) (omega arith) refl in
        inr (
          omega arith,
          _,
          ground arith,
          Answers-Ended fuel w key body bits deadline clock _ small ended,
        )
  ]
