-- ===== src/Gate/Digits/Written.antt =====
-- What `write_decimal` of src/gate.rs leaves in the buffer.
use aamio_rust.Base.{
  ℕ, zero, suc, ◌+◌, ◌/◌, ◌%◌, ◌^◌, ◌≤◌, ◌<◌, ◌≡◌, refl, sym, ap, ◌∙◌, inl, inr, false, Option,
  some, [], ◌∷◌, ◌++◌, append_assoc, append-nil, arith, ◌==◌, ==_iff, Bool-cases, length, set, drop,
  length-set, drop-set_self, drop_past, Bytes,
}
use native.Mathlib.Nat.{pow-suc}
use aamio_rust.Base.Decimal.{decimal, decimal_step}
use aamio_rust.Gate.Digits.{write_from, write_decimal}

-- A result that stands at `start` in a buffer as long as `out`, with the text `t` from there on.
pub record Holds (result : Option (ℕ × Bytes)) (size : ℕ) (t : Bytes) : Type 0 where
  pub start : ℕ
  pub buffer : Bytes
  pub result_eq : result ≡ some (start, buffer)
  pub length_eq : length buffer ≡ size
  pub text_eq : drop start buffer ≡ t

decimal_front :
    (n : ℕ) (r : Bytes) → 10 ≤ n → decimal (n / 10) ++ (b'0' + n % 10) ∷ r ≡ decimal n ++ r
decimal_front n r h =
    let step : decimal n ≡ decimal (n / 10) ++ (b'0' + n % 10) ∷ [] =
      ground (arith, decimal_step n) in
    rw step (sym (append_assoc (decimal (n / 10)) ((b'0' + n % 10) ∷ []) r))

decimal_digit : (n : ℕ) → n / 10 ≡ 0 → decimal n ≡ (b'0' + n % 10) ∷ []
decimal_digit n h = ground (arith, decimal_step n)

-- A number of two digits needs two places.
room : (i n : ℕ) → n < 10 ^ suc i → 10 ≤ n → 0 < i
room zero n h k = absurd (omega arith)
room (suc i) n h k = omega arith

tenth : (n : ℕ) → (n / 10 == 0) ≡ false → 10 ≤ n
tenth n h = ground arith

write_from_lem :
    (i n : ℕ) (out : Bytes)
    → 0 < i
    → i ≤ length out
    → n < 10 ^ i
    → Holds (write_from i n out) (length out) (decimal n ++ drop i out)
unfolding write_from
write_from_lem zero n out p q r = absurd (omega arith)
write_from_lem (suc i) n out p q r = elim (Bool-cases (n / 10 == 0)) [
  | inl done ↦ rw done (record {
    start = i;
    buffer = set out i (b'0' + n % 10);
    result_eq = refl;
    length_eq = length-set out i _;
    text_eq =
        drop-set_self out i _ q
        ∙ ap (λ (s : Bytes). s ++ drop (suc i) out)
            (sym (decimal_digit n ((==_iff (n / 10) 0).0 done)));
  })
  | inr more ↦
      let out' = set out i (b'0' + n % 10) in
      let fits : i ≤ length out' = omega (arith, length-set out i (b'0' + n % 10)) in
      let below : n / 10 < 10 ^ i = omega (arith, pow-suc 10 i) in
      let ih = write_from_lem i (n / 10) out' (room i n r (tenth n more)) fits below in
      rw more (record {
        start = ih.start;
        buffer = ih.buffer;
        result_eq = ih.result_eq;
        length_eq = ih.length_eq ∙ length-set out i _;
        text_eq =
            ih.text_eq
            ∙ ap (λ (s : Bytes). decimal (n / 10) ++ s) (drop-set_self out i _ q)
            ∙ decimal_front n (drop (suc i) out) (tenth n more);
      })
]

-- For a number below 2 ^ 64 and a buffer of twenty bytes, the loop never runs below the
-- buffer, the buffer keeps its size, and from the returned index on it holds the decimal text
-- of the number.
pub write_decimal_lem :
    (n : ℕ) (out : Bytes)
    → n < 2 ^ 64
    → length out ≡ 20
    → (start : ℕ) × (buffer : Bytes) × (write_decimal n out ≡ some (start, buffer))
      × (length buffer ≡ 20)
      × (drop start buffer ≡ decimal n)
unfolding write_decimal
write_decimal_lem n out small size =
    let big : n < 10 ^ length out = rw size (omega arith) in
    let held = write_from_lem (length out) n out (omega arith) (omega arith) big in
    (
      held.start,
      held.buffer,
      held.result_eq,
      held.length_eq ∙ size,
      held.text_eq
          ∙ ap (λ (s : Bytes). decimal n ++ s) (drop_past (length out) out (omega arith))
          ∙ append-nil (decimal n),
    )
